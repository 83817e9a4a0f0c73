-- ===== src/Collect/Network.antt =====
-- metrics/collector.go: `NetworkCollector`.
use Prim.Native.String.{String}
use text.Mathlib.Text.{◌==◌}
use chanjet.Common.{
  ℕ, ◌+◌, ◌%◌, ◌^◌, ◌≡◌, refl, ap, ◌∙◌, List, [], ◌∷◌, Option, none, some, if◌then◌else◌, arith,
}
use chanjet.Common.Keyed.{value_at, assign, value_at-assign}

pub record InterfaceStats : Type 0 where
  pub bytes_sent : ℕ
  pub bytes_recv : ℕ
  pub packets_sent : ℕ
  pub packets_recv : ℕ

-- `net.IOCountersStat`: the counters of an interface by its name.
abbrev pub Counter : Type 0
Counter = String × InterfaceStats

-- Without `Connections` and `IOCounters`, in which `Collect` passes on what gopsutil answered.
pub record NetworkStates : Type 0 where
  pub total_bytes_sent : ℕ
  pub total_bytes_recv : ℕ
  pub total_packets_sent : ℕ
  pub total_packets_recv : ℕ
  pub interface_stats : List (String × InterfaceStats)

-- An addition of uint64.
abbrev pub plus64 : ℕ → ℕ → ℕ
plus64 a b = (a + b) % 2 ^ 64

-- The loop over the counters.
unfoldable pub count_interfaces : List Counter → NetworkStates → NetworkStates
count_interfaces [] n = n
count_interfaces ((name, c) ∷ cs) n = count_interfaces cs (record {
  total_bytes_sent = plus64 n.total_bytes_sent c.bytes_sent;
  total_bytes_recv = plus64 n.total_bytes_recv c.bytes_recv;
  total_packets_sent = plus64 n.total_packets_sent c.packets_sent;
  total_packets_recv = plus64 n.total_packets_recv c.packets_recv;
  interface_stats = assign n.interface_stats name c;
})

-- `Collect`, without the connections and counters that it passes on; an error of `net.IOCounters` leaves no
-- counters.
unfoldable pub collect_network : List Counter → NetworkStates
unfolding count_interfaces
collect_network counters = count_interfaces counters (record {
  total_bytes_sent = 0;
  total_bytes_recv = 0;
  total_packets_sent = 0;
  total_packets_recv = 0;
  interface_stats = [];
})

-- The sum of a field.
unfoldable pub sum_of : (InterfaceStats → ℕ) → List Counter → ℕ
sum_of g [] = 0
sum_of g ((name, c) ∷ cs) = g c + sum_of g cs

-- The last counters of a name, and else `before`.
unfoldable pub last_named : String → List Counter → Option InterfaceStats → Option InterfaceStats
last_named name [] before = before
last_named name ((n, c) ∷ cs) before = last_named name cs (if n == name then some c else before)

-- The four totals are the sums of the counters modulo 2^64, and a name has its last counters.
pub record Summed (cs : List Counter) (before after : NetworkStates) : Type 0 where
  pub bytes_sent :
      after.total_bytes_sent % 2 ^ 64
      ≡ (before.total_bytes_sent + sum_of (λ c. c.bytes_sent) cs) % 2 ^ 64
  pub bytes_recv :
      after.total_bytes_recv % 2 ^ 64
      ≡ (before.total_bytes_recv + sum_of (λ c. c.bytes_recv) cs) % 2 ^ 64
  pub packets_sent :
      after.total_packets_sent % 2 ^ 64
      ≡ (before.total_packets_sent + sum_of (λ c. c.packets_sent) cs) % 2 ^ 64
  pub packets_recv :
      after.total_packets_recv % 2 ^ 64
      ≡ (before.total_packets_recv + sum_of (λ c. c.packets_recv) cs) % 2 ^ 64
  pub named :
      (name : String)
      → value_at after.interface_stats name
        ≡ last_named name cs (value_at before.interface_stats name)

count_lem : (cs : List Counter) (n : NetworkStates) → Summed cs n (count_interfaces cs n)
unfolding count_interfaces sum_of last_named
count_lem [] n = record {
  bytes_sent = omega arith;
  bytes_recv = omega arith;
  packets_sent = omega arith;
  packets_recv = omega arith;
  named = λ name. refl;
}
count_lem ((k, c) ∷ cs) n =
    let n' : NetworkStates = record {
      total_bytes_sent = plus64 n.total_bytes_sent c.bytes_sent;
      total_bytes_recv = plus64 n.total_bytes_recv c.bytes_recv;
      total_packets_sent = plus64 n.total_packets_sent c.packets_sent;
      total_packets_recv = plus64 n.total_packets_recv c.packets_recv;
      interface_stats = assign n.interface_stats k c;
    } in
    let rest = count_lem cs n' in
    record {
      bytes_sent = omega (arith, rest.bytes_sent);
      bytes_recv = omega (arith, rest.bytes_recv);
      packets_sent = omega (arith, rest.packets_sent);
      packets_recv = omega (arith, rest.packets_recv);
      named = λ name.
          rest.named name ∙ ap (last_named name cs) (value_at-assign n.interface_stats k name c);
    }

-- The totals of a collection are the sums over all counters modulo 2^64, and an interface has the
-- statistics of its last counters, and none if it has no counters.
pub collect_network_lem :
    (cs : List Counter)
    → let n = collect_network cs in
      (n.total_bytes_sent % 2 ^ 64 ≡ sum_of (λ c. c.bytes_sent) cs % 2 ^ 64)
      × (n.total_bytes_recv % 2 ^ 64 ≡ sum_of (λ c. c.bytes_recv) cs % 2 ^ 64)
      × (n.total_packets_sent % 2 ^ 64 ≡ sum_of (λ c. c.packets_sent) cs % 2 ^ 64)
      × (n.total_packets_recv % 2 ^ 64 ≡ sum_of (λ c. c.packets_recv) cs % 2 ^ 64)
      × ((name : String) → value_at n.interface_stats name ≡ last_named name cs none)
unfolding collect_network value_at
collect_network_lem cs =
    let s = count_lem cs (record {
      total_bytes_sent = 0;
      total_bytes_recv = 0;
      total_packets_sent = 0;
      total_packets_recv = 0;
      interface_stats = [];
    }) in
    (
      omega (arith, s.bytes_sent),
      omega (arith, s.bytes_recv),
      omega (arith, s.packets_sent),
      omega (arith, s.packets_recv),
      s.named,
    )
