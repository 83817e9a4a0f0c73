-- ===== src/Waiters.antt =====
-- core/waiters.go: the readers that wait for data. Each call holds the lock throughout, so it is one
-- step. What the code leaves open is an argument: the object that `sync.Pool.Get` gives (`choice`:
-- the place of a pooled one, or past the end for a new one), and the order in which Go walks a map.
pub mod Invariant
pub mod Leave
mod Tests
pub mod Notify
pub mod Wake
use chanjet.Common.{
  ℕ, zero, suc, ◌+◌, ◌-◌, ◌%◌, ◌^◌, Bool, true, false, ◌||◌, not, List, [], ◌∷◌, ◌++◌, Option, none,
  some, length, take, map, min, leb, ltb, ◌==◌, if◌then◌else◌,
}
use chanjet.Common.Int.{ℤ, pos, negsuc, ltb_ℤ, leb_ℤ}
use chanjet.Common.Run.{Run, ok, err, panic}

-- A `chan struct{}` of capacity 1.
pub record Channel : Type 0 where
  pub tokens : ℕ
  pub closed : Bool

abbrev pub empty_channel : Channel
empty_channel = record { tokens = 0; closed = false }

-- The channels by address.
abbrev pub Channels : Type 0
Channels = ℕ → Channel

abbrev pub put_channel : Channels → ℕ → Channel → Channels
put_channel chans a v b = if a == b then v else chans b

-- An entry of the map `ws`: an id with the address of its channel.
abbrev pub Waiter : Type 0
Waiter = ℕ × ℕ

abbrev pub id_of : Waiter → ℕ
id_of w = w.0

abbrev pub channel_of : Waiter → ℕ
channel_of w = w.1

-- `ws` lists the entries of the map and `pool` the channels that were put back; an address from
-- `fresh` on is in use nowhere. Ids are ints of 64 bits, kept modulo 2^64.
pub record WaiterManager : Type 0 where
  pub ws : List Waiter
  pub pool : List ℕ
  pub chans : Channels
  pub fresh : ℕ
  pub current_id : ℕ
  pub closed : Bool

unfoldable pub new_waiter_manager : WaiterManager
new_waiter_manager = record {
  ws = [];
  pool = [];
  chans = λ _. empty_channel;
  fresh = 0;
  current_id = 0;
  closed = false;
}

-- Takes out the entry at a place.
unfoldable pub take_at : ℕ → List ℕ → Option (ℕ × List ℕ)
take_at k [] = none
take_at zero (c ∷ pool) = some (c, pool)
take_at (suc k) (c ∷ pool) = elim (take_at k pool) [
  | none ↦ none
  | some (d, rest) ↦ some (d, c ∷ rest)
]

-- `sync.Pool.Get`.
unfoldable pub pool_get : ℕ → WaiterManager → ℕ × WaiterManager
pool_get choice w = elim (take_at choice w.pool) [
  | none ↦
      (w.fresh, record w { chans = put_channel w.chans w.fresh empty_channel; fresh = suc w.fresh })
  | some (c, pool) ↦ (c, record w { pool = pool })
]

abbrev pub next_id : ℕ → ℕ
next_id i = suc i % 2 ^ 64

-- `delete(w.ws, id)`.
unfoldable pub delete : ℕ → List Waiter → List Waiter
delete id [] = []
delete id ((j, ch) ∷ ws) = if j == id then ws else (j, ch) ∷ delete id ws

-- `w.ws[id] = notify`, which overwrites an entry with that id.
unfoldable pub enroll : ℕ → ℕ × WaiterManager → Waiter × WaiterManager
enroll id (ch, w) = ((id, ch), record w { current_id = id; ws = (id, ch) ∷ delete id w.ws })

unfoldable pub register : ℕ → WaiterManager → Waiter × WaiterManager
unfolding pool_get enroll
register choice w = enroll (next_id w.current_id) (pool_get choice w)

-- `w.ws[id]`.
unfoldable pub find : ℕ → List Waiter → Option ℕ
find id [] = none
find id ((j, ch) ∷ ws) = if j == id then some ch else find id ws

unfoldable pub unregister : ℕ → WaiterManager → WaiterManager
unregister id w = elim (find id w.ws) [
  | none ↦ w
  | some ch ↦ record w { pool = ch ∷ w.pool; ws = delete id w.ws }
]

-- `_min(v, vs...)`.
unfoldable pub min_of : ℤ → List ℤ → ℤ
min_of m [] = m
min_of m (v ∷ vs) = min_of (if ltb_ℤ v m then v else m) vs

abbrev pub max_waiters_per_batch : ℤ
max_waiters_per_batch = pos 64

abbrev pub max_total_waiters : ℕ
max_total_waiters = 1024

-- The sends to a batch: a full channel is passed over, and a closed one panics. `remaining` falls by
-- one with each send.
unfoldable pub send_all : List Waiter → Channels → ℕ → Run (Channels × ℕ)
send_all [] chans remaining = ok (chans, remaining)
send_all (w ∷ batch) chans remaining =
    let ch = chans (channel_of w) in
    let sent =
      send_all batch (put_channel chans (channel_of w) (record ch { tokens = suc ch.tokens }))
        (remaining - 1) in
    let passed = send_all batch chans remaining in
    if ch.closed then panic else if ch.tokens == 0 then sent else passed

unfoldable pub delete_all : List ℕ → List Waiter → List Waiter
delete_all [] ws = ws
delete_all (id ∷ ids) ws = delete_all ids (delete id ws)

-- How Go walks the map in each round of the loop: any arrangement of its entries.
abbrev pub Order : Type 0
Order = ℕ → List Waiter → List Waiter

-- The end of a round, after the sends: `walk` is the map, `doomed` is `shouldDelete`, and `again` is
-- the next round.
unfoldable pub end_round :
    (ℕ → List ℕ → WaiterManager → Option (Run WaiterManager))
    → List Waiter
    → List ℕ
    → WaiterManager
    → Run (Channels × ℕ)
    → Option (Run WaiterManager)
end_round again walk doomed w (ok (chans, remaining)) =
    let w' = record w { ws = delete_all doomed walk; chans = chans } in
    let more = again remaining doomed w' in if length w'.ws == 0 then some (ok w') else more
end_round again walk doomed w (err e) = some (err e)
end_round again walk doomed w panic = some panic

-- The loop of `notify`, in `fuel` rounds; no value if they run out.
unfoldable pub notify_loop : Order → ℕ → ℕ → List ℕ → WaiterManager → Option (Run WaiterManager)
notify_loop order zero remaining doomed w = none
notify_loop order (suc fuel) remaining doomed w =
    let walk = order fuel w.ws in
    let batch = take (min max_total_waiters remaining) walk in
    let round =
      end_round (notify_loop order fuel) walk (doomed ++ map id_of batch) w
        (send_all batch w.chans remaining) in
    if remaining == 0 then some (ok w) else round

abbrev pub natural : ℤ → ℕ
natural (pos n) = n
natural (negsuc _) = 0

unfoldable pub notify : Order → ℤ → WaiterManager → Option (Run WaiterManager)
notify order data_size w =
    let total = min_of max_waiters_per_batch (data_size ∷ pos max_total_waiters ∷ []) in
    let rounds = notify_loop order (suc (length w.ws)) (natural total) [] w in
    if length w.ws == 0 || w.closed
    then some (ok w)
    else if leb_ℤ total (pos 0)
    then some (ok w)
    else rounds

-- Closing a closed channel panics.
close_channels : List Waiter → Channels → Run Channels
close_channels [] chans = ok chans
close_channels (w ∷ ws) chans =
    let ch = chans (channel_of w) in
    let rest = close_channels ws (put_channel chans (channel_of w) (record ch { closed = true })) in
    if ch.closed then panic else rest

unfoldable pub close : WaiterManager → Run WaiterManager
unfolding close_channels
close w = elim (close_channels w.ws w.chans) [
  | ok chans ↦ ok (record w { closed = true; chans = chans })
  | err e ↦ err e
  | panic ↦ panic
]
