-- ===== src/Monitor.antt =====
-- metrics/monitor.go: the observers, the start and stop of the collecting goroutine, and the
-- bookkeeping of a collection. Calls under the lock are one step. The pool of the ants library is a
-- parameter: whether it takes a task, given that it is released and that it has a free worker.
pub mod Average
pub mod Observers
pub mod Contexts
pub mod Life
mod Tests
use chanjet.Common.{
  Option, none, some, get_elem?, set, ℕ, zero, suc, ◌+◌, ◌-◌, ◌/◌, Bool, true, false, ◌&&◌, not,
  List, [], ◌∷◌, ◌++◌, map, length, ◌==◌, if◌then◌else◌,
}
use chanjet.Common.Int.{ℤ, pos, negsuc, neg, ◌+ℤ◌, eqb_ℤ, rem, wrap64}
use chanjet.Atomic.{AtomicBool, new_bool, compare_and_swap}

-- Times are in nanoseconds, durations taken in milliseconds; the counters are int64.
pub record Meta : Type 0 where
  pub last_collect_time : ℤ
  pub success_count : ℤ
  pub err_count : ℤ
  pub average_time_taken : ℤ
  pub time_taken_queue : List ℤ

abbrev pub new_meta : Meta
new_meta = record {
  last_collect_time = pos 0;
  success_count = pos 0;
  err_count = pos 0;
  average_time_taken = pos 0;
  time_taken_queue = [];
}

-- The loop that adds the durations up.
unfoldable pub total_duration : ℤ → List ℤ → ℤ
total_duration total [] = total
total_duration total (d ∷ ds) = total_duration (wrap64 (total +ℤ d)) ds

-- Go's `/` by a positive divisor rounds towards 0.
abbrev pub quotient : ℤ → ℕ → ℤ
quotient (pos n) l = pos (n / l)
quotient (negsuc n) l = neg (suc n / l)

-- `totalDuration / int64(l)`.
unfoldable pub mean : List ℤ → ℤ
unfolding total_duration
mean ds = quotient (total_duration (pos 0) ds) (length ds)

abbrev pub mod_count : ℕ
mod_count = 5

-- A collection that ends in time.
unfoldable pub succeed : ℤ → ℤ → Meta → Meta
unfolding mean
succeed time_taken now m =
    let queue = m.time_taken_queue ++ (time_taken ∷ []) in
    let count = wrap64 (m.success_count +ℤ pos 1) in
    record m {
      time_taken_queue = queue;
      success_count = count;
      average_time_taken =
          if eqb_ℤ (rem count mod_count) (pos 0) then mean queue else m.average_time_taken;
      last_collect_time = now;
    }

-- A collection that does not.
unfoldable pub time_out : ℤ → Meta → Meta
time_out now m = record m { err_count = wrap64 (m.err_count +ℤ pos 1); last_collect_time = now }

-- A goroutine of `runCollector`: before it reads `m.ctx`, or in its `select`, with the context that it
-- read.
pub data Runner : Type 0 where
  looping : Runner
  waiting : ℕ → Runner

-- An observer is an address. The contexts that `Start` made have the numbers from 1 to `ctx`, which
-- is `m.ctx`; `done` says of which `Done` is closed.
pub record Monitor : Type 0 where
  pub collect_interval : ℤ
  pub report_interval : ℤ
  pub pid : ℤ
  pub observers : List ℕ
  pub meta : Meta
  pub state : AtomicBool
  pub ctx : ℕ
  pub done : ℕ → Bool
  pub runners : List Runner
  pub released : Bool

abbrev pub second : ℕ
second = 1_000_000_000

abbrev pub default_interval : ℤ
default_interval = pos 5_000_000_000

unfoldable pub new_monitor : Monitor
unfolding new_bool
new_monitor = record {
  collect_interval = default_interval;
  report_interval = default_interval;
  pid = pos 0;
  observers = [];
  meta = new_meta;
  state = new_bool;
  ctx = 0;
  done = λ _. false;
  runners = [];
  released = false;
}

-- The options.
unfoldable pub with_collect_interval : ℤ → Monitor → Monitor
with_collect_interval interval m = record m { report_interval = interval }

unfoldable pub with_process_monitoring : ℤ → Monitor → Monitor
with_process_monitoring pid m = record m { pid = pid }

unfoldable pub register : ℕ → Monitor → Monitor
register observer m = record m { observers = m.observers ++ (observer ∷ []) }

-- The loop of `Unregister`: it takes out the first.
unfoldable pub remove_first : ℕ → List ℕ → List ℕ
remove_first o [] = []
remove_first o (x ∷ xs) = if x == o then xs else x ∷ remove_first o xs

unfoldable pub unregister : ℕ → Monitor → Monitor
unfolding remove_first
unregister observer m = record m { observers = remove_first observer m.observers }

-- The observers whose `Update` is called, in order.
unfoldable pub notify_all : Monitor → List ℕ
notify_all m = m.observers

abbrev pub mark : (ℕ → Bool) → ℕ → Bool → ℕ → Bool
mark done c b j = if c == j then b else done j

-- `Start` under a context that is done already or not.
unfoldable pub start : Bool → Monitor → Monitor
unfolding compare_and_swap
start parent_done m =
    let (swapped, state) = compare_and_swap false true m.state in
    let started : Monitor = record m {
      state = state;
      ctx = suc m.ctx;
      done = mark m.done (suc m.ctx) parent_done;
      runners = looping ∷ m.runners;
    } in
    if swapped then started else m

-- The context under which `Start` made the context `c` is cancelled.
unfoldable pub cancel : ℕ → Monitor → Monitor
cancel c m = record m { done = mark m.done c true }

-- `cancelFunc`, and the release of the pool. `Stop` returns when the runners have ended or its timeout
-- is over.
unfoldable pub stop : Monitor → Monitor
unfolding compare_and_swap
stop m =
    let (swapped, state) = compare_and_swap true false m.state in
    let stopped : Monitor = record m {
      state = state;
      done = mark m.done m.ctx true;
      released = true;
    } in
    if swapped then stopped else m

-- The runner at place `k` reads `m.ctx` and comes to its `select`.
unfoldable pub look : ℕ → Monitor → Monitor
look k m = elim (get_elem? m.runners k) [
  | some looping ↦ record m { runners = set m.runners k (waiting m.ctx) }
  | _ ↦ m
]

abbrev pub drop_at : ℕ → List Runner → List Runner
drop_at k [] = []
drop_at zero (r ∷ rs) = rs
drop_at (suc k) (r ∷ rs) = r ∷ drop_at k rs

-- It returns if the context that it waits for is done.
unfoldable pub leave : ℕ → Monitor → Monitor
leave k m = elim (get_elem? m.runners k) [
  | some (waiting c) ↦ if m.done c then record m { runners = drop_at k m.runners } else m
  | _ ↦ m
]

-- What the surroundings of a collection decide: which of the tasks finds a free worker, whether all
-- are done before the timeout, how long that took, and when it ended.
pub record Outcome : Type 0 where
  pub free : ℕ → Bool
  pub in_time : Bool
  pub time_taken : ℤ
  pub now : ℤ

module _ (takes : Bool → Bool → Bool) where
  -- A task that is not taken never calls `wg.Done`.
  unfoldable pub all_taken : Outcome → Monitor → Bool
  all_taken o m =
      let taken = λ (i : ℕ). takes m.released (o.free i) in
      taken 0 && (taken 1 && (taken 2 && (taken 3 && taken 4)))

  -- `collectAllMetrics`; it says whether it succeeds.
  unfoldable pub collect_all_metrics : Outcome → Monitor → Bool × Monitor
  unfolding all_taken succeed time_out
  collect_all_metrics o m =
      let good = all_taken o m && o.in_time in
      (
        good,
        record m {
          meta = if good then succeed o.time_taken o.now m.meta else time_out o.now m.meta;
        },
      )

  -- A tick of the runner at place `k`, also when its context is done, with the observers that it
  -- updates.
  unfoldable pub tick : ℕ → Outcome → Monitor → List ℕ × Monitor
  unfolding collect_all_metrics notify_all
  tick k o m =
      let (good, m') = collect_all_metrics o m in
      let collected : List ℕ × Monitor =
        (if good then notify_all m' else [], record m' { runners = set m.runners k looping }) in
      elim (get_elem? m.runners k) [ some (waiting c) ↦ collected | _ ↦ ([], m) ]
