-- ===== src/Monitor/Tests.antt =====
-- A monitor with a pool that refuses tasks once released.
use chanjet.Common.{false, ◌≡◌, refl, Bool, true, ◌&&◌, not, List, [], ◌∷◌, arith}
use chanjet.Common.Int.{pos, ◌+ℤ◌, rem, wrap64}
use chanjet.Atomic.{load, new_bool, compare_and_swap}
use chanjet.Monitor.{
  waiting, look, leave, drop_at, Monitor, Outcome, new_meta, new_monitor, start, stop, tick, mean,
  total_duration, succeed, time_out,
}
use chanjet.Monitor.Average as Average
use chanjet.Monitor.Average.{Ending, in_time, too_late, durations, Booked, bookkeeping}
use chanjet.Monitor.Observers as Observers
use chanjet.Monitor.Observers.{updates, balance, updates_lem}
use chanjet.Monitor.Life as Life
use chanjet.Monitor.Life.{
  Event, starts, stops, looks, ticks, stopped_runners_leave, no_success_after_stop,
}

abbrev endings : List Ending
endings =
    in_time (pos 10) (pos 1)
    ∷ in_time (pos 20) (pos 2)
    ∷ too_late (pos 900) (pos 3)
    ∷ in_time (pos 30) (pos 4)
    ∷ in_time (pos 40) (pos 5)
    ∷ in_time (pos 50) (pos 6)
    ∷ in_time (pos 600) (pos 7)
    ∷ []

bookkeeping_example : Booked (durations endings) (Average.run endings new_meta)
bookkeeping_example = bookkeeping endings (omega arith)

-- Six collections in time: the mean is that of the first five.
mean_of_five : (Average.run endings new_meta).average_time_taken ≡ pos 30
unfolding Average.run succeed time_out mean total_duration rem wrap64 ◌+ℤ◌
mean_of_five = refl

updates_lem_example :
    let cs =
      Observers.Call.registers 7 ∷ Observers.Call.registers 7 ∷ Observers.Call.unregisters 7 ∷ [] in
    updates 7 (Observers.run cs new_monitor) ≡ balance 7 cs (updates 7 new_monitor)
updates_lem_example =
    updates_lem 7
      (Observers.Call.registers 7 ∷ Observers.Call.registers 7 ∷ Observers.Call.unregisters 7 ∷ [])
      new_monitor

abbrev takes : Bool → Bool → Bool
takes released free = not released && free

abbrev quick : Outcome
quick = record { free = λ _. true; in_time = true; time_taken = pos 12; now = pos 60 }

-- It is stopped while its first collection runs, whose end finds a context that is done.
abbrev stopped_late : List Event
stopped_late = starts false ∷ looks 0 ∷ ticks 0 quick ∷ stops ∷ looks 0 ∷ []

stopped_runners_leave_example :
    let m = Life.run takes stopped_late new_monitor in
    (leave 0 (look 0 m)).runners ≡ drop_at 0 m.runners
unfolding Life.run new_monitor start stop look new_bool compare_and_swap load tick
stopped_runners_leave_example = stopped_runners_leave takes stopped_late 0 (waiting 1) refl refl

-- Two goroutines collect, where `Stop` gave up waiting before the next `Start`.
two_runners :
    (Life.run takes
      (starts false ∷ looks 0 ∷ ticks 0 quick ∷ stops ∷ starts false ∷ looks 0 ∷ looks 1 ∷ [])
      new_monitor).runners
    ≡ waiting 2 ∷ waiting 2 ∷ []
unfolding Life.run new_monitor start stop look new_bool compare_and_swap load tick
two_runners = refl

abbrev running : Monitor
running = Life.run takes (starts false ∷ looks 0 ∷ ticks 0 quick ∷ []) new_monitor

no_success_after_stop_example :
    (Life.run takes (starts false ∷ looks 0 ∷ ticks 0 quick ∷ []) (stop running)).meta.success_count
    ≡ running.meta.success_count
unfolding Life.run new_monitor start look new_bool compare_and_swap load tick
no_success_after_stop_example =
    no_success_after_stop takes (λ free. refl) (starts false ∷ looks 0 ∷ ticks 0 quick ∷ []) running
      refl
