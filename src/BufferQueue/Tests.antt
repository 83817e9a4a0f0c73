-- ===== src/BufferQueue/Tests.antt =====
-- A queue with one place, and a policy that never evicts.
use chanjet.Common.{List, ◌≡◌, refl, false, [], ◌∷◌, some, none}
use chanjet.Common.Int.{pos}
use chanjet.Common.Run.{ok, err, queue_closed, queue_empty}
use chanjet.BufferQueue.{QueueItem, EvictPolicy, new_buffer_queue}
use chanjet.BufferQueue.Calls.{Call, pushed, picked, closing, Keeps, run, fifo, run_as_fifo}

abbrev never : EvictPolicy
never = record { should_evict = λ _. false; evict = λ q. (q, pos 0) }

never-Keeps : Keeps never
never-Keeps q = refl

abbrev first : QueueItem
first = record { id = pos 1; buf = 8; push_time = pos 0 }

abbrev second : QueueItem
second = record { id = pos 2; buf = 16; push_time = pos 0 }

abbrev script : List Call
script = pushed first ∷ pushed second ∷ picked ∷ picked ∷ picked ∷ closing ∷ picked ∷ []

run_as_fifo_example : run script (new_buffer_queue never (pos 1) false) ≡ fifo script [] false
run_as_fifo_example = run_as_fifo never (pos 1) false script never-Keeps

script_answers :
    fifo script [] false
    ≡ ok none
      ∷ ok none
      ∷ ok (some first)
      ∷ ok (some second)
      ∷ err queue_empty
      ∷ ok none
      ∷ err queue_closed
      ∷ []
unfolding fifo
script_answers = refl
