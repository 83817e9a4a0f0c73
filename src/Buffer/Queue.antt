-- ===== src/Buffer/Queue.antt =====
-- What a `SmartBuffer` promises: a bounded first-in first-out queue that refuses writes from the
-- first one that finds it full, until it is reset.
use chanjet.Common.{ℕ, List, [], ◌∷◌, ◌++◌, length, leb, ◌==◌, if◌then◌else◌}
use chanjet.Common.Int.{ℤ, pos}
use chanjet.Common.Run.{buffer_close, buffer_read_only, Run, ok, err}
use chanjet.Consts.{write_only, read_only, closed_state}
use chanjet.Buffer.{Ptr, nil, BufferItem}

-- The calls of a client, and what it sees of each.
pub data Op : Type 0 where
  write_op : BufferItem → Op
  pop_op len_op reset_op : Op
  set_state_op : ℕ → Op

pub data Reply : Type 0 where
  wrote : Run (Unit {0}) → Reply
  popped : Run (Ptr × ℤ) → Reply
  measured : ℤ → Reply
  done : Reply

pub record Queue : Type 0 where
  pub items : List BufferItem
  pub state : ℕ

module _ (capacity : ℕ) where
  unfoldable pub write : BufferItem → Queue → Queue × Run (Unit {0})
  write x q =
      if q.state == closed_state
      then (q, err buffer_close)
      else if q.state == read_only
      then (q, err buffer_read_only)
      else if leb capacity (length q.items)
      then (
        record q { state = if q.state == write_only then read_only else q.state },
        err buffer_read_only,
      )
      else (record q { items = q.items ++ (x ∷ []) }, ok tt)

  pop_items : List BufferItem → Queue → Queue × Run (Ptr × ℤ)
  pop_items [] q = (q, ok (nil, pos 0))
  pop_items (x ∷ xs) q = (record q { items = xs }, ok (x.ptr, x.size))

  unfoldable pub pop : Queue → Queue × Run (Ptr × ℤ)
  unfolding pop_items
  pop q = pop_items q.items q

  unfoldable pub step : Op → Queue → Queue × Reply
  unfolding write pop
  step (write_op x) q = let (q', r) = write x q in (q', wrote r)
  step pop_op q = let (q', r) = pop q in (q', popped r)
  step len_op q = (q, measured (pos (length q.items)))
  step reset_op q = (record { items = []; state = write_only }, done)
  step (set_state_op n) q = (record q { state = n }, done)

  unfoldable pub run : List Op → Queue → List Reply
  run [] q = []
  run (op ∷ ops) q = let (q', r) = step op q in r ∷ run ops q'
