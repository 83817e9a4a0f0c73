-- ===== src/BufferQueue.antt =====
-- core/queue.go: `BufferQueue`, whose lock makes each call one step. A policy is code that the queue
-- is given; it may keep the list that `autoEvict` hands it, so an eviction may change the queue.
pub mod Calls
mod Tests
use chanjet.Common.{
  ℕ, suc, ◌+◌, Bool, true, false, List, [], ◌∷◌, ◌++◌, Option, none, some, length, ◌==◌,
  if◌then◌else◌,
}
use chanjet.Common.Int.{ℤ, pos, ◌+ℤ◌, ltb_ℤ, wrap64}
use chanjet.Common.Run.{Run, ok, err, queue_closed, queue_empty}
use chanjet.Buffer.{Ptr}

-- `ID` and `PushTime` are int64.
pub record QueueItem : Type 0 where
  pub id : ℤ
  pub buf : Ptr
  pub push_time : ℤ

-- `should_evict` reads the field `Queue` of its context: nothing in `Push`, the list in `autoEvict`.
-- `evict` gives the list that it leaves and the number that it returns.
pub record EvictPolicy : Type 0 where
  pub should_evict : Option (List QueueItem) → Bool
  pub evict : List QueueItem → List QueueItem × ℤ

-- `evict_count` and `max_size` are ints; `closed` is the state 1.
pub record BufferQueue : Type 0 where
  pub q : List QueueItem
  pub ep : EvictPolicy
  pub evict_count : ℤ
  pub max_size : ℤ
  pub enable_auto_evict : Bool
  pub closed : Bool

unfoldable pub new_buffer_queue : EvictPolicy → ℤ → Bool → BufferQueue
new_buffer_queue ep max_size enable_auto_evict = record {
  q = [];
  ep = ep;
  evict_count = pos 0;
  max_size = max_size;
  enable_auto_evict = enable_auto_evict;
  closed = false;
}

unfoldable pub evicted : BufferQueue → BufferQueue
evicted b =
    let (q, n) = b.ep.evict b.q in record b { q = q; evict_count = wrap64 (b.evict_count +ℤ n) }

unfoldable pub push_back : QueueItem → BufferQueue → BufferQueue
push_back s b = record b { q = b.q ++ (s ∷ []) }

-- The `Push` of an open queue: it appends the item to a full queue too.
unfoldable pub push_open : QueueItem → BufferQueue → BufferQueue
unfolding evicted push_back
push_open s b =
    let full = if b.ep.should_evict none then evicted b else b in
    push_back s (if ltb_ℤ (pos (length b.q)) b.max_size then b else full)

unfoldable pub push : QueueItem → BufferQueue → BufferQueue × Run (Unit {0})
unfolding push_open
push s b = if b.closed then (b, err queue_closed) else (push_open s b, ok tt)

unfoldable pub pick_first : List QueueItem → BufferQueue → BufferQueue × Run QueueItem
pick_first [] b = (b, err queue_empty)
pick_first (s ∷ q) b = (record b { q = q }, ok s)

unfoldable pub pick : BufferQueue → BufferQueue × Run QueueItem
unfolding pick_first
pick b = let picked = pick_first b.q b in if b.closed then (b, err queue_closed) else picked

unfoldable pub set_evict_policy : EvictPolicy → BufferQueue → BufferQueue
set_evict_policy ep b = record b { ep = ep }

unfoldable pub reset : BufferQueue → BufferQueue
reset b = record b { evict_count = pos 0; q = [] }

-- A tick of `autoEvict`.
unfoldable pub auto_evict_tick : BufferQueue → BufferQueue
unfolding evicted
auto_evict_tick b = if b.ep.should_evict (some b.q) then evicted b else b

-- The channel `stop` is closed by the call that sets the state, and by no other.
unfoldable pub close : BufferQueue → BufferQueue
close b = if b.closed then b else record b { closed = true }
