-- ===== src/BufferQueue/Calls.antt =====
-- The queue under any sequence of calls, beside an unbounded first-in first-out queue.
use chanjet.Common.{
  ◌≡◌, refl, sym, ap, subst, ap₂, ◌∙◌, Bool, true, false, List, [], ◌∷◌, ◌++◌, Option, none, some,
  length, if◌then◌else◌, arith,
}
use chanjet.Common.Int.{ℤ, pos, ltb_ℤ}
use chanjet.Common.Run.{Run, ok, err, panic, queue_closed, queue_empty}
use chanjet.BufferQueue.{
  QueueItem, EvictPolicy, BufferQueue, evicted, push_back, push_open, new_buffer_queue, push,
  pick_first, pick, auto_evict_tick, close,
}

pub data Call : Type 0 where
  pushed : QueueItem → Call
  picked ticked closing : Call

-- What a call returns: the item of a `Pick`, or nothing of the others.
abbrev pub Answer : Type 0
Answer = Run (Option QueueItem)

unfoldable pub no_item : Run (Unit {0}) → Answer
no_item (ok _) = ok none
no_item (err e) = err e
no_item panic = panic

unfoldable pub with_item : Run QueueItem → Answer
with_item (ok s) = ok (some s)
with_item (err e) = err e
with_item panic = panic

unfoldable pub step : Call → BufferQueue → BufferQueue × Answer
unfolding no_item with_item push pick
step (pushed s) b = let (b', r) = push s b in (b', no_item r)
step picked b = let (b', r) = pick b in (b', with_item r)
step ticked b = (auto_evict_tick b, ok none)
step closing b = (close b, ok none)

unfoldable pub run : List Call → BufferQueue → List Answer
unfolding step
run [] b = []
run (c ∷ cs) b = let (b', r) = step c b in r ∷ run cs b'

-- The same calls on a list without a bound.
unfoldable pub fifo_step : Call → List QueueItem → Bool → List QueueItem × Bool × Answer
fifo_step (pushed s) q true = (q, true, err queue_closed)
fifo_step (pushed s) q false = (q ++ (s ∷ []), false, ok none)
fifo_step picked q true = (q, true, err queue_closed)
fifo_step picked [] false = ([], false, err queue_empty)
fifo_step picked (s ∷ q) false = (q, false, ok (some s))
fifo_step ticked q closed = (q, closed, ok none)
fifo_step closing q closed = (q, true, ok none)

unfoldable pub fifo : List Call → List QueueItem → Bool → List Answer
unfolding fifo_step
fifo [] q closed = []
fifo (c ∷ cs) q closed = let (q', closed', r) = fifo_step c q closed in r ∷ fifo cs q' closed'

-- The policy counts what it likes, but takes nothing out of the list.
abbrev pub Keeps : EvictPolicy → Type 0
Keeps ep = (q : List QueueItem) → (ep.evict q).0 ≡ q

-- `b` holds the list `q` under the policy `ep`.
record Holds (ep : EvictPolicy) (q : List QueueItem) (closed : Bool) (b : BufferQueue)
    : Type 0 where
  list : b.q ≡ q
  policy : b.ep ≡ ep
  state : b.closed ≡ closed

record Agrees (ep : EvictPolicy) (r : BufferQueue × Answer) (s : List QueueItem × Bool × Answer)
    : Type 0 where
  holds : Holds ep s.0 s.1 r.0
  answer : r.1 ≡ s.2

evicted-Holds :
    (ep : EvictPolicy) (q : List QueueItem) (closed : Bool) (b : BufferQueue)
    → Keeps ep
    → Holds ep q closed b
    → Holds ep q closed (evicted b)
unfolding evicted
evicted-Holds ep q closed b k h = record {
  list = ap (λ (p : EvictPolicy). (p.evict b.q).0) h.policy ∙ k b.q ∙ h.list;
  policy = h.policy;
  state = h.state;
}

evict-Holds :
    (ep : EvictPolicy) (q : List QueueItem) (closed t : Bool) (b : BufferQueue)
    → Keeps ep
    → Holds ep q closed b
    → Holds ep q closed (if t then evicted b else b)
evict-Holds ep q closed true b k h = evicted-Holds ep q closed b k h
evict-Holds ep q closed false b k h = h

push_back-Holds :
    (ep : EvictPolicy) (q : List QueueItem) (closed : Bool) (s : QueueItem) (b : BufferQueue)
    → Holds ep q closed b
    → Holds ep (q ++ (s ∷ [])) closed (push_back s b)
unfolding push_back
push_back-Holds ep q closed s b h = record {
  list = ap (λ l. l ++ (s ∷ [])) h.list;
  policy = h.policy;
  state = h.state;
}

push_open-Holds :
    (ep : EvictPolicy) (q : List QueueItem) (s : QueueItem) (b : BufferQueue)
    → Keeps ep
    → Holds ep q false b
    → Holds ep (q ++ (s ∷ [])) false (push_open s b)
unfolding push_open
push_open-Holds ep q s b k h =
    let full = if b.ep.should_evict none then evicted b else b in
    push_back-Holds ep q false s (if ltb_ℤ (pos (length b.q)) b.max_size then b else full) (
      room_or (ltb_ℤ (pos (length b.q)) b.max_size) full
        (evict-Holds ep q false (b.ep.should_evict none) b k h))
  where
    room_or :
        (t : Bool) (c : BufferQueue) → Holds ep q false c → Holds ep q false (if t then b else c)
    room_or true c hc = h
    room_or false c hc = hc

pick_open :
    (ep : EvictPolicy) (b : BufferQueue) (q l : List QueueItem)
    → l ≡ q
    → Holds ep q false b
    → Agrees ep (let (b', r) = pick_first l b in (b', with_item r)) (fifo_step picked q false)
unfolding fifo_step with_item pick_first
pick_open ep b [] [] e h = record { holds = h; answer = refl }
pick_open ep b [] (x ∷ l) e h = absurd (ground (arith, e))
pick_open ep b (s ∷ q) [] e h = absurd (ground (arith, e))
pick_open ep b (s ∷ q) (x ∷ l) e h = record {
  holds = record { list = ground (arith, e); policy = h.policy; state = h.state };
  answer = ap (λ i. ok (some i)) (ground (arith, e));
}

-- `Push` and `Pick` with the closed state given.
abbrev after_push : Bool → QueueItem → BufferQueue → BufferQueue × Answer
after_push t s b =
    let p : BufferQueue × Run (Unit {0}) =
      if t then (b, err queue_closed) else (push_open s b, ok tt) in
    (p.0, no_item p.1)

abbrev after_pick : Bool → BufferQueue → BufferQueue × Answer
after_pick t b =
    let p : BufferQueue × Run QueueItem = if t then (b, err queue_closed) else pick_first b.q b in
    (p.0, with_item p.1)

step-Agrees :
    (ep : EvictPolicy) (c : Call) (q : List QueueItem) (closed : Bool) (b : BufferQueue)
    → Keeps ep
    → Holds ep q closed b
    → Agrees ep (step c b) (fifo_step c q closed)
unfolding step fifo_step no_item with_item push pick auto_evict_tick close
step-Agrees ep (pushed s) q true b k h =
    subst (λ t. Agrees ep (after_push t s b) (q, true, err queue_closed)) (sym h.state)
      (record { holds = h; answer = refl })
step-Agrees ep (pushed s) q false b k h =
    subst (λ t. Agrees ep (after_push t s b) (q ++ (s ∷ []), false, ok none)) (sym h.state)
      (record { holds = push_open-Holds ep q s b k h; answer = refl })
step-Agrees ep picked q true b k h =
    subst (λ t. Agrees ep (after_pick t b) (fifo_step picked q true)) (sym h.state)
      (record { holds = h; answer = refl })
step-Agrees ep picked q false b k h =
    subst (λ t. Agrees ep (after_pick t b) (fifo_step picked q false)) (sym h.state)
      (pick_open ep b q b.q h.list h)
step-Agrees ep ticked q closed b k h = record {
  holds = evict-Holds ep q closed (b.ep.should_evict (some b.q)) b k h;
  answer = refl;
}
step-Agrees ep closing q closed b k h = record {
  holds = closing-Holds b.closed refl;
  answer = refl;
}
  where
    closing-Holds :
        (t : Bool) → b.closed ≡ t → Holds ep q true (if t then b else record b { closed = true })
    closing-Holds true e = record { list = h.list; policy = h.policy; state = e }
    closing-Holds false e = record { list = h.list; policy = h.policy; state = refl }

run-Agrees :
    (ep : EvictPolicy) (cs : List Call) (q : List QueueItem) (closed : Bool) (b : BufferQueue)
    → Keeps ep
    → Holds ep q closed b
    → run cs b ≡ fifo cs q closed
unfolding run fifo
run-Agrees ep [] q closed b k h = refl
run-Agrees ep (c ∷ cs) q closed b k h =
    let a = step-Agrees ep c q closed b k h in
    let (q', closed', r) = fifo_step c q closed in
    ap₂ (λ x (xs : List Answer). x ∷ xs) a.answer
      (run-Agrees ep cs q' closed' (step c b).0 k a.holds)

-- Under a policy that takes nothing out of the list, no sequence of `Push`, `Pick`, `Close` and ticks
-- of `autoEvict` tells a new queue, of whatever `maxSize`, from a first-in first-out queue without a
-- bound; after a `Close` each `Push` and `Pick` fails.
pub run_as_fifo :
    (ep : EvictPolicy) (max_size : ℤ) (auto : Bool) (cs : List Call)
    → Keeps ep
    → run cs (new_buffer_queue ep max_size auto) ≡ fifo cs [] false
unfolding new_buffer_queue
run_as_fifo ep max_size auto cs k =
    run-Agrees ep cs [] false (new_buffer_queue ep max_size auto) k
      (record { list = refl; policy = refl; state = refl })
