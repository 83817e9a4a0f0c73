-- ===== src/Buffer/Overlap/Alone.antt =====
-- A `Push` or a `Pop` that runs alone is the call as a whole.
use chanjet.Common.{ap, ◌∙◌, if◌then◌else◌, [], ◌∷◌, ◌++◌, ◌+◌, ◌^◌, ◌<◌, ℕ, zero, suc, ◌≡◌, arith}
use chanjet.Common.Run.{ok, err, buffer_read_only}
use chanjet.Buffer.Ring.{IsRing}
use chanjet.Buffer.Fifo.Effect.{items, refuses, front, rest_of, push-effect, pop-front}
use chanjet.Buffer.{BufferItem, SmartBuffer, push, pop}
use chanjet.Buffer.Overlap.{PushAt, starting, pushed, push_step, PopAt, entering, popped, pop_step}

unfoldable pub push_steps : ℕ → BufferItem → PushAt → SmartBuffer → PushAt × SmartBuffer
unfolding push_step
push_steps zero x at s = (at, s)
push_steps (suc n) x at s = let (at', s') = push_step x at s in push_steps n x at' s'

unfoldable pub pop_steps : ℕ → PopAt → SmartBuffer → PopAt × SmartBuffer
unfolding pop_step
pop_steps zero at s = (at, s)
pop_steps (suc n) at s = let (at', s') = pop_step at s in pop_steps n at' s'

calls_whole :
    (x : BufferItem) (s : SmartBuffer)
    → (push_steps 6 x starting s ≡ (pushed (push x s).1, (push x s).0))
      × (pop_steps 9 entering s ≡ (popped (pop s).1, (pop s).0))
unfolding push_steps pop_steps push pop
calls_whole x s = (ground arith, ground arith)

-- On a ring whose indices have not wrapped, the atomic operations of Push, with no other
-- goroutine in between, end with an error and the items as they were if the buffer is read-only
-- or full, and else without one and with the new item behind the others; those of Pop end with
-- the oldest item, or nil if there is none, and leave the others.
pub calls_alone :
    (t n : ℕ) (x : BufferItem) (s : SmartBuffer)
    → IsRing t n s
    → t + n < 2 ^ 31
    → let (at, after) = push_steps 6 x starting s in
      let (end, left) = pop_steps 9 entering s in
      (at ≡ pushed (if refuses n s then err buffer_read_only else ok tt))
      × (items after ≡ (if refuses n s then items s else items s ++ (x ∷ [])))
      × (end ≡ popped (ok (front (items s))))
      × (items left ≡ rest_of (items s))
calls_alone t n x s r fits =
    let (pushes, pops) = calls_whole x s in
    let (told, more) = push-effect x r fits in
    let (got, less) = pop-front t n s r (omega arith) in
    (
      ap (λ (p : PushAt × SmartBuffer). p.0) pushes ∙ ap pushed told,
      ap (λ (p : PushAt × SmartBuffer). items p.1) pushes ∙ more,
      ap (λ (p : PopAt × SmartBuffer). p.0) pops ∙ ap popped got,
      ap (λ (p : PopAt × SmartBuffer). items p.1) pops ∙ less,
    )
