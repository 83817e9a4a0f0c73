-- ===== src/DoubleBuffer/Handover.antt =====
-- From a switch to the pending heap: the stages of the goroutine that a switch starts.
use chanjet.Common.{ℕ, ◌+◌, ◌≡◌, refl, Bool, List, ◌∷◌, Option, some, arith, inl, inr}
use chanjet.Common.Count.{number_of, number_of-perm}
use chanjet.Common.Int.{ℤ, pos}
use chanjet.Buffer.{Ptr, nil, SmartBuffer, blank, set_state}
use chanjet.Buffer as B
use chanjet.MinHeap.Swap.{Entry, entries}
use chanjet.MinHeap.{MinHeap}
use chanjet.DoubleBuffer.{DoubleBuffer, draw_number, file_buffer}
use chanjet.DoubleBuffer.Ownership.{
  holds, uses, IsOwned, IsOwned-of_uses, times-take_at, number_of-take_entry,
}
use chanjet.WrapHeap.Order.{IsValid, push_correct}

uses-draw : (k : ℕ) (a : Ptr) (d : DoubleBuffer) → uses a (draw_number k d) ≡ uses a d
unfolding draw_number uses number_of
uses-draw k a d = elim (times-take_at k d.spawned) [
  | inl e ↦ rw (e, draw_number)
  | inr (b, rest, e, t) ↦ rw (e, draw_number) (omega (arith, t a))
]

-- What filing a buffer does, at a valid heap: its entry moves from `numbered` to the heap.
pub record Filed (d : DoubleBuffer) (r : Option DoubleBuffer) : Type 0 where
  pub heap : MinHeap
  pub numbered : List Entry
  pub told : List ℤ
  pub ended : r ≡ some (record d { pending_heap = heap; numbered = numbered; told = told })
  pub valid : IsValid heap
  pub kept :
      (p : Entry → Bool)
      → number_of p numbered + number_of p (entries heap)
        ≡ number_of p d.numbered + number_of p (entries d.pending_heap)

pub file_lem : (k : ℕ) (d : DoubleBuffer) → IsValid d.pending_heap → Filed d (file_buffer k d)
unfolding file_buffer number_of
file_lem k d v = elim (number_of-take_entry k d.numbered) [
  | inl e ↦ record {
    heap = d.pending_heap;
    numbered = d.numbered;
    told = d.told;
    ended = rw (e, file_buffer);
    valid = v;
    kept = λ p. refl;
  }
  | inr ((n, buf), rest, e, t) ↦
      let q = push_correct d.pending_heap (record { sequence = n; buf = buf; index = pos 0 }) v in
      record {
        heap = q.result;
        numbered = rest;
        told = B.len (d.store buf) ∷ d.told;
        ended = rw (e, q.ended, file_buffer);
        valid = q.valid;
        kept = λ p. omega (arith, t p, number_of-perm p q.same);
      }
]

-- The stages leave each buffer with one holder.
pub draw-IsOwned : (k : ℕ) (d : DoubleBuffer) → IsOwned d → IsOwned (draw_number k d)
unfolding draw_number
draw-IsOwned k d o = elim (times-take_at k d.spawned) [
  | inl e ↦ rw (e, draw_number) o
  | inr (b, rest, e, t) ↦
      IsOwned-of_uses d (draw_number k d) (rw (e, draw_number))
        (λ a. omega (arith, uses-draw k a d)) o
]

pub filed-IsOwned :
    (d : DoubleBuffer) (heap : MinHeap) (numbered : List Entry) (told : List ℤ)
    → ((p : Entry → Bool)
        → number_of p numbered + number_of p (entries heap)
          ≡ number_of p d.numbered + number_of p (entries d.pending_heap))
    → IsOwned d
    → IsOwned (record d { pending_heap = heap; numbered = numbered; told = told })
unfolding uses
filed-IsOwned d heap numbered told kept o =
    IsOwned-of_uses d (record d { pending_heap = heap; numbered = numbered; told = told }) refl
      (λ a. omega (arith, kept (holds a))) o

-- Drawing leaves the heap and the state.
pub draw_keeps :
    (k : ℕ) (d : DoubleBuffer)
    → ((draw_number k d).pending_heap ≡ d.pending_heap) × ((draw_number k d).state ≡ d.state)
unfolding draw_number
draw_keeps k d = elim (times-take_at k d.spawned) [
  | inl e ↦ rw (e, draw_number) (refl, refl)
  | inr (b, rest, e, t) ↦ rw (e, draw_number) (refl, refl)
]
