-- ===== src/DoubleBuffer/Numbering.antt =====
-- The sequence numbers of the buffers that wait to be read.
use mathlib.Core.List.{Perm}
use chanjet.Common.{ℕ, ◌+◌, ◌-◌, ◌^◌, ◌∙◌, ◌≡◌, Bool, ◌&&◌, ◌∷◌, arith, inl, inr}
use chanjet.Common.Count.{number_of, number_of-perm}
use chanjet.Common.Int.{
  ℤ, pos, ◌+ℤ◌, ◌≤ℤ◌, ◌<ℤ◌, eqb_ℤ, leb_ℤ, wrap64, wrap64_of_fits, int_laws, +ℤ_parts,
}
use chanjet.MinHeap.{MinHeap}
use chanjet.MinHeap.Swap.{Entry, entries}
use chanjet.DoubleBuffer.{DoubleBuffer, draw_number}
use chanjet.DoubleBuffer.Ownership.{once_if, times-take_at}

abbrev pub bears : ℤ → Entry → Bool
bears n e = eqb_ℤ e.0 n

-- How many buffers wait with the number `n`: in the pending heap, or about to be pushed.
unfoldable pub waiting : ℤ → DoubleBuffer → ℕ
waiting n d = number_of (bears n) d.numbered + number_of (bears n) (entries d.pending_heap)

-- Each number from the one that is due to the last one drawn is that of one waiting buffer, and no
-- other number is.
pub record IsNumbered (d : DoubleBuffer) : Type 0 where
  pub dense : (n : ℤ) → waiting n d ≡ once_if (leb_ℤ d.current_sequence n && leb_ℤ n d.sequence)
  pub started : pos 1 ≤ℤ d.current_sequence
  pub ahead : d.current_sequence ≤ℤ d.sequence +ℤ pos 1
  pub bounded : d.sequence <ℤ pos (2 ^ 63 - 1)

pub next_number : (n : ℤ) → pos 0 ≤ℤ n → n <ℤ pos (2 ^ 63 - 1) → wrap64 (n +ℤ pos 1) ≡ n +ℤ pos 1
next_number n lo hi = wrap64_of_fits (n +ℤ pos 1) (omega int_laws) (omega int_laws)

pub draw-IsNumbered :
    (k : ℕ) (d : DoubleBuffer)
    → d.sequence <ℤ pos (2 ^ 63 - 2)
    → IsNumbered d
    → IsNumbered (draw_number k d)
unfolding draw_number waiting number_of
draw-IsNumbered k d room o = elim (times-take_at k d.spawned) [
  | inl e ↦ rw (e, draw_number) o
  | inr (b, rest, e, t) ↦
      let next =
        next_number d.sequence (omega (int_laws, o.ahead, o.started)) (omega (arith, room)) in
      rw (e, draw_number, next)
        (record {
          dense = λ n. ground (arith, o.dense n, o.ahead, +ℤ_parts d.sequence (pos 1));
          started = o.started;
          ahead = omega (int_laws, o.ahead);
          bounded = omega (int_laws, room);
        })
]

-- Taking out the buffer that is due.
pub found-IsNumbered :
    (d d' : DoubleBuffer) (heap : MinHeap) (buf : ℕ)
    → Perm ((d.current_sequence, buf) ∷ entries heap) (entries d.pending_heap)
    → d'.numbered ≡ d.numbered
    → d'.pending_heap ≡ heap
    → d'.sequence ≡ d.sequence
    → d'.current_sequence ≡ wrap64 (d.current_sequence +ℤ pos 1)
    → IsNumbered d
    → IsNumbered d'
unfolding waiting number_of
found-IsNumbered d d' heap buf same numbered pending sequence current o =
    let split : (n : ℤ)
        → once_if (eqb_ℤ d.current_sequence n) + number_of (bears n) (entries heap)
          ≡ number_of (bears n) (entries d.pending_heap) =
      λ n. number_of-perm (bears n) same in
    let due : d.current_sequence ≤ℤ d.sequence =
      ground (arith, split d.current_sequence, o.dense d.current_sequence) in
    let next : d'.current_sequence ≡ d.current_sequence +ℤ pos 1 =
      current
      ∙ next_number d.current_sequence (omega (int_laws, o.started))
          (omega (int_laws, due, o.bounded)) in
    record {
      dense = λ n.
          rw (numbered, pending, sequence, next)
            (ground (arith, split n, o.dense n, due, +ℤ_parts d.current_sequence (pos 1)));
      started = rw next (omega (int_laws, o.started));
      ahead = rw (next, sequence) (omega (int_laws, due));
      bounded = rw sequence o.bounded;
    }
