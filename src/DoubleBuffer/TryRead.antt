-- ===== src/DoubleBuffer/TryRead.antt =====
-- `tryRead` on a valid stream.
use chanjet.Common.{
  ◌+◌, ◌≡◌, refl, Bool, true, false, ◌||◌, Option, some, arith, ◌==◌, inl, inr, Bool-cases,
}
use chanjet.Common.Count.{number_of, number_of-perm}
use chanjet.Common.Int.{ℤ, pos, ◌+ℤ◌, eqb_ℤ, wrap64}
use chanjet.Common.Run.{err, no_buffer}
use chanjet.Buffer.{Ptr, nil, len}
use chanjet.MinHeap.Swap.{entries}
use chanjet.DoubleBuffer.{DoubleBuffer}
use chanjet.DoubleBuffer.Read.{
  Reading, read_current, give_back, after_pick, max_retires, pick_rounds, pick_buffer_from_heap,
  try_read,
}
use chanjet.DoubleBuffer.Outcome.{Found, Missed, Outcome, pick_rounds_lem}
use chanjet.DoubleBuffer.Ownership.{holds, once_if, uses, IsOwned-of_uses}
use chanjet.DoubleBuffer.Valid.{IsValid, both}
use chanjet.DoubleBuffer.Numbering.{bears, waiting, found-IsNumbered}
use chanjet.DoubleBuffer.Reading.{read_current_lem, ReadHere-IsValid, give_back-IsValid}

pub found-IsValid :
    (d : DoubleBuffer) (r : Option (Bool × DoubleBuffer)) (f : Found d r)
    → d.current_buffer ≡ nil
    → IsValid d
    → IsValid (record d {
      pending_heap = f.heap;
      current_buffer = f.buf;
      current_sequence = wrap64 (d.current_sequence +ℤ pos 1);
    })
unfolding uses number_of
found-IsValid d r f e v =
    let d' : DoubleBuffer = record d {
      pending_heap = f.heap;
      current_buffer = f.buf;
      current_sequence = wrap64 (d.current_sequence +ℤ pos 1);
    } in
    let taken : (a : Ptr)
        → once_if (f.buf == a) + number_of (holds a) (entries f.heap)
          ≡ number_of (holds a) (entries d.pending_heap) =
      λ a. number_of-perm (holds a) f.same in
    record {
      owned =
          IsOwned-of_uses d d' refl (λ a. ground (arith, taken a, taken nil, v.owned.real, e))
            v.owned;
      heap = f.valid;
      numbered = λ o. found-IsNumbered d d' f.heap f.buf f.same refl refl refl refl (v.numbered o);
    }

pub missed-IsValid :
    (d : DoubleBuffer) (r : Option (Bool × DoubleBuffer)) (f : Missed d r)
    → IsValid d
    → IsValid (record d { pending_heap = f.heap })
unfolding uses waiting
missed-IsValid d r f v = record {
  owned =
      IsOwned-of_uses d (record d { pending_heap = f.heap }) refl
        (λ a. omega (arith, number_of-perm (holds a) f.same)) v.owned;
  heap = f.valid;
  numbered = λ o.
      let n = v.numbered o in
      record {
        dense = λ k. omega (arith, n.dense k, number_of-perm (bears k) f.same);
        started = n.started;
        ahead = n.ahead;
        bounded = n.bounded;
      };
}

-- A read that ends with a result and a valid stream.
pub record Ended (r : Option Reading) : Type 0 where
  pub result : Reading
  pub ended : r ≡ some result
  pub valid : IsValid result.0

Ended-here : (now : ℤ) (d : DoubleBuffer) → IsValid d → Ended (some (read_current now d))
Ended-here now d v = record {
  result = read_current now d;
  ended = refl;
  valid = ReadHere-IsValid d (read_current now d).0 (read_current_lem now d) v;
}

Ended-picked :
    (now : ℤ) (b : Bool) (d : DoubleBuffer) → IsValid d → Ended (after_pick now (some (b, d)))
unfolding after_pick
Ended-picked now true d v = Ended-here now d v
Ended-picked now false d v = record { result = (d, err no_buffer); ended = refl; valid = v }

pub give_back-empty : (d : DoubleBuffer) → (give_back d).current_buffer ≡ nil
unfolding give_back
give_back-empty d = elim (Bool-cases (d.current_buffer == nil)) [
  | inl none_here ↦ rw (none_here, give_back) (ground arith)
  | inr here ↦ rw (here, give_back)
]

Ended-Outcome :
    (now : ℤ) (d : DoubleBuffer) (r : Option (Bool × DoubleBuffer))
    → IsValid d
    → d.current_buffer ≡ nil
    → Outcome d r
    → Ended (after_pick now r)
Ended-Outcome now d r v e (inl f) = rw f.ended (Ended-picked now _ _ (found-IsValid d r f e v))
Ended-Outcome now d r v e (inr f) = rw f.ended (Ended-picked now _ _ (missed-IsValid d r f v))

-- `tryRead` on a valid stream ends, in whatever mode, with a result, an error or a panic, and leaves
-- a valid stream.
pub try_read_ends : (now : ℤ) (d : DoubleBuffer) → IsValid d → Ended (try_read now d)
unfolding try_read pick_buffer_from_heap
try_read_ends now d v =
    let back = give_back-IsValid d v in
    both Ended (d.current_buffer == nil || eqb_ℤ (len (d.store d.current_buffer)) (pos 0))
      (Ended-Outcome now (give_back d) (pick_rounds max_retires (give_back d)) back
        (give_back-empty d)
        (pick_rounds_lem max_retires (give_back d) back.heap (give_back-empty d)))
      (Ended-here now d v)
