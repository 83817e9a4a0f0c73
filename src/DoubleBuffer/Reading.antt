-- ===== src/DoubleBuffer/Reading.antt =====
-- What a reader does to a valid stream.
use chanjet.Common.{
  ◌≡◌, ◌≢◌, refl, sym, subst, Option, none, some, arith, ◌==◌, inl, inr, Bool-cases,
}
use chanjet.Common.Count.{number_of}
use chanjet.Common.Int.{ℤ, pos, eqb_ℤ, ltb_ℤ}
use chanjet.Common.Run.{Run, ok, err, panic}
use chanjet.Consts.ReadMode.{safe_read, zero_copy_read}
use chanjet.Buffer.{Ptr, nil, SmartBuffer, pop}
use chanjet.Pools.{LifeCycleManager}
use chanjet.DoubleBuffer.{DoubleBuffer, Store, put_buffer, large_data_threshold}
use chanjet.DoubleBuffer.Read.{
  Reading, slice_fails, after_safe_pop, after_zero_copy_pop, read_in, read_current, give_back,
}
use chanjet.DoubleBuffer.Ownership.{uses}
use chanjet.DoubleBuffer.Valid.{IsValid, both, PoolsOnly, IsValid-new_parts}
use chanjet.DoubleBuffer.Numbering.{waiting}

-- A read of the current buffer touches no other buffer, and of the rest only the pools.
pub record ReadHere (d d' : DoubleBuffer) : Type 0 where
  pub store : Store
  pub pm : LifeCycleManager
  pub rest : d' ≡ record d { store = store; pm = pm }
  pub kept : (a : Ptr) → d.current_buffer ≢ a → store a ≡ d.store a

ReadHere-rfl : (d : DoubleBuffer) → ReadHere d d
ReadHere-rfl d = record { store = d.store; pm = d.pm; rest = refl; kept = λ a h. refl }

pub after_safe_pop_lem :
    (now : ℤ) (d : DoubleBuffer) (r : Run (Ptr × ℤ)) → (after_safe_pop now d r).0 ≡ d
unfolding after_safe_pop
after_safe_pop_lem now d (ok (ptr, size)) =
    both (λ (r : Reading). r.0 ≡ d) (eqb_ℤ size (pos 0)) refl
      (both (λ (r : Reading). r.0 ≡ d) (slice_fails ptr size) refl refl)
after_safe_pop_lem now d (err e) = refl
after_safe_pop_lem now d panic = refl

pub after_zero_copy_pop_lem :
    (d : DoubleBuffer) (r : Run (Ptr × ℤ)) → PoolsOnly d (after_zero_copy_pop d r).0
unfolding after_zero_copy_pop
after_zero_copy_pop_lem d (ok (ptr, size)) =
    both (λ (r : Reading). PoolsOnly d r.0) (ptr == nil) (d.pm, refl)
      (both (λ (r : Reading). PoolsOnly d r.0) (slice_fails ptr size) (d.pm, refl)
        (both (PoolsOnly d) (ltb_ℤ large_data_threshold size) (_, refl) (d.pm, refl)))
after_zero_copy_pop_lem d (err e) = (d.pm, refl)
after_zero_copy_pop_lem d panic = (d.pm, refl)

popped_lem :
    (d : DoubleBuffer) (s : SmartBuffer) (d' : DoubleBuffer)
    → PoolsOnly (record d { store = put_buffer d.store d.current_buffer s }) d'
    → ReadHere d d'
popped_lem d s d' (pm, e) = record {
  store = put_buffer d.store d.current_buffer s;
  pm = pm;
  rest = e;
  kept = λ a h. ground arith;
}

read_in_lem : (mode : Option ℤ) (now : ℤ) (d : DoubleBuffer) → ReadHere d (read_in mode now d).0
unfolding read_in
read_in_lem none now d = ReadHere-rfl d
read_in_lem (some mode) now d =
    let (s, r) = pop (d.store d.current_buffer) in
    let popped : DoubleBuffer = record d { store = put_buffer d.store d.current_buffer s } in
    both (λ (r : Reading). ReadHere d r.0) (eqb_ℤ mode safe_read)
      (popped_lem d s (after_safe_pop now popped r).0 (d.pm, after_safe_pop_lem now popped r))
      (both (λ (r : Reading). ReadHere d r.0) (eqb_ℤ mode zero_copy_read)
        (popped_lem d s (after_zero_copy_pop popped r).0 (after_zero_copy_pop_lem popped r))
        (ReadHere-rfl d))

pub read_current_lem : (now : ℤ) (d : DoubleBuffer) → ReadHere d (read_current now d).0
unfolding read_current
read_current_lem now d = read_in_lem d.read_mode now d

pub ReadHere-IsValid : (d d' : DoubleBuffer) → ReadHere d d' → IsValid d → IsValid d'
ReadHere-IsValid d d' h v = subst IsValid (sym h.rest) (IsValid-new_parts d h.store h.pm d.count v)

pub give_back-IsValid : (d : DoubleBuffer) → IsValid d → IsValid (give_back d)
unfolding give_back uses waiting number_of
give_back-IsValid d v = elim (Bool-cases (d.current_buffer == nil)) [
  | inl none_here ↦ rw (none_here, give_back) v
  | inr here ↦
      rw (here, give_back)
        (record {
          owned = record {
            once = λ a. ground (arith, v.owned.once a, here);
            held = λ a h k. ground (arith, v.owned.held a h k, here);
            unused = λ a h. ground (arith, v.owned.unused a, here);
            real = ground (arith, v.owned.real, here);
            positive = v.owned.positive;
          };
          heap = v.heap;
          numbered = λ o. record {
            dense = (v.numbered o).dense;
            started = (v.numbered o).started;
            ahead = (v.numbered o).ahead;
            bounded = (v.numbered o).bounded;
          };
        })
]
