-- ===== src/Pools/Clean.antt =====
-- What a cleanup drops and what it keeps.
use mathlib.Core.List.{Mem, Mem-prop, Perm, mem-cons, mem-cons_self, mem-cons_of_mem, not-mem-nil}
use mathlib.Core.List.Perm
use mathlib.Core.Logic.Or
use chanjet.Common.Count.{number_of, number_of-perm}
use chanjet.Common.Exchange.{length-perm}
use chanjet.Common.{
  sym, ap, ◌∙◌, Bool-cases, inl, inr, ltb, ℕ, suc, ◌+◌, ◌-◌, ◌≤◌, ◌≡◌, refl, Bool, false, List, [],
  ◌∷◌, arith, length, min, ◌==◌, if◌then◌else◌,
}
use chanjet.Common.Int.{ℤ, pos, ◌-ℤ◌, ◌≤ℤ◌, ltb_ℤ}
use chanjet.Common.Dict.{lookup-insert, lookup-erase}
use chanjet.Buffer.{Ptr}
use chanjet.Pools.{
  MediumPool, medium_pool_ttl, put_medium, is_valid, release_medium, is_stale, clean,
  cleanup_medium, max_clean_counts,
}

module _ {ℓ} {V : Type ℓ} (done : V → Bool) where
  -- How many entries are done with, and the others.
  abbrev pub done_count : List (Ptr × V) → ℕ
  done_count [] = 0
  done_count ((p, v) ∷ m) = if done v then suc (done_count m) else done_count m

  abbrev pub live : List (Ptr × V) → List (Ptr × V)
  live [] = []
  live ((p, v) ∷ m) = if done v then live m else (p, v) ∷ live m

  pub live-clean : (count : ℕ) (m : List (Ptr × V)) → live (clean done count m) ≡ live m
  unfolding clean
  live-clean count [] = refl
  live-clean count ((p, v) ∷ m) = ground (arith, live-clean count m, live-clean (suc count) m)

  pub clean_count :
      (count : ℕ) (m : List (Ptr × V))
      → count ≤ 200
      → length (clean done count m) + min (done_count m) (201 - count) ≡ length m
  unfolding clean
  clean_count count [] h = omega arith
  clean_count count ((p, v) ∷ m) h = ground (arith, clean_count count m, clean_count (suc count) m)

  done_count-number_of :
      (m : List (Ptr × V)) → done_count m ≡ number_of (λ (e : Ptr × V). done e.1) m
  unfolding number_of
  done_count-number_of [] = refl
  done_count-number_of ((p, v) ∷ m) = ground (arith, done_count-number_of m)

  mem-live : (e : Ptr × V) (m : List (Ptr × V)) → Mem e m → done e.1 ≡ false → Mem e (live m)
  mem-live e [] h k = absurd (not-mem-nil h)
  mem-live e ((p, v) ∷ m) h k =
      Or.elim Mem-prop (mem-cons.0 h)
        (λ same.
          let here : done v ≡ false = ap (λ (x : Ptr × V). done x.1) (sym same) ∙ k in
          rw here (rw same mem-cons_self))
        (λ later. elim (Bool-cases (done v)) [
          | inl old ↦ rw old (mem-live e m later k)
          | inr new ↦ rw new (mem-cons_of_mem (p, v) (mem-live e m later k))
        ])

  live-mem : (e : Ptr × V) (m : List (Ptr × V)) → Mem e (live m) → Mem e m
  live-mem e [] h = h
  live-mem e ((p, v) ∷ m) h = elim (Bool-cases (done v)) [
    | inl old ↦ mem-cons_of_mem (p, v) (live-mem e m (rw old at h))
    | inr new ↦
        Or.elim Mem-prop (mem-cons.0 (rw new at h)) (λ same. rw same mem-cons_self)
          (λ later. mem-cons_of_mem (p, v) (live-mem e m later))
  ]

  clean-mem : (count : ℕ) (e : Ptr × V) (m : List (Ptr × V)) → Mem e (clean done count m) → Mem e m
  unfolding clean
  clean-mem count e [] h = h
  clean-mem count e ((p, v) ∷ m) h = elim (Bool-cases (done v)) [
    | inl old ↦ elim (Bool-cases (ltb max_clean_counts (suc count))) [
      | inl stop ↦ mem-cons_of_mem (p, v) (rw (old, stop) at h)
      | inr on ↦ mem-cons_of_mem (p, v) (clean-mem (suc count) e m (rw (old, on) at h))
    ]
    | inr new ↦
        Or.elim Mem-prop (mem-cons.0 (rw new at h)) (λ same. rw same mem-cons_self)
          (λ later. mem-cons_of_mem (p, v) (clean-mem count e m later))
  ]

-- A cleanup of the medium pool, in whatever order it walks the entries, keeps every entry that is
-- at most a minute old, adds none, and drops as many entries as are older, but at most 201.
pub cleanup_medium_lem :
    (order : MediumPool → MediumPool) (now : ℤ) (cache : MediumPool)
    → ((m : MediumPool) → Perm (order m) m)
    → let after = cleanup_medium order now cache in
      ((ptr : Ptr) (t : ℤ)
        → Mem (ptr, t) cache
        → now -ℤ t ≤ℤ pos 60_000_000_000
        → Mem (ptr, t) after)
      × ((ptr : Ptr) (t : ℤ) → Mem (ptr, t) after → Mem (ptr, t) cache)
      × (length after
            + min (number_of (λ (e : Ptr × ℤ). ltb_ℤ (pos 60_000_000_000) (now -ℤ e.1)) cache) 201
          ≡ length cache)
unfolding cleanup_medium
cleanup_medium_lem order now cache walks =
    let walk = walks cache in
    let done = is_stale now in
    (
      λ ptr t m young.
          let fresh : is_stale now t ≡ false = ground (arith, young) in
          live-mem done (ptr, t) (clean done 0 (order cache))
            (rw (live-clean done 0 (order cache))
              (mem-live done (ptr, t) (order cache) ((Perm.mem_iff walk).1 m) fresh)),
      λ ptr t m. (Perm.mem_iff walk).0 (clean-mem done 0 (ptr, t) (order cache) m),
      omega (
        arith,
        clean_count done 0 (order cache) (omega arith),
        done_count-number_of done (order cache),
        number_of-perm (λ (e : Ptr × ℤ). is_stale now e.1) walk,
        length-perm walk,
      ),
    )

-- An address is valid from the time it is put for less than two minutes, until it is put again or
-- released; neither call concerns another address.
is_valid_lem :
    (now t : ℤ) (p q : Ptr) (cache : MediumPool)
    → (is_valid now q (put_medium p t cache)
        ≡ (if p == q then ltb_ℤ (now -ℤ t) medium_pool_ttl else is_valid now q cache))
      × (is_valid now q (release_medium p cache) ≡ (if p == q then false else is_valid now q cache))
unfolding is_valid put_medium release_medium
is_valid_lem now t p q cache =
    (ground (arith, lookup-insert p q t cache), ground (arith, lookup-erase p q cache))
