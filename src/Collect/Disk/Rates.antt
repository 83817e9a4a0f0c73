-- ===== src/Collect/Disk/Rates.antt =====
-- Which disks a collection reports rates of.
use Prim.Native.String.{String}
use text.Mathlib.Text.{◌==◌}
use text.Mathlib.TextEquality.{eq_iff}
use chanjet.Common.{
  ◌≡◌, refl, ap, ◌∙◌, subst, List, [], ◌∷◌, Option, none, some, if◌then◌else◌, inl, inr, Bool-cases,
  Option-cases, arith,
}
use chanjet.Collect.{Floating}
use chanjet.Common.Keyed.{value_at, value_at-assign}
use chanjet.Collect.Disk.{
  IoCounters, DiskIoStats, Disks, skips_disk, rates, with_previous, per_disk,
}

-- Each disk is listed once.
abbrev pub Once : Disks → Type 0
Once [] = Unit
Once ((name, c) ∷ cs) = (value_at cs name ≡ none) × Once cs

module _ {F : Type 0} (f : Floating F) (elapsed : F) where
  -- The rates of a disk with these counters now and before.
  unfoldable pub rates_of : String → Option IoCounters → Option IoCounters → Option (DiskIoStats F)
  rates_of name (some c) (some p) =
      if skips_disk name then none else some (rates f elapsed name c p)
  rates_of name _ _ = none

  abbrev pub or_else : Option (DiskIoStats F) → Option (DiskIoStats F) → Option (DiskIoStats F)
  or_else (some r) before = some r
  or_else none before = before

  or_else-none : (o : Option (DiskIoStats F)) → or_else o none ≡ o
  or_else-none none = refl
  or_else-none (some r) = refl

  head_lem :
      (prev : Disks) (name k : String) (c : IoCounters) (m : List (String × DiskIoStats F))
      → value_at
          (if skips_disk name then m else with_previous f elapsed name c (value_at prev name) m)
          k
        ≡ (if name == k
            then or_else (rates_of name (some c) (value_at prev name)) (value_at m k)
            else value_at m k)
  unfolding rates_of
  head_lem prev name k c m = elim (Option-cases (value_at prev name)) [
    | inl e ↦ rw e (ground arith)
    | inr (p, e) ↦ rw e (ground (arith, value_at-assign m name k (rates f elapsed name c p)))
  ]

  -- The map `m` with the rates of the disk `k` added.
  entry : String → Disks → Disks → List (String × DiskIoStats F) → Option (DiskIoStats F)
  entry k prev cs m = or_else (rates_of k (value_at cs k) (value_at prev k)) (value_at m k)

  cons_lem :
      (prev : Disks) (name k : String) (c : IoCounters) (cs : Disks)
      (before : Option (DiskIoStats F))
      → value_at cs name ≡ none
      → or_else (rates_of k (value_at cs k) (value_at prev k)) (
          if name == k
          then or_else (rates_of name (some c) (value_at prev name)) before
          else before)
        ≡ or_else
            (rates_of k (if name == k then some c else value_at cs k) (value_at prev k))
            before
  unfolding rates_of
  cons_lem prev name k c cs before once = elim (Bool-cases (name == k)) [
    | inl same ↦
        let eq = (eq_iff name k).0 same in
        let once' = subst (λ n. value_at cs n ≡ none) eq once in rw (same, eq, once') refl
    | inr other ↦ rw other refl
  ]

  entry-per_disk :
      (prev cs : Disks) (m : List (String × DiskIoStats F)) (k : String)
      → Once cs
      → value_at (per_disk f elapsed prev cs m) k ≡ entry k prev cs m
  unfolding per_disk value_at entry rates_of
  entry-per_disk prev [] m k once = refl
  entry-per_disk prev ((name, c) ∷ cs) m k (new, once) =
      let rest =
        entry-per_disk prev cs
          (if skips_disk name then m else with_previous f elapsed name c (value_at prev name) m) k
          once in
      rest
      ∙ ap (or_else (rates_of k (value_at cs k) (value_at prev k))) (head_lem prev name k c m)
      ∙ cons_lem prev name k c cs (value_at m k) new

  -- When each disk is listed once in the current counters, a disk has rates exactly when it is not
  -- skipped and has counters now and before, and then they are the rates from these two.
  pub per_disk_lem :
      (prev current : Disks)
      → Once current
      → (name : String)
      → value_at (per_disk f elapsed prev current []) name
        ≡ rates_of name (value_at current name) (value_at prev name)
  unfolding entry value_at
  per_disk_lem prev current once name =
      entry-per_disk prev current [] name once
      ∙ or_else-none (rates_of name (value_at current name) (value_at prev name))
