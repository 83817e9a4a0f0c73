-- ===== src/Collect/Disk/Partitions.antt =====
-- Which partitions a collection reports.
use Prim.Native.String.{String}
use chanjet.Common.{
  suc, ◌+◌, ◌≡◌, refl, Bool, true, false, not, List, [], ◌∷◌, ◌++◌, Option, length, length-append,
  All, if◌then◌else◌, inl, inr, Bool-cases, Option-cases, arith,
}
use chanjet.Common.Count.{number_of}
use chanjet.Collect.Disk.{
  PartitionStat, UsageStat, PartitionState, one_of, skip_fs_types, skip_mounts, is_virtual,
  should_skip_partition, add_partition, add_partitions,
}

third_test :
    (a b c d : Bool)
    → (if a then true else if b then true else if c then true else d) ≡ false
    → c ≡ false
third_test true b c d h = absurd (cc)
third_test false true c d h = absurd (cc)
third_test false false true d h = absurd (cc)
third_test false false false d h = refl

skip-ro : (p : PartitionStat) → should_skip_partition p ≡ false → one_of "ro" p.opts ≡ false
unfolding should_skip_partition
skip-ro p h =
    third_test (one_of p.fstype skip_fs_types) (one_of p.mountpoint skip_mounts)
      (one_of "ro" p.opts) (is_virtual p) h

module _ {F : Type 0} (usage : String → Option (UsageStat F)) where
  abbrev Collected : Type 0
  Collected = List (PartitionState F) × List String

  AllWritable : List (PartitionState F) → Type 0
  AllWritable = All (λ s. s.read_only ≡ false)

  All-append :
      (xs ys : List (PartitionState F)) → AllWritable xs → AllWritable ys → AllWritable (xs ++ ys)
  unfolding AllWritable
  All-append [] ys hx hy = hy
  All-append (x ∷ xs) ys (h, hx) hy = (h, All-append xs ys hx hy)

  -- Each partition that is not skipped adds one state, which is writable, or one error.
  add_one :
      (p : PartitionStat) (r : Collected)
      → should_skip_partition p ≡ false
      → AllWritable r.0
      → AllWritable (add_partition usage p r).0
        × (length (add_partition usage p r).0 + length (add_partition usage p r).1
            ≡ suc (length r.0 + length r.1))
  unfolding add_partition AllWritable
  add_one p (states, errors) h w = elim (Option-cases (usage p.mountpoint)) [
    | inl e ↦ rw (e, add_partition) (w, omega (arith, length-append errors (_ ∷ [])))
    | inr (u, e) ↦
        rw (e, add_partition)
          (
            All-append states (_ ∷ []) w (skip-ro p h, tt),
            omega (arith, length-append states (_ ∷ [])),
          )
  ]

  add_lem :
      (ps : List PartitionStat) (r : Collected)
      → AllWritable r.0
      → AllWritable (add_partitions usage ps r).0
        × (length (add_partitions usage ps r).0 + length (add_partitions usage ps r).1
            ≡ number_of (λ p. not (should_skip_partition p)) ps + (length r.0 + length r.1))
  unfolding add_partitions number_of
  add_lem [] r w = (w, omega arith)
  add_lem (p ∷ ps) r w = elim (Bool-cases (should_skip_partition p)) [
    | inl skip ↦ let (w', n) = add_lem ps r w in rw (skip, add_partitions) (w', omega (arith, n))
    | inr keep ↦
        let (w', n) = add_one p r keep w in
        let (w'', n') = add_lem ps (add_partition usage p r) w' in
        rw (keep, add_partitions) (w'', omega (arith, n, n'))
  ]

  -- Each partition that is not skipped gives one state or one error, and no state says read-only:
  -- the partitions mounted so are skipped.
  pub partitions_lem :
      (ps : List PartitionStat)
      → let (states, errors) = add_partitions usage ps ([], []) in
        All (λ s. s.read_only ≡ false) states
        × (length states + length errors ≡ number_of (λ p. not (should_skip_partition p)) ps)
  unfolding AllWritable
  partitions_lem ps = let (w, n) = add_lem ps ([], []) tt in (w, omega (arith, n))
