-- ===== src/Pools/Accounts.antt =====
-- The size that the big data pool counts, against the sizes of its entries.
use mathlib.Core.List.{Perm, Permᴰ}
use mathlib.Core.Logic.{∥∥₁_elim}
use chanjet.Common.{
  ℕ, suc, ◌≡◌, refl, sym, subst, ap, ap₂, ◌∙◌, List, [], ◌∷◌, Option, none, some, arith, ◌==◌,
  if◌then◌else◌, Bool-cases, Option-cases, ltb, inl, inr,
}
use chanjet.Common.Int.{
  ℤ, pos, pos_part, neg_part, ◌+ℤ◌, ◌-ℤ◌, wrap64, wrap64-add_left, int_laws, ℤ_set, +ℤ_comm,
  +ℤ_assoc,
}
use chanjet.Common.Dict.{lookup, erase, insert}
use chanjet.Buffer.{Ptr}
use chanjet.Pools.{
  BigDataEntry, BigDataPool, put_big, release_big, free, cleanup_big, clean, is_unused,
  max_clean_counts,
}

abbrev pub Entries : Type 0
Entries = List (Ptr × BigDataEntry)

-- The sum of the sizes.
unfoldable pub total : Entries → ℤ
total [] = pos 0
total ((p, e) ∷ m) = e.size +ℤ total m

-- Each address has one entry.
abbrev pub Once : Entries → Type 0
Once [] = Unit
Once ((p, e) ∷ m) = (lookup p m ≡ none) × Once m

abbrev pub size_at : Option BigDataEntry → ℤ
size_at none = pos 0
size_at (some e) = e.size

erase-absent : (p : Ptr) (m : Entries) → lookup p m ≡ none → erase p m ≡ m
unfolding lookup erase
erase-absent p [] h = refl
erase-absent p ((q, e) ∷ m) h = ground (arith, erase-absent p m)

total-erase : (p : Ptr) (m : Entries) → Once m → total (erase p m) +ℤ size_at (lookup p m) ≡ total m
unfolding total lookup erase
total-erase p [] h = omega int_laws
total-erase p ((q, e) ∷ m) h = elim (Bool-cases (q == p)) [
  | inl same ↦
      let at_head : q ≡ p = ground arith in
      let absent : lookup p m ≡ none = subst (λ r. lookup r m ≡ none) at_head h.0 in
      rw (same, erase-absent p m absent) (+ℤ_comm (total m) e.size)
  | inr other ↦ rw other (
      +ℤ_assoc e.size (total (erase p m)) (size_at (lookup p m))
      ∙ ap (λ t. e.size +ℤ t) (total-erase p m h.1))
]

-- What is counted beyond the sizes of the entries, modulo 2^64.
abbrev pub Excess : ℤ → BigDataPool → Type 0
Excess x b = b.current_size ≡ wrap64 (total b.pool +ℤ x)

-- The counted size after an addition.
Excess-add :
    (x y : ℤ) (d : ℤ) (b : BigDataPool)
    → Excess x b
    → total b.pool +ℤ x +ℤ d ≡ y
    → wrap64 (b.current_size +ℤ d) ≡ wrap64 y
Excess-add x y d b e h =
    ap (λ t. wrap64 (t +ℤ d)) e ∙ wrap64-add_left (total b.pool +ℤ x) d ∙ ap wrap64 h

Excess-put :
    (p : Ptr) (size x : ℤ) (b : BigDataPool)
    → Once b.pool
    → Excess x b
    → Excess (x +ℤ size_at (lookup p b.pool)) (put_big p size b)
unfolding put_big insert total
Excess-put p size x b h e =
    let whole = total-erase p b.pool h in
    Excess-add x _ size b e (omega (int_laws, ap pos_part whole, ap neg_part whole))

Excess-release :
    (p : Ptr) (x : ℤ) (b : BigDataPool) → Once b.pool → Excess x b → Excess x (release_big p b)
unfolding release_big insert total
Excess-release p x b h e = elim (Option-cases (lookup p b.pool)) [
  | inl absent ↦ rw (absent, release_big) e
  | inr (entry, found) ↦
      let whole = rw found at (total-erase p b.pool h) in
      let same : total b.pool +ℤ x ≡ entry.size +ℤ total (erase p b.pool) +ℤ x =
        omega (int_laws, ap pos_part whole, ap neg_part whole) in
      rw (found, release_big) (e ∙ ap wrap64 same)
]

-- What a `Free` with `size` leaves counted of an entry.
abbrev pub unfreed : ℤ → Option BigDataEntry → ℤ
unfreed size none = pos 0
unfreed size (some e) = e.size -ℤ size

Excess-free :
    (p : Ptr) (size x : ℤ) (b : BigDataPool)
    → Once b.pool
    → Excess x b
    → Excess (x +ℤ unfreed size (lookup p b.pool)) (free p size b)
unfolding free
Excess-free p size x b h e = elim (Option-cases (lookup p b.pool)) [
  | inl absent ↦
      let same : total b.pool +ℤ x ≡ total b.pool +ℤ (x +ℤ pos 0) = omega int_laws in
      rw (absent, free) (e ∙ ap wrap64 same)
  | inr (entry, found) ↦
      let whole = rw found at (total-erase p b.pool h) in
      let less : b.current_size -ℤ size ≡ b.current_size +ℤ (pos 0 -ℤ size) = omega int_laws in
      rw (found, free)
        (ap wrap64 less
          ∙ Excess-add x _ (pos 0 -ℤ size) b e
              (omega (int_laws, ap pos_part whole, ap neg_part whole)))
]

-- Where the counted size of the big data pool is, modulo 2^64, the sum of the sizes of its
-- entries and x, and each address has one entry, it is that sum and x after Release; after Put it
-- is the new sum, x and the size of the entry that Put replaced; after Free the new sum, x and,
-- of an entry that it removed, the difference between its size and the size given to Free.
pub Excess-kept :
    (p : Ptr) (size x : ℤ) (b : BigDataPool)
    → Once b.pool
    → Excess x b
    → Excess (x +ℤ size_at (lookup p b.pool)) (put_big p size b)
      × Excess x (release_big p b)
      × Excess (x +ℤ unfreed size (lookup p b.pool)) (free p size b)
Excess-kept p size x b h e =
    (Excess-put p size x b h e, Excess-release p x b h e, Excess-free p size x b h e)

-- The sizes of the entries that a cleanup drops.
unfoldable pub dropped : ℕ → Entries → ℤ
dropped count [] = pos 0
dropped count ((p, e) ∷ m) =
    let more = e.size +ℤ dropped (suc count) m in
    let kept = dropped count m in
    if is_unused e then (if ltb max_clean_counts (suc count) then e.size else more) else kept

total-clean :
    (count : ℕ) (m : Entries) → total (clean is_unused count m) +ℤ dropped count m ≡ total m
unfolding total clean dropped
total-clean count [] = omega int_laws
total-clean count ((p, e) ∷ m) = elim (Bool-cases (is_unused e)) [
  | inl unused ↦ elim (Bool-cases (ltb max_clean_counts (suc count))) [
    | inl stop ↦ rw (unused, stop) (+ℤ_comm (total m) e.size)
    | inr on ↦
        let rest = total-clean (suc count) m in
        rw (unused, on) (omega (int_laws, ap pos_part rest, ap neg_part rest))
  ]
  | inr used ↦ rw used (
      +ℤ_assoc e.size (total (clean is_unused count m)) (dropped count m)
      ∙ ap (λ t. e.size +ℤ t) (total-clean count m))
]

+ℤ_swap : (a b c : ℤ) → a +ℤ (b +ℤ c) ≡ b +ℤ (a +ℤ c)
+ℤ_swap a b c = sym (+ℤ_assoc a b c) ∙ ap (λ t. t +ℤ c) (+ℤ_comm a b) ∙ +ℤ_assoc b a c

total-permᴰ : {m n : Entries} → Permᴰ m n → total m ≡ total n
unfolding total
total-permᴰ Permᴰ.nil = refl
total-permᴰ (Permᴰ.cons e r) = ap₂ (λ (x : Ptr × BigDataEntry) t. x.1.size +ℤ t) e (total-permᴰ r)
total-permᴰ (Permᴰ.swap {a} {b} {a'} {b'} {l} e f) =
    let first = ap (λ (x : Ptr × BigDataEntry). x.1.size) e in
    let second = ap (λ (x : Ptr × BigDataEntry). x.1.size) f in
    rw (first, second) (+ℤ_swap b'.1.size a'.1.size (total l))
total-permᴰ (Permᴰ.trans r s) = total-permᴰ r ∙ total-permᴰ s

total-perm : {m n : Entries} → Perm m n → total m ≡ total n
total-perm r = ∥∥₁_elim r (ℤ_set _ _) total-permᴰ

-- A cleanup of the big data pool, in whatever order it walks the entries, keeps the counted size
-- as it is, so the excess of it over the sizes of the entries, modulo 2^64, grows by the sizes of
-- the dropped ones.
pub cleanup-Excess :
    (order : Entries → Entries) (x : ℤ) (b : BigDataPool)
    → ((m : Entries) → Perm (order m) m)
    → Excess x b
    → Excess (x +ℤ dropped 0 (order b.pool)) (cleanup_big order b)
unfolding cleanup_big
cleanup-Excess order x b walks e =
    let rest = total-clean 0 (order b.pool) ∙ total-perm (walks b.pool) in
    e ∙ ap wrap64 (omega (int_laws, ap pos_part rest, ap neg_part rest))
