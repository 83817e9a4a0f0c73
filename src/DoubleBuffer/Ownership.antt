-- ===== src/DoubleBuffer/Ownership.antt =====
-- Who holds each smart buffer: the writers, the reader, a goroutine, the pending heap or the pool.
use chanjet.Common.{
  ℕ, zero, suc, ◌+◌, ◌≤◌, ◌<◌, ◌≡◌, refl, Bool, List, [], ◌∷◌, none, some, arith, ◌==◌,
  if◌then◌else◌, ◌⊎◌, inl, inr,
}
use chanjet.Common.Count.{number_of}
use chanjet.Consts.{closed_state}
use chanjet.Buffer.{Ptr, nil}
use chanjet.MinHeap.Swap.{Entry, entries}
use chanjet.Waiters.{take_at}
use chanjet.DoubleBuffer.{DoubleBuffer, take_entry}

abbrev pub is_at : Ptr → Ptr → Bool
is_at a b = b == a

abbrev pub holds : Ptr → Entry → Bool
holds a e = e.1 == a

abbrev pub times : Ptr → List Ptr → ℕ
times a xs = number_of (is_at a) xs

abbrev pub once_if : Bool → ℕ
once_if b = if b then 1 else 0

-- How many places hold the address `a`. A closed stream has no active and no passive buffer: both
-- are in the pool.
unfoldable pub uses : Ptr → DoubleBuffer → ℕ
uses a d =
    (if d.state == closed_state then 0 else once_if (d.active == a) + once_if (d.passive == a))
    + (if d.current_buffer == nil then 0 else once_if (d.current_buffer == a))
    + times a d.spawned
    + number_of (holds a) d.numbered
    + number_of (holds a) (entries d.pending_heap)
    + times a d.pool

-- Each address in use has one holder, no fewer and no more; nil and the addresses from `fresh` on are
-- not in use.
pub record IsOwned (d : DoubleBuffer) : Type 0 where
  pub once : (a : Ptr) → uses a d ≤ 1
  pub held : (a : Ptr) → 0 < a → a < d.fresh → uses a d ≡ 1
  pub unused : (a : Ptr) → d.fresh ≤ a → uses a d ≡ 0
  pub real : uses nil d ≡ 0
  pub positive : 0 < d.fresh

-- Each address has as many places as before.
pub IsOwned-of_uses :
    (d d' : DoubleBuffer)
    → d'.fresh ≡ d.fresh
    → ((a : Ptr) → uses a d' ≡ uses a d)
    → IsOwned d
    → IsOwned d'
IsOwned-of_uses d d' e u o = record {
  once = λ a. omega (arith, u a, o.once a);
  held = λ a h k. omega (arith, u a, o.held a h (omega arith));
  unused = λ a h. omega (arith, u a, o.unused a (omega arith));
  real = omega (arith, u nil, o.real);
  positive = omega (arith, o.positive);
}

pub times-take_at :
    (k : ℕ) (xs : List Ptr)
    → (take_at k xs ≡ none)
      ⊎ ((b : Ptr) × (rest : List Ptr) × (take_at k xs ≡ some (b, rest))
          × ((a : Ptr) → times a xs ≡ once_if (b == a) + times a rest))
unfolding take_at number_of
times-take_at k [] = inl refl
times-take_at zero (x ∷ xs) = inr (x, xs, refl, λ a. refl)
times-take_at (suc k) (x ∷ xs) = elim (times-take_at k xs) [
  | inl e ↦ inl (rw e)
  | inr (b, rest, e, t) ↦ inr (b, x ∷ rest, rw e, λ a. omega (arith, t a))
]

pub number_of-take_entry :
    (k : ℕ) (es : List Entry)
    → (take_entry k es ≡ none)
      ⊎ ((e : Entry) × (rest : List Entry) × (take_entry k es ≡ some (e, rest))
          × ((p : Entry → Bool) → number_of p es ≡ once_if (p e) + number_of p rest))
unfolding number_of
number_of-take_entry k [] = inl refl
number_of-take_entry zero (x ∷ es) = inr (x, es, refl, λ p. refl)
number_of-take_entry (suc k) (x ∷ es) = elim (number_of-take_entry k es) [
  | inl e ↦ inl (rw e)
  | inr (b, rest, e, t) ↦ inr (b, x ∷ rest, rw e, λ p. omega (arith, t p))
]
