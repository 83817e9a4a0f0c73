-- ===== src/Buffer/Overlap/Bound.antt =====
-- How far overlapping calls of `Push` overfill a buffer.
use chanjet.Common.{
  ℕ, zero, suc, ◌+◌, ◌^◌, ◌≤◌, ◌<◌, ◌≡◌, refl, ap, Bool, true, false, List, [], ◌∷◌, map, length,
  arith, ◌==◌, if◌then◌else◌, inl, inr, Bool-cases, Option-cases,
}
use chanjet.Common.Count.{number_of}
use chanjet.Common.Int.{pos, leb_ℤ, eqb_ℤ}
use chanjet.Consts.{read_only}
use chanjet.Buffer.Ring.{count_up}
use chanjet.Buffer.{BufferItem, SmartBuffer, calc_pos, load}
use chanjet.Buffer.Overlap.{
  PushAt, starting, open_seen, full_seen, room_seen, head_seen, claimed, filled, pushed, push_step,
  Crowd, step_among, schedule,
}

-- Whether a `Push` has found room and has not yet counted its item.
abbrev is_inside : BufferItem × PushAt → Bool
is_inside (x, starting) = false
is_inside (x, open_seen) = false
is_inside (x, full_seen) = false
is_inside (x, room_seen) = true
is_inside (x, head_seen h) = true
is_inside (x, claimed h) = true
is_inside (x, filled) = true
is_inside (x, pushed r) = false

abbrev inside : BufferItem → PushAt → ℕ
inside x at = if is_inside (x, at) then 1 else 0

-- `others` goroutines besides are inside, and the count with all that are inside is below `limit`.
record Below (limit others : ℕ) (cap : ℕ) (n_inside : ℕ) (s : SmartBuffer) : Type 0 where
  n : ℕ
  counted : s.count ≡ pos n
  below : n + n_inside + others < limit
  same : s.capacity ≡ cap

module _ (cap crowd others : ℕ) (few : others < crowd) (small : cap + crowd ≤ 2 ^ 31) where
  push_step-Below :
      (x : BufferItem) (at : PushAt) (s : SmartBuffer)
      → Below (cap + crowd) others cap (inside x at) s
      → Below (cap + crowd) others cap (inside x (push_step x at s).0) (push_step x at s).1
  unfolding push_step
  push_step-Below x starting s b = elim (Bool-cases (s.state == read_only)) [
    | inl e ↦ rw e b
    | inr e ↦ rw e b
  ]
  push_step-Below x open_seen s b = elim (Bool-cases (leb_ℤ (pos s.capacity) s.count)) [
    | inl e ↦ rw e b
    | inr e ↦
        let room : b.n < cap = ground (arith, e, b.counted, b.same) in
        rw e (record { n = b.n; counted = b.counted; below = omega arith; same = b.same })
  ]
  push_step-Below x full_seen s b = record {
    n = b.n;
    counted = b.counted;
    below = b.below;
    same = b.same;
  }
  push_step-Below x room_seen s b = b
  push_step-Below x (head_seen h) s b = elim (Bool-cases (eqb_ℤ s.head h)) [
    | inl e ↦ rw e (record { n = b.n; counted = b.counted; below = b.below; same = b.same })
    | inr e ↦
        rw e
          (record { n = b.n; counted = b.counted; below = omega (arith, b.below); same = b.same })
  ]
  push_step-Below x (claimed h) s b = elim (Option-cases (load s.buf (calc_pos s.capacity h))) [
    | inl e ↦
        rw (e, push_step)
          (record { n = b.n; counted = b.counted; below = omega (arith, b.below); same = b.same })
    | inr (y, e) ↦
        rw (e, push_step) (record { n = b.n; counted = b.counted; below = b.below; same = b.same })
  ]
  push_step-Below x filled s b = record {
    n = suc b.n;
    counted = rw b.counted (count_up b.n (omega (arith, b.below)));
    below = omega (arith, b.below);
    same = b.same;
  }
  push_step-Below x (pushed r) s b = b

all_inside : List (BufferItem × PushAt) → ℕ
all_inside ps = number_of is_inside ps

inside-le_one : (x : BufferItem) (at : PushAt) → inside x at ≤ 1
inside-le_one x at = ground arith

all_inside-le : (ps : List (BufferItem × PushAt)) → all_inside ps ≤ length ps
unfolding all_inside number_of
all_inside-le [] = omega arith
all_inside-le ((x, at) ∷ ps) = omega (arith, inside-le_one x at, all_inside-le ps)

regroup :
    {limit others cap k : ℕ} {s : SmartBuffer} (others' k' : ℕ)
    → k + others ≡ k' + others'
    → Below limit others cap k s
    → Below limit others' cap k' s
regroup others' k' e b = record {
  n = b.n;
  counted = b.counted;
  below = omega (arith, b.below);
  same = b.same;
}

module _ (cap crowd : ℕ) (small : cap + crowd ≤ 2 ^ 31) where
  step_among-Below :
      (k others : ℕ) (ps : List (BufferItem × PushAt)) (s : SmartBuffer)
      → length ps + others ≤ crowd
      → Below (cap + crowd) others cap (all_inside ps) s
      → Below (cap + crowd) others cap (all_inside (step_among k ps s).0) (step_among k ps s).1
        × (length (step_among k ps s).0 ≡ length ps)
  unfolding step_among all_inside number_of
  step_among-Below k others [] s few b = (b, refl)
  step_among-Below zero others ((x, at) ∷ rest) s few b =
      let alone =
        push_step-Below cap crowd (others + all_inside rest)
          (omega (arith, few, all_inside-le rest)) small x at s
          (regroup (others + all_inside rest) (inside x at) (omega arith) b) in
      (regroup others (inside x (push_step x at s).0 + all_inside rest) (omega arith) alone, refl)
  step_among-Below (suc k) others ((x, at) ∷ rest) s few b =
      let (later, same) =
        step_among-Below k (others + inside x at) rest s (omega (arith, few, inside-le_one x at))
          (regroup (others + inside x at) (all_inside rest) (omega arith) b) in
      (
        regroup others (inside x at + all_inside (step_among k rest s).0) (omega arith) later,
        ap suc same,
      )

  schedule-Below :
      (ks : List ℕ) (c : Crowd)
      → length c.pushers ≤ crowd
      → Below (cap + crowd) 0 cap (all_inside c.pushers) c.buffer
      → Below (cap + crowd) 0 cap (all_inside (schedule ks c).pushers) (schedule ks c).buffer
  unfolding schedule
  schedule-Below [] c few b = b
  schedule-Below (k ∷ ks) c few b =
      let (next, same) = step_among-Below k 0 c.pushers c.buffer (omega (arith, few)) b in
      schedule-Below ks _ (omega (arith, same)) next

-- The goroutines before their first operation.
abbrev pub newcomers : List BufferItem → List (BufferItem × PushAt)
newcomers xs = map (λ x. (x, starting)) xs

newcomers_lem :
    (xs : List BufferItem) → (length (newcomers xs) ≡ length xs) × (all_inside (newcomers xs) ≡ 0)
unfolding all_inside number_of
newcomers_lem [] = (refl, refl)
newcomers_lem (x ∷ xs) = let l = newcomers_lem xs in (omega (arith, l.0), omega (arith, l.1))

-- However the operations of some calls of `Push` interleave, on a buffer with at most as many
-- items as slots, its count stays below the capacity plus the number of the calls, if that is
-- at most 2^31.
pub overlapping_bound :
    (x : BufferItem) (xs : List BufferItem) (n : ℕ) (s : SmartBuffer) (ks : List ℕ)
    → s.count ≡ pos n
    → n ≤ s.capacity
    → s.capacity + length (x ∷ xs) ≤ 2 ^ 31
    → let after = schedule ks (record { buffer = s; pushers = newcomers (x ∷ xs) }) in
      (m : ℕ) × (after.buffer.count ≡ pos m)
      × (m < s.capacity + length (x ∷ xs))
      × (after.buffer.capacity ≡ s.capacity)
overlapping_bound x xs n s ks counted room small =
    let l = newcomers_lem (x ∷ xs) in
    let b =
      schedule-Below s.capacity (length (x ∷ xs)) small ks
        (record { buffer = s; pushers = newcomers (x ∷ xs) }) (omega (arith, l.0))
        (record { n = n; counted = counted; below = omega (arith, l.1); same = refl }) in
    (b.n, b.counted, omega (arith, b.below), b.same)
