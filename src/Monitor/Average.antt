-- ===== src/Monitor/Average.antt =====
-- The bookkeeping of collections.
use mathlib.Core.List.{append-nil, append_assoc}
use chanjet.Common.{
  ℕ, zero, suc, ◌+◌, ◌-◌, ◌%◌, ◌^◌, ◌≤◌, ◌<◌, ◌≡◌, refl, sym, ap, subst, ◌∙◌, List, [], ◌∷◌, ◌++◌,
  length, take, length-append, if◌then◌else◌, inl, inr, Bool-cases, ◌==◌, arith,
}
use chanjet.Common.Int.{ℤ, pos, ◌+ℤ◌, rem, wrap64, wrap64_of_fits, int_laws}
use chanjet.Monitor.{Meta, new_meta, mean, succeed, time_out}

-- How a collection ends, and when: in a number of milliseconds, or too late.
pub data Ending : Type 0 where
  in_time too_late : ℤ → ℤ → Ending

unfoldable pub record_ending : Ending → Meta → Meta
record_ending (in_time taken now) m = succeed taken now m
record_ending (too_late taken now) m = time_out now m

unfoldable pub run : List Ending → Meta → Meta
unfolding record_ending
run [] m = m
run (e ∷ es) m = run es (record_ending e m)

-- The durations of the collections that ended in time.
unfoldable pub durations : List Ending → List ℤ
durations [] = []
durations (in_time taken now ∷ es) = taken ∷ durations es
durations (too_late taken now ∷ es) = durations es

-- The largest multiple of five up to `n`.
abbrev pub fives : ℕ → ℕ
fives n = n - n % 5

-- The queue holds all durations, the count is their number, and the average is the mean of the first
-- fives of them, or 0.
pub record Booked (ds : List ℤ) (m : Meta) : Type 0 where
  pub queue : m.time_taken_queue ≡ ds
  pub count : m.success_count ≡ pos (length ds)
  pub average :
      m.average_time_taken
      ≡ (if fives (length ds) == 0 then pos 0 else mean (take (fives (length ds)) ds))

take-append : (n : ℕ) (xs ys : List ℤ) → n ≤ length xs → take n (xs ++ ys) ≡ take n xs
take-append zero xs ys h = refl
take-append (suc n) [] ys h = absurd (omega arith)
take-append (suc n) (x ∷ xs) ys h = ap (◌∷◌ x) (take-append n xs ys (omega arith))

take-all : (n : ℕ) (xs : List ℤ) → n ≡ length xs → take n xs ≡ xs
take-all zero [] h = refl
take-all zero (x ∷ xs) h = absurd (omega arith)
take-all (suc n) [] h = refl
take-all (suc n) (x ∷ xs) h = ap (◌∷◌ x) (take-all n xs (omega arith))

next_count : (n : ℕ) → n < 2 ^ 63 - 1 → wrap64 (pos n +ℤ pos 1) ≡ pos (suc n)
next_count n h = wrap64_of_fits (pos n +ℤ pos 1) (omega int_laws) (omega int_laws) ∙ omega int_laws

succeed-Booked :
    (taken now : ℤ) (ds : List ℤ) (m : Meta)
    → length ds < 2 ^ 63 - 1
    → Booked ds m
    → Booked (ds ++ (taken ∷ [])) (succeed taken now m)
unfolding succeed rem
succeed-Booked taken now ds m room b =
    let longer = ds ++ (taken ∷ []) in
    let size : length (ds ++ (taken ∷ [])) ≡ suc (length ds) =
      omega (arith, length-append ds (taken ∷ [])) in
    let count : wrap64 (m.success_count +ℤ pos 1) ≡ pos (suc (length ds)) =
      ap (λ t. wrap64 (t +ℤ pos 1)) b.count ∙ next_count (length ds) room in
    elim (Bool-cases (suc (length ds) % 5 == 0)) [
      | inl full ↦ record {
        queue = ap (λ t. t ++ (taken ∷ [])) b.queue;
        count = count ∙ ap pos (sym size);
        average =
            let whole : fives (length longer) ≡ length longer = ground (arith, full, size) in
            ground (
              arith,
              full,
              count,
              size,
              ap (λ t. mean (t ++ (taken ∷ []))) b.queue,
              ap mean (take-all (fives (length longer)) longer whole),
            );
      }
      | inr other ↦ record {
        queue = ap (λ t. t ++ (taken ∷ [])) b.queue;
        count = count ∙ ap pos (sym size);
        average =
            let same : fives (length longer) ≡ fives (length ds) = ground (arith, other, size) in
            let front : take (fives (length longer)) longer ≡ take (fives (length ds)) ds =
              ap (λ n. take n longer) same
              ∙ take-append (fives (length ds)) ds (taken ∷ []) (omega arith) in
            ground (arith, other, count, size, same, b.average, ap mean front);
      }
    ]

late-Booked : (now : ℤ) (ds : List ℤ) (m : Meta) → Booked ds m → Booked ds (time_out now m)
unfolding time_out
late-Booked now ds m b = record { queue = b.queue; count = b.count; average = b.average }

run-Booked :
    (es : List Ending) (ds : List ℤ) (m : Meta)
    → length ds + length es < 2 ^ 63
    → Booked ds m
    → Booked (ds ++ durations es) (run es m)
unfolding run record_ending durations
run-Booked [] ds m room b = rw (append-nil ds) b
run-Booked (in_time taken now ∷ es) ds m room b =
    let shorter : length (ds ++ (taken ∷ [])) + length es < 2 ^ 63 =
      omega (arith, length-append ds (taken ∷ [])) in
    subst (λ xs. Booked xs (run es (succeed taken now m)))
      (append_assoc ds (taken ∷ []) (durations es))
      (run-Booked es (ds ++ (taken ∷ [])) (succeed taken now m) shorter
        (succeed-Booked taken now ds m (omega arith) b))
run-Booked (too_late taken now ∷ es) ds m room b =
    run-Booked es ds (time_out now m) (omega arith) (late-Booked now ds m b)

-- After any sequence of fewer than 2^63 collections the queue holds the durations of those that ended
-- in time, the success count is their number, and the average is the mean, as the source computes it,
-- of the first of them up to the last multiple of five, or 0 before the fifth.
pub bookkeeping : (es : List Ending) → length es < 2 ^ 63 → Booked (durations es) (run es new_meta)
bookkeeping es room =
    run-Booked es [] new_meta (omega (arith, room))
      (record { queue = refl; count = refl; average = refl })
