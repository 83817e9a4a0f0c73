-- ===== src/Monitor/Observers.antt =====
-- Which observers `NotifyAll` updates.
use chanjet.Common.{ℕ, suc, ◌-◌, ◌≡◌, refl, ap, ◌∙◌, List, [], ◌∷◌, ◌==◌, if◌then◌else◌, arith}
use chanjet.Common.Count.{number_of, number_of-append}
use chanjet.Monitor.{Monitor, register, remove_first, unregister, notify_all}

pub data Call : Type 0 where
  registers unregisters : ℕ → Call

unfoldable pub run : List Call → Monitor → Monitor
run [] m = m
run (registers o ∷ cs) m = run cs (register o m)
run (unregisters o ∷ cs) m = run cs (unregister o m)

-- How often an observer should be updated, given how often it was before: one more for each `Register`
-- of it, and one less for each `Unregister` that finds it.
unfoldable pub balance : ℕ → List Call → ℕ → ℕ
balance o [] n = n
balance o (registers p ∷ cs) n = balance o cs (if p == o then suc n else n)
balance o (unregisters p ∷ cs) n = balance o cs (if p == o then n - 1 else n)

abbrev pub updates : ℕ → Monitor → ℕ
updates o m = number_of (λ p. p == o) (notify_all m)

updates-register :
    (o p : ℕ) (m : Monitor)
    → updates o (register p m) ≡ (if p == o then suc (updates o m) else updates o m)
unfolding register notify_all number_of
updates-register o p m = ground (arith, number_of-append (λ q. q == o) m.observers (p ∷ []))

number_of-remove_first :
    (o p : ℕ) (xs : List ℕ)
    → number_of (λ q. q == o) (remove_first p xs)
      ≡ (if p == o then number_of (λ q. q == o) xs - 1 else number_of (λ q. q == o) xs)
unfolding number_of remove_first
number_of-remove_first o p [] = ground arith
number_of-remove_first o p (x ∷ xs) = ground (arith, number_of-remove_first o p xs)

-- After any sequence of `Register` and `Unregister`, `NotifyAll` updates each observer as often as it
-- is registered, and `Unregister` of an unknown observer changes nothing.
pub updates_lem :
    (o : ℕ) (cs : List Call) (m : Monitor) → updates o (run cs m) ≡ balance o cs (updates o m)
unfolding run balance unregister notify_all
updates_lem o [] m = refl
updates_lem o (registers p ∷ cs) m =
    updates_lem o cs (register p m) ∙ ap (balance o cs) (updates-register o p m)
updates_lem o (unregisters p ∷ cs) m =
    updates_lem o cs (unregister p m) ∙ ap (balance o cs) (number_of-remove_first o p m.observers)
