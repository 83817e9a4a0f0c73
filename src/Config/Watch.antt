-- ===== src/Config/Watch.antt =====
-- A reader of the condition, as `needSwitch` is one: it takes a signal if there is one, and then
-- reads the configuration. Updates may come between its two steps.
use chanjet.Common.{ℕ, zero, suc, Option-cases, ◌≡◌, ◌≢◌, refl, inl, inr, true, false}
use chanjet.Config.{
  SwitchConfig, SwitchCondition, update_config, get_config, receive, validate, signal,
}

pub data Phase : Type 0 where
  idle took : Phase

pub record System : Type 0 where
  pub shared : SwitchCondition
  pub cached : SwitchConfig
  pub phase : Phase

-- One step: an update by anybody, or the reader's next one.
pub data Step (s : System) : System → Type 0 where
  update : (c : SwitchConfig) → Step s (record s { shared = (update_config c s.shared).0 })
  poll_empty : (receive s.shared).1 ≡ false → s.phase ≡ idle → Step s s
  poll_signal :
      (receive s.shared).1 ≡ true
      → s.phase ≡ idle
      → Step s (record s { shared = (receive s.shared).0; phase = took })
  reload : s.phase ≡ took → Step s (record s { cached = get_config s.shared; phase = idle })

pub data Reach (s : System) : System → Type 0 where
  here : Reach s s
  next : {t u : System} → Reach s t → Step t u → Reach s u

-- With no signal pending and none taken, the reader has the current configuration.
abbrev pub IsFresh : System → Type 0
IsFresh s = s.shared.signals ≡ 0 → s.phase ≡ idle → s.cached ≡ s.shared.config

signal-ne-zero : (n : ℕ) → signal n ≢ 0
signal-ne-zero zero e = cc
signal-ne-zero (suc n) e = cc

Step-IsFresh : {s t : System} → Step s t → IsFresh s → IsFresh t
unfolding update_config get_config receive
Step-IsFresh {s} (update c) h = elim (Option-cases (validate c)) [
  | inl e ↦ rw (e, update_config) (λ p q. absurd (signal-ne-zero s.shared.signals p))
  | inr (x, e) ↦ rw (e, update_config) h
]
Step-IsFresh (poll_empty e i) h = h
Step-IsFresh (poll_signal e i) h = λ p q. cc
Step-IsFresh (reload i) h = λ p q. refl

Reach-IsFresh : {s t : System} → Reach s t → IsFresh s → IsFresh t
Reach-IsFresh here h = h
Reach-IsFresh (next r st) h = Step-IsFresh st (Reach-IsFresh r h)

-- No update is missed by one reader: started with the current configuration, whenever no signal is
-- pending or taken, what it holds is the current configuration, whatever updates came and however
-- they fell between its steps.
pub no_missed_update :
    (w : SwitchCondition) {t : System}
    → Reach (record { shared = w; cached = get_config w; phase = idle }) t
    → t.shared.signals ≡ 0
    → t.phase ≡ idle
    → t.cached ≡ get_config t.shared
unfolding get_config
no_missed_update w r = Reach-IsFresh r (λ p q. refl)
