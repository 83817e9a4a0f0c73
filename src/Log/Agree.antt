-- ===== src/Log/Agree.antt =====
-- The two adapters under the same calls.
use Prim.Native.String.{String}
use chanjet.Common.{
  ◌≡◌, refl, sym, ap, ap₂, ◌∙◌, ◌&&◌, not, List, [], ◌∷◌, ◌++◌, map, if◌then◌else◌, arith,
}
use chanjet.Common.Int.{ℤ, ltb_ℤ}
use chanjet.Log.{Level, Field, valid}
use chanjet.Log.Zap.{ZapLibrary, ZapEntry, ZapAdapter, zap_log, zap_with, zap_set_level}
use chanjet.Log.Logrus.{
  LogrusLibrary, LogrusEntry, LogrusAdapter, LogrusLevels, logrus_log, logrus_with,
  logrus_set_level,
}

-- The calls of `Logger`; `with_fields` goes on with the logger that `With` returns. A run goes on
-- after a message of level fatal or panic, at which the libraries end the process or the goroutine.
pub data Call : Type 0 where
  logs : Level → String → List Field → Call
  sets_level : Level → Call
  with_fields : List Field → Call

abbrev pub Said : Type 0
Said = Level × String

abbrev pub zap_said : {L Z : Type 0} → ZapEntry L Z → Said
zap_said e = (e.level, e.message)

abbrev pub logrus_said : {E : Type 0} → LogrusEntry E → Said
logrus_said e = (e.level, e.message)

module _ {L Z E : Type 0} (zap : ZapLibrary L Z) (logrus : LogrusLibrary E) (c : LogrusLevels) where
  -- What zap gets to print, level and message.
  unfoldable pub zap_run : List Call → ZapAdapter L → List Said
  zap_run [] z = []
  zap_run (logs level format fields ∷ cs) z =
      map zap_said (zap_log zap z level format fields) ++ zap_run cs z
  zap_run (sets_level level ∷ cs) z = zap_run cs (zap_set_level level z).0
  zap_run (with_fields fields ∷ cs) z = zap_run cs (zap_with zap fields z)

  -- What logrus gets to print.
  unfoldable pub logrus_run : List Call → LogrusAdapter E → ℤ → List Said
  logrus_run [] l n = []
  logrus_run (logs level format fields ∷ cs) l n =
      map logrus_said (logrus_log logrus l level format fields) ++ logrus_run cs l n
  logrus_run (sets_level level ∷ cs) l n =
      let (l', n', _) = logrus_set_level c level l n in logrus_run cs l' n'
  logrus_run (with_fields fields ∷ cs) l n = logrus_run cs (logrus_with logrus fields l) n

  -- What should be printed under a threshold: the messages of a valid level that is not below it.
  unfoldable pub expected : List Call → Level → List Said
  expected [] threshold = []
  expected (logs level format fields ∷ cs) threshold =
      (if valid level && not (ltb_ℤ level threshold) then (level, format) ∷ [] else [])
      ++ expected cs threshold
  expected (sets_level level ∷ cs) threshold =
      expected cs (if valid level then level else threshold)
  expected (with_fields fields ∷ cs) threshold = expected cs threshold

  zap_said-log :
      (z : ZapAdapter L) (level : Level) (format : String) (fields : List Field)
      → map zap_said (zap_log zap z level format fields)
        ≡ (if valid level && not (ltb_ℤ level z.level) then (level, format) ∷ [] else [])
  unfolding zap_log valid
  zap_said-log z level format fields = ground arith

  logrus_said-log :
      (l : LogrusAdapter E) (level : Level) (format : String) (fields : List Field)
      → map logrus_said (logrus_log logrus l level format fields)
        ≡ (if valid level && not (ltb_ℤ level l.level) then (level, format) ∷ [] else [])
  unfolding logrus_log valid
  logrus_said-log l level format fields = ground arith

  zap_level :
      (level : Level) (z : ZapAdapter L)
      → (zap_set_level level z).0.level ≡ (if valid level then level else z.level)
  unfolding zap_set_level
  zap_level level z = ground arith

  zap_with_level :
      (fields : List Field) (z : ZapAdapter L) → (zap_with zap fields z).level ≡ z.level
  unfolding zap_with
  zap_with_level fields z = ground arith

  logrus_level :
      (level : Level) (l : LogrusAdapter E) (n : ℤ)
      → (logrus_set_level c level l n).0.level ≡ (if valid level then level else l.level)
  unfolding logrus_set_level
  logrus_level level l n = ground arith

  zap_run-expected : (cs : List Call) (z : ZapAdapter L) → zap_run cs z ≡ expected cs z.level
  unfolding zap_run expected
  zap_run-expected [] z = refl
  zap_run-expected (logs level format fields ∷ cs) z =
      ap₂ ◌++◌ (zap_said-log z level format fields) (zap_run-expected cs z)
  zap_run-expected (sets_level level ∷ cs) z =
      zap_run-expected cs (zap_set_level level z).0 ∙ ap (expected cs) (zap_level level z)
  zap_run-expected (with_fields fields ∷ cs) z =
      zap_run-expected cs (zap_with zap fields z) ∙ ap (expected cs) (zap_with_level fields z)

  logrus_run-expected :
      (cs : List Call) (l : LogrusAdapter E) (n : ℤ) → logrus_run cs l n ≡ expected cs l.level
  unfolding logrus_run expected logrus_with
  logrus_run-expected [] l n = refl
  logrus_run-expected (logs level format fields ∷ cs) l n =
      ap₂ ◌++◌ (logrus_said-log l level format fields) (logrus_run-expected cs l n)
  logrus_run-expected (sets_level level ∷ cs) l n =
      logrus_run-expected cs (logrus_set_level c level l n).0 (logrus_set_level c level l n).1
      ∙ ap (expected cs) (logrus_level level l n)
  logrus_run-expected (with_fields fields ∷ cs) l n =
      logrus_run-expected cs (logrus_with logrus fields l) n

  -- Under the same calls, adapters of the same level hand the same levels and messages to zap and to
  -- logrus: those of a valid level that is not below the last valid one set.
  pub adapters_agree :
      (cs : List Call) (z : ZapAdapter L) (l : LogrusAdapter E) (n : ℤ)
      → z.level ≡ l.level
      → (zap_run cs z ≡ expected cs z.level) × (logrus_run cs l n ≡ zap_run cs z)
  adapters_agree cs z l n same = (
    zap_run-expected cs z,
    logrus_run-expected cs l n ∙ ap (expected cs) (sym same) ∙ sym (zap_run-expected cs z),
  )
