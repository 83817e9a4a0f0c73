-- ===== src/DoubleBuffer/Delivery/Quiet.antt =====
-- The steps that neither write nor read keep an ordered stream ordered.
use chanjet.Common.{
  ℕ, ◌≡◌, refl, sym, subst, Bool, List, Option, none, some, Option-cases, inl, inr,
}
use chanjet.Common.Int.{ℤ}
use chanjet.Common.Run.{Run, ok, err, panic}
use chanjet.Consts.ReadMode.{ReadMode, validate}
use chanjet.Buffer.{BufferItem}
use chanjet.Config.{receive, get_config}
use chanjet.Waiters.{WaiterManager, Order, notify, register, unregister}
use chanjet.DoubleBuffer.{
  DoubleBuffer, need_switch, monitor_tick, draw_number, tell, take_note, told_by, tell_next,
}
use chanjet.DoubleBuffer.Read.{DataChunk, register_read_mode, release}
use chanjet.DoubleBuffer.Valid.{IsValid, both, IsValid-new_config, IsValid-new_waiters}
use chanjet.DoubleBuffer.Writing.{switch-IsValid}
use chanjet.DoubleBuffer.Blocking.{receive_token}
use chanjet.DoubleBuffer.Steps.{
  Step, written, ticked, drawn, filed, told, tried, moded, released, registered, unregistered,
  received, closed, step-IsValid, run_cleanup_lem,
}
use chanjet.DoubleBuffer.Delivery.{IsQuiet, IsOrdered}
use chanjet.DoubleBuffer.Delivery.Filing.{IsOrdered-rest, filed-IsOrdered, drawn-IsOrdered}
use chanjet.DoubleBuffer.Delivery.Switching.{switch-IsOrdered}

-- Only the waiters and the notifications that are to be sent may differ.
abbrev pub WaitersOnly : DoubleBuffer → DoubleBuffer → Type 0
WaitersOnly d d' = d' ≡ record d { wm = d'.wm; told = d'.told }

told_by-WaitersOnly :
    (rest : List ℤ) (d d' : DoubleBuffer) (r : Option (Run WaiterManager))
    → told_by rest d r ≡ some (ok d')
    → WaitersOnly d d'
unfolding told_by
told_by-WaitersOnly rest d d' none e = absurd (cc e)
told_by-WaitersOnly rest d d' (some (ok wm)) e =
    let same : record d { wm = wm; told = rest } ≡ d' = cc e in subst (WaitersOnly d) same refl
told_by-WaitersOnly rest d d' (some (err _)) e = absurd (cc e)
told_by-WaitersOnly rest d d' (some panic) e = absurd (cc e)

pub tell_next-WaitersOnly :
    (order : Order) (next : Option (ℤ × List ℤ)) (d d' : DoubleBuffer)
    → tell_next order d next ≡ some (ok d')
    → WaitersOnly d d'
unfolding tell_next
tell_next-WaitersOnly order none d d' e =
    let same : d ≡ d' = cc e in subst (WaitersOnly d) same refl
tell_next-WaitersOnly order (some (n, rest)) d d' e =
    told_by-WaitersOnly rest d d' (notify order n d.wm) e

module _ {ins outs : List BufferItem} (d : DoubleBuffer) (o : IsOrdered ins outs d) where
  new_waiters :
      (wm : WaiterManager) (ns : List ℤ) → IsOrdered ins outs (record d { wm = wm; told = ns })
  new_waiters wm ns =
      IsOrdered-rest d d.count d.sc d.scd d.read_mode wm d.pm ns
        (IsValid-new_waiters d wm ns o.valid) o

  need_switch-IsOrdered :
      (strategy : ℤ → ℤ → ℤ → ℤ → Bool) (elapsed : ℤ)
      → IsOrdered ins outs (need_switch strategy elapsed d).1
  unfolding need_switch
  need_switch-IsOrdered strategy elapsed =
      let (scd, signalled) = receive d.scd in
      both (IsOrdered ins outs) signalled
        (IsOrdered-rest d d.count (get_config scd) scd d.read_mode d.wm d.pm d.told
          (IsValid-new_config d (get_config scd) scd d.read_mode o.valid) o)
        o

  tick-IsOrdered :
      (strategy : ℤ → ℤ → ℤ → ℤ → Bool) (choice : ℕ) (elapsed now : ℤ)
      → IsOrdered ins outs (monitor_tick strategy choice elapsed now d)
  unfolding monitor_tick
  tick-IsOrdered strategy choice elapsed now =
      let (due, d') = need_switch strategy elapsed d in
      let o' : IsOrdered ins outs d' = need_switch-IsOrdered strategy elapsed in
      both (IsOrdered ins outs) due
        (switch-IsOrdered choice now d' (switch-IsValid choice now d' o'.valid) o') o'

  told-IsOrdered :
      (order : Order) (k : ℕ) (d' : DoubleBuffer)
      → tell order k d ≡ some (ok d')
      → IsOrdered ins outs d'
  unfolding tell
  told-IsOrdered order k d' e =
      subst (IsOrdered ins outs) (sym (tell_next-WaitersOnly order (take_note k d.told) d d' e))
        (new_waiters d'.wm d'.told)

  moded-IsOrdered : (mode : ReadMode) → IsOrdered ins outs (register_read_mode mode d).0
  unfolding register_read_mode
  moded-IsOrdered mode =
      both (λ (r : DoubleBuffer × Run (Unit {0})). IsOrdered ins outs r.0) (validate mode)
        (IsOrdered-rest d d.count d.sc d.scd (some mode) d.wm d.pm d.told
          (IsValid-new_config d d.sc d.scd (some mode) o.valid) o)
        o

  release-IsOrdered : (c : DataChunk) → IsValid (release c d).1 → IsOrdered ins outs (release c d).1
  unfolding release
  release-IsOrdered c v = elim (Option-cases c.free) [
    | inl e ↦ rw (e, release) o
    | inr (f, e) ↦
        let (pm, same) = run_cleanup_lem f d in
        rw (e, release)
          (rw same (
            IsOrdered-rest d d.count d.sc d.scd d.read_mode d.wm pm d.told
              (rw (e, release, same) at v) o))
  ]

pub quiet-IsOrdered :
    {ins outs : List BufferItem} {d d' : DoubleBuffer} (s : Step d d')
    → IsQuiet s
    → IsOrdered ins outs d
    → IsOrdered ins outs d'
quiet-IsOrdered (written copy choice now item) q o = absurd q
quiet-IsOrdered {d} (ticked strategy choice elapsed now) q o =
    tick-IsOrdered d o strategy choice elapsed now
quiet-IsOrdered {ins} {outs} {d} (drawn k room) q o =
    let v = subst (λ j. IsValid (draw_number j d)) q (step-IsValid (drawn k room) o.valid) in
    subst (λ j. IsOrdered ins outs (draw_number j d)) (sym q) (drawn-IsOrdered d v o)
quiet-IsOrdered {d} {d'} (filed k e) q o =
    filed-IsOrdered k d d' e (step-IsValid (filed k e) o.valid) o
quiet-IsOrdered {d} {d'} (told order k e) q o = told-IsOrdered d o order k d' e
quiet-IsOrdered (tried now e) q o = absurd q
quiet-IsOrdered {d} (moded mode) q o = moded-IsOrdered d o mode
quiet-IsOrdered {d} (released c) q o = release-IsOrdered d o c (step-IsValid (released c) o.valid)
quiet-IsOrdered {d} (registered choice) q o = new_waiters d o (register choice d.wm).1 d.told
quiet-IsOrdered {d} (unregistered id) q o = new_waiters d o (unregister id d.wm) d.told
quiet-IsOrdered {d} (received ch) q o = new_waiters d o (receive_token ch d.wm) d.told
quiet-IsOrdered (closed e) q o = absurd q
