-- ===== src/DoubleBuffer/Blocking/Stop.antt =====
-- `Close` and the readers in `BlockingRead`, and a notification that comes too early.
use mathlib.Core.Option.{some_inj}
use chanjet.Common.{
  ℕ, zero, suc, ◌≡◌, refl, sym, ap, true, List, [], Option, none, some, Option-cases, length, arith,
  ◌==◌, inl, inr, Bool-cases,
}
use chanjet.Common.Int.{ℤ}
use chanjet.Common.Run.{Run, ok, err, buffer_close}
use chanjet.Consts.{writing_state}
use chanjet.Waiters.{empty_channel, Waiter, id_of, channel_of, Order, register, unregister, find}
use chanjet.Waiters.Leave.{unregister-Unregistered}
use chanjet.Waiters.Invariant as W
use chanjet.Waiters.Wake.{notify_idle}
use chanjet.WrapHeap.{pick}
use chanjet.DoubleBuffer.{DoubleBuffer, take_note, tell, told_by, tell_next}
use chanjet.DoubleBuffer.Read.{drain, close}
use chanjet.DoubleBuffer.Valid.{IsValid}
use chanjet.DoubleBuffer.Closing.{close_ends}
use chanjet.DoubleBuffer.Due.{due_items}
use chanjet.DoubleBuffer.Blocking.{
  answered, blocked, leaving, finished, told_case, stop_case, Choices, is_ready, take_case, select,
  advance, enlist,
}

drain_keeps :
    (fuel : ℕ) (d d' : DoubleBuffer)
    → drain fuel d ≡ some d'
    → (d'.stopped ≡ d.stopped) × (d'.wm ≡ d.wm)
unfolding drain
drain_keeps zero d d' e = elim (Bool-cases (length d.pending_heap == 0)) [
  | inl empty ↦
      let same : d ≡ d' = some_inj.0 (rw empty at e) in
      (ap (λ x. x.stopped) (sym same), ap (λ x. x.wm) (sym same))
  | inr more ↦ absurd (cc (rw more at e))
]
drain_keeps (suc fuel) d d' e = elim (Bool-cases (length d.pending_heap == 0)) [
  | inl empty ↦
      let same : d ≡ d' = some_inj.0 (rw (empty, drain) at e) in
      (ap (λ x. x.stopped) (sym same), ap (λ x. x.wm) (sym same))
  | inr more ↦ elim (Option-cases (pick d.pending_heap)) [
    | inl p ↦ absurd (cc (rw (more, p, drain) at e))
    | inr ((none, heap), p) ↦ absurd (cc (rw (more, p, drain) at e))
    | inr ((some item, heap), p) ↦ drain_keeps fuel _ d' (rw (more, p, drain) at e)
  ]
]

-- `Close` ends, and the reader with `w` then gets `ErrBufferClose` in two stages of its own if
-- `select` takes the stop signal.
pub record Stopped (w : Waiter) (d : DoubleBuffer) (r : Option DoubleBuffer) : Type 0 where
  pub after : DoubleBuffer
  pub ended : r ≡ some after
  pub leaves :
      (c : Choices)
      → c.select_case ≡ stop_case
      → advance c (blocked w) after ≡ some (leaving (id_of w) (answered (err buffer_close)), after)
  pub ends :
      (c : Choices)
      → advance c (leaving (id_of w) (answered (err buffer_close))) after
        ≡ some (
          finished (answered (err buffer_close)),
          record after { wm = unregister (id_of w) d.wm },
        )
  pub gone : find (id_of w) (unregister (id_of w) d.wm).ws ≡ none

advance-stop :
    (c : Choices) (w : Waiter) (d : DoubleBuffer)
    → c.select_case ≡ stop_case
    → d.stopped ≡ true
    → advance c (blocked w) d ≡ some (leaving (id_of w) (answered (err buffer_close)), d)
unfolding advance select is_ready take_case
advance-stop c w d stop e = rw (stop, is_ready, take_case) (rw e)

close_keeps :
    (d d' : DoubleBuffer)
    → d.state ≡ writing_state
    → close d ≡ some d'
    → (d'.stopped ≡ true) × (d'.wm ≡ d.wm)
unfolding close
close_keeps d d' w e =
    let live : (d.state == writing_state) ≡ true = ground arith in
    drain_keeps (length d.pending_heap) _ d' (rw live at e)

-- Close of an open, valid stream with valid waiters ends, and each reader in its select can then
-- take the stop signal; if it does, it returns ErrBufferClose after two stages of its own, and
-- its deferred unregister leaves no entry of its id among the waiters.
pub close_wakes :
    (w : Waiter) (d : DoubleBuffer)
    → d.state ≡ writing_state
    → IsValid d
    → W.IsValid d.wm
    → Stopped w d (close d)
unfolding advance
close_wakes w d live v wv =
    let c = close_ends d live v in
    let k = close_keeps d c.result live c.ended in
    record {
      after = c.result;
      ended = c.ended;
      leaves = λ ch e. advance-stop ch w c.result e k.0;
      ends = λ ch. rw k.1;
      gone = (unregister-Unregistered (id_of w) d.wm wv).gone;
    }

-- The notification of `told` that is sent reaches no reader that is still to register.
pub record Unheard (object : ℕ) (d : DoubleBuffer) (r : Option (Run DoubleBuffer)) : Type 0 where
  pub after : DoubleBuffer
  pub ended : r ≡ some (ok after)
  pub due : due_items (enlist object after).1 ≡ due_items d
  pub waiter : Waiter
  pub enlisted : (enlist object after).0 ≡ blocked waiter
  pub stuck :
      (c : Choices)
      → c.select_case ≡ told_case
      → advance c (blocked waiter) (enlist object after).1
        ≡ some (blocked waiter, (enlist object after).1)

advance-untold :
    (c : Choices) (w : Waiter) (d : DoubleBuffer)
    → c.select_case ≡ told_case
    → d.wm.chans (channel_of w) ≡ empty_channel
    → advance c (blocked w) d ≡ some (blocked w, d)
unfolding advance select is_ready take_case
advance-untold c w d told e = rw (told, is_ready, take_case) (rw e)

-- Where the waiters are valid, a notification that comes when no reader is registered, as
-- between the failed `tryRead` of `BlockingRead` and its `register`, is lost: the reader that
-- registers then gets no token, though as many buffers are due as before.
pub tell-Unheard :
    (order : Order) (object k : ℕ) (n : ℤ) (rest : List ℤ) (d : DoubleBuffer)
    → W.IsValid d.wm
    → d.wm.ws ≡ []
    → take_note k d.told ≡ some (n, rest)
    → Unheard object d (tell order k d)
unfolding tell tell_next told_by enlist due_items
tell-Unheard order object k n rest d wv idle told =
    let after : DoubleBuffer = record d { told = rest } in
    record {
      after = after;
      ended = rw (told, tell_next) (ap (told_by rest d) (notify_idle order n d.wm (inl idle)));
      due = refl;
      waiter = (register object d.wm).0;
      enlisted = refl;
      stuck = λ c e.
          advance-untold c (register object d.wm).0 (enlist object after).1 e
            (W.register-empty object d.wm wv);
    }
