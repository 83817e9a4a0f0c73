-- ===== src/DoubleBuffer/Steps.antt =====
-- The stream as a transition system: any goroutine takes the next step.
use mathlib.Core.Option.{some_inj}
use chanjet.Common.{
  ℕ, ◌-◌, ◌^◌, ◌≡◌, refl, sym, subst, Bool, List, ◌∙◌, ◌||◌, Option, none, some, Option-cases,
  arith, ◌==◌, inl, inr, Bool-cases,
}
use chanjet.Common.Count.{number_of}
use chanjet.Common.Int.{ℤ, pos, ltb_ℤ, ◌<ℤ◌, leb_ℤ, int_laws}
use chanjet.Common.Run.{Run, ok, err, panic}
use chanjet.Consts.{writing_state}
use chanjet.Consts.ReadMode.{ReadMode, validate}
use chanjet.Buffer.{Ptr, nil, BufferItem}
use chanjet.Config.{SwitchCondition, receive, get_config}
use chanjet.Waiters.{WaiterManager, Order, notify, register, unregister}
use chanjet.WrapHeap.{new_wrap_heap}
use chanjet.WrapHeap.Order as Heap
use chanjet.DoubleBuffer.{
  DoubleBuffer, new_double_buffer, need_switch, monitor_tick, draw_number, file_buffer, tell,
  take_note, told_by, tell_next, small_data_threshold, large_data_threshold,
}
use chanjet.DoubleBuffer.Write.{write}
use chanjet.DoubleBuffer.Read.{
  DataChunk, Cleanup, back_to_small_pool, recycled, freed, try_read, register_read_mode, close,
  release, run_cleanup, recycle,
}
use chanjet.DoubleBuffer.Ownership.{uses}
use chanjet.DoubleBuffer.Numbering.{bears, waiting, draw-IsNumbered}
use chanjet.DoubleBuffer.Handover.{file_lem, draw-IsOwned, filed-IsOwned, draw_keeps}
use chanjet.DoubleBuffer.Valid.{
  IsValid, both, PoolsOnly, IsValid-new_parts, IsValid-new_waiters, IsValid-new_config,
}
use chanjet.DoubleBuffer.TryRead.{try_read_ends}
use chanjet.DoubleBuffer.Writing.{switch-IsValid, write-IsValid}
use chanjet.DoubleBuffer.Closing.{close_ends}
use chanjet.DoubleBuffer.Blocking.{receive_token}

-- A number is drawn only while int64 has room for the next one.
pub data Step : DoubleBuffer → DoubleBuffer → Type 0 where
  written :
      {d : DoubleBuffer} (copy : Ptr) (choice : ℕ) (now : ℤ) (item : BufferItem)
      → Step d (write copy choice now item d).0
  ticked :
      {d : DoubleBuffer} (strategy : ℤ → ℤ → ℤ → ℤ → Bool) (choice : ℕ) (elapsed now : ℤ)
      → Step d (monitor_tick strategy choice elapsed now d)
  drawn : {d : DoubleBuffer} (k : ℕ) → d.sequence <ℤ pos (2 ^ 63 - 2) → Step d (draw_number k d)
  filed : {d d' : DoubleBuffer} (k : ℕ) → file_buffer k d ≡ some d' → Step d d'
  told : {d d' : DoubleBuffer} (order : Order) (k : ℕ) → tell order k d ≡ some (ok d') → Step d d'
  tried :
      {d d' : DoubleBuffer} {r : Run DataChunk} (now : ℤ)
      → try_read now d ≡ some (d', r)
      → Step d d'
  moded : {d : DoubleBuffer} (mode : ReadMode) → Step d (register_read_mode mode d).0
  released : {d : DoubleBuffer} (chunk : DataChunk) → Step d (release chunk d).1
  registered : {d : DoubleBuffer} (choice : ℕ) → Step d (record d { wm = (register choice d.wm).1 })
  unregistered : {d : DoubleBuffer} (id : ℕ) → Step d (record d { wm = unregister id d.wm })
  received : {d : DoubleBuffer} (ch : ℕ) → Step d (record d { wm = receive_token ch d.wm })
  closed : {d d' : DoubleBuffer} → close d ≡ some d' → Step d d'

-- The states that a new stream gets to.
pub data Reachable (size : ℕ) (sc : SwitchCondition) (now : ℤ) : DoubleBuffer → Type 0 where
  start : Reachable size sc now (new_double_buffer size sc now)
  after : {d d' : DoubleBuffer} → Reachable size sc now d → Step d d' → Reachable size sc now d'

new-IsValid : (size : ℕ) (sc : SwitchCondition) (now : ℤ) → IsValid (new_double_buffer size sc now)
unfolding new_double_buffer uses waiting number_of new_wrap_heap
new-IsValid size sc now = record {
  owned = record {
    once = λ a. ground arith;
    held = λ a h k. ground arith;
    unused = λ a h. ground arith;
    real = refl;
    positive = omega arith;
  };
  heap = Heap.new-IsValid;
  numbered = λ o. record {
    dense = λ n. ground arith;
    started = omega arith;
    ahead = omega int_laws;
    bounded = omega arith;
  };
}

need_switch-IsValid :
    (strategy : ℤ → ℤ → ℤ → ℤ → Bool) (elapsed : ℤ) (d : DoubleBuffer)
    → IsValid d
    → IsValid (need_switch strategy elapsed d).1
unfolding need_switch
need_switch-IsValid strategy elapsed d v =
    let (scd, signalled) = receive d.scd in
    both IsValid signalled (IsValid-new_config d (get_config scd) scd d.read_mode v) v

tick-IsValid :
    (strategy : ℤ → ℤ → ℤ → ℤ → Bool) (choice : ℕ) (elapsed now : ℤ) (d : DoubleBuffer)
    → IsValid d
    → IsValid (monitor_tick strategy choice elapsed now d)
unfolding monitor_tick
tick-IsValid strategy choice elapsed now d v =
    let (due, d') = need_switch strategy elapsed d in
    let v' : IsValid d' = need_switch-IsValid strategy elapsed d v in
    both IsValid due (switch-IsValid choice now d' v') v'

draw-IsValid :
    (k : ℕ) (d : DoubleBuffer)
    → d.sequence <ℤ pos (2 ^ 63 - 2)
    → IsValid d
    → IsValid (draw_number k d)
draw-IsValid k d room v = record {
  owned = draw-IsOwned k d v.owned;
  heap = subst Heap.IsValid (sym (draw_keeps k d).0) v.heap;
  numbered = λ o. draw-IsNumbered k d room (v.numbered (rw (← (draw_keeps k d).1) o));
}

filed-IsValid : (k : ℕ) (d d' : DoubleBuffer) → file_buffer k d ≡ some d' → IsValid d → IsValid d'
unfolding waiting
filed-IsValid k d d' e v =
    let f = file_lem k d v.heap in
    subst IsValid (some_inj.0 (sym f.ended ∙ e)) (record {
      owned = filed-IsOwned d f.heap f.numbered f.told f.kept v.owned;
      heap = f.valid;
      numbered = λ o.
          let n = v.numbered o in
          record {
            dense = λ k. omega (arith, n.dense k, f.kept (bears k));
            started = n.started;
            ahead = n.ahead;
            bounded = n.bounded;
          };
    })

-- A call that ends with a stream leaves a valid one.
LeavesValid : Option (Run DoubleBuffer) → Type 0
LeavesValid (some (ok d)) = IsValid d
LeavesValid (some (err _)) = Unit
LeavesValid (some panic) = Unit
LeavesValid none = Unit

told_by-LeavesValid :
    (rest : List ℤ) (d : DoubleBuffer) (r : Option (Run WaiterManager))
    → IsValid d
    → LeavesValid (told_by rest d r)
unfolding told_by LeavesValid
told_by-LeavesValid rest d none v = tt
told_by-LeavesValid rest d (some (ok wm)) v = IsValid-new_waiters d wm rest v
told_by-LeavesValid rest d (some (err e)) v = tt
told_by-LeavesValid rest d (some panic) v = tt

tell_next-LeavesValid :
    (order : Order) (d : DoubleBuffer) (next : Option (ℤ × List ℤ))
    → IsValid d
    → LeavesValid (tell_next order d next)
unfolding tell_next LeavesValid
tell_next-LeavesValid order d none v = v
tell_next-LeavesValid order d (some (n, rest)) v =
    told_by-LeavesValid rest d (notify order n d.wm) v

told-IsValid :
    (order : Order) (k : ℕ) (d d' : DoubleBuffer)
    → tell order k d ≡ some (ok d')
    → IsValid d
    → IsValid d'
unfolding tell LeavesValid
told-IsValid order k d d' e v =
    subst LeavesValid e (tell_next-LeavesValid order d (take_note k d.told) v)

recycle_lem : (ptr : Ptr) (size : ℤ) (d : DoubleBuffer) → PoolsOnly d (recycle ptr size d)
unfolding recycle
recycle_lem ptr size d =
    both (PoolsOnly d) (ptr == nil || leb_ℤ size (pos 0)) (d.pm, refl)
      (both (PoolsOnly d) (ltb_ℤ size small_data_threshold) (d.pm, refl)
        (both (PoolsOnly d) (ltb_ℤ large_data_threshold size) (_, refl) (_, refl)))

pub run_cleanup_lem : (f : Cleanup) (d : DoubleBuffer) → PoolsOnly d (run_cleanup f d)
unfolding run_cleanup
run_cleanup_lem back_to_small_pool d = (d.pm, refl)
run_cleanup_lem (recycled ptr size) d = recycle_lem ptr size d
run_cleanup_lem (freed ptr size) d = (_, refl)

PoolsOnly-IsValid : (d d' : DoubleBuffer) → PoolsOnly d d' → IsValid d → IsValid d'
PoolsOnly-IsValid d d' (pm, e) v = subst IsValid (sym e) (IsValid-new_parts d d.store pm d.count v)

release-IsValid : (c : DataChunk) (d : DoubleBuffer) → IsValid d → IsValid (release c d).1
unfolding release
release-IsValid c d v = elim (Option-cases c.free) [
  | inl e ↦ rw (e, release) v
  | inr (f, e) ↦ rw (e, release) (PoolsOnly-IsValid d (run_cleanup f d) (run_cleanup_lem f d) v)
]

moded-IsValid :
    (mode : ReadMode) (d : DoubleBuffer) → IsValid d → IsValid (register_read_mode mode d).0
unfolding register_read_mode
moded-IsValid mode d v =
    both (λ (r : DoubleBuffer × Run (Unit {0})). IsValid r.0) (validate mode)
      (IsValid-new_config d d.sc d.scd (some mode) v) v

tried-IsValid :
    (now : ℤ) (d d' : DoubleBuffer) (r : Run DataChunk)
    → try_read now d ≡ some (d', r)
    → IsValid d
    → IsValid d'
tried-IsValid now d d' r e v =
    let t = try_read_ends now d v in
    subst (λ (q : DoubleBuffer × Run DataChunk). IsValid q.0) (some_inj.0 (sym t.ended ∙ e)) t.valid

closing-IsValid : (d d' : DoubleBuffer) → close d ≡ some d' → IsValid d → IsValid d'
unfolding close
closing-IsValid d d' e v = elim (Bool-cases (d.state == writing_state)) [
  | inl w ↦
      let c = close_ends d (ground arith) v in subst IsValid (some_inj.0 (sym c.ended ∙ e)) c.valid
  | inr w ↦ subst IsValid (some_inj.0 (rw (w, close) at e)) v
]

-- Every step leaves a valid stream valid.
pub step-IsValid : {d d' : DoubleBuffer} → Step d d' → IsValid d → IsValid d'
step-IsValid {d} (written copy choice now item) v = write-IsValid copy choice now item d v
step-IsValid {d} (ticked strategy choice elapsed now) v =
    tick-IsValid strategy choice elapsed now d v
step-IsValid {d} (drawn k room) v = draw-IsValid k d room v
step-IsValid {d} {d'} (filed k e) v = filed-IsValid k d d' e v
step-IsValid {d} {d'} (told order k e) v = told-IsValid order k d d' e v
step-IsValid {d} {d'} (tried {r} now e) v = tried-IsValid now d d' r e v
step-IsValid {d} (moded mode) v = moded-IsValid mode d v
step-IsValid {d} (released chunk) v = release-IsValid chunk d v
step-IsValid {d} (registered choice) v = IsValid-new_waiters d (register choice d.wm).1 d.told v
step-IsValid {d} (unregistered id) v = IsValid-new_waiters d (unregister id d.wm) d.told v
step-IsValid {d} (received ch) v = IsValid-new_waiters d (receive_token ch d.wm) d.told v
step-IsValid {d} {d'} (closed e) v = closing-IsValid d d' e v

-- In every state that a new stream reaches by any interleaving of writes, monitor ticks,
-- goroutine stages (each in any order), reads, releases and Close, each smart buffer made so far
-- has exactly one holder among the two channels, the reader, the goroutines of the switches, the
-- pending heap and the pool; the pending heap is a heap; and while the stream is open each number
-- from the due one to the last one drawn belongs to exactly one waiting buffer, as long as the
-- numbers stay below 2^63 - 1.
pub reachable-IsValid :
    (size : ℕ) (sc : SwitchCondition) (now : ℤ) (d : DoubleBuffer)
    → Reachable size sc now d
    → IsValid d
reachable-IsValid size sc now _ start = new-IsValid size sc now
reachable-IsValid size sc now _ (after r s) = step-IsValid s (reachable-IsValid size sc now _ r)
