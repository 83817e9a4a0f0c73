-- ===== src/DoubleBuffer/Delivery/Supplied.antt =====
-- Reads keep the buffers that come in next open for writes, and so do all steps of an open stream.
use chanjet.Common.{
  ℕ, ◌+◌, ◌^◌, ◌<◌, ◌≡◌, refl, sym, subst, Bool, true, false, ◌||◌, List, ◌∷◌, Option, none, some,
  Option-cases, arith, ◌==◌, inl, inr, Bool-cases,
}
use chanjet.Common.Count.{number_of}
use chanjet.Common.Int.{ℤ, pos, eqb_ℤ}
use chanjet.Common.Run.{Run}
use chanjet.Consts.ReadMode.{safe_read, zero_copy_read}
use chanjet.Config.{SwitchCondition}
use chanjet.Buffer.{Ptr, nil, BufferItem, reset, pop, len}
use chanjet.DoubleBuffer.{DoubleBuffer, put_buffer, new_double_buffer}
use chanjet.DoubleBuffer.Read.{
  DataChunk, Reading, after_safe_pop, after_zero_copy_pop, read_in, read_current, give_back,
  after_pick, max_retires, pick_rounds, pick_buffer_from_heap, try_read,
}
use chanjet.DoubleBuffer.Ownership.{times, once_if, uses}
use chanjet.DoubleBuffer.Outcome.{Outcome, pick_rounds_lem}
use chanjet.DoubleBuffer.TryRead.{found-IsValid, give_back-empty}
use chanjet.DoubleBuffer.Reading.{give_back-IsValid, after_safe_pop_lem, after_zero_copy_pop_lem}
use chanjet.DoubleBuffer.Valid.{both}
use chanjet.DoubleBuffer.Delivery.{History, started, wrote, read, other, IsOrdered}
use chanjet.DoubleBuffer.Delivery.Whole.{History-IsOrdered}
use chanjet.DoubleBuffer.Delivery.Lasting.{write-Open, quiet-Ready}
use chanjet.DoubleBuffer.Delivery.Ready.{IsSound, IsReady, Ready, pop-IsSound, put-IsReady, Open}

module _ (d : DoubleBuffer) (o : Open d) (here : (d.current_buffer == nil) ≡ false) where
  current_apart :
      (a : Ptr) → 0 < once_if (d.passive == a) + times a d.pool → (d.current_buffer == a) ≡ false
  unfolding uses
  current_apart a h = ground (arith, o.valid.owned.once a, o.live, here)

  current-Ready : (now : ℤ) → Ready (read_current now d).0
  unfolding read_current read_in
  current-Ready now = elim (Option-cases d.read_mode) [
    | inl e ↦ subst (λ m. Ready (read_in m now d).0) (sym e) o.ready
    | inr (mode, e) ↦
        let (s, r) = pop (d.store d.current_buffer) in
        let popped : DoubleBuffer = record d { store = put_buffer d.store d.current_buffer s } in
        let g : Ready popped =
          put-IsReady d d.current_buffer s current_apart
            (pop-IsSound d.size (d.store d.current_buffer) (o.ready.sound d.current_buffer))
            o.ready in
        let copied : Ready (after_safe_pop now popped r).0 =
          rw (after_safe_pop_lem now popped r) g in
        let (pm, same) = after_zero_copy_pop_lem popped r in
        let shared : Ready (after_zero_copy_pop popped r).0 = rw same g in
        subst (λ m. Ready (read_in m now d).0) (sym e)
          (both (λ (p : Reading). Ready p.0) (eqb_ℤ mode safe_read) copied
            (both (λ (p : Reading). Ready p.0) (eqb_ℤ mode zero_copy_read) shared o.ready))
  ]

  returned-Ready :
      IsReady d.size
        (put_buffer d.store d.current_buffer (reset (d.store d.current_buffer)))
        d.passive
        (d.current_buffer ∷ d.pool)
  unfolding reset number_of
  returned-Ready = record {
    sound = λ a.
        both (IsSound d.size) (d.current_buffer == a)
          (record { sized = (o.ready.sound d.current_buffer).sized; known = refl })
          (o.ready.sound a);
    clear = λ a h. elim (Bool-cases (d.current_buffer == a)) [
      | inl same ↦ rw same refl
      | inr old ↦ rw old (o.ready.clear a (ground (arith, h, old)))
    ];
  }

give_back-Open : (d : DoubleBuffer) → Open d → Open (give_back d)
unfolding give_back
give_back-Open d o =
    let v = give_back-IsValid d o.valid in
    elim (Bool-cases (d.current_buffer == nil)) [
      | inl none_here ↦ rw (none_here, give_back) o
      | inr here ↦
          rw (here, give_back)
            (record {
              valid = rw (here, give_back) at v;
              live = o.live;
              ready = returned-Ready d o here;
            })
    ]

LeavesReady : Option Reading → Type 0
LeavesReady none = Unit
LeavesReady (some p) = Ready p.0

after_pick-LeavesReady :
    (now : ℤ) (d : DoubleBuffer) (r : Option (Bool × DoubleBuffer))
    → d.current_buffer ≡ nil
    → Open d
    → Outcome d r
    → LeavesReady (after_pick now r)
unfolding after_pick LeavesReady
after_pick-LeavesReady now d r idle o (inl f) = elim (Bool-cases (f.buf == nil)) [
  | inl nobody ↦ rw (f.ended, nobody, after_pick) o.ready
  | inr real ↦
      rw (f.ended, real, after_pick)
        (current-Ready _
          (record { valid = found-IsValid d r f idle o.valid; live = o.live; ready = o.ready }) real
          now)
]
after_pick-LeavesReady now d r idle o (inr f) =
    let nobody : (d.current_buffer == nil) ≡ true = ground (arith, idle) in
    rw (f.ended, nobody, after_pick) o.ready

try_read-LeavesReady : (now : ℤ) (d : DoubleBuffer) → Open d → LeavesReady (try_read now d)
unfolding try_read pick_buffer_from_heap LeavesReady
try_read-LeavesReady now d o =
    let returned = give_back-Open d o in
    elim (Bool-cases (d.current_buffer == nil || eqb_ℤ (len (d.store d.current_buffer)) (pos 0))) [
      | inl done ↦ rw done (
          after_pick-LeavesReady now (give_back d) (pick_rounds max_retires (give_back d))
            (give_back-empty d) returned
            (pick_rounds_lem max_retires (give_back d) returned.valid.heap (give_back-empty d)))
      | inr more ↦ rw more (current-Ready d o (ground (arith, more)) now)
    ]

tried-Ready :
    (now : ℤ) (d d' : DoubleBuffer) (r : Run DataChunk)
    → try_read now d ≡ some (d', r)
    → Open d
    → Ready d'
unfolding LeavesReady
tried-Ready now d d' r e o = subst LeavesReady e (try_read-LeavesReady now d o)

new-Ready : (size : ℕ) (sc : SwitchCondition) (at : ℤ) → Ready (new_double_buffer size sc at)
unfolding new_double_buffer
new-Ready size sc at = record {
  sound = λ a. record { sized = refl; known = refl };
  clear = λ a h. refl;
}

pub opened :
    {ins outs : List BufferItem} {d : DoubleBuffer} → IsOrdered ins outs d → Ready d → Open d
opened o g = record { valid = o.valid; live = o.live; ready = g }

module _ (size : ℕ) (sc : SwitchCondition) (at : ℤ) (small : size < 2 ^ 31) where
  pub History-Ready :
      (d : DoubleBuffer) (ins outs : List BufferItem) → History size sc at d ins outs → Ready d
  History-Ready _ _ _ started = new-Ready size sc at
  History-Ready _ _ _ (wrote {d} {ins} {outs} copy choice now item h c p) =
      (write-Open copy choice now item d (
        opened (History-IsOrdered size sc at d ins outs small h)
          (History-Ready d ins outs h))).ready
  History-Ready _ _ _ (read {d} {d'} {ins} {outs} {r} now h e) =
      tried-Ready now d d' r e
        (opened (History-IsOrdered size sc at d ins outs small h) (History-Ready d ins outs h))
  History-Ready _ _ _ (other {d} {d'} {ins} {outs} s h q) =
      quiet-Ready s q
        (opened (History-IsOrdered size sc at d ins outs small h) (History-Ready d ins outs h))
