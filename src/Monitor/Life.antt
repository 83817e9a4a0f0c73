-- ===== src/Monitor/Life.antt =====
-- The start and stop of a monitor.
use chanjet.Common.{
  ℕ, zero, suc, ◌≤◌, ◌<◌, ◌≡◌, refl, ap, subst, ◌∙◌, Bool, true, false, List, [], ◌∷◌, some,
  get_elem?, set, ◌==◌, arith, inl, inr, Bool-cases,
}
use chanjet.Atomic.{new_bool, load, compare_and_swap}
use chanjet.Monitor.{
  Runner, looping, waiting, Monitor, Meta, Outcome, new_monitor, start, cancel, stop, look, drop_at,
  leave, all_taken, collect_all_metrics, tick, register, unregister, succeed, time_out,
}
use chanjet.Monitor.Contexts.{
  Finds, Sound, All-set, place-cases, found, start-Sound, stop-Sound, cancel-Sound, look-Sound,
  leave-Sound,
}

-- What the callers, the contexts, and the goroutine at a place do.
pub data Event : Type 0 where
  stops : Event
  starts : Bool → Event
  cancels looks leaves : ℕ → Event
  ticks : ℕ → Outcome → Event
  registers unregisters : ℕ → Event

stop-released : (m : Monitor) → m.released ≡ true → (stop m).released ≡ true
unfolding stop compare_and_swap
stop-released m h = ground (arith, h)

-- A step that leaves the pool and the bookkeeping as they are.
Kept : Monitor → Monitor → Type 0
Kept m m' = (m'.released ≡ m.released) × (m'.meta ≡ m.meta)

start-Kept : (parent_done : Bool) (m : Monitor) → Kept m (start parent_done m)
unfolding start compare_and_swap Kept
start-Kept parent_done m = elim (Bool-cases (m.state.value == 0)) [
  | inl unstarted ↦ rw unstarted (refl, refl)
  | inr busy ↦ rw busy (refl, refl)
]

look-Kept : (k : ℕ) (m : Monitor) → Kept m (look k m)
unfolding look Kept
look-Kept k m = elim (place-cases k m.runners) [
  | inl e ↦ rw (e, look) (refl, refl)
  | inr (inl e) ↦ rw (e, look) (refl, refl)
  | inr (inr (c, e)) ↦ rw (e, look) (refl, refl)
]

leave-Kept : (k : ℕ) (m : Monitor) → Kept m (leave k m)
unfolding leave Kept
leave-Kept k m = elim (place-cases k m.runners) [
  | inl e ↦ rw (e, leave) (refl, refl)
  | inr (inl e) ↦ rw (e, leave) (refl, refl)
  | inr (inr (c, e)) ↦
      rw (e, leave)
        (elim (Bool-cases (m.done c)) [
          | inl over ↦ rw over (refl, refl)
          | inr live ↦ rw live (refl, refl)
        ])
]

stop-meta : (m : Monitor) → (stop m).meta ≡ m.meta
unfolding stop compare_and_swap
stop-meta m = elim (Bool-cases (m.state.value == 1)) [ inl busy ↦ rw busy | inr other ↦ rw other ]

context_done :
    (m : Monitor) (c : ℕ) → Sound m → m.state.value ≡ 0 → (0 < c) × (c ≤ m.ctx) → m.done c ≡ true
context_done m c o h f = elim (Bool-cases (c == m.ctx)) [
  | inl last ↦
      let same : m.ctx ≡ c = ground arith in
      subst (λ j. m.done j ≡ true) same (o.idle h (omega (arith, f.0, f.1)))
  | inr other ↦ o.past c f.0 (ground (arith, other, f.0, f.1))
]

get_elem?-set :
    (k : ℕ) (rs : List Runner) (x r : Runner)
    → get_elem? rs k ≡ some r
    → get_elem? (set rs k x) k ≡ some x
get_elem?-set k [] x r e = ground (arith, e)
get_elem?-set zero (y ∷ rs) x r e = refl
get_elem?-set (suc k) (y ∷ rs) x r e = get_elem?-set k rs x r e

drop_at-set : (k : ℕ) (rs : List Runner) (x : Runner) → drop_at k (set rs k x) ≡ drop_at k rs
drop_at-set k [] x = refl
drop_at-set zero (y ∷ rs) x = refl
drop_at-set (suc k) (y ∷ rs) x = ap (◌∷◌ y) (drop_at-set k rs x)

leave-done :
    (k c : ℕ) (m : Monitor)
    → get_elem? m.runners k ≡ some (waiting c)
    → m.done c ≡ true
    → (leave k m).runners ≡ drop_at k m.runners
unfolding leave
leave-done k c m e h = rw (e, leave, h) refl

-- The runner at a place of a stopped monitor is gone after it has looked and left.
leaves-done :
    (k : ℕ) (r : Runner) (m : Monitor)
    → Sound m
    → m.state.value ≡ 0
    → get_elem? m.runners k ≡ some r
    → (leave k (look k m)).runners ≡ drop_at k m.runners
unfolding look
leaves-done k looping m o h e =
    let f = found (Finds m.ctx) k m.runners looping o.finds e in
    let m' : Monitor = record m { runners = set m.runners k (waiting m.ctx) } in
    rw (e, look)
      (leave-done k m.ctx m' (get_elem?-set k m.runners (waiting m.ctx) looping e) (o.idle h f)
        ∙ drop_at-set k m.runners (waiting m.ctx))
leaves-done k (waiting c) m o h e =
    let f = found (Finds m.ctx) k m.runners (waiting c) o.finds e in
    rw (e, look) (leave-done k c m e (context_done m c o h f))

module _ (takes : Bool → Bool → Bool) where
  unfoldable pub step : Event → Monitor → Monitor
  step (starts parent_done) m = start parent_done m
  step stops m = stop m
  step (cancels c) m = cancel c m
  step (looks k) m = look k m
  step (leaves k) m = leave k m
  step (ticks k o) m = (tick takes k o m).1
  step (registers o) m = register o m
  step (unregisters o) m = unregister o m

  unfoldable pub run : List Event → Monitor → Monitor
  unfolding step
  run [] m = m
  run (e ∷ es) m = run es (step e m)

  tick-Sound : (k : ℕ) (o : Outcome) (m : Monitor) → Sound m → Sound (tick takes k o m).1
  unfolding tick collect_all_metrics
  tick-Sound k w m o = elim (place-cases k m.runners) [
    | inl e ↦ rw (e, tick) o
    | inr (inl e) ↦ rw (e, tick) o
    | inr (inr (c, e)) ↦
        let f = found (Finds m.ctx) k m.runners (waiting c) o.finds e in
        rw (e, tick)
          (record {
            flag = o.flag;
            past = o.past;
            idle = o.idle;
            finds = All-set (Finds m.ctx) k m.runners looping o.finds (omega (arith, f.0, f.1));
          })
  ]

  tick-released : (k : ℕ) (o : Outcome) (m : Monitor) → (tick takes k o m).1.released ≡ m.released
  unfolding tick collect_all_metrics
  tick-released k o m = elim (place-cases k m.runners) [
    | inl e ↦ rw (e, tick) refl
    | inr (inl e) ↦ rw (e, tick) refl
    | inr (inr (c, e)) ↦ rw (e, tick) refl
  ]

  step-Sound : (e : Event) (m : Monitor) → Sound m → Sound (step e m)
  unfolding step register unregister
  step-Sound (starts parent_done) m o = start-Sound parent_done m o
  step-Sound stops m o = stop-Sound m o
  step-Sound (cancels c) m o = cancel-Sound c m o
  step-Sound (looks k) m o = look-Sound k m o
  step-Sound (leaves k) m o = leave-Sound k m o
  step-Sound (ticks k w) m o = tick-Sound k w m o
  step-Sound (registers w) m o = record {
    flag = o.flag;
    past = o.past;
    idle = o.idle;
    finds = o.finds;
  }
  step-Sound (unregisters w) m o = record {
    flag = o.flag;
    past = o.past;
    idle = o.idle;
    finds = o.finds;
  }

  run-Sound : (es : List Event) (m : Monitor) → Sound m → Sound (run es m)
  unfolding run
  run-Sound [] m o = o
  run-Sound (e ∷ es) m o = run-Sound es (step e m) (step-Sound e m o)

  -- After any sequence of events of a new monitor that leaves it stopped, cancelled contexts,
  -- repeated starts and a Stop that gives up waiting included, a goroutine that still collects
  -- is gone once it reads m.ctx, if it is not in its select yet, and its select takes the Done
  -- of the context; the others stay.
  pub stopped_runners_leave :
      (es : List Event) (k : ℕ) (r : Runner)
      → let m = run es new_monitor in
        load m.state ≡ false
        → get_elem? m.runners k ≡ some r
        → (leave k (look k m)).runners ≡ drop_at k m.runners
  unfolding new_monitor new_bool load
  stopped_runners_leave es k r h e =
      let o : Sound (run es new_monitor) = run-Sound es new_monitor (record {
        flag = omega arith;
        past = λ c g k. absurd (omega arith);
        idle = λ e g. absurd (omega arith);
        finds = tt;
      }) in
      leaves-done k r (run es new_monitor) o (ground (arith, h, o.flag)) e

  module _ (refuses : (free : Bool) → takes true free ≡ false) where
    tick-meta :
        (k : ℕ) (o : Outcome) (m : Monitor)
        → m.released ≡ true
        → (tick takes k o m).1.meta.success_count ≡ m.meta.success_count
    unfolding tick collect_all_metrics all_taken succeed time_out
    tick-meta k o m h = elim (place-cases k m.runners) [
      | inl e ↦ rw (e, tick) refl
      | inr (inl e) ↦ rw (e, tick) refl
      | inr (inr (c, e)) ↦ rw (e, tick) (ground (arith, refuses (o.free 0), h))
    ]

    run-stopped :
        (es : List Event) (m : Monitor)
        → m.released ≡ true
        → (run es m).meta.success_count ≡ m.meta.success_count
    unfolding run step register unregister cancel Kept
    run-stopped [] m h = refl
    run-stopped (starts parent_done ∷ es) m h =
        let k = start-Kept parent_done m in
        run-stopped es (start parent_done m) (k.0 ∙ h) ∙ ap (λ (x : Meta). x.success_count) k.1
    run-stopped (stops ∷ es) m h =
        run-stopped es (stop m) (stop-released m h)
        ∙ ap (λ (x : Meta). x.success_count) (stop-meta m)
    run-stopped (cancels c ∷ es) m h = run-stopped es (cancel c m) h
    run-stopped (looks i ∷ es) m h =
        let k = look-Kept i m in
        run-stopped es (look i m) (k.0 ∙ h) ∙ ap (λ (x : Meta). x.success_count) k.1
    run-stopped (leaves i ∷ es) m h =
        let k = leave-Kept i m in
        run-stopped es (leave i m) (k.0 ∙ h) ∙ ap (λ (x : Meta). x.success_count) k.1
    run-stopped (ticks i o ∷ es) m h =
        run-stopped es (tick takes i o m).1 (tick-released i o m ∙ h) ∙ tick-meta i o m h
    run-stopped (registers o ∷ es) m h = run-stopped es (register o m) h
    run-stopped (unregisters o ∷ es) m h = run-stopped es (unregister o m) h

    stop-releases : (m : Monitor) → load m.state ≡ true → (stop m).released ≡ true
    unfolding stop compare_and_swap load
    stop-releases m h = ground (arith, h)

    -- Where the released pool refuses every task, no collection succeeds after the `Stop` of a
    -- started monitor, also when it is started again.
    pub no_success_after_stop :
        (es : List Event) (m : Monitor)
        → load m.state ≡ true
        → (run es (stop m)).meta.success_count ≡ m.meta.success_count
    no_success_after_stop es m h =
        run-stopped es (stop m) (stop-releases m h)
        ∙ ap (λ (x : Meta). x.success_count) (stop-meta m)
