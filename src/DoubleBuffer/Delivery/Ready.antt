-- ===== src/DoubleBuffer/Delivery/Ready.antt =====
-- The states of the buffers of an open stream: those that come in next take writes.
use chanjet.Common.{
  ℕ, ◌+◌, ◌<◌, ◌≡◌, refl, true, false, ◌||◌, List, arith, ◌==◌, inl, inr, Bool-cases,
}
use chanjet.Common.Count.{number_of}
use chanjet.Common.Int.{ℤ}
use chanjet.Common.Run.{Run, ok, err, panic}
use chanjet.Consts.{write_only, read_only, writing_state}
use chanjet.Buffer.{Ptr, nil, BufferItem, SmartBuffer, blank, set_state, reset, pop}
use chanjet.Buffer as B
use chanjet.DoubleBuffer.{
  DoubleBuffer, Store, put_buffer, get_buffer, switch_channel, swap_channels,
}
use chanjet.DoubleBuffer.Ownership.{times, once_if, uses, times-take_at}
use chanjet.DoubleBuffer.Valid.{IsValid, both}
use chanjet.DoubleBuffer.Write.{counted, write_active}
use chanjet.DoubleBuffer.Writing.{write_active-IsValid, switch-IsValid}

-- A buffer of `size` slots, write-only or read-only.
pub record IsSound (size : ℕ) (s : SmartBuffer) : Type 0 where
  pub sized : s.capacity ≡ size
  pub known : (s.state == write_only || s.state == read_only) ≡ true

pub record IsReady (size : ℕ) (store : Store) (passive : Ptr) (pool : List Ptr) : Type 0 where
  pub sound : (a : Ptr) → IsSound size (store a)
  pub clear : (a : Ptr) → 0 < once_if (passive == a) + times a pool → (store a).state ≡ write_only

abbrev pub Ready : DoubleBuffer → Type 0
Ready d = IsReady d.size d.store d.passive d.pool

put-IsSound :
    (size : ℕ) (store : Store) (b : Ptr) (s : SmartBuffer)
    → ((a : Ptr) → IsSound size (store a))
    → IsSound size s
    → (a : Ptr) → IsSound size (put_buffer store b s a)
put-IsSound size store b s all g a = both (IsSound size) (b == a) g (all a)

pub write-IsSound :
    (size : ℕ) (y : BufferItem) (s : SmartBuffer) → IsSound size s → IsSound size (B.write y s).0
unfolding B.write B.push
write-IsSound size y s g = record {
  sized = ground (arith, g.sized);
  known = ground (arith, g.known);
}

pub pop-IsSound : (size : ℕ) (s : SmartBuffer) → IsSound size s → IsSound size (pop s).0
unfolding pop
pop-IsSound size s g = record { sized = ground (arith, g.sized); known = ground (arith, g.known) }

pub put-IsReady :
    (d : DoubleBuffer) (b : Ptr) (s : SmartBuffer)
    → ((a : Ptr) → 0 < once_if (d.passive == a) + times a d.pool → (b == a) ≡ false)
    → IsSound d.size s
    → Ready d
    → IsReady d.size (put_buffer d.store b s) d.passive d.pool
put-IsReady d b s other g r = record {
  sound = put-IsSound d.size d.store b s r.sound g;
  clear = λ a h. let e = other a h in rw e (r.clear a h);
}

-- An open stream between two calls.
pub record Open (d : DoubleBuffer) : Type 0 where
  pub valid : IsValid d
  pub live : d.state ≡ writing_state
  pub ready : Ready d

counted-Open :
    (d : DoubleBuffer) (r : Run (Unit {0}))
    → IsValid (counted d r)
    → d.state ≡ writing_state
    → Ready d
    → Open (counted d r)
unfolding counted
counted-Open d (ok _) v live g = record { valid = v; live = live; ready = g }
counted-Open d (err _) v live g = record { valid = v; live = live; ready = g }
counted-Open d panic v live g = record { valid = v; live = live; ready = g }

module _ (d : DoubleBuffer) (o : Open d) where
  pub active_apart :
      (a : Ptr) → 0 < once_if (d.passive == a) + times a d.pool → (d.active == a) ≡ false
  unfolding uses
  active_apart a h = ground (arith, o.valid.owned.once a, o.live)

  pub fresh_apart :
      (a : Ptr) → 0 < once_if (d.passive == a) + times a d.pool → (d.fresh == a) ≡ false
  unfolding uses
  fresh_apart a h = ground (arith, o.valid.owned.unused a, o.live)

  abbrev marked : Store
  marked = put_buffer d.store d.active (set_state read_only (d.store d.active))

  marked-IsReady : IsReady d.size marked d.passive d.pool
  unfolding set_state
  marked-IsReady =
      put-IsReady d d.active (set_state read_only (d.store d.active)) active_apart
        (record { sized = (o.ready.sound d.active).sized; known = refl }) o.ready

  pub switch-Open : (choice : ℕ) (now : ℤ) → Open (switch_channel choice now d)
  unfolding switch_channel swap_channels number_of
  switch-Open choice now =
      let w : (d.state == writing_state) ≡ true = ground (arith, o.live) in
      let v = switch-IsValid choice now d o.valid in
      elim (times-take_at choice d.pool) [
        | inl none_left ↦
            rw (w, none_left, get_buffer, swap_channels)
              (record {
                valid = rw (w, none_left, get_buffer, swap_channels) at v;
                live = o.live;
                ready = record {
                  sound =
                      put-IsSound d.size marked d.fresh (blank d.size) marked-IsReady.sound
                        (record { sized = refl; known = refl });
                  clear = λ a h. elim (Bool-cases (d.fresh == a)) [
                    | inl new ↦ rw new refl
                    | inr old ↦ rw old (marked-IsReady.clear a (ground (arith, h, old)))
                  ];
                };
              })
        | inr (b, rest, e, t) ↦
            rw (w, e, get_buffer, swap_channels)
              (record {
                valid = rw (w, e, get_buffer, swap_channels) at v;
                live = o.live;
                ready = record {
                  sound = marked-IsReady.sound;
                  clear = λ a h. marked-IsReady.clear a (omega (arith, t a, h));
                };
              })
      ]

  pub write_active-Open : (y : BufferItem) → Open (write_active y d).0
  unfolding write_active
  write_active-Open y =
      let v = write_active-IsValid y d o.valid in
      let (s, r) = B.write y (d.store d.active) in
      counted-Open (record d { store = put_buffer d.store d.active s }) r v o.live
        (put-IsReady d d.active s active_apart
          (write-IsSound d.size y (d.store d.active) (o.ready.sound d.active)) o.ready)
