-- ===== src/DoubleBuffer/Switch.antt =====
-- What a switch of channels does to the buffers.
use chanjet.Common.{
  ℕ, suc, ◌+◌, ◌≡◌, ◌≢◌, refl, sym, subst, true, false, List, [], ◌∷◌, ◌++◌, arith, ◌==◌, ◌⊎◌, inl,
  inr, Bool-cases,
}
use chanjet.Common.Count.{number_of, number_of-append}
use chanjet.Common.Int.{ℤ, pos}
use chanjet.Consts.{writing_state, closed_state, read_only}
use chanjet.Buffer.{Ptr, nil, blank, set_state}
use chanjet.Config.{milliseconds}
use chanjet.DoubleBuffer.{
  DoubleBuffer, Store, put_buffer, get_buffer, switch_channel, swap_channels,
}
use chanjet.DoubleBuffer.Ownership.{is_at, times, once_if, uses, IsOwned, times-take_at}

-- What a switch does: the active buffer, read-only now, goes to a goroutine, and `buf`, from the pool
-- or new, comes in.
pub record Switched (d d' : DoubleBuffer) : Type 0 where
  pub buf : Ptr
  pub store : Store
  pub fresh : Ptr
  pub pool : List Ptr
  pub at : ℤ
  pub ended : d' ≡ record d {
    store = store;
    fresh = fresh;
    pool = pool;
    active = d.passive;
    passive = buf;
    count = pos 0;
    last_switch = at;
    spawned = d.spawned ++ (d.active ∷ []);
  }
  pub from :
      ((fresh ≡ d.fresh) × ((a : Ptr) → times a d.pool ≡ once_if (buf == a) + times a pool))
      ⊎ ((fresh ≡ suc d.fresh) × (pool ≡ d.pool) × (buf ≡ d.fresh))
  pub kept : (a : Ptr) → d.active ≢ a → d.fresh ≢ a → store a ≡ d.store a

pub switch_lem :
    (choice : ℕ) (now : ℤ) (d : DoubleBuffer)
    → (d.state == writing_state) ≡ true
    → Switched d (switch_channel choice now d)
unfolding switch_channel swap_channels
switch_lem choice now d w = elim (times-take_at choice d.pool) [
  | inl none_left ↦ record {
    buf = d.fresh;
    store =
        put_buffer (put_buffer d.store d.active (set_state read_only (d.store d.active))) d.fresh
          (blank d.size);
    fresh = suc d.fresh;
    pool = d.pool;
    at = milliseconds now;
    ended = rw (w, none_left, get_buffer, swap_channels);
    from = inr (refl, refl, refl);
    kept = λ a f g. ground arith;
  }
  | inr (b, rest, e, t) ↦ record {
    buf = b;
    store = put_buffer d.store d.active (set_state read_only (d.store d.active));
    fresh = d.fresh;
    pool = rest;
    at = milliseconds now;
    ended = rw (w, e, get_buffer, swap_channels);
    from = inl (refl, t);
    kept = λ a f g. ground arith;
  }
]

Switched-IsOwned :
    (d d' : DoubleBuffer)
    → (d.state == closed_state) ≡ false
    → Switched d d'
    → IsOwned d
    → IsOwned d'
unfolding uses number_of
Switched-IsOwned d d' w s o =
    let moved : (a : Ptr)
        → times a (d.spawned ++ (d.active ∷ [])) ≡ times a d.spawned + times a (d.active ∷ []) =
      λ a. number_of-append (is_at a) d.spawned (d.active ∷ []) in
    subst IsOwned (sym s.ended) (elim s.from [
      | inl (f, t) ↦ record {
        once = λ a. ground (arith, moved a, t a, o.once a, w);
        held = λ a h k. ground (arith, moved a, t a, o.held a h, w);
        unused = λ a h. ground (arith, moved a, t a, o.unused a, w);
        real = ground (arith, moved nil, t nil, o.real, w);
        positive = omega (arith, o.positive);
      }
      | inr (f, p, b) ↦ record {
        once = λ a. rw p (ground (arith, moved a, o.once a, o.unused a, w));
        held = λ a h k. rw p (ground (arith, moved a, o.held a h, o.unused a, w));
        unused = λ a h. rw p (ground (arith, moved a, o.unused a, w));
        real = rw p (ground (arith, moved nil, o.real, o.positive, w));
        positive = omega arith;
      }
    ])

pub switch-IsOwned :
    (choice : ℕ) (now : ℤ) (d : DoubleBuffer) → IsOwned d → IsOwned (switch_channel choice now d)
unfolding switch_channel
switch-IsOwned choice now d o = elim (Bool-cases (d.state == writing_state)) [
  | inl w ↦
      Switched-IsOwned d (switch_channel choice now d) (ground arith) (switch_lem choice now d w) o
  | inr w ↦ rw (w, switch_channel) o
]
