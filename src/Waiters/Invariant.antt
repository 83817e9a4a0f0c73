-- ===== src/Waiters/Invariant.antt =====
-- What holds of the waiters between two calls, as long as the manager is not closed.
use mathlib.Core.List.{
  Mem, Mem-prop, Nodup, Nodup-cons, Nodup-nil, Perm, mem-cons, mem-cons_self, mem-cons_of_mem,
  not-mem-nil, perm_middle,
}
use mathlib.Core.List.Perm
use mathlib.Core.Logic.Or
use native.Mathlib.Bridge.{le_prop}
use chanjet.Common.{
  ℕ, zero, suc, ◌≤◌, ◌<◌, ◌^◌, ◌≡◌, ap, refl, false, List, [], ◌∷◌, ◌++◌, none, some, map, arith,
  ◌==◌, ◌⊎◌, inl, inr, Bool-cases,
}
use chanjet.Waiters.{
  empty_channel, Channels, put_channel, Waiter, id_of, channel_of, WaiterManager,
  new_waiter_manager, take_at, pool_get, enroll, next_id, delete, register,
}

abbrev pub ids : WaiterManager → List ℕ
ids w = map id_of w.ws

-- The channels that waiters hold or the pool keeps.
abbrev pub live : WaiterManager → List ℕ
live w = map channel_of w.ws ++ w.pool

-- The addresses are in use, each once, and each is that of an empty, open channel.
pub record Sound (chans : Channels) (fresh : ℕ) (addresses : List ℕ) : Type 0 where
  pub once : Nodup addresses
  pub old : (c : ℕ) → Mem c addresses → c < fresh
  pub empty : (c : ℕ) → Mem c addresses → chans c ≡ empty_channel

pub Sound-perm :
    {chans : Channels} {fresh : ℕ} {xs ys : List ℕ}
    → Perm xs ys
    → Sound chans fresh xs
    → Sound chans fresh ys
Sound-perm p s = record {
  once = Perm.nodup p s.once;
  old = λ c m. s.old c ((Perm.mem_iff p).1 m);
  empty = λ c m. s.empty c ((Perm.mem_iff p).1 m);
}

mem-tail : {c d : ℕ} {xs : List ℕ} → (d == c) ≡ false → Mem c (d ∷ xs) → Mem c xs
mem-tail other m = Or.elim Mem-prop (mem-cons.0 m) (λ e. absurd (ground arith)) (λ t. t)

pub Sound-new :
    {chans : Channels} {fresh : ℕ} {xs : List ℕ}
    → Sound chans fresh xs
    → Sound (put_channel chans fresh empty_channel) (suc fresh) (fresh ∷ xs)
Sound-new {chans} {fresh} {xs} s = record {
  once = Nodup-cons.1 (λ m. absurd (omega (arith, s.old fresh m)), s.once);
  old = λ c m. Or.elim le_prop (mem-cons.0 m) (λ e. omega arith) (λ t. omega (arith, s.old c t));
  empty = λ c m. elim (Bool-cases (fresh == c)) [
    | inl same ↦ rw same
    | inr other ↦ rw other (s.empty c (mem-tail other m))
  ];
}

-- No id occurs twice, and what is live is sound.
pub record IsValid (w : WaiterManager) : Type 0 where
  pub ids_once : Nodup (ids w)
  pub ids_given : (i : ℕ) → Mem i (ids w) → i ≤ w.current_id
  pub sound : Sound w.chans w.fresh (live w)

-- A new manager is valid.
pub new-IsValid : IsValid new_waiter_manager
unfolding new_waiter_manager
new-IsValid = record {
  ids_once = Nodup-nil;
  ids_given = λ i m. absurd (not-mem-nil m);
  sound = record { once = Nodup-nil; old = λ c m. absurd (not-mem-nil m); empty = λ c m. refl };
}

take_at-cases :
    (k : ℕ) (pool : List ℕ)
    → (take_at k pool ≡ none)
      ⊎ ((c : ℕ) × (rest : List ℕ) × (take_at k pool ≡ some (c, rest)) × Perm pool (c ∷ rest))
unfolding take_at
take_at-cases k [] = inl refl
take_at-cases zero (d ∷ pool) = inr (d, pool, refl, Perm.rfl)
take_at-cases (suc k) (d ∷ pool) = elim (take_at-cases k pool) [
  | inl e ↦ inl (rw e)
  | inr (c, rest, e, p) ↦ inr (c, d ∷ rest, rw e, Perm.trans (Perm.cons d p) (Perm.swap c d rest))
]

-- What `register` returns: a new id with an empty, open channel, added to a valid manager.
pub record Registered (w : WaiterManager) (r : Waiter × WaiterManager) : Type 0 where
  pub valid : IsValid r.1
  pub new_id : ¬ Mem (id_of r.0) (ids w)
  pub counted : r.1.current_id ≡ suc w.current_id
  pub added : r.1.ws ≡ r.0 ∷ w.ws
  pub channel_empty : r.1.chans (channel_of r.0) ≡ empty_channel

delete-absent : (id : ℕ) (ws : List Waiter) → ¬ Mem id (map id_of ws) → delete id ws ≡ ws
unfolding delete
delete-absent id [] h = refl
delete-absent id ((j, ch) ∷ ws) h = elim (Bool-cases (j == id)) [
  | inl same ↦ absurd (h (rw (let e : j ≡ id = ground arith in e) mem-cons_self))
  | inr other ↦ rw other (ap (◌∷◌ (j, ch)) (delete-absent id ws (λ m. h (mem-cons_of_mem j m))))
]

register_new :
    (choice : ℕ) (w : WaiterManager)
    → take_at choice w.pool ≡ none
    → register choice w ≡ (
      (next_id w.current_id, w.fresh),
      record w {
        ws = (next_id w.current_id, w.fresh) ∷ delete (next_id w.current_id) w.ws;
        chans = put_channel w.chans w.fresh empty_channel;
        fresh = suc w.fresh;
        current_id = next_id w.current_id;
      },
    )
unfolding register enroll
register_new choice w e = ap (enroll (next_id w.current_id)) (
    let p : pool_get choice w ≡ (
      w.fresh,
      record w { chans = put_channel w.chans w.fresh empty_channel; fresh = suc w.fresh },
    ) =
      rw (e, pool_get) in
    p)

register_pooled :
    (choice c : ℕ) (rest : List ℕ) (w : WaiterManager)
    → take_at choice w.pool ≡ some (c, rest)
    → register choice w ≡ (
      (next_id w.current_id, c),
      record w {
        ws = (next_id w.current_id, c) ∷ delete (next_id w.current_id) w.ws;
        pool = rest;
        current_id = next_id w.current_id;
      },
    )
unfolding register enroll
register_pooled choice c rest w e =
    ap (enroll (next_id w.current_id))
      (let p : pool_get choice w ≡ (c, record w { pool = rest }) = rw (e, pool_get) in p)

-- The channels after one is taken from the pool.
pooled-Sound :
    (w : WaiterManager) (c : ℕ) (rest : List ℕ)
    → Perm w.pool (c ∷ rest)
    → IsValid w
    → Sound w.chans w.fresh (c ∷ map channel_of w.ws ++ rest)
pooled-Sound w c rest p v =
    Sound-perm
      (Perm.trans (Perm.append_left (map channel_of w.ws) p)
        (perm_middle {a = c} (map channel_of w.ws) rest))
      v.sound

-- The channel of a new waiter, also where the ids have wrapped.
pub register-empty :
    (choice : ℕ) (w : WaiterManager)
    → IsValid w
    → (register choice w).1.chans (channel_of (register choice w).0) ≡ empty_channel
register-empty choice w v = elim (take_at-cases choice w.pool) [
  | inl e ↦ rw (register_new choice w e) ((Sound-new v.sound).empty w.fresh mem-cons_self)
  | inr (c, rest, e, p) ↦
      rw (register_pooled choice c rest w e) ((pooled-Sound w c rest p v).empty c mem-cons_self)
]

module _ (w : WaiterManager) (v : IsValid w) (room : suc w.current_id < 2 ^ 64) where
  unwrapped : next_id w.current_id ≡ suc w.current_id
  unwrapped = omega arith

  unused : ¬ Mem (next_id w.current_id) (ids w)
  unused m = absurd (omega (arith, unwrapped, v.ids_given _ m))

  kept : delete (next_id w.current_id) w.ws ≡ w.ws
  kept = delete-absent (next_id w.current_id) w.ws unused

  given : (i : ℕ) → Mem i (next_id w.current_id ∷ ids w) → i ≤ next_id w.current_id
  given i m =
      Or.elim le_prop (mem-cons.0 m) (λ e. omega arith)
        (λ t. omega (arith, unwrapped, v.ids_given i t))

-- register on a valid manager whose ids have not wrapped (the last is below 2^64 - 1) gives an id
-- that no waiter has, counts it, gives an empty, open channel whatever object the pool hands out,
-- adds that entry to the old ones, and keeps the manager valid.
pub register-Registered :
    (choice : ℕ) (w : WaiterManager)
    → IsValid w
    → suc w.current_id < 2 ^ 64
    → Registered w (register choice w)
register-Registered choice w v room = elim (take_at-cases choice w.pool) [
  | inl e ↦
      rw (register_new choice w e, kept w v room)
        (record {
          valid = record {
            ids_once = Nodup-cons.1 (unused w v room, v.ids_once);
            ids_given = given w v room;
            sound = Sound-new v.sound;
          };
          new_id = unused w v room;
          counted = unwrapped w v room;
          added = refl;
          channel_empty = (Sound-new v.sound).empty w.fresh mem-cons_self;
        })
  | inr (c, rest, e, p) ↦
      let sound = pooled-Sound w c rest p v in
      rw (register_pooled choice c rest w e, kept w v room)
        (record {
          valid = record {
            ids_once = Nodup-cons.1 (unused w v room, v.ids_once);
            ids_given = given w v room;
            sound = sound;
          };
          new_id = unused w v room;
          counted = unwrapped w v room;
          added = refl;
          channel_empty = sound.empty c mem-cons_self;
        })
]
