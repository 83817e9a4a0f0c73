-- ===== src/DoubleBuffer/Delivery/Switching.antt =====
-- A switch of channels on an ordered stream: the active buffer goes behind the started goroutines
-- and an empty one comes in.
use mathlib.Core.List.{append_assoc, append-nil}
use chanjet.Common.{
  ℕ, suc, ◌+◌, ◌^◌, ◌<◌, ◌≡◌, refl, sym, ap, ap₂, subst, ◌∙◌, true, false, List, [], ◌∷◌, ◌++◌,
  arith, ◌==◌, inl, inr, Bool-cases, length-replicate,
}
use chanjet.Common.Count.{number_of}
use chanjet.Common.Int.{ℤ, pos}
use chanjet.Consts.{writing_state, read_only}
use chanjet.Config.{milliseconds}
use chanjet.Buffer.{Ptr, nil, BufferItem, SmartBuffer, blank, set_state, empty_item}
use chanjet.Buffer.Fifo.Effect.{items}
use chanjet.DoubleBuffer.{
  DoubleBuffer, Store, put_buffer, get_buffer, switch_channel, swap_channels,
}
use chanjet.DoubleBuffer.Ownership.{times, once_if, times-take_at}
use chanjet.DoubleBuffer.Valid.{IsValid}
use chanjet.DoubleBuffer.Delivery.{gather, current_items, unread, HasRing, IsOrdered}
use chanjet.Buffer.Ring.{IsRing}
use chanjet.DoubleBuffer.Delivery.Filing.{HasRing-kept, HasRing-of, IsRing-state}
use chanjet.DoubleBuffer.Delivery.Places.{places, gather-append, gather-same, place_used}

module _ {ins outs : List BufferItem} {d : DoubleBuffer} (o : IsOrdered ins outs d) where
  -- An address with a place is not the next one to be given out.
  placed : (a : Ptr) → 0 < places a o.queue d → (d.fresh == a) ≡ false
  placed a h = ground (arith, place_used o a)

  module _ (store : Store)
      (same : (a : Ptr) → (d.fresh == a) ≡ false → items (store a) ≡ items (d.store a)) where
    current_kept : current_items (record d { store = store }) ≡ current_items d
    unfolding current_items
    current_kept = elim (Bool-cases (d.current_buffer == nil)) [
      | inl e ↦ rw e
      | inr e ↦ rw e (same d.current_buffer (placed d.current_buffer (ground arith)))
    ]

    unread_kept :
        unread o.queue
          (record d { store = store; active = d.passive; spawned = d.spawned ++ (d.active ∷ []) })
        ≡ unread o.queue d
    unfolding unread gather number_of
    unread_kept =
        let empty : items (store d.passive) ≡ [] =
          same d.passive (placed d.passive (ground arith)) ∙ o.cleared d.passive (ground arith) in
        ap₂ ◌++◌ current_kept (
          rw
            (
              gather-same d.store store o.queue (λ a m. same a (placed a (omega arith))),
              gather-append store d.spawned (d.active ∷ []),
              gather-same d.store store d.spawned (λ a m. same a (placed a (omega arith))),
              same d.active (placed d.active (ground arith)),
              empty,
            )
            (simp (append_assoc, append-nil)))

    switched-IsOrdered :
        (fresh buf : Ptr) (pool : List Ptr) (count at : ℤ)
        → let d' = record d {
          store = store;
          fresh = fresh;
          pool = pool;
          active = d.passive;
          passive = buf;
          count = count;
          last_switch = at;
          spawned = d.spawned ++ (d.active ∷ []);
        } in
          IsValid d'
          → ((a : Ptr) → (a == nil) ≡ false → HasRing (record d { store = store }) a)
          → ((a : Ptr) → 0 < once_if (buf == a) + times a pool → items (store a) ≡ [])
          → IsOrdered ins outs d'
    unfolding unread
    switched-IsOrdered fresh buf pool count at v rings cleared = record {
      valid = v;
      live = o.live;
      small = o.small;
      rings = λ a h.
          let r = rings a h in
          record {
            reads = r.reads;
            held = r.held;
            ring = r.ring;
            within = r.within;
            first = r.first;
          };
      cleared = cleared;
      queue = o.queue;
      numbers = o.numbers;
      next = o.next;
      full = o.full;
      order = o.order ∙ ap (λ xs. outs ++ xs) (sym unread_kept);
    }

pub items-state : (k : ℕ) (s : SmartBuffer) → items (record s { state = k }) ≡ items s
unfolding items
items-state k s = refl

items-set_state : (k : ℕ) (s : SmartBuffer) → items (set_state k s) ≡ items s
unfolding set_state
items-set_state k s = items-state k s

pub items-blank : (n : ℕ) → items (blank n) ≡ []
unfolding items
items-blank n = refl

pub blank-IsRing : (n : ℕ) → n < 2 ^ 31 → IsRing 0 0 (blank n)
blank-IsRing n h = record {
  tail_at = refl;
  head_at = refl;
  counted = refl;
  room = omega arith;
  sized = length-replicate n empty_item;
  small = h;
}

-- Marking a buffer read-only.
abbrev marked : DoubleBuffer → Store
marked d = put_buffer d.store d.active (set_state read_only (d.store d.active))

marked-items : (d : DoubleBuffer) (a : Ptr) → items (marked d a) ≡ items (d.store a)
marked-items d a = elim (Bool-cases (d.active == a)) [
  | inl same ↦
      let e : d.active ≡ a = ground arith in
      rw same (items-set_state read_only (d.store d.active) ∙ ap (λ b. items (d.store b)) e)
  | inr other ↦ rw other
]

marked-HasRing :
    (d : DoubleBuffer) (a : Ptr) → HasRing d a → HasRing (record d { store = marked d }) a
unfolding set_state
marked-HasRing d a r = elim (Bool-cases (d.active == a)) [
  | inl same ↦
      let e : d.active ≡ a = ground arith in
      HasRing-of (record d { store = marked d }) a (set_state read_only (d.store a)) r.reads r.held
        (rw same (ap (λ b. set_state read_only (d.store b)) e)) (IsRing-state read_only r.ring)
        r.within r.first
  | inr other ↦ HasRing-kept d (record d { store = marked d }) a (rw other) refl r
]

-- What a new buffer at `d.fresh` adds to that.
abbrev extended : DoubleBuffer → Store
extended d = put_buffer (marked d) d.fresh (blank d.size)

extended-HasRing :
    (d : DoubleBuffer) (a : Ptr)
    → d.size < 2 ^ 31
    → HasRing d a
    → HasRing (record d { store = extended d }) a
extended-HasRing d a small r = elim (Bool-cases (d.fresh == a)) [
  | inl new ↦
      HasRing-of (record d { store = extended d }) a (blank d.size) 0 0 (rw new)
        (blank-IsRing d.size small) (omega arith) (λ _. refl)
  | inr old ↦
      HasRing-kept (record d { store = marked d }) (record d { store = extended d }) a (rw old) refl
        (marked-HasRing d a r)
]

extended-items :
    (d : DoubleBuffer) (a : Ptr) → (d.fresh == a) ≡ false → items (extended d a) ≡ items (d.store a)
extended-items d a old = rw old (marked-items d a)

extended-empty : (d : DoubleBuffer) (a : Ptr) → (d.fresh == a) ≡ true → items (extended d a) ≡ []
extended-empty d a new = rw new (items-blank d.size)

pub switch-IsOrdered :
    {ins outs : List BufferItem} (choice : ℕ) (now : ℤ) (d : DoubleBuffer)
    → IsValid (switch_channel choice now d)
    → IsOrdered ins outs d
    → IsOrdered ins outs (switch_channel choice now d)
unfolding switch_channel swap_channels
switch-IsOrdered {ins} {outs} choice now d v o =
    let w : (d.state == writing_state) ≡ true = ground (arith, o.live) in
    elim (times-take_at choice d.pool) [
      | inl none_left ↦
          let d' : DoubleBuffer = record d {
            store = extended d;
            fresh = suc d.fresh;
            active = d.passive;
            passive = d.fresh;
            count = pos 0;
            last_switch = milliseconds now;
            spawned = d.spawned ++ (d.active ∷ []);
          } in
          let ended : switch_channel choice now d ≡ d' =
            rw (w, none_left, get_buffer, swap_channels) in
          subst (λ (x : DoubleBuffer). IsValid x → IsOrdered ins outs x) (sym ended)
            (λ v'.
              switched-IsOrdered o (extended d) (extended-items d) (suc d.fresh) d.fresh d.pool
                (pos 0) (milliseconds now) v' (λ a h. extended-HasRing d a o.small (o.rings a h))
                (λ a h. elim (Bool-cases (d.fresh == a)) [
                  | inl new ↦ extended-empty d a new
                  | inr old ↦ extended-items d a old ∙ o.cleared a (ground (arith, old))
                ]))
            v
      | inr (b, rest, e, t) ↦
          let d' : DoubleBuffer = record d {
            store = marked d;
            pool = rest;
            active = d.passive;
            passive = b;
            count = pos 0;
            last_switch = milliseconds now;
            spawned = d.spawned ++ (d.active ∷ []);
          } in
          let ended : switch_channel choice now d ≡ d' = rw (w, e, get_buffer, swap_channels) in
          subst (λ (x : DoubleBuffer). IsValid x → IsOrdered ins outs x) (sym ended)
            (λ v'.
              switched-IsOrdered o (marked d) (λ a _. marked-items d a) d.fresh b rest (pos 0)
                (milliseconds now) v' (λ a h. marked-HasRing d a (o.rings a h))
                (λ a h. marked-items d a ∙ o.cleared a (omega (arith, t a))))
            v
    ]
