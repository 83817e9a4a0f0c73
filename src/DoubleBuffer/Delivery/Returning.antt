-- ===== src/DoubleBuffer/Delivery/Returning.antt =====
-- How a reader of an ordered stream gives back the buffer that it has read to its end.
use chanjet.Common.{
  ℕ, ◌≡◌, refl, sym, ap, subst, ◌∙◌, true, false, List, [], ◌∷◌, ◌++◌, arith, ◌==◌, inl, inr,
  Bool-cases,
}
use chanjet.Common.Count.{number_of}
use chanjet.Common.Int.{pos, eqb_ℤ}
use chanjet.Buffer.{Ptr, nil, BufferItem, SmartBuffer, reset, len}
use chanjet.Buffer.Fifo.Effect.{items, items-none}
use chanjet.Buffer.Ring.{IsRing}
use chanjet.DoubleBuffer.{DoubleBuffer, Store, put_buffer}
use chanjet.DoubleBuffer.Read.{give_back}
use chanjet.DoubleBuffer.Valid.{IsValid}
use chanjet.DoubleBuffer.Delivery.{unread, HasRing, IsOrdered}
use chanjet.DoubleBuffer.Delivery.Places.{gather-same, place_once}
use chanjet.DoubleBuffer.Delivery.Filing.{HasRing-of}

reset-IsRing : {t n : ℕ} {s : SmartBuffer} → IsRing t n s → IsRing 0 0 (reset s)
unfolding reset
reset-IsRing r = record {
  tail_at = refl;
  head_at = refl;
  counted = refl;
  room = omega arith;
  sized = r.sized;
  small = r.small;
}

pub held_none :
    (d : DoubleBuffer) (a : Ptr)
    → HasRing d a
    → eqb_ℤ (len (d.store a)) (pos 0) ≡ true
    → items (d.store a) ≡ []
unfolding len
held_none d a r h =
    let e : r.held ≡ 0 = ground (arith, r.ring.counted) in
    items-none (subst (λ n. IsRing r.reads n (d.store a)) e r.ring)

module _ {ins outs : List BufferItem} {d : DoubleBuffer} (o : IsOrdered ins outs d)
    (here : (d.current_buffer == nil) ≡ false) (empty : items (d.store d.current_buffer) ≡ []) where
  abbrev returned : Store
  returned = put_buffer d.store d.current_buffer (reset (d.store d.current_buffer))

  reset-empty : items (returned d.current_buffer) ≡ []
  reset-empty =
      let e : (d.current_buffer == d.current_buffer) ≡ true = ground arith in
      rw e (items-none (reset-IsRing (o.rings d.current_buffer here).ring))

  others : (a : Ptr) → (d.current_buffer == a) ≡ false → items (returned a) ≡ items (d.store a)
  others a e = rw e

  returned-HasRing :
      (a : Ptr)
      → (a == nil) ≡ false
      → HasRing (record d { store = returned; current_buffer = nil }) a
  returned-HasRing a h =
      let r = o.rings a h in
      elim (Bool-cases (d.current_buffer == a)) [
        | inl same ↦
            let e : d.current_buffer ≡ a = ground arith in
            HasRing-of (record d { store = returned; current_buffer = nil }) a (reset (d.store a)) 0
              0 (rw same (ap (λ b. reset (d.store b)) e)) (reset-IsRing r.ring) (omega arith)
              (λ _. refl)
        | inr other ↦
            HasRing-of (record d { store = returned; current_buffer = nil }) a (d.store a) r.reads
              r.held (rw other) r.ring r.within (λ _. r.first (ground arith))
      ]

  unread-returned :
      unread o.queue (record d { store = returned; current_buffer = nil }) ≡ unread o.queue d
  unfolding unread number_of
  unread-returned = rw (
    here,
    empty,
    gather-same d.store returned o.queue (λ a m. others a (ground (arith, place_once o a, here))),
    gather-same d.store returned d.spawned (λ a m. others a (ground (arith, place_once o a, here))),
    others d.active (ground (arith, place_once o d.active, here)),
  )

  returned-IsOrdered :
      let d' = record d {
        store = returned;
        pool = d.current_buffer ∷ d.pool;
        current_buffer = nil;
      } in
      IsValid d' → IsOrdered ins outs d'
  unfolding unread number_of
  returned-IsOrdered v = record {
    valid = v;
    live = o.live;
    small = o.small;
    rings = λ a h.
        let r = returned-HasRing a h in
        record {
          reads = r.reads;
          held = r.held;
          ring = r.ring;
          within = r.within;
          first = r.first;
        };
    cleared = λ a h. elim (Bool-cases (d.current_buffer == a)) [
      | inl same ↦
          let e : d.current_buffer ≡ a = ground arith in
          subst (λ b. items (returned b) ≡ []) e reset-empty
      | inr other ↦ others a other ∙ o.cleared a (ground (arith, h, other))
    ];
    queue = o.queue;
    numbers = o.numbers;
    next = o.next;
    full = o.full;
    order = o.order ∙ ap (λ xs. outs ++ xs) (sym unread-returned);
  }

-- The buffer that is read to its end goes back empty.
pub give_back-IsOrdered :
    {ins outs : List BufferItem} (d : DoubleBuffer)
    → IsValid (give_back d)
    → ((d.current_buffer == nil) ≡ false → eqb_ℤ (len (d.store d.current_buffer)) (pos 0) ≡ true)
    → IsOrdered ins outs d
    → IsOrdered ins outs (give_back d)
unfolding give_back
give_back-IsOrdered {ins} {outs} d v read_out o = elim (Bool-cases (d.current_buffer == nil)) [
  | inl none_here ↦ rw (none_here, give_back) o
  | inr here ↦
      let empty = held_none d d.current_buffer (o.rings d.current_buffer here) (read_out here) in
      rw (here, give_back) (returned-IsOrdered o here empty (rw (here, give_back) at v))
]
