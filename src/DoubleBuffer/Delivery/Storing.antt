-- ===== src/DoubleBuffer/Delivery/Storing.antt =====
-- An ordered stream with more items in its active buffer.
use mathlib.Core.List.{append_assoc}
use chanjet.Common.{
  ◌≡◌, refl, sym, ap, subst, ◌∙◌, true, false, List, [], ◌∷◌, ◌++◌, All, arith, ◌==◌, inl, inr,
  Bool-cases,
}
use chanjet.Common.Count.{number_of}
use chanjet.Common.Int.{ℤ}
use chanjet.Buffer.{Ptr, nil, BufferItem, SmartBuffer}
use chanjet.Buffer.Fifo.Effect.{items}
use chanjet.DoubleBuffer.{DoubleBuffer, Store, put_buffer}
use chanjet.DoubleBuffer.Valid.{IsValid}
use chanjet.DoubleBuffer.Delivery.{gather, current_items, unread, IsFull, HasRing, IsOrdered}
use chanjet.DoubleBuffer.Delivery.Places.{gather-same, place_once, place_real}
use chanjet.DoubleBuffer.Delivery.Filing.{HasRing-kept}

All-append : (xs ys : List BufferItem) → All IsFull xs → All IsFull ys → All IsFull (xs ++ ys)
All-append [] ys p q = q
All-append (x ∷ xs) ys p q = (p.0, All-append xs ys p.1 q)

module _ {ins outs : List BufferItem} {d : DoubleBuffer} (o : IsOrdered ins outs d) where
  pub active_real : (d.active == nil) ≡ false
  active_real = ground (arith, place_real o)

  pub active_unread : (d.active == d.current_buffer) ≡ false
  active_unread = ground (arith, place_once o d.active, active_real)

  module _ (s : SmartBuffer) (more : List BufferItem)
      (same : items s ≡ items (d.store d.active) ++ more) where
    abbrev pub stored : Store
    stored = put_buffer d.store d.active s

    elsewhere : (a : Ptr) → (d.active == a) ≡ false → items (stored a) ≡ items (d.store a)
    elsewhere a e = rw e

    here_now : items (stored d.active) ≡ items (d.store d.active) ++ more
    here_now = let e : (d.active == d.active) ≡ true = ground arith in rw e same

    current_more : current_items (record d { store = stored }) ≡ current_items d
    unfolding current_items
    current_more = let e : (d.active == d.current_buffer) ≡ false = active_unread in rw e

    unread_more : unread o.queue (record d { store = stored }) ≡ unread o.queue d ++ more
    unfolding unread number_of
    unread_more =
        ap
          (λ xs.
            xs ++ (gather stored o.queue ++ (gather stored d.spawned ++ items (stored d.active))))
          current_more
        ∙ rw
            (
              gather-same d.store stored o.queue
                  (λ a m. elsewhere a (ground (arith, place_once o a))),
              gather-same d.store stored d.spawned
                  (λ a m. elsewhere a (ground (arith, place_once o a))),
              here_now,
            )
            (simp append_assoc)

    pub stored-IsOrdered :
        (count : ℤ)
        → IsValid (record d { store = stored; count = count })
        → HasRing (record d { store = stored }) d.active
        → All IsFull more
        → IsOrdered (ins ++ more) outs (record d { store = stored; count = count })
    unfolding unread number_of
    stored-IsOrdered count v ring full = record {
      valid = v;
      live = o.live;
      small = o.small;
      rings = λ a h. elim (Bool-cases (d.active == a)) [
        | inl e ↦
            let same_place : d.active ≡ a = ground arith in
            let r = subst (HasRing (record d { store = stored })) same_place ring in
            record {
              reads = r.reads;
              held = r.held;
              ring = r.ring;
              within = r.within;
              first = r.first;
            }
        | inr e ↦
            HasRing-kept d (record d { store = stored; count = count }) a (rw e) refl (o.rings a h)
      ];
      cleared = λ a h. elsewhere a (ground (arith, place_once o a)) ∙ o.cleared a h;
      queue = o.queue;
      numbers = o.numbers;
      next = o.next;
      full = All-append ins more o.full full;
      order =
          ap (λ xs. xs ++ more) o.order
          ∙ append_assoc outs (unread o.queue d) more
          ∙ ap (λ xs. outs ++ xs) (sym unread_more);
    }
