-- ===== src/DoubleBuffer/Isolation.antt =====
-- Writers do not touch a buffer that is on its way to the reader.
use chanjet.Common.{
  ℕ, ◌+◌, ◌<◌, ◌≡◌, ◌≢◌, refl, sym, ap, subst, ◌∙◌, false, ◌==◌, if◌then◌else◌, inl, inr,
  Bool-cases, arith,
}
use chanjet.Common.Count.{number_of}
use chanjet.Common.Int.{ℤ}
use chanjet.Common.Run.{Run, ok, err, panic}
use chanjet.Consts.{writing_state, closed_state, read_only}
use chanjet.Buffer.{Ptr, nil, BufferItem, SmartBuffer}
use chanjet.Buffer as B
use chanjet.MinHeap.Swap.{entries}
use chanjet.DoubleBuffer.{DoubleBuffer, put_buffer, switch_channel}
use chanjet.DoubleBuffer.Write.{
  admit, counted, write_active, write_slow, after_fast, write_item, write_admitted, write,
}
use chanjet.DoubleBuffer.Ownership.{holds, times, once_if, uses, IsOwned}
use chanjet.DoubleBuffer.Switch.{switch_lem}
use chanjet.DoubleBuffer.Valid.{IsValid, both}
use chanjet.DoubleBuffer.Writing.{Writing, admit_lem}

-- The places from a switch to the reader that hold the address `a`.
unfoldable pub in_transit : Ptr → DoubleBuffer → ℕ
in_transit a d =
    (if d.current_buffer == nil then 0 else once_if (d.current_buffer == a))
    + times a d.spawned
    + number_of (holds a) d.numbered
    + number_of (holds a) (entries d.pending_heap)

-- `a` is neither of the writers' buffers, nor the next new one.
record Away (a : Ptr) (d : DoubleBuffer) : Type 0 where
  not_active : d.active ≢ a
  not_passive : d.passive ≢ a
  not_fresh : d.fresh ≢ a

-- The buffer at `a` is as it was, and still away from the writers.
record Kept (a : Ptr) (d d' : DoubleBuffer) : Type 0 where
  same : d'.store a ≡ d.store a
  away : Away a d'

counted-Kept :
    (a : Ptr) (d d' : DoubleBuffer) (r : Run (Unit {0})) → Kept a d d' → Kept a d (counted d' r)
unfolding counted
counted-Kept a d d' (ok _) k = record {
  same = k.same;
  away = record {
    not_active = k.away.not_active;
    not_passive = k.away.not_passive;
    not_fresh = k.away.not_fresh;
  };
}
counted-Kept a d d' (err _) k = k
counted-Kept a d d' panic k = k

write_active-Kept :
    (a : Ptr) (item : BufferItem) (d : DoubleBuffer) → Away a d → Kept a d (write_active item d).0
unfolding write_active
write_active-Kept a item d w =
    let (s, r) = B.write item (d.store d.active) in
    counted-Kept a d (record d { store = put_buffer d.store d.active s }) r
      (record {
        same = ground (arith, w.not_active);
        away = record {
          not_active = w.not_active;
          not_passive = w.not_passive;
          not_fresh = w.not_fresh;
        };
      })

counted_same : (a : Ptr) (d : DoubleBuffer) (r : Run (Unit {0})) → (counted d r).store a ≡ d.store a
unfolding counted
counted_same a d (ok _) = refl
counted_same a d (err _) = refl
counted_same a d panic = refl

write_active_same :
    (a : Ptr) (item : BufferItem) (d : DoubleBuffer)
    → d.active ≢ a
    → (write_active item d).0.store a ≡ d.store a
unfolding write_active
write_active_same a item d w =
    let (s, r) = B.write item (d.store d.active) in
    counted_same a (record d { store = put_buffer d.store d.active s }) r ∙ ground (arith, w)

slow_same :
    (a : Ptr) (choice : ℕ) (now : ℤ) (item : BufferItem) (d : DoubleBuffer)
    → Away a d
    → (write_slow choice now item d).0.store a ≡ d.store a
unfolding write_slow switch_channel
slow_same a choice now item d w = elim (Bool-cases ((d.store d.active).state == read_only)) [
  | inl full ↦ elim (Bool-cases (d.state == writing_state)) [
    | inl live ↦
        let s = switch_lem choice now d live in
        rw (full, write_slow)
          (write_active_same a item (switch_channel choice now d)
              (subst (λ (x : DoubleBuffer). x.active ≢ a) (sym s.ended) w.not_passive)
            ∙ ap (λ (x : DoubleBuffer). x.store a) s.ended
            ∙ s.kept a w.not_active w.not_fresh)
    | inr busy ↦
        rw (full, busy, write_slow, switch_channel) (write_active_same a item d w.not_active)
  ]
  | inr other ↦ rw (other, write_slow) (write_active_same a item d w.not_active)
]

fast_same :
    (a : Ptr) (d : DoubleBuffer) (slow : DoubleBuffer → Writing) (r : Writing)
    → ((d' : DoubleBuffer) → Away a d' → (slow d').0.store a ≡ d'.store a)
    → Kept a d r.0
    → (after_fast slow r).0.store a ≡ d.store a
unfolding after_fast
fast_same a d slow (d', ok u) h k = k.same
fast_same a d slow (d', err e) h k = h d' k.away ∙ k.same
fast_same a d slow (d', panic) h k = k.same

item_same :
    (a : Ptr) (choice : ℕ) (now : ℤ) (item : BufferItem) (d : DoubleBuffer)
    → Away a d
    → (write_item choice now item d).0.store a ≡ d.store a
unfolding write_item
item_same a choice now item d w =
    both (λ (r : Writing). r.0.store a ≡ d.store a) (d.state == writing_state)
      (fast_same a d (write_slow choice now item) (write_active item d)
        (slow_same a choice now item) (write_active-Kept a item d w))
      (slow_same a choice now item d w)

admitted_same :
    (a : Ptr) (choice : ℕ) (now : ℤ) (d : DoubleBuffer) (r : Run BufferItem)
    → Away a d
    → (write_admitted choice now (d, r)).0.store a ≡ d.store a
unfolding write_admitted
admitted_same a choice now d (ok item) w = item_same a choice now item d w
admitted_same a choice now d (err e) w = refl
admitted_same a choice now d panic w = refl

transit-Away :
    (a : Ptr) (d : DoubleBuffer)
    → IsOwned d
    → (d.state == closed_state) ≡ false
    → 0 < in_transit a d
    → Away a d
unfolding uses in_transit
transit-Away a d o live h = record {
  not_active = λ e. absurd (ground (arith, o.once a, live));
  not_passive = λ e. absurd (ground (arith, o.once a, live));
  not_fresh = λ e. absurd (ground (arith, o.unused a, live));
}

-- `Write` on a valid stream leaves each buffer as it is that is with the reader, in the pending heap
-- or on its way there, on every path and whatever it returns.
pub write_isolated :
    (copy : Ptr) (choice : ℕ) (now : ℤ) (item : BufferItem) (d : DoubleBuffer) (a : Ptr)
    → IsValid d
    → 0 < in_transit a d
    → (write copy choice now item d).0.store a ≡ d.store a
unfolding write
write_isolated copy choice now item d a v h = elim (Bool-cases (d.state == closed_state)) [
  | inl shut ↦ rw (shut, write)
  | inr live ↦
      let (pm, e) = admit_lem copy now item d in
      let w = transit-Away a d v.owned live h in
      let w' : Away a (admit copy now item d).0 = subst (Away a) (sym e) (record {
        not_active = w.not_active;
        not_passive = w.not_passive;
        not_fresh = w.not_fresh;
      }) in
      rw (live, write)
        (admitted_same a choice now (admit copy now item d).0 (admit copy now item d).1 w'
          ∙ ap (λ (x : DoubleBuffer). x.store a) e)
]
