-- ===== src/DoubleBuffer/Delivery/Taking.antt =====
-- `tryRead` on an ordered stream: what it delivers is the first unread item.
use mathlib.Core.List.{append_assoc, append-nil}
use chanjet.Common.{
  ℕ, suc, ◌+◌, ◌≤◌, ◌≡◌, refl, sym, ap, subst, ◌∙◌, true, false, List, [], ◌∷◌, ◌++◌, some, All,
  arith, ◌==◌, inl, inr, Bool-cases,
}
use chanjet.Common.Count.{number_of}
use chanjet.Common.Int.{ℤ, pos, eqb_ℤ, ltb_ℤ}
use chanjet.Common.Run.{Run, ok, err, read, read_mode}
use chanjet.Consts.ReadMode.{safe_read, zero_copy_read}
use chanjet.Buffer.{Ptr, nil, BufferItem, SmartBuffer, pop}
use chanjet.Buffer.Fifo.Effect.{items, pop-effect, pop-nothing}
use chanjet.Buffer.Ring.{IsRing}
use chanjet.Pools.{LifeCycleManager, release_big}
use chanjet.DoubleBuffer.{
  DoubleBuffer, Store, put_buffer, small_data_threshold, large_data_threshold,
}
use chanjet.DoubleBuffer.Read.{
  DataChunk, freed, Reading, safe_chunk, after_safe_pop, after_zero_copy_pop, read_in,
}
use chanjet.DoubleBuffer.Valid.{both, IsValid-new_parts}
use chanjet.DoubleBuffer.Delivery.{
  delivered, gather, current_items, unread, IsFull, HasRing, IsOrdered,
}
use chanjet.DoubleBuffer.Delivery.Places.{gather-same, place_once}
use chanjet.DoubleBuffer.Delivery.Filing.{HasRing-kept, HasRing-of}

All-right : (xs ys : List BufferItem) → All IsFull (xs ++ ys) → All IsFull ys
All-right [] ys h = h
All-right (x ∷ xs) ys h = All-right xs ys h.1

module _ {ins outs : List BufferItem} {d : DoubleBuffer} (o : IsOrdered ins outs d)
    (here : (d.current_buffer == nil) ≡ false) where
  current_is : current_items d ≡ items (d.store d.current_buffer)
  unfolding current_items
  current_is = rw here

  -- The item that is first in the current buffer has data.
  first-IsFull :
      (x : BufferItem) (rest : List BufferItem)
      → items (d.store d.current_buffer) ≡ x ∷ rest
      → IsFull x
  unfolding unread
  first-IsFull x rest e =
      let whole = subst (All IsFull) o.order o.full in
      let later = All-right outs (unread o.queue d) whole in (rw (here, e) at later).0

  module _ (s : SmartBuffer) (out : List BufferItem)
      (split : items (d.store d.current_buffer) ≡ out ++ items s) where
    abbrev popped : Store
    popped = put_buffer d.store d.current_buffer s

    besides : (a : Ptr) → (d.current_buffer == a) ≡ false → items (popped a) ≡ items (d.store a)
    besides a e = rw e

    at_current : items (popped d.current_buffer) ≡ items s
    at_current = let e : (d.current_buffer == d.current_buffer) ≡ true = ground arith in rw e

    unread-popped : unread o.queue d ≡ out ++ unread o.queue (record d { store = popped })
    unfolding unread number_of
    unread-popped =
        rw
          (
            here,
            at_current,
            gather-same d.store popped o.queue
                (λ a m. besides a (ground (arith, place_once o a, here))),
            gather-same d.store popped d.spawned
                (λ a m. besides a (ground (arith, place_once o a, here))),
            besides d.active (ground (arith, place_once o d.active, here)),
            split,
          )
          (append_assoc out (items s)
            (gather d.store o.queue ++ (gather d.store d.spawned ++ items (d.store d.active))))

    popped-IsOrdered :
        (pm : LifeCycleManager) (t n : ℕ)
        → IsRing t n s
        → t + n ≤ s.capacity
        → IsOrdered ins (outs ++ out) (record d { store = popped; pm = pm })
    unfolding unread number_of
    popped-IsOrdered pm t n ring within = record {
      valid = IsValid-new_parts d popped pm d.count o.valid;
      live = o.live;
      small = o.small;
      rings = λ a h. elim (Bool-cases (d.current_buffer == a)) [
        | inl e ↦
            HasRing-of (record d { store = popped; pm = pm }) a s t n (rw e) ring within
              (λ other. absurd (ground (arith, e, other)))
        | inr e ↦ HasRing-kept d (record d { store = popped; pm = pm }) a (rw e) refl (o.rings a h)
      ];
      cleared = λ a h. besides a (ground (arith, place_once o a, here)) ∙ o.cleared a h;
      queue = o.queue;
      numbers = o.numbers;
      next = o.next;
      full = o.full;
      order =
          o.order
          ∙ ap (λ xs. outs ++ xs) unread-popped
          ∙ sym (append_assoc outs out (unread o.queue (record d { store = popped })));
    }

safe_chunk_lem :
    (now : ℤ) (x : BufferItem) (d : DoubleBuffer)
    → delivered (ok (safe_chunk now x.ptr x.size d)) ≡ x ∷ []
unfolding safe_chunk
safe_chunk_lem now x d = elim (Bool-cases (ltb_ℤ x.size small_data_threshold)) [
  | inl small ↦ rw small
  | inr more ↦ elim (Bool-cases (ltb_ℤ large_data_threshold x.size)) [
    | inl large ↦ rw (more, large)
    | inr medium ↦ rw (more, medium)
  ]
]

not_negative : (x : BufferItem) → IsFull x → ltb_ℤ x.size (pos 0) ≡ false
not_negative x f = ground (arith, f.some_bytes)

after_safe_pop-full :
    (now : ℤ) (x : BufferItem) (d : DoubleBuffer)
    → IsFull x
    → after_safe_pop now d (ok (x.ptr, x.size)) ≡ (d, ok (safe_chunk now x.ptr x.size d))
unfolding after_safe_pop
after_safe_pop-full now x d f =
    let some_size : eqb_ℤ x.size (pos 0) ≡ false = ground (arith, f.some_bytes) in
    rw (some_size, not_negative x f, f.there)

after_zero_copy_pop-full :
    (x : BufferItem) (d : DoubleBuffer)
    → IsFull x
    → (pm : LifeCycleManager) × (chunk : DataChunk) × (after_zero_copy_pop d (ok (x.ptr, x.size))
        ≡ (record d { pm = pm }, ok chunk))
      × (delivered (ok chunk) ≡ x ∷ [])
unfolding after_zero_copy_pop
after_zero_copy_pop-full x d f =
    let chunk : DataChunk = record {
      ptr = x.ptr;
      size = x.size;
      is_copy = false;
      free = some (freed x.ptr x.size);
    } in
    elim (Bool-cases (ltb_ℤ large_data_threshold x.size)) [
      | inl large ↦ (
        record d.pm { big = release_big x.ptr d.pm.big },
        chunk,
        rw (f.there, not_negative x f, large),
        refl,
      )
      | inr other ↦ (d.pm, chunk, rw (f.there, not_negative x f, other), refl)
    ]

-- What holds of the stream after a read that ended so.
abbrev pub Took : List BufferItem → List BufferItem → Reading → Type 0
Took ins outs p = IsOrdered ins (outs ++ delivered p.1) p.0

module _ {ins outs : List BufferItem} {d : DoubleBuffer} (o : IsOrdered ins outs d) where
  pub Took-none : (e : Run DataChunk) → delivered e ≡ [] → Took ins outs (d, e)
  Took-none e none_out = rw (none_out, append-nil) o

  module _ (here : (d.current_buffer == nil) ≡ false) (now : ℤ) where
    abbrev s : SmartBuffer
    s = d.store d.current_buffer

    -- The read of an empty buffer.
    pub read_nothing :
        (mode : ℤ) (r : HasRing d d.current_buffer)
        → r.held ≡ 0
        → Took ins outs (read_in (some mode) now d)
    unfolding read_in after_safe_pop after_zero_copy_pop
    read_nothing mode r none_held =
        let ring = subst (λ n. IsRing r.reads n s) none_held r.ring in
        let left : Took ins outs
            (record d { store = put_buffer d.store d.current_buffer s }, err read) =
          popped-IsOrdered o here s [] refl d.pm r.reads 0 ring (omega (arith, r.within)) in
        rw (pop-nothing ring) (
          both (Took ins outs) (eqb_ℤ mode safe_read) left (
            both (Took ins outs) (eqb_ℤ mode zero_copy_read) left (Took-none (err read_mode) refl)))

    pub read_one :
        (mode : ℤ) (r : HasRing d d.current_buffer) (m : ℕ)
        → r.held ≡ suc m
        → Took ins outs (read_in (some mode) now d)
    unfolding read_in
    read_one mode r m some_held =
        let ring = subst (λ n. IsRing r.reads n s) some_held r.ring in
        let t = pop-effect ring (omega (arith, r.within, r.ring.small, some_held)) in
        let x = t.item in
        let f = first-IsFull o here x (items (pop s).0) t.less in
        let left : (pm : LifeCycleManager)
            → IsOrdered ins (outs ++ (x ∷ []))
                (record d { store = put_buffer d.store d.current_buffer (pop s).0; pm = pm }) =
          λ pm.
            popped-IsOrdered o here (pop s).0 (x ∷ []) t.less pm (suc r.reads) m t.ring
              (omega (arith, r.within, some_held, t.kept)) in
        let p : DoubleBuffer = record d { store = put_buffer d.store d.current_buffer (pop s).0 } in
        rw t.got (
          both (Took ins outs) (eqb_ℤ mode safe_read)
            (rw (after_safe_pop-full now x p f) (rw (safe_chunk_lem now x p) (left d.pm)))
            (both (Took ins outs) (eqb_ℤ mode zero_copy_read)
              (let (pm, chunk, e, g) = after_zero_copy_pop-full x p f in rw e (rw g (left pm)))
              (Took-none (err read_mode) refl)))
