-- ===== src/DoubleBuffer/Delivery/Filing.antt =====
-- The goroutines of a switch, and all that leaves the items of the stream alone.
use mathlib.Core.List.{Perm, append_assoc, append-nil, perm_append_singleton, perm_middle}
use mathlib.Core.List.Perm
use mathlib.Core.Option.{some_inj}
use chanjet.Common.{
  ℕ, zero, suc, ◌+◌, ◌≤◌, ◌≡◌, refl, sym, ap, subst, ◌∙◌, false, List, [], ◌∷◌, ◌++◌, Option, none,
  some, length, arith, ◌==◌, ◌⊎◌, inl, inr, length-append,
}
use chanjet.Common.Int.{ℤ, pos, ◌+ℤ◌, wrap64, int_laws}
use chanjet.Config.{SwitchConfig, SwitchCondition}
use chanjet.Buffer.{Ptr, BufferItem, SmartBuffer}
use chanjet.Buffer.Ring.{IsRing}
use chanjet.Buffer.Fifo.Effect.{items}
use chanjet.MinHeap.Swap.{Entry, entries}
use chanjet.Waiters.{WaiterManager, take_at}
use chanjet.Pools.{LifeCycleManager}
use chanjet.WrapHeap.Order as Heap
use chanjet.DoubleBuffer.{DoubleBuffer, Store, draw_number, file_buffer, take_entry}
use chanjet.Consts.{writing_state}
use chanjet.DoubleBuffer.Numbering.{next_number}
use chanjet.DoubleBuffer.Valid.{IsValid}
use chanjet.DoubleBuffer.Delivery.{gather, number_from, current_items, unread, HasRing, IsOrdered}
use chanjet.DoubleBuffer.Delivery.Places.{gather-append}

pub HasRing-kept :
    (d d' : DoubleBuffer) (a : Ptr)
    → d'.store a ≡ d.store a
    → d'.current_buffer ≡ d.current_buffer
    → HasRing d a
    → HasRing d' a
HasRing-kept d d' a e f r = record {
  reads = r.reads;
  held = r.held;
  ring = rw e r.ring;
  within = rw e r.within;
  first = rw f r.first;
}

pub HasRing-of :
    (d : DoubleBuffer) (a : Ptr) (s : SmartBuffer) (t n : ℕ)
    → d.store a ≡ s
    → IsRing t n s
    → t + n ≤ s.capacity
    → ((a == d.current_buffer) ≡ false → t ≡ 0)
    → HasRing d a
HasRing-of d a s t n e r h f = record {
  reads = t;
  held = n;
  ring = rw e r;
  within = rw e h;
  first = f;
}

pub IsRing-state :
    {t n : ℕ} {s : SmartBuffer} (k : ℕ) → IsRing t n s → IsRing t n (record s { state = k })
IsRing-state k r = record {
  tail_at = r.tail_at;
  head_at = r.head_at;
  counted = r.counted;
  room = r.room;
  sized = r.sized;
  small = r.small;
}

pub IsOrdered-rest :
    {ins outs : List BufferItem} (d : DoubleBuffer) (count : ℤ) (sc : SwitchConfig)
    (scd : SwitchCondition) (mode : Option ℤ) (wm : WaiterManager) (pm : LifeCycleManager)
    (told : List ℤ)
    → let d' = record d {
      count = count;
      sc = sc;
      scd = scd;
      read_mode = mode;
      wm = wm;
      pm = pm;
      told = told;
    } in
      IsValid d' → IsOrdered ins outs d → IsOrdered ins outs d'
unfolding unread
IsOrdered-rest d count sc scd mode wm pm told v o = record {
  valid = v;
  live = o.live;
  small = o.small;
  rings = λ a h. HasRing-kept d _ a refl refl (o.rings a h);
  cleared = o.cleared;
  queue = o.queue;
  numbers = o.numbers;
  next = o.next;
  full = o.full;
  order = o.order;
}

take_entry-perm :
    (k : ℕ) (es : List Entry)
    → (take_entry k es ≡ none)
      ⊎ ((e : Entry) × (rest : List Entry) × (take_entry k es ≡ some (e, rest))
          × Perm (e ∷ rest) es)
take_entry-perm k [] = inl refl
take_entry-perm zero (x ∷ es) = inr (x, es, refl, Perm.rfl)
take_entry-perm (suc k) (x ∷ es) = elim (take_entry-perm k es) [
  | inl e ↦ inl (rw e)
  | inr (b, rest, e, p) ↦ inr (b, x ∷ rest, rw e, Perm.trans (Perm.swap x b rest) (Perm.cons x p))
]

pub filed-IsOrdered :
    {ins outs : List BufferItem} (k : ℕ) (d d' : DoubleBuffer)
    → file_buffer k d ≡ some d'
    → IsValid d'
    → IsOrdered ins outs d
    → IsOrdered ins outs d'
unfolding file_buffer unread
filed-IsOrdered {ins} {outs} k d d' done v o = elim (take_entry-perm k d.numbered) [
  | inl e ↦ subst (IsOrdered ins outs) (some_inj.0 (rw (e, file_buffer) at done)) o
  | inr ((n, buf), rest, e, p) ↦
      let q =
        Heap.push_correct d.pending_heap (record { sequence = n; buf = buf; index = pos 0 })
          o.valid.heap in
      let same = some_inj.0 (rw (e, q.ended, file_buffer) at done) in
      subst (λ (x : DoubleBuffer). IsValid x → IsOrdered ins outs x) same
        (λ v'. record {
          valid = v';
          live = o.live;
          small = o.small;
          rings = λ a h. HasRing-kept d _ a refl refl (o.rings a h);
          cleared = o.cleared;
          queue = o.queue;
          numbers = Perm.trans o.numbers (
              Perm.symm (
                Perm.trans (Perm.append_left rest q.same) (
                  Perm.trans (perm_middle {a = (n, buf)} rest (entries d.pending_heap))
                    (Perm.append_right (entries d.pending_heap) p))));
          next = o.next;
          full = o.full;
          order = o.order;
        })
        v
]

number_from-append :
    (n : ℤ) (queue : List Ptr) (b : Ptr)
    → number_from n (queue ++ (b ∷ [])) ≡ number_from n queue ++ ((n +ℤ pos (length queue), b) ∷ [])
number_from-append n [] b = let e : n ≡ n +ℤ pos 0 = omega int_laws in ap (λ m. (m, b) ∷ []) e
number_from-append n (c ∷ queue) b =
    let e : n +ℤ pos 1 +ℤ pos (length queue) ≡ n +ℤ pos (suc (length queue)) = omega int_laws in
    ap (◌∷◌ (n, c)) (
      number_from-append (n +ℤ pos 1) queue b
      ∙ ap (λ m. number_from (n +ℤ pos 1) queue ++ ((m, b) ∷ [])) e)

first_spawned :
    (xs : List Ptr)
    → (take_at 0 xs ≡ none)
      ⊎ ((b : Ptr) × (rest : List Ptr) × (take_at 0 xs ≡ some (b, rest)) × (xs ≡ b ∷ rest))
unfolding take_at
first_spawned [] = inl refl
first_spawned (b ∷ rest) = inr (b, rest, refl, refl)

unread-drawn :
    (store : Store) (queue rest : List Ptr) (b : Ptr) (xs ys : List BufferItem)
    → xs ++ (gather store (queue ++ (b ∷ [])) ++ (gather store rest ++ ys))
      ≡ xs ++ (gather store queue ++ (gather store (b ∷ rest) ++ ys))
unfolding gather
unread-drawn store queue rest b xs ys = simp (gather-append, append_assoc, append-nil, gather)

drawn_number :
    (d : DoubleBuffer)
    → IsValid d
    → d.state ≡ writing_state
    → wrap64 (d.sequence +ℤ pos 1) ≡ d.sequence +ℤ pos 1
drawn_number d v live =
    let n = v.numbered (ground (arith, live)) in
    next_number d.sequence (omega (int_laws, n.ahead, n.started)) n.bounded

pub drawn-IsOrdered :
    {ins outs : List BufferItem} (d : DoubleBuffer)
    → IsValid (draw_number 0 d)
    → IsOrdered ins outs d
    → IsOrdered ins outs (draw_number 0 d)
unfolding draw_number unread
drawn-IsOrdered {ins} {outs} d v o = elim (first_spawned d.spawned) [
  | inl e ↦ rw (e, draw_number) o
  | inr (b, rest, e, same) ↦
      let n = wrap64 (d.sequence +ℤ pos 1) in
      let number : n ≡ d.current_sequence +ℤ pos (length o.queue) =
        drawn_number d o.valid o.live ∙ o.next in
      let d' : DoubleBuffer = record d {
        sequence = n;
        spawned = rest;
        numbered = (n, b) ∷ d.numbered;
      } in
      let drawn : draw_number 0 d ≡ d' = rw (e, draw_number) in
      subst (λ (x : DoubleBuffer). IsValid x → IsOrdered ins outs x) (sym drawn)
        (λ v'. record {
          valid = v';
          live = o.live;
          small = o.small;
          rings = λ a h. HasRing-kept d _ a refl refl (o.rings a h);
          cleared = o.cleared;
          queue = o.queue ++ (b ∷ []);
          numbers =
              rw (number_from-append d.current_sequence o.queue b, ← number)
                (Perm.trans (perm_append_singleton (n, b) (number_from d.current_sequence o.queue))
                  (Perm.cons (n, b) o.numbers));
          next = rw (number, length-append o.queue (b ∷ [])) (omega int_laws);
          full = o.full;
          order =
              o.order
              ∙ ap (λ xs. outs ++ xs)
                  (ap
                      (λ xs.
                        current_items d
                        ++ (gather d.store o.queue
                            ++ (gather d.store xs ++ items (d.store d.active))))
                      same
                    ∙ sym (
                        unread-drawn d.store o.queue rest b (current_items d)
                          (items (d.store d.active))));
        })
        v
]
