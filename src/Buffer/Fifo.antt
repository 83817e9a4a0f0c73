-- ===== src/Buffer/Fifo.antt =====
-- A `SmartBuffer` whose indices have not wrapped behaves as the bounded queue of its items.
pub mod Effect
use chanjet.Common.{
  ℕ, zero, suc, ◌+◌, ◌^◌, ◌≤◌, ◌<◌, ◌≡◌, refl, sym, ap, ap₂, subst, ◌∙◌, inl, inr, true, false,
  List, [], ◌∷◌, ◌++◌, arith, length, set, length-set, length-replicate, replicate, Bool-cases,
  ◌==◌, le→leb, lt→not_leb, dec_lt, if◌then◌else◌,
}
use chanjet.Common.Int.{pos, negsuc}
use chanjet.Common.Run.{ok, err, buffer_read_only}
use chanjet.Consts.{write_only, read_only, closed_state}
use chanjet.Buffer.{BufferItem, empty_item, nil, SmartBuffer, new_smart_buffer, push, write, pop}
use chanjet.Buffer.Queue
use chanjet.Buffer.Queue.{
  Op, write_op, pop_op, len_op, reset_op, set_state_op, Reply, wrote, popped, measured, done, Queue,
}
use chanjet.Buffer.Window.{before, slot, window, length-window, window-set_below, window-set_above}
use chanjet.Buffer.Ring.{IsRing, contents, push-room, pop-ring}
use chanjet.Buffer.Calls.{step, run}

-- `s` stores the queue `q`, with at most `bound` writes since its last reset.
pub record Stores (bound : ℕ) (s : SmartBuffer) (q : Queue) : Type 0 where
  pub reads : ℕ
  pub held : ℕ
  pub ring : IsRing reads held s
  pub same : q ≡ contents reads held s
  pub used : reads + held ≤ bound

-- A call on the buffer and the call on the queue return the same, and leave the queue stored.
pub record Agrees {ℓ} {R : Type ℓ} (bound cap : ℕ) (p : SmartBuffer × R) (q : Queue × R)
    : Type ℓ where
  pub stores : Stores bound p.0 q.0
  pub same : p.1 ≡ q.1
  pub kept : p.0.capacity ≡ cap

module _ {t n : ℕ} {s : SmartBuffer} (r : IsRing t n s) where
  push-refused :
      (x : BufferItem) → (s.state == read_only) ≡ true → push x s ≡ (s, err buffer_read_only)
  unfolding push
  push-refused x full = rw full

  abbrev after_push : BufferItem → SmartBuffer
  after_push x = record s {
    head = before (suc (t + n));
    buf = set s.buf (slot s.capacity (t + n)) x;
    count = pos (suc n);
  }

  grown : (x : BufferItem) → n < s.capacity → IsRing t (suc n) (after_push x)
  grown x room = record {
    tail_at = r.tail_at;
    head_at = let e : suc (t + n) ≡ t + suc n = omega arith in ap before e;
    counted = refl;
    room = room;
    sized = length-set s.buf (slot s.capacity (t + n)) x ∙ r.sized;
    small = r.small;
  }

  appended :
      (x : BufferItem)
      → n < s.capacity
      → ◌≡◌ {A = Queue}
          (record { items = window s.capacity s.buf t n ++ (x ∷ []); state = s.state })
          (contents t (suc n) (after_push x))
  appended x room =
      ap (λ items. let q : Queue = record { items = items; state = s.state } in q)
        (sym (window-set_above s.capacity s.buf t n x room (omega (arith, r.sized))))

  push-full :
      (x : BufferItem)
      → (s.state == read_only) ≡ false
      → s.capacity ≤ n
      → push x s ≡ (
        record s { state = if s.state == write_only then read_only else s.state },
        err buffer_read_only,
      )
  unfolding push
  push-full x open_ full = ground (arith, r.counted)

  Stores-contents :
      (bound k : ℕ)
      → t + n ≤ bound
      → Stores bound
          (record s { state = k })
          (record { items = window s.capacity s.buf t n; state = k })
  Stores-contents bound k h = record {
    reads = t;
    held = n;
    ring = record {
      tail_at = r.tail_at;
      head_at = r.head_at;
      counted = r.counted;
      room = r.room;
      sized = r.sized;
      small = r.small;
    };
    same = refl;
    used = h;
  }

  write-Agrees :
      (x : BufferItem)
      → t + n < 2 ^ 31
      → Agrees (suc (t + n)) s.capacity (write x s) (Queue.write s.capacity x (contents t n s))
  unfolding write Queue.write
  write-Agrees x fits = elim (Bool-cases (s.state == closed_state)) [
    | inl shut ↦ rw shut (record {
      stores = Stores-contents (suc (t + n)) s.state (omega arith);
      same = refl;
      kept = refl;
    })
    | inr live ↦ elim (Bool-cases (s.state == read_only)) [
      | inl full ↦
          rw (live, full, push-refused x full)
            (record {
              stores = Stores-contents (suc (t + n)) s.state (omega arith);
              same = refl;
              kept = refl;
            })
      | inr open_ ↦ elim (dec_lt n s.capacity) [
        | yes room ↦
            rw
              (
                live,
                open_,
                push-room r x open_ room fits,
                length-window,
                lt→not_leb s.capacity n room,
              )
              (record {
                stores = record {
                  reads = t;
                  held = suc n;
                  ring = grown x room;
                  same = appended x room;
                  used = omega arith;
                };
                same = refl;
                kept = refl;
              })
        | no full ↦
            rw
              (
                live,
                open_,
                push-full x open_ (omega arith),
                length-window,
                le→leb s.capacity n (omega arith),
              )
              (record {
                stores =
                    Stores-contents (suc (t + n))
                      (if s.state == write_only then read_only else s.state) (omega arith);
                same = refl;
                kept = refl;
              })
      ]
    ]
  ]

  pop-empty : n ≡ 0 → pop s ≡ (s, ok (nil, pos 0))
  unfolding pop
  pop-empty e = ground (arith, r.counted)

module _ {t m : ℕ} {s : SmartBuffer} (r : IsRing t (suc m) s) where
  abbrev after_pop : SmartBuffer
  after_pop = record s {
    tail = before (suc t);
    buf = set s.buf (slot s.capacity t) empty_item;
    count = pos m;
  }

  shrunk : IsRing (suc t) m after_pop
  shrunk = record {
    tail_at = refl;
    head_at = let e : t + suc m ≡ suc t + m = omega arith in r.head_at ∙ ap before e;
    counted = refl;
    room = omega (arith, r.room);
    sized = length-set s.buf (slot s.capacity t) empty_item ∙ r.sized;
    small = r.small;
  }

  kept_rest : window s.capacity s.buf (suc t) m ≡ window s.capacity after_pop.buf (suc t) m
  kept_rest = sym (
      window-set_below s.capacity s.buf (suc t) t m empty_item (omega arith)
        (omega (arith, r.room)))

  pop-Agrees-suc :
      t + suc m ≤ 2 ^ 31
      → Agrees (t + suc m) s.capacity (pop s) (Queue.pop s.capacity (contents t (suc m) s))
  unfolding Queue.pop
  pop-Agrees-suc fits = rw (pop-ring r m refl fits) (record {
    stores = record {
      reads = suc t;
      held = m;
      ring = shrunk;
      same = ap (λ items. let q : Queue = record { items = items; state = s.state } in q) kept_rest;
      used = omega arith;
    };
    same = refl;
    kept = refl;
  })

pop-Agrees :
    (t n : ℕ) (s : SmartBuffer)
    → IsRing t n s
    → t + n ≤ 2 ^ 31
    → Agrees (t + n) s.capacity (pop s) (Queue.pop s.capacity (contents t n s))
unfolding Queue.pop
pop-Agrees t zero s r fits = rw (pop-empty r refl) (record {
  stores = record { reads = t; held = 0; ring = r; same = refl; used = omega arith };
  same = refl;
  kept = refl;
})
pop-Agrees t (suc m) s r fits = pop-Agrees-suc r fits

weaken : {b b' : ℕ} {s : SmartBuffer} {q : Queue} → b ≤ b' → Stores b s q → Stores b' s q
weaken h v = record {
  reads = v.reads;
  held = v.held;
  ring = v.ring;
  same = v.same;
  used = omega (arith, v.used);
}

-- Each call keeps the queue stored; a write may use up one more position.
step-Agrees :
    (op : Op) (t n : ℕ) (s : SmartBuffer)
    → IsRing t n s
    → t + n < 2 ^ 31
    → Agrees (suc (t + n)) s.capacity (step op s) (Queue.step s.capacity op (contents t n s))
unfolding step Queue.step
step-Agrees (write_op x) t n s r fits =
    let a = write-Agrees r x fits in
    record { stores = a.stores; same = ap wrote a.same; kept = a.kept }
step-Agrees pop_op t n s r fits =
    let a = pop-Agrees t n s r (omega arith) in
    record { stores = weaken (omega arith) a.stores; same = ap popped a.same; kept = a.kept }
step-Agrees len_op t n s r fits = record {
  stores = record { reads = t; held = n; ring = r; same = refl; used = omega arith };
  same = ap measured (r.counted ∙ ap pos (sym (length-window s.capacity s.buf t n)));
  kept = refl;
}
step-Agrees reset_op t n s r fits = record {
  stores = record {
    reads = 0;
    held = 0;
    ring = record {
      tail_at = refl;
      head_at = refl;
      counted = refl;
      room = omega arith;
      sized = r.sized;
      small = r.small;
    };
    same = refl;
    used = omega arith;
  };
  same = refl;
  kept = refl;
}
step-Agrees (set_state_op k) t n s r fits = record {
  stores = Stores-contents r (suc (t + n)) k (omega arith);
  same = refl;
  kept = refl;
}

run-Stores :
    (ops : List Op) (bound : ℕ) (s : SmartBuffer) (q : Queue)
    → Stores bound s q
    → bound + length ops ≤ 2 ^ 31
    → run ops s ≡ Queue.run s.capacity ops q
unfolding run Queue.run
run-Stores [] bound s q v fits = refl
run-Stores (op ∷ ops) bound s q v fits =
    let a = step-Agrees op v.reads v.held s v.ring (omega (arith, v.used)) in
    rw v.same (
      ap₂ ◌∷◌ a.same (
        run-Stores ops (suc bound) (step op s).0 _ (weaken (omega (arith, v.used)) a.stores)
          (omega arith)
        ∙ ap (λ c. Queue.run c ops (Queue.step s.capacity op (contents v.reads v.held s)).0)
            a.kept))

new-Stores :
    (c : ℕ) (s : SmartBuffer)
    → c < 2 ^ 31
    → new_smart_buffer (pos c) ≡ ok s
    → Stores 0 s (record { items = []; state = write_only }) × (s.capacity ≡ c)
unfolding new_smart_buffer
new-Stores c s small e =
    let fresh : SmartBuffer = record {
      buf = replicate c empty_item;
      head = negsuc 0;
      tail = negsuc 0;
      count = pos 0;
      capacity = c;
      state = write_only;
      sem_closed = false;
    } in
    let same : fresh ≡ s = cc e in
    subst (λ b. Stores 0 b (record { items = []; state = write_only }) × (b.capacity ≡ c)) same
      (
        record {
          reads = 0;
          held = 0;
          ring = record {
            tail_at = refl;
            head_at = refl;
            counted = refl;
            room = omega arith;
            sized = length-replicate c empty_item;
            small = small;
          };
          same = refl;
          used = omega arith;
        },
        refl,
      )

-- No sequence of up to 2^31 calls tells a new `SmartBuffer` of capacity `c` from the bounded queue:
-- every write, pop, length, reset and state change returns what the queue returns.
pub run_refines :
    (c : ℕ) (s : SmartBuffer) (ops : List Op)
    → c < 2 ^ 31
    → new_smart_buffer (pos c) ≡ ok s
    → length ops ≤ 2 ^ 31
    → run ops s ≡ Queue.run c ops (record { items = []; state = write_only })
run_refines c s ops small made few =
    let (v, e) = new-Stores c s small made in
    run-Stores ops 0 s _ v (omega arith)
    ∙ ap (λ k. Queue.run k ops (record { items = []; state = write_only })) e
