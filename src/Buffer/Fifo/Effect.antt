-- ===== src/Buffer/Fifo/Effect.antt =====
-- What one `Write` or `Pop` does to the items of a `SmartBuffer` whose indices have not wrapped.
use chanjet.Common.{
  Bool, leb, le→leb, lt→not_leb, ℕ, zero, suc, ◌+◌, ◌^◌, ◌≤◌, ◌<◌, ◌≡◌, refl, sym, ap, ◌∙◌, inl,
  inr, ◌⊎◌, List, [], ◌∷◌, ◌++◌, ◌||◌, true, false, arith, get_or, Bool-cases, ◌==◌, if◌then◌else◌,
  dec_lt,
}
use chanjet.Common.Int.{ℤ, pos, negsuc, pos_part}
use chanjet.Common.Run.{Run, Error, ok, err, buffer_close, buffer_read_only}
use chanjet.Consts.{write_only, read_only, closed_state}
use chanjet.Buffer.{Ptr, BufferItem, empty_item, nil, SmartBuffer, write, push, pop}
use chanjet.Buffer.Window.{before, slot, window}
use chanjet.Buffer.Ring.{IsRing, push-room, pop-ring}
use chanjet.Buffer.Queue.{Queue}
use chanjet.Buffer.Fifo.{push-refused, grown, appended, push-full, pop-empty, shrunk, kept_rest}

-- The number of reads that an index stands for.
abbrev pub reads_at : ℤ → ℕ
reads_at (pos k) = suc k
reads_at (negsuc _) = 0

-- The items of a buffer, the oldest first.
unfoldable pub items : SmartBuffer → List BufferItem
items s = window s.capacity s.buf (reads_at s.tail) (pos_part s.count)

reads_at-before : (t : ℕ) → reads_at (before t) ≡ t
reads_at-before zero = refl
reads_at-before (suc t) = refl

pub items-IsRing :
    {t n : ℕ} {s : SmartBuffer} → IsRing t n s → items s ≡ window s.capacity s.buf t n
unfolding items
items-IsRing {t} {n} {s} r = rw (r.tail_at, r.counted, reads_at-before t)

-- The item is stored behind the others.
pub record Stored (t n : ℕ) (s : SmartBuffer) (x : BufferItem) (p : SmartBuffer × Run (Unit {0}))
    : Type 0 where
  pub wrote : p.1 ≡ ok tt
  pub ring : IsRing t (suc n) p.0
  pub room : n < s.capacity
  pub kept : p.0.capacity ≡ s.capacity
  pub more : items p.0 ≡ items s ++ (x ∷ [])

-- An error, which leaves all but the state as it is.
pub record Refused (s : SmartBuffer) (p : SmartBuffer × Run (Unit {0})) : Type 0 where
  pub error : Error
  pub state : ℕ
  pub ended : p ≡ (record s { state = state }, err error)

pub write-effect :
    {t n : ℕ} {s : SmartBuffer} (x : BufferItem)
    → IsRing t n s
    → t + n < 2 ^ 31
    → Stored t n s x (write x s) ⊎ Refused s (write x s)
unfolding write
write-effect {t} {n} {s} x r fits = elim (Bool-cases (s.state == closed_state)) [
  | inl shut ↦ inr (record { error = buffer_close; state = s.state; ended = rw shut })
  | inr live ↦ elim (Bool-cases (s.state == read_only)) [
    | inl full ↦ inr (record {
      error = buffer_read_only;
      state = s.state;
      ended = rw (live, push-refused r x full);
    })
    | inr open_ ↦ elim (dec_lt n s.capacity) [
      | yes room ↦ inl (
          rw (live, push-room r x open_ room fits)
            (record {
              wrote = refl;
              ring = grown r x room;
              room = room;
              kept = refl;
              more =
                  items-IsRing (grown r x room)
                  ∙ sym (ap (λ (q : Queue). q.items) (appended r x room))
                  ∙ ap (λ xs. xs ++ (x ∷ [])) (sym (items-IsRing r));
            }))
      | no full ↦ inr (record {
        error = buffer_read_only;
        state = if s.state == write_only then read_only else s.state;
        ended = rw (live, push-full r x open_ (omega arith));
      })
    ]
  ]
]

-- The oldest item is taken out.
pub record Taken (t m : ℕ) (s : SmartBuffer) (p : SmartBuffer × Run (Ptr × ℤ)) : Type 0 where
  pub item : BufferItem
  pub got : p.1 ≡ ok (item.ptr, item.size)
  pub ring : IsRing (suc t) m p.0
  pub kept : p.0.capacity ≡ s.capacity
  pub less : items s ≡ item ∷ items p.0

pub pop-effect :
    {t m : ℕ} {s : SmartBuffer} → IsRing t (suc m) s → t + suc m ≤ 2 ^ 31 → Taken t m s (pop s)
pop-effect {t} {m} {s} r fits = rw (pop-ring r m refl fits) (record {
  item = get_or s.buf (slot s.capacity t) empty_item;
  got = refl;
  ring = shrunk r;
  kept = refl;
  less =
      items-IsRing r
      ∙ ap (◌∷◌ (get_or s.buf (slot s.capacity t) empty_item))
          (kept_rest r ∙ sym (items-IsRing (shrunk r)));
})

pub pop-nothing : {t : ℕ} {s : SmartBuffer} → IsRing t 0 s → pop s ≡ (s, ok (nil, pos 0))
pop-nothing r = pop-empty r refl

pub items-none : {t : ℕ} {s : SmartBuffer} → IsRing t 0 s → items s ≡ []
items-none r = items-IsRing r

-- A write that a buffer does not take leaves it read-only.
pub write_ends :
    {t n : ℕ} {s : SmartBuffer} (y : BufferItem)
    → IsRing t n s
    → (s.state == write_only || s.state == read_only) ≡ true
    → t + n < 2 ^ 31
    → ((write y s).1 ≡ ok tt)
      ⊎ ((e : Error) × (write y s ≡ (record s { state = read_only }, err e)))
unfolding write
write_ends {t} {n} {s} y r known fits =
    let live : (s.state == closed_state) ≡ false = ground (arith, known) in
    elim (Bool-cases (s.state == read_only)) [
      | inl full ↦
          let same : s.state ≡ read_only = ground arith in
          inr (
            buffer_read_only,
            rw (live, push-refused r y full)
                (ap
                  (λ k.
                    let p : SmartBuffer × Run (Unit {0}) =
                      (record s { state = k }, err buffer_read_only) in
                    p)
                  same),
          )
      | inr open_ ↦ elim (dec_lt n s.capacity) [
        | yes room ↦ inl (rw (live, push-room r y open_ room fits) refl)
        | no full ↦
            let only : (s.state == write_only) ≡ true = ground (arith, known) in
            inr (buffer_read_only, rw (live, push-full r y open_ (omega arith), only) refl)
      ]
    ]

-- Whether a buffer of `n` items takes no further one.
abbrev pub refuses : ℕ → SmartBuffer → Bool
refuses n s = s.state == read_only || leb s.capacity n

pub push-effect :
    {t n : ℕ} {s : SmartBuffer} (x : BufferItem)
    → IsRing t n s
    → t + n < 2 ^ 31
    → ((push x s).1 ≡ (if refuses n s then err buffer_read_only else ok tt))
      × (items (push x s).0 ≡ (if refuses n s then items s else items s ++ (x ∷ [])))
unfolding items
push-effect {t} {n} {s} x r fits = elim (Bool-cases (s.state == read_only)) [
  | inl full ↦ rw (full, push-refused r x full) (refl, refl)
  | inr open_ ↦ elim (dec_lt n s.capacity) [
    | yes room ↦
        rw (open_, push-room r x open_ room fits, lt→not_leb s.capacity n room)
          (
            refl,
            items-IsRing (grown r x room)
                ∙ sym (ap (λ (q : Queue). q.items) (appended r x room))
                ∙ ap (λ xs. xs ++ (x ∷ [])) (sym (items-IsRing r)),
          )
    | no full ↦
        rw (open_, push-full r x open_ (omega arith), le→leb s.capacity n (omega arith))
          (refl, refl)
  ]
]

-- The oldest item, as `pop` returns it.
abbrev pub front : List BufferItem → Ptr × ℤ
front [] = (nil, pos 0)
front (x ∷ xs) = (x.ptr, x.size)

abbrev pub rest_of : List BufferItem → List BufferItem
rest_of [] = []
rest_of (x ∷ xs) = xs

pub pop-front :
    (t n : ℕ) (s : SmartBuffer)
    → IsRing t n s
    → t + n ≤ 2 ^ 31
    → ((pop s).1 ≡ ok (front (items s))) × (items (pop s).0 ≡ rest_of (items s))
pop-front t zero s r fits = rw (pop-nothing r, items-none r) (refl, refl)
pop-front t (suc m) s r fits =
    let e = pop-effect r fits in
    (e.got ∙ ap (λ xs. ok (front xs)) (sym e.less), ap rest_of (sym e.less))
