-- ===== src/Buffer/Ring.antt =====
-- The states of a `SmartBuffer` whose int32 indices have not wrapped, and what `push` and `pop` do
-- in them.
use chanjet.Common.{
  ℕ, zero, suc, ◌+◌, ◌^◌, ◌≤◌, ◌<◌, ◌≡◌, refl, false, List, some, arith, length, get_or, set,
  get_elem?-eq-get_or, ◌==◌,
}
use chanjet.Common.Int.{pos, negsuc, ◌+ℤ◌, wrap32}
use chanjet.Common.Run.{ok}
use chanjet.Consts.{read_only}
use chanjet.Buffer.{BufferItem, empty_item, SmartBuffer, load, push, settle, pop}
use chanjet.Buffer.Queue.{Queue}
use chanjet.Buffer.Window.{before, slot, calc_pos-before, slot-lt, window}

-- After `t` reads, with `n` items left: the indices count the reads and the writes.
pub record IsRing (t n : ℕ) (s : SmartBuffer) : Type 0 where
  pub tail_at : s.tail ≡ before t
  pub head_at : s.head ≡ before (t + n)
  pub counted : s.count ≡ pos n
  pub room : n ≤ s.capacity
  pub sized : length s.buf ≡ s.capacity
  pub small : s.capacity < 2 ^ 31

abbrev pub contents : ℕ → ℕ → SmartBuffer → Queue
contents t n s = record { items = window s.capacity s.buf t n; state = s.state }

pub before_step : (m : ℕ) → m < 2 ^ 31 → wrap32 (before m +ℤ pos 1) ≡ before (suc m)
unfolding ◌+ℤ◌ wrap32
before_step zero h = refl
before_step (suc m) h = ground arith

pub count_up : (n : ℕ) → suc n < 2 ^ 31 → wrap32 (pos n +ℤ pos 1) ≡ pos (suc n)
unfolding ◌+ℤ◌ wrap32
count_up n h = ground arith

count_down : (n : ℕ) → suc n < 2 ^ 31 → wrap32 (pos (suc n) +ℤ negsuc 0) ≡ pos n
unfolding ◌+ℤ◌ wrap32
count_down n h = ground arith

settle-eq-load :
    (k : ℕ) (buf : List BufferItem) (i : ℕ) (x : BufferItem)
    → load buf (pos i) ≡ some x
    → settle k buf (pos i) ≡ some x
unfolding settle
settle-eq-load zero buf i x e = e
settle-eq-load (suc k) buf i x e = ground (arith, settle-eq-load k buf i x e)

module _ {t n : ℕ} {s : SmartBuffer} (r : IsRing t n s) where
  -- The slot that the next write takes is in range.
  pub push-room :
      (x : BufferItem)
      → (s.state == read_only) ≡ false
      → n < s.capacity
      → t + n < 2 ^ 31
      → push x s ≡ (
        record s {
          head = before (suc (t + n));
          buf = set s.buf (slot s.capacity (t + n)) x;
          count = pos (suc n);
        },
        ok tt,
      )
  unfolding push
  push-room x open_ room fits = ground (
    arith,
    r.head_at,
    r.counted,
    r.sized,
    r.small,
    calc_pos-before s.capacity (t + n),
    slot-lt s.capacity (t + n),
    before_step (t + n),
    count_up n,
    get_elem?-eq-get_or s.buf (slot s.capacity (t + n)) empty_item,
  )

  -- `pop` on a buffer with items.
  pub pop-ring :
      (m : ℕ)
      → n ≡ suc m
      → t + n ≤ 2 ^ 31
      → let x = get_or s.buf (slot s.capacity t) empty_item in
        pop s ≡ (
          record s {
            tail = before (suc t);
            buf = set s.buf (slot s.capacity t) empty_item;
            count = pos m;
          },
          ok (x.ptr, x.size),
        )
  unfolding pop
  pop-ring m e fits = ground (
    arith,
    r.tail_at,
    r.counted,
    r.sized,
    r.small,
    r.room,
    calc_pos-before s.capacity t,
    slot-lt s.capacity t,
    before_step t,
    count_down m,
    settle-eq-load 2 s.buf (slot s.capacity t) (get_or s.buf (slot s.capacity t) empty_item),
    get_elem?-eq-get_or s.buf (slot s.capacity t) empty_item,
  )
