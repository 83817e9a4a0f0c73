-- ===== src/Buffer.antt =====
-- core/component/smart_buffer.go: a ring of buffer headers with its indices in int32.
-- An atomic operation is one assignment here, and each function is a call that runs with no other
-- one beside it.
pub mod Window
pub mod Queue
pub mod Ring
pub mod Calls
pub mod Fifo
pub mod Wrap
pub mod Overlap
mod Tests
use chanjet.Common.{
  ℕ, zero, suc, Bool, true, false, List, Option, none, some, get_elem?, set, replicate, ◌==◌,
  if◌then◌else◌,
}
use chanjet.Common.Int.{ℤ, pos, negsuc, ◌+ℤ◌, ltb_ℤ, leb_ℤ, eqb_ℤ, rem, wrap32}
use chanjet.Common.Run.{buffer_close, buffer_read_only, Run, ok, err, panic}
use chanjet.Consts.{write_only, read_only, closed_state}

-- `unsafe.Pointer` and `uintptr`: an address, 0 for nil.
abbrev pub Ptr : Type 0
Ptr = ℕ

abbrev pub nil : Ptr
nil = 0

-- `Size` is an int32.
pub record BufferItem : Type 0 where
  pub ptr : Ptr
  pub size : ℤ

abbrev pub empty_item : BufferItem
empty_item = record { ptr = nil; size = pos 0 }

-- `head`, `tail` and `count` are int32; so is `capacity`, which `make` wants nonnegative.
-- `sem_closed` says whether the channel `sem` is closed; nothing is ever sent on it.
pub record SmartBuffer : Type 0 where
  pub buf : List BufferItem
  pub head : ℤ
  pub tail : ℤ
  pub count : ℤ
  pub capacity : ℕ
  pub state : ℕ
  pub sem_closed : Bool

abbrev pub blank : ℕ → SmartBuffer
blank c = record {
  buf = replicate c empty_item;
  head = negsuc 0;
  tail = negsuc 0;
  count = pos 0;
  capacity = c;
  state = write_only;
  sem_closed = false;
}

-- `make` panics on a negative length.
unfoldable pub new_smart_buffer : ℤ → Run SmartBuffer
new_smart_buffer (negsuc _) = panic
new_smart_buffer (pos c) = ok (blank c)

unfoldable pub set_state : ℕ → SmartBuffer → SmartBuffer
set_state n s = record s { state = n }

unfoldable pub len : SmartBuffer → ℤ
len s = s.count

unfoldable pub calc_pos : ℕ → ℤ → ℤ
calc_pos capacity index =
    if capacity == 0
    then pos 0
    else let p = rem index capacity in
      rem (if ltb_ℤ p (pos 0) then p +ℤ pos capacity else p) capacity

-- `s.buf[i]`, with no value where Go panics.
abbrev pub load : List BufferItem → ℤ → Option BufferItem
load buf (pos i) = get_elem? buf i
load buf (negsuc _) = none

abbrev pub store : List BufferItem → ℤ → BufferItem → List BufferItem
store buf (pos i) v = set buf i v
store buf (negsuc _) v = buf

-- The loop of `Push` before the store only reads the slot.
unfoldable pub push : BufferItem → SmartBuffer → SmartBuffer × Run (Unit {0})
push sli s =
    if s.state == read_only
    then (s, err buffer_read_only)
    else if leb_ℤ (pos s.capacity) s.count
    then (
      record s { state = if s.state == write_only then read_only else s.state },
      err buffer_read_only,
    )
    else let p = calc_pos s.capacity s.head in
      let claimed = record s { head = wrap32 (s.head +ℤ pos 1) } in
      elim (load s.buf p) [
        | none ↦ (claimed, panic)
        | some _ ↦
            (record claimed { buf = store s.buf p sli; count = wrap32 (s.count +ℤ pos 1) }, ok tt)
      ]

-- `Write` looks for the closed state of a `DoubleBuffer`.
unfoldable pub write : BufferItem → SmartBuffer → SmartBuffer × Run (Unit {0})
write item s = if s.state == closed_state then (s, err buffer_close) else push item s

-- The retry loop of `Pop`: up to `n` reads of the slot, until its pointer is set.
settle : ℕ → List BufferItem → ℤ → Option BufferItem
settle zero buf p = load buf p
settle (suc n) buf p =
    let again = settle n buf p in
    elim (load buf p) [ none ↦ none | some item ↦ if item.ptr == nil then again else some item ]

unfoldable pub pop : SmartBuffer → SmartBuffer × Run (Ptr × ℤ)
unfolding settle
pop s =
    if eqb_ℤ s.count (pos 0)
    then (s, ok (nil, pos 0))
    else let p = calc_pos s.capacity s.tail in
      let claimed = record s { tail = wrap32 (s.tail +ℤ pos 1) } in
      elim (settle 2 s.buf p) [
        | none ↦ (claimed, panic)
        | some item ↦ (
          record claimed { buf = store s.buf p empty_item; count = wrap32 (s.count +ℤ negsuc 0) },
          ok (item.ptr, item.size),
        )
      ]

unfoldable pub reset : SmartBuffer → SmartBuffer
reset s = record s { state = write_only; count = pos 0; head = negsuc 0; tail = negsuc 0 }

-- Closing a closed channel panics.
unfoldable pub close : SmartBuffer → SmartBuffer × Run (Unit {0})
close s = if s.sem_closed then (s, panic) else (record s { sem_closed = true }, ok tt)
