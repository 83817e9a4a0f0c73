-- ===== src/DoubleBuffer/Delivery.antt =====
-- core/double_buffer.go as a queue: what an open stream was given and what it gave back, and where
-- the items between the two are.
pub mod Places
pub mod Filing
pub mod Switching
pub mod Storing
pub mod Giving
pub mod Returning
pub mod Picking
pub mod Taking
pub mod Reader
pub mod Quiet
pub mod Ready
pub mod Lasting
pub mod Supplied
pub mod Accepting
pub mod Whole
use mathlib.Core.List.{Perm}
use chanjet.Common.{
  ℕ, ◌+◌, ◌^◌, ◌≤◌, ◌<◌, ◌≡◌, Bool, true, false, List, [], ◌∷◌, ◌++◌, Option, some, length, All,
  ◌==◌, if◌then◌else◌,
}
use chanjet.Common.Int.{ℤ, pos, ◌+ℤ◌, leb_ℤ, ltb_ℤ}
use chanjet.Common.Run.{Run, ok, err, panic}
use chanjet.Consts.{writing_state}
use chanjet.Config.{SwitchCondition}
use chanjet.Buffer.{Ptr, nil, BufferItem}
use chanjet.Buffer.Ring.{IsRing}
use chanjet.Buffer.Fifo.Effect.{items}
use chanjet.MinHeap.Swap.{Entry, entries}
use chanjet.DoubleBuffer.{DoubleBuffer, Store, new_double_buffer, small_data_threshold}
use chanjet.DoubleBuffer.Write.{write}
use chanjet.DoubleBuffer.Read.{DataChunk, try_read}
use chanjet.DoubleBuffer.Ownership.{times, once_if}
use chanjet.DoubleBuffer.Valid.{IsValid}
use chanjet.DoubleBuffer.Steps.{
  Step, written, ticked, drawn, filed, told, tried, moded, released, registered, unregistered,
  received, closed,
}

-- The header that `Write` stores of an item: small data is copied to `copy`.
abbrev pub header : Ptr → BufferItem → BufferItem
header copy item = if ltb_ℤ item.size small_data_threshold then record item { ptr = copy } else item

-- What a `Write` put in, and what a `tryRead` gave out.
abbrev pub accepted : Ptr → BufferItem → Run (Unit {0}) → List BufferItem
accepted copy item (ok _) = header copy item ∷ []
accepted copy item (err _) = []
accepted copy item panic = []

abbrev pub delivered : Run DataChunk → List BufferItem
delivered (ok c) = record { ptr = c.ptr; size = c.size } ∷ []
delivered (err _) = []
delivered panic = []

-- The steps that neither write nor read nor close; of the goroutines that are to draw a number, the
-- one that was started first draws first.
abbrev pub IsQuiet : {d d' : DoubleBuffer} → Step d d' → Type 0
IsQuiet (written copy choice now item) = ⊥
IsQuiet (ticked strategy choice elapsed now) = Unit
IsQuiet (drawn k room) = k ≡ 0
IsQuiet (filed k e) = Unit
IsQuiet (told order k e) = Unit
IsQuiet (tried now e) = ⊥
IsQuiet (moded mode) = Unit
IsQuiet (released chunk) = Unit
IsQuiet (registered choice) = Unit
IsQuiet (unregistered id) = Unit
IsQuiet (received ch) = Unit
IsQuiet (closed e) = ⊥

-- The states of an open stream with all that was accepted and all that was delivered. The data of a
-- slice and its copy have addresses other than nil.
pub data History (size : ℕ) (sc : SwitchCondition) (at : ℤ)
    : DoubleBuffer → List BufferItem → List BufferItem → Type 0 where
  started : History size sc at (new_double_buffer size sc at) [] []
  wrote :
      {d : DoubleBuffer} {ins outs : List BufferItem} (copy : Ptr) (choice : ℕ) (now : ℤ)
      (item : BufferItem)
      → History size sc at d ins outs
      → (copy == nil) ≡ false
      → (item.ptr == nil) ≡ false
      → History size sc at
          (write copy choice now item d).0
          (ins ++ accepted copy item (write copy choice now item d).1)
          outs
  read :
      {d d' : DoubleBuffer} {ins outs : List BufferItem} {r : Run DataChunk} (now : ℤ)
      → History size sc at d ins outs
      → try_read now d ≡ some (d', r)
      → History size sc at d' ins (outs ++ delivered r)
  other :
      {d d' : DoubleBuffer} {ins outs : List BufferItem} (s : Step d d')
      → History size sc at d ins outs
      → IsQuiet s
      → History size sc at d' ins outs

-- The items of some buffers, one buffer after the other.
unfoldable pub gather : Store → List Ptr → List BufferItem
gather store [] = []
gather store (a ∷ bufs) = items (store a) ++ gather store bufs

abbrev pub number_from : ℤ → List Ptr → List Entry
number_from n [] = []
number_from n (b ∷ bufs) = (n, b) ∷ number_from (n +ℤ pos 1) bufs

unfoldable pub current_items : DoubleBuffer → List BufferItem
current_items d = if d.current_buffer == nil then [] else items (d.store d.current_buffer)

-- What is still to be read, where `queue` lists the numbered buffers by their numbers.
unfoldable pub unread : List Ptr → DoubleBuffer → List BufferItem
unfolding gather current_items
unread queue d =
    current_items d
    ++ (gather d.store queue ++ (gather d.store d.spawned ++ items (d.store d.active)))

-- The data of an item is not empty.
pub record IsFull (x : BufferItem) : Type 0 where
  pub some_bytes : leb_ℤ x.size (pos 0) ≡ false
  pub there : (x.ptr == nil) ≡ false

-- The buffer at `a` has been written no more often than it has slots since it was reset, and only
-- the current one has been read.
pub record HasRing (d : DoubleBuffer) (a : Ptr) : Type 0 where
  pub reads : ℕ
  pub held : ℕ
  pub ring : IsRing reads held (d.store a)
  pub within : reads + held ≤ (d.store a).capacity
  pub first : (a == d.current_buffer) ≡ false → reads ≡ 0

-- An open stream that was given `ins` and gave out `outs`.
pub record IsOrdered (ins outs : List BufferItem) (d : DoubleBuffer) : Type 0 where
  pub valid : IsValid d
  pub live : d.state ≡ writing_state
  pub small : d.size < 2 ^ 31
  pub rings : (a : Ptr) → (a == nil) ≡ false → HasRing d a
  pub cleared : (a : Ptr) → 0 < once_if (d.passive == a) + times a d.pool → items (d.store a) ≡ []
  pub queue : List Ptr
  pub numbers : Perm (number_from d.current_sequence queue) (d.numbered ++ entries d.pending_heap)
  pub next : d.sequence +ℤ pos 1 ≡ d.current_sequence +ℤ pos (length queue)
  pub full : All IsFull ins
  pub order : ins ≡ outs ++ unread queue d
