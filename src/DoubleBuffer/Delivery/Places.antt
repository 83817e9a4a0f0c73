-- ===== src/DoubleBuffer/Delivery/Places.antt =====
-- Where the buffers of an ordered stream are.
use mathlib.Core.List.{append_assoc}
use chanjet.Common.{
  ℕ, ◌+◌, ◌≤◌, ◌<◌, ◌≡◌, refl, sym, ap, ap₂, ◌∙◌, false, List, [], ◌∷◌, ◌++◌, arith, ◌==◌,
  if◌then◌else◌,
}
use chanjet.Common.Count.{number_of, number_of-append, number_of-perm}
use chanjet.Common.Int.{ℤ, pos, ◌+ℤ◌}
use chanjet.Consts.{closed_state}
use chanjet.Buffer.{Ptr, nil, BufferItem}
use chanjet.Buffer.Fifo.Effect.{items}
use chanjet.MinHeap.Swap.{entries}
use chanjet.DoubleBuffer.{DoubleBuffer, Store}
use chanjet.DoubleBuffer.Ownership.{holds, times, once_if, uses}
use chanjet.DoubleBuffer.Delivery.{gather, number_from, IsOrdered}

pub gather-append :
    (store : Store) (xs ys : List Ptr)
    → gather store (xs ++ ys) ≡ gather store xs ++ gather store ys
unfolding gather
gather-append store [] ys = refl
gather-append store (a ∷ xs) ys =
    ap (λ zs. items (store a) ++ zs) (gather-append store xs ys)
    ∙ sym (append_assoc (items (store a)) (gather store xs) (gather store ys))

-- Stores that agree on the buffers of a list have the same items there.
pub gather-same :
    (store store' : Store) (xs : List Ptr)
    → ((a : Ptr) → 0 < times a xs → items (store' a) ≡ items (store a))
    → gather store' xs ≡ gather store xs
unfolding gather number_of
gather-same store store' [] h = refl
gather-same store store' (a ∷ xs) h =
    ap₂ ◌++◌ (h a (ground arith)) (gather-same store store' xs (λ b m. h b (omega arith)))

times-number_from :
    (a : Ptr) (n : ℤ) (queue : List Ptr) → number_of (holds a) (number_from n queue) ≡ times a queue
unfolding number_of
times-number_from a n [] = refl
times-number_from a n (b ∷ queue) =
    ap (λ k. (if b == a then 1 else 0) + k) (times-number_from a (n +ℤ pos 1) queue)

-- How many of the places of an open stream hold the address `a`.
abbrev pub places : Ptr → List Ptr → DoubleBuffer → ℕ
places a queue d =
    once_if (d.active == a)
    + once_if (d.passive == a)
    + (if d.current_buffer == nil then 0 else once_if (d.current_buffer == a))
    + times a d.spawned
    + times a queue
    + times a d.pool

pub places-uses :
    {ins outs : List BufferItem} {d : DoubleBuffer} (o : IsOrdered ins outs d) (a : Ptr)
    → places a o.queue d ≡ uses a d
unfolding uses
places-uses {d = d} o a =
    let open_ : (d.state == closed_state) ≡ false = ground (arith, o.live) in
    rw open_ (
      omega (
        arith,
        times-number_from a d.current_sequence o.queue,
        number_of-perm (holds a) o.numbers,
        number_of-append (holds a) d.numbered (entries d.pending_heap),
      ))

-- Each address has one place at most; nil and the addresses not in use have none.
pub place_once :
    {ins outs : List BufferItem} {d : DoubleBuffer} (o : IsOrdered ins outs d) (a : Ptr)
    → places a o.queue d ≤ 1
place_once o a = omega (arith, places-uses o a, o.valid.owned.once a)

pub place_real :
    {ins outs : List BufferItem} {d : DoubleBuffer} (o : IsOrdered ins outs d)
    → places nil o.queue d ≡ 0
place_real o = omega (arith, places-uses o nil, o.valid.owned.real)

pub place_used :
    {ins outs : List BufferItem} {d : DoubleBuffer} (o : IsOrdered ins outs d) (a : Ptr)
    → d.fresh ≤ a
    → places a o.queue d ≡ 0
place_used o a h = omega (arith, places-uses o a, o.valid.owned.unused a h)
