-- ===== src/Waiters/Notify.antt =====
-- One round of `notify` over waiters whose channels are all empty.
use mathlib.Core.List.{Mem, Nodup, Nodup-cons, mem-cons_self, mem-cons_of_mem}
use chanjet.Common.{
  ℕ, zero, suc, ◌-◌, ◌≤◌, ◌≡◌, refl, ap, ◌∙◌, Bool, false, ◌||◌, List, [], ◌∷◌, length, take, drop,
  map, arith, ◌==◌, if◌then◌else◌, inl, inr, Bool-cases, ==_iff,
}
use chanjet.Common.Run.{ok}
use chanjet.Waiters.{
  Channel, empty_channel, Channels, put_channel, Waiter, id_of, channel_of, send_all, delete,
  delete_all,
}

abbrev pub full_channel : Channel
full_channel = record { tokens = 1; closed = false }

-- Whether an address is that of a waiter of the batch.
abbrev pub among : ℕ → List Waiter → Bool
among a [] = false
among a (w ∷ batch) = channel_of w == a || among a batch

-- Each channel is empty, open and of one waiter only.
abbrev pub Ready : Channels → List Waiter → Type 0
Ready chans [] = Unit
Ready chans (w ∷ batch) =
    (chans (channel_of w) ≡ empty_channel)
    × (among (channel_of w) batch ≡ false)
    × Ready chans batch

-- The channels with a token put in each of the batch.
abbrev pub fill : List Waiter → Channels → Channels
fill [] chans = chans
fill (w ∷ batch) chans = fill batch (put_channel chans (channel_of w) full_channel)

pub fill_lem :
    (batch : List Waiter) (chans : Channels) (a : ℕ)
    → fill batch chans a ≡ (if among a batch then full_channel else chans a)
fill_lem [] chans a = refl
fill_lem (w ∷ batch) chans a =
    ground (arith, fill_lem batch (put_channel chans (channel_of w) full_channel) a)

Ready-put :
    (batch : List Waiter) (chans : Channels) (c : ℕ) (v : Channel)
    → among c batch ≡ false
    → Ready chans batch
    → Ready (put_channel chans c v) batch
Ready-put [] chans c v h r = tt
Ready-put (w ∷ batch) chans c v h r =
    (ground arith, r.1, Ready-put batch chans c v (ground arith) r.2)

pub send_all-Ready :
    (batch : List Waiter) (chans : Channels) (remaining : ℕ)
    → Ready chans batch
    → length batch ≤ remaining
    → send_all batch chans remaining ≡ ok (fill batch chans, remaining - length batch)
unfolding send_all
send_all-Ready [] chans remaining r h = let e : remaining - 0 ≡ remaining = omega arith in rw e
send_all-Ready (w ∷ batch) chans remaining r h =
    let e : remaining - 1 - length batch ≡ remaining - suc (length batch) = omega arith in
    rw (r.0, ← e)
      (send_all-Ready batch (put_channel chans (channel_of w) full_channel) (remaining - 1)
        (Ready-put batch chans (channel_of w) full_channel r.1 r.2) (omega arith))

pub among_of_not_mem :
    (a : ℕ) (batch : List Waiter) → ¬ Mem a (map channel_of batch) → among a batch ≡ false
among_of_not_mem a [] h = refl
among_of_not_mem a (w ∷ batch) h = elim (Bool-cases (channel_of w == a)) [
  | inl same ↦ absurd (h (rw ((==_iff (channel_of w) a).0 same) mem-cons_self))
  | inr other ↦ rw other (among_of_not_mem a batch (λ m. h (mem-cons_of_mem _ m)))
]

pub Ready-of_Nodup :
    (batch : List Waiter) (chans : Channels)
    → Nodup (map channel_of batch)
    → ((c : ℕ) → Mem c (map channel_of batch) → chans c ≡ empty_channel)
    → Ready chans batch
Ready-of_Nodup [] chans n h = tt
Ready-of_Nodup (w ∷ batch) chans n h = (
  h (channel_of w) mem-cons_self,
  among_of_not_mem (channel_of w) batch (Nodup-cons.0 n).0,
  Ready-of_Nodup batch chans (Nodup-cons.0 n).1 (λ c m. h c (mem-cons_of_mem _ m)),
)

among-take : (a k : ℕ) (ws : List Waiter) → among a ws ≡ false → among a (take k ws) ≡ false
among-take a zero ws h = refl
among-take a (suc k) [] h = refl
among-take a (suc k) (w ∷ ws) h = ground (arith, among-take a k ws)

pub Ready-take :
    (k : ℕ) (chans : Channels) (ws : List Waiter) → Ready chans ws → Ready chans (take k ws)
Ready-take zero chans ws r = tt
Ready-take (suc k) chans [] r = tt
Ready-take (suc k) chans (w ∷ ws) r =
    (r.0, among-take (channel_of w) k ws r.1, Ready-take k chans ws r.2)

delete-head : (id ch : ℕ) (ws : List Waiter) → delete id ((id, ch) ∷ ws) ≡ ws
unfolding delete
delete-head id ch ws = ground arith

-- Deleting the ids of the first entries of a walk leaves the others.
pub delete_all-take : (k : ℕ) (ws : List Waiter) → delete_all (map id_of (take k ws)) ws ≡ drop k ws
unfolding delete_all delete
delete_all-take zero ws = refl
delete_all-take (suc k) [] = refl
delete_all-take (suc k) ((id, ch) ∷ ws) =
    ap (delete_all (map id_of (take k ws))) (delete-head id ch ws) ∙ delete_all-take k ws
