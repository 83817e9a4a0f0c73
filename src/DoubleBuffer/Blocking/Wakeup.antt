-- ===== src/DoubleBuffer/Blocking/Wakeup.antt =====
-- When a reader in `BlockingRead` goes on.
use mathlib.Core.List.{Mem, mem-cons, not-mem-nil}
use mathlib.Core.List.Perm
use mathlib.Core.Logic.Or
use chanjet.Common.{
  ℕ, zero, suc, ◌≤◌, ◌<◌, ◌≡◌, refl, ap, ◌∙◌, true, false, List, [], ◌∷◌, Option, none, some,
  length, take, arith, min,
}
use chanjet.Common.Int.{ℤ, pos}
use chanjet.Common.Run.{Run, ok}
use chanjet.Common.Exchange.{length-perm}
use chanjet.Waiters.{Waiter, id_of, channel_of, Order, unregister}
use chanjet.Waiters.Notify.{full_channel, among}
use chanjet.Waiters.Invariant as W
use chanjet.Waiters.Wake.{Walks, notify_wakes}
use chanjet.DoubleBuffer.{DoubleBuffer, take_note, tell, told_by, tell_next}
use chanjet.DoubleBuffer.Read.{DataChunk}
use chanjet.DoubleBuffer.Valid.{IsValid, IsValid-new_waiters}
use chanjet.DoubleBuffer.TryRead.{try_read_ends}
use chanjet.DoubleBuffer.Blocking.{
  answered, Phase, blocked, retrying, leaving, finished, told_case, Choices, moved, receive_token,
  is_ready, take_case, select, advance,
}

mem-among : (w : Waiter) (ws : List Waiter) → Mem w ws → among (channel_of w) ws ≡ true
mem-among w [] m = absurd (not-mem-nil m)
mem-among w (x ∷ ws) m =
    Or.elim (hlevel) (mem-cons.0 m) (λ e. rw (← e) (ground arith))
      (λ t. ground (arith, mem-among w ws t))

take_all : (k : ℕ) (ws : List Waiter) → length ws ≤ k → take k ws ≡ ws
take_all zero [] h = refl
take_all zero (w ∷ ws) h = absurd (omega arith)
take_all (suc k) [] h = refl
take_all (suc k) (w ∷ ws) h = ap (◌∷◌ w) (take_all k ws (omega arith))

-- The stages of a reader one after the other, with no step of another goroutine in between.
unfoldable pub advance_all : List Choices → Phase → DoubleBuffer → Option (Phase × DoubleBuffer)
advance_all [] p d = some (p, d)
advance_all (c ∷ cs) p d = elim (advance c p d) [
  | none ↦ none
  | some (p', d') ↦ advance_all cs p' d'
]

three_stages :
    (c₁ c₂ c₃ : Choices) (p₀ p₁ p₂ p₃ : Phase) (d₀ d₁ d₂ d₃ : DoubleBuffer)
    → advance c₁ p₀ d₀ ≡ some (p₁, d₁)
    → advance c₂ p₁ d₁ ≡ some (p₂, d₂)
    → advance c₃ p₂ d₂ ≡ some (p₃, d₃)
    → advance_all (c₁ ∷ c₂ ∷ c₃ ∷ []) p₀ d₀ ≡ some (p₃, d₃)
unfolding advance_all
three_stages c₁ c₂ c₃ p₀ p₁ p₂ p₃ d₀ d₁ d₂ d₃ e₁ e₂ e₃ =
    rw (e₁, advance_all) (rw (e₂, advance_all) (rw (e₃, advance_all)))

-- The stream once the token of `w` is taken.
abbrev taken : Waiter → DoubleBuffer → DoubleBuffer
taken w d = record d { wm = receive_token (channel_of w) d.wm }

advance-told :
    (c : Choices) (w : Waiter) (d : DoubleBuffer)
    → c.select_case ≡ told_case
    → d.wm.chans (channel_of w) ≡ full_channel
    → advance c (blocked w) d ≡ some (retrying w, taken w d)
unfolding advance select is_ready take_case
advance-told c w d told full = rw (told, is_ready, take_case) (rw full)

-- From `d` on the reader with `w` goes through its `select` by its token and comes back.
pub record Released (w : Waiter) (d : DoubleBuffer) (c₁ c₂ c₃ : Choices) : Type 0 where
  pub answer : Run DataChunk
  pub result : DoubleBuffer
  pub ended :
      advance_all (c₁ ∷ c₂ ∷ c₃ ∷ []) (blocked w) d ≡ some (finished (answered answer), result)
  pub valid : IsValid result

released_lem :
    (w : Waiter) (d : DoubleBuffer) (c₁ c₂ c₃ : Choices)
    → IsValid d
    → c₁.select_case ≡ told_case
    → d.wm.chans (channel_of w) ≡ full_channel
    → Released w d c₁ c₂ c₃
unfolding advance
released_lem w d c₁ c₂ c₃ v told full =
    let t =
      try_read_ends c₂.now (taken w d)
        (IsValid-new_waiters d (receive_token (channel_of w) d.wm) d.told v) in
    let d' : DoubleBuffer = t.result.0 in
    record {
      answer = t.result.1;
      result = record d' { wm = unregister (id_of w) d'.wm };
      ended =
          three_stages c₁ c₂ c₃ (blocked w) (retrying w) (leaving (id_of w) (answered t.result.1))
            (finished (answered t.result.1)) d (taken w d) d'
            (record d' { wm = unregister (id_of w) d'.wm }) (advance-told c₁ w d told full)
            (ap (moved (λ r. leaving (id_of w) (answered r))) t.ended) refl;
      valid = IsValid-new_waiters d' (unregister (id_of w) d'.wm) d'.told t.valid;
    }

-- The notification of `told` that is sent ends, and the reader with `w` then gets an answer, in
-- whatever state of its context, if `select` takes the token.
pub record Woken (w : Waiter) (d : DoubleBuffer) (r : Option (Run DoubleBuffer)) : Type 0 where
  pub after : DoubleBuffer
  pub ended : r ≡ some (ok after)
  pub has_token : after.wm.chans (channel_of w) ≡ full_channel
  pub answers : (c₁ c₂ c₃ : Choices) → c₁.select_case ≡ told_case → Released w after c₁ c₂ c₃
  pub same_heap : after.pending_heap ≡ d.pending_heap

among-walk :
    (order : Order) (walks : Walks order) (k n : ℕ) (w : Waiter) (ws : List Waiter)
    → Mem w ws
    → length ws ≤ k
    → among (channel_of w) (take k (order n ws)) ≡ true
among-walk order walks k n w ws m few =
    let p = walks n ws in
    rw (take_all k (order n ws) (omega (arith, length-perm p)))
      (mem-among w (order n ws) ((Perm.mem_iff p).1 m))

some_of_mem : (w : Waiter) (ws : List Waiter) → Mem w ws → 0 < length ws
some_of_mem w [] m = absurd (not-mem-nil m)
some_of_mem w (x ∷ ws) m = omega arith

-- On a valid stream with open, valid waiters, of which there are at most 64 and at most as many
-- as the data of a filed buffer, the notification of that buffer, any of those that are due,
-- ends, in whatever order Go walks the map. A reader that was registered then has a token; if its
-- select takes that case, and no other goroutine takes a step until it is through, it has an
-- answer after three stages of its own, and the stream is valid.
pub tell_wakes :
    (order : Order) (k n : ℕ) (rest : List ℤ) (w : Waiter) (d : DoubleBuffer)
    → Walks order
    → IsValid d
    → W.IsValid d.wm
    → d.wm.closed ≡ false
    → take_note k d.told ≡ some (pos n, rest)
    → Mem w d.wm.ws
    → length d.wm.ws ≤ min n 64
    → Woken w d (tell order k d)
unfolding tell tell_next told_by
tell_wakes order k n rest w d walks v wv live told m few =
    let some_ws = some_of_mem w d.wm.ws m in
    let t = notify_wakes order d.wm walks wv n live some_ws (omega (arith, some_ws)) in
    let after : DoubleBuffer = record d { wm = t.result; told = rest } in
    let token : after.wm.chans (channel_of w) ≡ full_channel =
      t.tokens (channel_of w)
      ∙ rw (among-walk order walks (min n 64) (length d.wm.ws) w d.wm.ws m few) in
    record {
      after = after;
      ended = rw (told, tell_next) (ap (told_by rest d) t.ended);
      has_token = token;
      answers = λ c₁ c₂ c₃ e.
          released_lem w after c₁ c₂ c₃ (IsValid-new_waiters d t.result rest v) e token;
      same_heap = refl;
    }
