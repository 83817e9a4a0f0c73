-- ===== src/Waiters/Leave.antt =====
-- `unregister` gives a waiter's channel back to the pool.
use mathlib.Core.List.{Mem, Nodup-cons, Perm, mem-cons_self, mem-cons_of_mem, perm_middle}
use mathlib.Core.List.Perm
use chanjet.Common.{
  ℕ, ◌≡◌, ◌≢◌, inl, inr, refl, List, [], ◌∷◌, none, some, map, arith, ◌==◌, Bool-cases,
  Option-cases,
}
use chanjet.Waiters.{Waiter, id_of, channel_of, WaiterManager, find, delete, unregister}
use chanjet.Waiters.Invariant.{IsValid, Sound-perm}

find-perm :
    (id : ℕ) (ws : List Waiter) {ch : ℕ} → find id ws ≡ some ch → Perm ws ((id, ch) ∷ delete id ws)
unfolding find delete
find-perm id [] e = cc
find-perm id ((j, d) ∷ ws) {ch} e = elim (Bool-cases (j == id)) [
  | inl same ↦
      let at_head : ◌≡◌ {A = Waiter} (j, d) (id, ch) = ground arith in rw (same, at_head) Perm.rfl
  | inr other ↦
      let found : find id ws ≡ some ch = ground arith in
      rw other (
        Perm.trans (Perm.cons (j, d) (find-perm id ws found))
          (Perm.swap (id, ch) (j, d) (delete id ws)))
]

find_of_not_mem : (id : ℕ) (ws : List Waiter) → ¬ Mem id (map id_of ws) → find id ws ≡ none
unfolding find
find_of_not_mem id [] h = refl
find_of_not_mem id ((j, d) ∷ ws) h = elim (Bool-cases (j == id)) [
  | inl same ↦ absurd (h (rw (let e : j ≡ id = ground arith in e) mem-cons_self))
  | inr other ↦ rw other (find_of_not_mem id ws (λ m. h (mem-cons_of_mem j m)))
]

pub find-delete_ne : (id j : ℕ) (ws : List Waiter) → j ≢ id → find j (delete id ws) ≡ find j ws
unfolding find delete
find-delete_ne id j [] h = refl
find-delete_ne id j ((i, d) ∷ ws) h = ground (arith, find-delete_ne id j ws)

-- What `unregister` leaves of a valid manager: it is valid, the id is gone, and the other waiters
-- keep their channels.
pub record Unregistered (id : ℕ) (w w' : WaiterManager) : Type 0 where
  pub valid : IsValid w'
  pub gone : find id w'.ws ≡ none
  pub others : (j : ℕ) → j ≢ id → find j w'.ws ≡ find j w.ws

-- Unregistering from a valid manager keeps it valid, removes the id and leaves every other waiter
-- with its channel.
pub unregister-Unregistered :
    (id : ℕ) (w : WaiterManager) → IsValid w → Unregistered id w (unregister id w)
unfolding unregister
unregister-Unregistered id w v = elim (Option-cases (find id w.ws)) [
  | inl e ↦ rw (e, unregister) (record { valid = v; gone = e; others = λ j h. refl })
  | inr (ch, e) ↦
      let p = find-perm id w.ws e in
      let q = Perm.map id_of p in
      let once = Nodup-cons.0 (Perm.nodup q v.ids_once) in
      rw (e, unregister)
        (record {
          valid = record {
            ids_once = once.1;
            ids_given = λ i m. v.ids_given i ((Perm.mem_iff q).1 (mem-cons_of_mem id m));
            sound =
                Sound-perm
                  (Perm.trans (Perm.append_right w.pool (Perm.map channel_of p))
                    (Perm.symm (perm_middle {a = ch} (map channel_of (delete id w.ws)) w.pool)))
                  v.sound;
          };
          gone = find_of_not_mem id (delete id w.ws) once.0;
          others = λ j h. find-delete_ne id j w.ws h;
        })
]
