-- ===== src/Waiters/Wake.antt =====
-- `notify` wakes as many waiters as there are data, up to 64, and each of them once.
use mathlib.Core.List.{
  Mem, Perm, map-append, mem-append_left, mem-append_right, Nodup-append, append_assoc,
}
use mathlib.Core.List.Perm
use mathlib.Core.List.Nodup
use chanjet.Common.{
  ℕ, zero, suc, ◌-◌, ◌≤◌, ◌<◌, ◌≡◌, refl, sym, ap, subst, ◌∙◌, true, false, ◌||◌, List, [], ◌∷◌,
  ◌++◌, Option, some, length, take, drop, map, arith, min, ◌==◌, if◌then◌else◌, inl, inr, ◌⊎◌,
  Bool-cases, length-take, length-drop, take-append-drop,
}
use chanjet.Common.Int.{ℤ, pos, ◌≤ℤ◌, leb_ℤ}
use chanjet.Common.Run.{Run, ok}
use chanjet.Common.Exchange.{length-perm}
use chanjet.Waiters.{
  Channels, Waiter, id_of, channel_of, WaiterManager, Order, max_waiters_per_batch,
  max_total_waiters, min_of, natural, end_round, send_all, notify_loop, notify,
}
use chanjet.Waiters.Notify.{
  full_channel, among, Ready, fill, fill_lem, among_of_not_mem, send_all-Ready, Ready-of_Nodup,
  Ready-take, delete_all-take,
}
use chanjet.Waiters.Invariant.{ids, live, Sound, IsValid, Sound-perm}

-- Each walk of a round goes through the entries of the map, each once.
abbrev pub Walks : Order → Type 0
Walks order = (r : ℕ) (ws : List Waiter) → Perm (order r ws) ws

loop_done :
    (order : Order) (fuel : ℕ) (doomed : List ℕ) (w : WaiterManager) (r : ℕ)
    → 0 < fuel
    → r ≡ 0
    → notify_loop order fuel r doomed w ≡ some (ok w)
unfolding notify_loop
loop_done order zero doomed w r h e = absurd (omega arith)
loop_done order (suc fuel) doomed w r h e = ground arith

-- The manager after `k` waiters of the walk were woken.
abbrev pub woken : ℕ → List Waiter → WaiterManager → WaiterManager
woken k walk w = record w { ws = drop k walk; chans = fill (take k walk) w.chans }

end_round-take :
    (again : ℕ → List ℕ → WaiterManager → Option (Run WaiterManager)) (k : ℕ) (walk : List Waiter)
    (w : WaiterManager) (chans : Channels) (r : ℕ)
    → let w' = record w { ws = drop k walk; chans = chans } in
      end_round again walk (map id_of (take k walk)) w (ok (chans, r))
      ≡ (if length (drop k walk) == 0 then some (ok w') else again r (map id_of (take k walk)) w')
unfolding end_round
end_round-take again k walk w chans r = rw (delete_all-take k walk)

module _ (order : Order) (w : WaiterManager) (walks : Walks order) (v : IsValid w) where
  abbrev walk : List Waiter
  walk = order (length w.ws) w.ws

  same : Perm walk w.ws
  same = walks (length w.ws) w.ws

  live_perm : Perm (live w) (map channel_of walk ++ w.pool)
  live_perm = Perm.append_right w.pool (Perm.map channel_of (Perm.symm same))

  sound : Sound w.chans w.fresh (map channel_of walk ++ w.pool)
  sound = Sound-perm live_perm v.sound

  ready : Ready w.chans walk
  ready =
      Ready-of_Nodup walk w.chans (Nodup.of_append_left w.pool sound.once)
        (λ c m. sound.empty c (mem-append_left w.pool m))

  -- One round.
  sends :
      (k : ℕ)
      → send_all (take k walk) w.chans k ≡ ok (fill (take k walk) w.chans, k - length (take k walk))
  sends k =
      send_all-Ready (take k walk) w.chans k (Ready-take k w.chans walk ready)
        (omega (arith, length-take k walk))

  length-walk : length walk ≡ length w.ws
  length-walk = length-perm same

  loops :
      (k : ℕ)
      → 0 < k
      → k ≤ 64
      → 0 < length w.ws
      → notify_loop order (suc (length w.ws)) k [] w ≡ some (ok (woken k walk w))
  unfolding notify_loop
  loops k h few some_ws =
      let go : (k == 0) ≡ false = ground arith in
      let whole : min max_total_waiters k ≡ k = omega arith in
      rw (go, whole, sends k, end_round-take (notify_loop order (length w.ws)) k walk w)
        (elim (Bool-cases (length (drop k walk) == 0)) [
          | inl none_left ↦ rw none_left
          | inr more ↦ rw more (
              loop_done order (length w.ws) _ (woken k walk w) (k - length (take k walk)) some_ws
                (ground (arith, length-take k walk, length-drop k walk)))
        ])

  split :
      (k : ℕ)
      → map channel_of walk ++ w.pool
        ≡ map channel_of (take k walk) ++ (map channel_of (drop k walk) ++ w.pool)
  split k =
      ap (λ ws. map channel_of ws ++ w.pool) (sym (take-append-drop k walk))
      ∙ ap (λ cs. cs ++ w.pool) (map-append channel_of (take k walk) (drop k walk))
      ∙ append_assoc (map channel_of (take k walk)) (map channel_of (drop k walk)) w.pool

  split-Sound :
      (k : ℕ)
      → Sound w.chans w.fresh
          (map channel_of (take k walk) ++ (map channel_of (drop k walk) ++ w.pool))
  split-Sound k = subst (Sound w.chans w.fresh) (split k) sound

  -- A channel that is left is not one of those that got a token.
  left_alone :
      (k c : ℕ) → Mem c (map channel_of (drop k walk) ++ w.pool) → among c (take k walk) ≡ false
  left_alone k c m =
      among_of_not_mem c (take k walk) (λ t. (Nodup-append.0 (split-Sound k).once).2 c t m)

  ids_walk : (k : ℕ) → Perm (map id_of (take k walk) ++ map id_of (drop k walk)) (ids w)
  ids_walk k =
      subst (λ xs. Perm xs (ids w))
        (ap (map id_of) (sym (take-append-drop k walk))
          ∙ map-append id_of (take k walk) (drop k walk))
        (Perm.map id_of same)

  woken-IsValid : (k : ℕ) → IsValid (woken k walk w)
  woken-IsValid k = record {
    ids_once =
        Nodup.of_append_right (map id_of (take k walk))
          (Perm.nodup (Perm.symm (ids_walk k)) v.ids_once);
    ids_given = λ i m.
        v.ids_given i
          ((Perm.mem_iff (ids_walk k)).0 (mem-append_right (map id_of (take k walk)) m));
    sound = record {
      once = Nodup.of_append_right (map channel_of (take k walk)) (split-Sound k).once;
      old = λ c m. (split-Sound k).old c (mem-append_right (map channel_of (take k walk)) m);
      empty = λ c m.
          fill_lem (take k walk) w.chans c
          ∙ rw (left_alone k c m)
              ((split-Sound k).empty c (mem-append_right (map channel_of (take k walk)) m));
    };
  }

  -- What `notify` does for `d` data: it ends with no panic, and of the waiters, walked in the order
  -- that Go chose, the first `min d 64` have a token in their channel and wait no more.
  pub record Notified (d : ℕ) (r : Option (Run WaiterManager)) : Type 0 where
    pub result : WaiterManager
    pub ended : r ≡ some (ok result)
    pub waiting : result.ws ≡ drop (min d 64) walk
    pub tokens :
        (a : ℕ)
        → result.chans a ≡ (if among a (take (min d 64) walk) then full_channel else w.chans a)
    pub served : length (take (min d 64) walk) ≡ min (min d 64) (length w.ws)
    pub kept :
        (result.pool ≡ w.pool)
        × (result.closed ≡ w.closed)
        × (result.fresh ≡ w.fresh)
        × (result.current_id ≡ w.current_id)
    pub valid : IsValid result

  total_of :
      (d : ℕ)
      → natural (min_of max_waiters_per_batch (pos d ∷ pos max_total_waiters ∷ [])) ≡ min d 64
  unfolding min_of
  total_of d = ground arith

  positive :
      (d : ℕ)
      → 0 < d
      → leb_ℤ (min_of max_waiters_per_batch (pos d ∷ pos max_total_waiters ∷ [])) (pos 0) ≡ false
  unfolding min_of
  positive d h = ground arith

  -- notify on an open, valid manager with waiters and d > 0 data ends without panic: of the
  -- waiters, in whatever order Go walks the map, min(d, 64) (or all, if fewer) get exactly one
  -- token and are removed; the other channels, the pool, the closed flag and the last id stay,
  -- and so does the validity of the manager.
  pub notify_wakes :
      (d : ℕ) → w.closed ≡ false → 0 < length w.ws → 0 < d → Notified d (notify order (pos d) w)
  unfolding notify
  notify_wakes d live_ some_ws some_data =
      let busy : (length w.ws == 0 || w.closed) ≡ false = ground arith in
      rw (busy, positive d some_data, total_of d)
        (record {
          result = woken (min d 64) walk w;
          ended = loops (min d 64) (omega arith) (omega arith) some_ws;
          waiting = refl;
          tokens = fill_lem (take (min d 64) walk) w.chans;
          served = omega (arith, length-take (min d 64) walk, length-walk);
          kept = (refl, refl, refl, refl);
          valid = woken-IsValid (min d 64);
        })

-- With no waiter, after `Close` or without data, `notify` changes nothing.
pub notify_idle :
    (order : Order) (size : ℤ) (w : WaiterManager)
    → (w.ws ≡ []) ⊎ (w.closed ≡ true) ⊎ (size ≤ℤ pos 0)
    → notify order size w ≡ some (ok w)
unfolding notify min_of
notify_idle order size w h = ground arith
