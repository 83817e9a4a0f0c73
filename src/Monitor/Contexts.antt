-- ===== src/Monitor/Contexts.antt =====
-- The contexts of a monitor and the goroutines that wait for them.
use chanjet.Common.{
  ℕ, zero, suc, ◌≤◌, ◌<◌, ◌≡◌, refl, subst, Bool, true, List, [], ◌∷◌, All, none, some, get_elem?,
  set, ◌==◌, ◌⊎◌, arith, inl, inr, Bool-cases,
}
use chanjet.Atomic.{compare_and_swap}
use chanjet.Monitor.{
  Runner, looping, waiting, Monitor, mark, start, cancel, stop, look, drop_at, leave,
}

-- A runner at the end of its loop finds a context, and one in its `select` has found one.
abbrev pub Finds : ℕ → Runner → Type 0
Finds ctx looping = 0 < ctx
Finds ctx (waiting c) = (0 < c) × (c ≤ ctx)

-- A context before the last one is done, and in a monitor that is not started so is the last one.
pub record Sound (m : Monitor) : Type 0 where
  pub flag : m.state.value ≤ 1
  pub past : (c : ℕ) → 0 < c → c < m.ctx → m.done c ≡ true
  pub idle : m.state.value ≡ 0 → 0 < m.ctx → m.done m.ctx ≡ true
  pub finds : All (Finds m.ctx) m.runners

pub All-set :
    (P : Runner → Type 0) (k : ℕ) (rs : List Runner) (r : Runner)
    → All P rs
    → P r
    → All P (set rs k r)
All-set P k [] r h p = tt
All-set P zero (x ∷ rs) r h p = (p, h.1)
All-set P (suc k) (x ∷ rs) r h p = (h.0, All-set P k rs r h.1 p)

All-drop_at : (P : Runner → Type 0) (k : ℕ) (rs : List Runner) → All P rs → All P (drop_at k rs)
All-drop_at P k [] h = tt
All-drop_at P zero (x ∷ rs) h = h.1
All-drop_at P (suc k) (x ∷ rs) h = (h.0, All-drop_at P k rs h.1)

Finds-later : (ctx : ℕ) (r : Runner) → Finds ctx r → Finds (suc ctx) r
Finds-later ctx looping h = omega arith
Finds-later ctx (waiting c) h = (h.0, omega (arith, h.1))

All-later : (ctx : ℕ) (rs : List Runner) → All (Finds ctx) rs → All (Finds (suc ctx)) rs
All-later ctx [] h = tt
All-later ctx (r ∷ rs) h = (Finds-later ctx r h.0, All-later ctx rs h.1)

-- The runner at a place, if there is one.
pub place-cases :
    (k : ℕ) (rs : List Runner)
    → (get_elem? rs k ≡ none)
      ⊎ (get_elem? rs k ≡ some looping)
      ⊎ ((c : ℕ) × (get_elem? rs k ≡ some (waiting c)))
place-cases k [] = inl refl
place-cases zero (looping ∷ rs) = inr (inl refl)
place-cases zero (waiting c ∷ rs) = inr (inr (c, refl))
place-cases (suc k) (r ∷ rs) = place-cases k rs

pub found :
    (P : Runner → Type 0) (k : ℕ) (rs : List Runner) (r : Runner)
    → All P rs
    → get_elem? rs k ≡ some r
    → P r
found P k [] r h e = absurd (cc e)
found P zero (x ∷ rs) r h e = let same : x ≡ r = cc e in subst P same h.0
found P (suc k) (x ∷ rs) r h e = found P k rs r h.1 e

mark-true : (done : ℕ → Bool) (c j : ℕ) → done j ≡ true → mark done c true j ≡ true
mark-true done c j h = ground (arith, h)

pub start-Sound : (parent_done : Bool) (m : Monitor) → Sound m → Sound (start parent_done m)
unfolding start compare_and_swap
start-Sound parent_done m o = elim (Bool-cases (m.state.value == 0)) [
  | inl unstarted ↦ rw unstarted (record {
    flag = omega arith;
    past = λ c h k. ground (arith, o.past c h, o.idle, unstarted);
    idle = λ e h. absurd (omega arith);
    finds = (omega arith, All-later m.ctx m.runners o.finds);
  })
  | inr busy ↦ rw busy o
]

pub stop-Sound : (m : Monitor) → Sound m → Sound (stop m)
unfolding stop compare_and_swap
stop-Sound m o = elim (Bool-cases (m.state.value == 1)) [
  | inl busy ↦ rw busy (record {
    flag = omega arith;
    past = λ c h k. mark-true m.done m.ctx c (o.past c h k);
    idle = λ e h. ground arith;
    finds = o.finds;
  })
  | inr unstarted ↦ rw unstarted o
]

pub cancel-Sound : (c : ℕ) (m : Monitor) → Sound m → Sound (cancel c m)
unfolding cancel
cancel-Sound c m o = record {
  flag = o.flag;
  past = λ j h k. mark-true m.done c j (o.past j h k);
  idle = λ e h. mark-true m.done c m.ctx (o.idle e h);
  finds = o.finds;
}

runners-Sound :
    (m : Monitor) (rs : List Runner)
    → Sound m
    → All (Finds m.ctx) rs
    → Sound (record m { runners = rs })
runners-Sound m rs o h = record { flag = o.flag; past = o.past; idle = o.idle; finds = h }

pub look-Sound : (k : ℕ) (m : Monitor) → Sound m → Sound (look k m)
unfolding look
look-Sound k m o = elim (place-cases k m.runners) [
  | inl e ↦ rw (e, look) o
  | inr (inl e) ↦
      rw (e, look)
        (runners-Sound m (set m.runners k (waiting m.ctx)) o (
          All-set (Finds m.ctx) k m.runners (waiting m.ctx) o.finds
            (found (Finds m.ctx) k m.runners looping o.finds e, omega arith)))
  | inr (inr (c, e)) ↦ rw (e, look) o
]

pub leave-Sound : (k : ℕ) (m : Monitor) → Sound m → Sound (leave k m)
unfolding leave
leave-Sound k m o = elim (place-cases k m.runners) [
  | inl e ↦ rw (e, leave) o
  | inr (inl e) ↦ rw (e, leave) o
  | inr (inr (c, e)) ↦
      rw (e, leave)
        (elim (Bool-cases (m.done c)) [
          | inl over ↦ rw over (
              runners-Sound m (drop_at k m.runners) o
                (All-drop_at (Finds m.ctx) k m.runners o.finds))
          | inr live ↦ rw live o
        ])
]
