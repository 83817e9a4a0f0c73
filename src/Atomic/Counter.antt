-- ===== src/Atomic/Counter.antt =====
-- A generated integer is a whole number without bounds of which one sees the low bits.
use chanjet.Common.{
  ◌-◌, ◌^◌, ◌≡◌, refl, sym, ap, ap₂, ◌∙◌, Bool, List, [], ◌∷◌, All, if◌then◌else◌, inl, inr,
  Bool-cases,
}
use chanjet.Common.Int.{ℤ, pos, negsuc, ◌+ℤ◌, eqb_ℤ}
use chanjet.Atomic.{add, Width, int32, int64, uint32, uint64, uintptr, wrap, compare_and_swap_int}
use chanjet.Atomic.Integer.{Fits}
use chanjet.Atomic.Wrapping.{wrap-add, wrap-top32, wrap-top64, wrap-top_ptr, wrap_of_Fits}
use chanjet.Atomic.Methods.{
  int32_methods, int64_methods, uint32_methods, uint64_methods, uintptr_methods, Methods, methods,
}

pub data Call : Type 0 where
  add_call store_call swap_call : ℤ → Call
  load_call inc_call dec_call : Call
  cas_call : ℤ → ℤ → Call

pub data Reply : Type 0 where
  number : ℤ → Reply
  flag : Bool → Reply
  done : Reply

unfoldable pub step : Methods → Call → ℤ → Reply × ℤ
step m (add_call delta) value = let (r, v) = m.add delta value in (number r, v)
step m (store_call val) value = (done, m.store val value)
step m (swap_call new_val) value = let (r, v) = m.swap new_val value in (number r, v)
step m load_call value = (number (m.load value), value)
step m inc_call value = let (r, v) = m.inc value in (number r, v)
step m dec_call value = let (r, v) = m.dec value in (number r, v)
step m (cas_call old_val new_val) value =
    let (r, v) = m.compare_and_swap old_val new_val value in (flag r, v)

unfoldable pub run : Methods → List Call → ℤ → List Reply
unfolding step
run m [] value = []
run m (c ∷ cs) value = let (r, v) = step m c value in r ∷ run m cs v

-- The same calls on a whole number.
unfoldable pub exact_step : Width → Call → ℤ → Reply × ℤ
exact_step w (add_call delta) n = (number (wrap w (n +ℤ delta)), n +ℤ delta)
exact_step w (store_call val) n = (done, val)
exact_step w (swap_call new_val) n = (number (wrap w n), new_val)
exact_step w load_call n = (number (wrap w n), n)
exact_step w inc_call n = (number (wrap w (n +ℤ pos 1)), n +ℤ pos 1)
exact_step w dec_call n = (number (wrap w (n +ℤ negsuc 0)), n +ℤ negsuc 0)
exact_step w (cas_call old_val new_val) n =
    let same = eqb_ℤ (wrap w n) old_val in (flag same, if same then new_val else n)

unfoldable pub exact_run : Width → List Call → ℤ → List Reply
unfolding exact_step
exact_run w [] n = []
exact_run w (c ∷ cs) n = let (r, n') = exact_step w c n in r ∷ exact_run w cs n'

-- The values that a call brings in are values of the type.
abbrev pub CallFits : Width → Call → Type 0
CallFits w (add_call delta) = Unit
CallFits w (store_call val) = Fits w val
CallFits w (swap_call new_val) = Fits w new_val
CallFits w load_call = Unit
CallFits w inc_call = Unit
CallFits w dec_call = Unit
CallFits w (cas_call old_val new_val) = Fits w new_val

made : (w : Width) (v : ℤ) → (methods w).new v ≡ v
unfolding methods
made int32 v = refl
made int64 v = refl
made uint32 v = refl
made uint64 v = refl
made uintptr v = refl

-- What the methods of a width have in common.
record IsCounter (w : Width) (m : Methods) : Type 0 where
  adds : (delta n : ℤ) → m.add delta (wrap w n) ≡ (wrap w (n +ℤ delta), wrap w (n +ℤ delta))
  stores : (val n : ℤ) → m.store val n ≡ val
  loads : (n : ℤ) → m.load n ≡ n
  swaps : (val n : ℤ) → m.swap val n ≡ (n, val)
  compares :
      (old_val new_val n : ℤ)
      → m.compare_and_swap old_val new_val n
        ≡ (eqb_ℤ n old_val, if eqb_ℤ n old_val then new_val else n)
  incs : (n : ℤ) → m.inc (wrap w n) ≡ (wrap w (n +ℤ pos 1), wrap w (n +ℤ pos 1))
  decs : (n : ℤ) → m.dec (wrap w n) ≡ (wrap w (n +ℤ negsuc 0), wrap w (n +ℤ negsuc 0))

twice : {x y : ℤ} → x ≡ y → ◌≡◌ {A = ℤ × ℤ} (x, x) (y, y)
twice e = ap₂ {C = ℤ × ℤ} (λ a b. (a, b)) e e

-- The widths differ in how they subtract one.
with_dec : Width → (ℤ → ℤ × ℤ) → Methods
unfolding add
with_dec w dec = record {
  new = λ v. v;
  add = λ delta value. (add w delta value, add w delta value);
  store = λ val value. val;
  load = λ value. value;
  swap = λ new_val value. (value, new_val);
  compare_and_swap = λ old_val new_val value. compare_and_swap_int old_val new_val value;
  inc = λ value. (add w (pos 1) value, add w (pos 1) value);
  dec = dec;
}

with_dec-IsCounter :
    (w : Width) (dec : ℤ → ℤ × ℤ)
    → ((n : ℤ) → dec (wrap w n) ≡ (wrap w (n +ℤ negsuc 0), wrap w (n +ℤ negsuc 0)))
    → IsCounter w (with_dec w dec)
unfolding with_dec add compare_and_swap_int
with_dec-IsCounter w dec takes_one = record {
  adds = λ delta n. twice (wrap-add w n delta);
  stores = λ val n. refl;
  loads = λ n. refl;
  swaps = λ val n. refl;
  compares = λ o v n. refl;
  incs = λ n. twice (wrap-add w n (pos 1));
  decs = takes_one;
}

methods-IsCounter : (w : Width) → IsCounter w (methods w)
unfolding methods with_dec
methods-IsCounter int32 =
    with_dec-IsCounter int32 int32_methods.dec (λ n. twice (wrap-add int32 n (negsuc 0)))
methods-IsCounter int64 =
    with_dec-IsCounter int64 int64_methods.dec (λ n. twice (wrap-add int64 n (negsuc 0)))
methods-IsCounter uint32 =
    with_dec-IsCounter uint32 uint32_methods.dec
      (λ n. twice (wrap-add uint32 n (pos (2 ^ 32 - 1)) ∙ wrap-top32 n))
methods-IsCounter uint64 =
    with_dec-IsCounter uint64 uint64_methods.dec
      (λ n. twice (wrap-add uint64 n (pos (2 ^ 64 - 1)) ∙ wrap-top64 n))
methods-IsCounter uintptr =
    with_dec-IsCounter uintptr uintptr_methods.dec
      (λ n. twice (wrap-add uintptr n (pos (2 ^ 64 - 1)) ∙ wrap-top_ptr n))

-- A pair of a reply and a cell with the number `n` in it.
abbrev held : Width → Reply × ℤ → Reply × ℤ
held w p = (p.0, wrap w p.1)

counted :
    (f : ℤ → Reply) {p : ℤ × ℤ} {x : ℤ} → p ≡ (x, x) → ◌≡◌ {A = Reply × ℤ} (f p.0, p.1) (f x, x)
counted f e = ap (λ (q : ℤ × ℤ). let r : Reply × ℤ = (f q.0, q.1) in r) e

module _ (w : Width) (m : Methods) (k : IsCounter w m) where
  step-exact : (c : Call) (n : ℤ) → CallFits w c → step m c (wrap w n) ≡ held w (exact_step w c n)
  unfolding step exact_step
  step-exact (add_call delta) n h = counted number (k.adds delta n)
  step-exact (store_call val) n h =
      ap (λ (v : ℤ). let r : Reply × ℤ = (done, v) in r)
        (k.stores val (wrap w n) ∙ sym (wrap_of_Fits w val h))
  step-exact (swap_call new_val) n h = rw (k.swaps new_val (wrap w n), wrap_of_Fits w new_val h)
  step-exact load_call n h = rw (k.loads (wrap w n))
  step-exact inc_call n h = counted number (k.incs n)
  step-exact dec_call n h = counted number (k.decs n)
  step-exact (cas_call old_val new_val) n h = elim (Bool-cases (eqb_ℤ (wrap w n) old_val)) [
    | inl same ↦ rw (k.compares old_val new_val (wrap w n)) (rw (same, wrap_of_Fits w new_val h))
    | inr other ↦ rw (k.compares old_val new_val (wrap w n)) (rw other)
  ]

  runs_exact :
      (cs : List Call) (n : ℤ) → All (CallFits w) cs → run m cs (wrap w n) ≡ exact_run w cs n
  unfolding run exact_run
  runs_exact [] n h = refl
  runs_exact (c ∷ cs) n h =
      rw (step-exact c n h.0) (
        ap (λ (rs : List Reply). (exact_step w c n).0 ∷ rs)
          (runs_exact cs (exact_step w c n).1 h.1))

-- No sequence of calls with values of the type tells an integer of a generated type, made with
-- a value of the type, from a whole number without bounds of which each call shows the wrap,
-- whatever wraps on the way.
pub run_as_counter :
    (w : Width) (v : ℤ) (cs : List Call)
    → Fits w v
    → All (CallFits w) cs
    → run (methods w) cs ((methods w).new v) ≡ exact_run w cs v
run_as_counter w v cs h fits =
    ap (run (methods w) cs) (made w v ∙ sym (wrap_of_Fits w v h))
    ∙ runs_exact w (methods w) (methods-IsCounter w) cs v fits
