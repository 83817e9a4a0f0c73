-- ===== src/Atomic/Tests.antt =====
-- A few calls in a row.
use chanjet.Common.{◌≡◌, List, All, [], ◌∷◌, arith}
use chanjet.Common.Int.{pos, negsuc}
use chanjet.Atomic.{int32}
use chanjet.Atomic.Methods.{methods}
use chanjet.Atomic.Counter.{
  Call, CallFits, run, exact_run, add_call, inc_call, dec_call, load_call, cas_call, run_as_counter,
}

abbrev calls : List Call
calls = inc_call ∷ load_call ∷ add_call (negsuc 6) ∷ dec_call ∷ cas_call (pos 1) (pos 5) ∷ []

calls-fit : All (CallFits int32) calls
calls-fit =
    let last : All (CallFits int32) (cas_call (pos 1) (pos 5) ∷ []) =
      ((omega arith, omega arith), tt) in
    (tt, (tt, (tt, (tt, last))))

-- The first call wraps.
run_as_counter_example :
    run (methods int32) calls ((methods int32).new (pos 2_147_483_647))
    ≡ exact_run int32 calls (pos 2_147_483_647)
run_as_counter_example =
    run_as_counter int32 (pos 2_147_483_647) calls (omega arith, omega arith) calls-fit
