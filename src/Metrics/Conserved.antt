-- ===== src/Metrics/Conserved.antt =====
-- What is recorded is reported.
use chanjet.Common.{
  ◌≡◌, sym, ap, ◌∙◌, List, [], ◌∷◌, ◌++◌, Option, none, some, if◌then◌else◌, arith,
}
use chanjet.Common.Int.{ℤ, pos, ◌+ℤ◌, eqb_ℤ, wrap64, wrap64-add_left, int_laws, +ℤ_comm, +ℤ_assoc}
use chanjet.Common.Run.{Error}
use chanjet.Consts.{OperationType, metrics_inc_op, metrics_dec_op}
use chanjet.Consts.SwitchStatus.{SwitchStatus, switch_success, switch_skip}
use chanjet.Metrics.{
  BatchCollector, Observation, observes_write, observes_read, observes_active, observes_worker,
  allocates, switches_with_latency, new_batch_collector, plus, record_write, record_read,
  record_switch, observe_async_worker, record_pool_alloc, observe_writes, observe_reads,
  observe_supporting, reset_writes, report_rest, report,
}

pub data Call : Type 0 where
  wrote : ℤ → Option Error → Call
  was_read : ℤ → ℤ → Option Error → Call
  switched : SwitchStatus → ℤ → Call
  worked : OperationType → Call
  allocated reported : Call

-- One call, with what the collector below is told.
unfoldable pub step : Call → BatchCollector → BatchCollector × List Observation
step (wrote size err) b = (record_write size err b, [])
step (was_read count size err) b = (record_read count size err b, [])
step (switched status latency) b = (record_switch status latency b, [])
step (worked op) b = (observe_async_worker op b, [])
step allocated b = (record_pool_alloc b, [])
step reported b = report b

unfoldable pub run : List Call → BatchCollector → BatchCollector × List Observation
unfolding step
run [] b = (b, [])
run (c ∷ cs) b = let (b', out) = step c b in let (b'', out') = run cs b' in (b'', out ++ out')

-- The counters that add up; the latency is a last value.
pub data Counter : Type 0 where
  writes write_bytes write_failures active active_bytes : Counter
  reads read_bytes read_failures : Counter
  incs decs allocs switches skips : Counter

-- What waits to be reported.
unfoldable pub pending : Counter → BatchCollector → ℤ
pending writes b = b.w.write_counts
pending write_bytes b = b.w.write_sizes
pending write_failures b = b.w.write_errors
pending active b = b.w.active_counts
pending active_bytes b = b.w.active_sizes
pending reads b = b.r.read_counts
pending read_bytes b = b.r.read_sizes
pending read_failures b = b.r.read_errors
pending incs b = b.sp.worker_inc_counts
pending decs b = b.sp.worker_dec_counts
pending allocs b = b.sp.pool_alloc
pending switches b = b.sp.switch_counts
pending skips b = b.sp.skip_switch_counts

-- What a call should add.
unfoldable pub due : Counter → Call → ℤ
due writes (wrote size none) = pos 1
due write_bytes (wrote size none) = size
due active (wrote size none) = pos 1
due active_bytes (wrote size none) = size
due write_failures (wrote size (some _)) = pos 1
due reads (was_read count size none) = count
due read_bytes (was_read count size none) = size
due read_failures (was_read count size (some _)) = pos 1
due switches (switched status latency) = if eqb_ℤ status switch_success then pos 1 else pos 0
due skips (switched status latency) = if eqb_ℤ status switch_skip then pos 1 else pos 0
due incs (worked metrics_inc_op) = pos 1
due decs (worked metrics_dec_op) = pos 1
due allocs allocated = pos 1
due _ _ = pos 0

-- What an observation carries.
unfoldable pub told : Counter → Observation → ℤ
told writes (observes_write counts bytes errors) = counts
told write_bytes (observes_write counts bytes errors) = bytes
told write_failures (observes_write counts bytes errors) = errors
told active (observes_active counts size) = counts
told active_bytes (observes_active counts size) = size
told reads (observes_read counts bytes errors) = counts
told read_bytes (observes_read counts bytes errors) = bytes
told read_failures (observes_read counts bytes errors) = errors
told incs (observes_worker metrics_inc_op delta) = delta
told decs (observes_worker metrics_dec_op delta) = delta
told allocs (allocates delta) = delta
told switches (switches_with_latency status counts latency) =
    if eqb_ℤ status switch_success then counts else pos 0
told skips (switches_with_latency status counts latency) =
    if eqb_ℤ status switch_skip then counts else pos 0
told _ _ = pos 0

abbrev pub sum_told : Counter → List Observation → ℤ
sum_told k [] = pos 0
sum_told k (o ∷ os) = told k o +ℤ sum_told k os

abbrev pub sum_due : Counter → List Call → ℤ
sum_due k [] = pos 0
sum_due k (c ∷ cs) = due k c +ℤ sum_due k cs

wrap64-add_right : (a b : ℤ) → wrap64 (a +ℤ wrap64 b) ≡ wrap64 (a +ℤ b)
wrap64-add_right a b =
    ap wrap64 (+ℤ_comm a (wrap64 b)) ∙ wrap64-add_left b a ∙ ap wrap64 (+ℤ_comm b a)

-- Equal modulo 2^64.
abbrev Same : ℤ → ℤ → Type 0
Same a b = wrap64 a ≡ wrap64 b

Same-add : (a b c : ℤ) → Same a b → Same (c +ℤ a) (c +ℤ b)
Same-add a b c h = sym (wrap64-add_right c a) ∙ ap (λ t. wrap64 (c +ℤ t)) h ∙ wrap64-add_right c b

zero-add : (a : ℤ) → pos 0 +ℤ a ≡ a
zero-add a = omega int_laws

add-zero : (a : ℤ) → a +ℤ pos 0 ≡ a
add-zero a = omega int_laws

wrap64_idem : (a : ℤ) → wrap64 (wrap64 a) ≡ wrap64 a
unfolding wrap64
wrap64_idem a = ground arith

plus-Same : (x d : ℤ) → Same (plus x d) (x +ℤ d)
plus-Same x d = wrap64_idem (x +ℤ d)

kept-Same : (x : ℤ) → Same x (x +ℤ pos 0)
kept-Same x = ap wrap64 (sym (add-zero x))

-- A recorded call moves each counter by what is due.
wrote_lem :
    (k : Counter) (size : ℤ) (e : Option Error) (b : BatchCollector)
    → Same (pending k (record_write size e b)) (pending k b +ℤ due k (wrote size e))
unfolding pending due record_write
wrote_lem k size none b = ground (
  arith,
  plus-Same b.w.write_counts (pos 1),
  plus-Same b.w.write_sizes size,
  plus-Same b.w.active_counts (pos 1),
  plus-Same b.w.active_sizes size,
  kept-Same (pending k b),
)
wrote_lem k size (some e) b =
    ground (arith, plus-Same b.w.write_errors (pos 1), kept-Same (pending k b))

read_lem :
    (k : Counter) (count size : ℤ) (e : Option Error) (b : BatchCollector)
    → Same (pending k (record_read count size e b)) (pending k b +ℤ due k (was_read count size e))
unfolding pending due record_read
read_lem k count size none b =
    ground (
      arith,
      plus-Same b.r.read_counts count,
      plus-Same b.r.read_sizes size,
      kept-Same (pending k b),
    )
read_lem k count size (some e) b =
    ground (arith, plus-Same b.r.read_errors (pos 1), kept-Same (pending k b))

switch_lem :
    (k : Counter) (status latency : ℤ) (b : BatchCollector)
    → Same
        (pending k (record_switch status latency b))
        (pending k b +ℤ due k (switched status latency))
unfolding pending due record_switch
switch_lem k status latency b = ground (
  arith,
  plus-Same b.sp.switch_counts (pos 1),
  plus-Same b.sp.skip_switch_counts (pos 1),
  kept-Same (pending k b),
)

worked_lem :
    (k : Counter) (op : OperationType) (b : BatchCollector)
    → Same (pending k (observe_async_worker op b)) (pending k b +ℤ due k (worked op))
unfolding pending due observe_async_worker
worked_lem k metrics_inc_op b =
    ground (arith, plus-Same b.sp.worker_inc_counts (pos 1), kept-Same (pending k b))
worked_lem k metrics_dec_op b =
    ground (arith, plus-Same b.sp.worker_dec_counts (pos 1), kept-Same (pending k b))

alloc_lem :
    (k : Counter) (b : BatchCollector)
    → Same (pending k (record_pool_alloc b)) (pending k b +ℤ due k allocated)
unfolding pending due record_pool_alloc
alloc_lem k b = ground (arith, plus-Same b.sp.pool_alloc (pos 1), kept-Same (pending k b))

-- A report tells what was pending, and nothing of it is pending after.
report_lem :
    (k : Counter) (b : BatchCollector)
    → sum_told k (report b).1 +ℤ pending k (report b).0 ≡ pending k b +ℤ due k reported
unfolding pending due told report report_rest observe_writes observe_reads observe_supporting
    reset_writes
report_lem writes b = omega int_laws
report_lem write_bytes b = omega int_laws
report_lem write_failures b = omega int_laws
report_lem active b = omega int_laws
report_lem active_bytes b = omega int_laws
report_lem reads b = omega int_laws
report_lem read_bytes b = omega int_laws
report_lem read_failures b = omega int_laws
report_lem incs b = omega int_laws
report_lem decs b = omega int_laws
report_lem allocs b = omega int_laws
report_lem switches b = omega int_laws
report_lem skips b = omega int_laws

step_lem :
    (k : Counter) (c : Call) (b : BatchCollector)
    → Same (sum_told k (step c b).1 +ℤ pending k (step c b).0) (pending k b +ℤ due k c)
unfolding step
step_lem k (wrote size e) b = ap wrap64 (zero-add _) ∙ wrote_lem k size e b
step_lem k (was_read count size e) b = ap wrap64 (zero-add _) ∙ read_lem k count size e b
step_lem k (switched status latency) b = ap wrap64 (zero-add _) ∙ switch_lem k status latency b
step_lem k (worked op) b = ap wrap64 (zero-add _) ∙ worked_lem k op b
step_lem k allocated b = ap wrap64 (zero-add _) ∙ alloc_lem k b
step_lem k reported b = ap wrap64 (report_lem k b)

sum_told-append :
    (k : Counter) (xs ys : List Observation)
    → sum_told k (xs ++ ys) ≡ sum_told k xs +ℤ sum_told k ys
sum_told-append k [] ys = sym (zero-add (sum_told k ys))
sum_told-append k (x ∷ xs) ys =
    ap (λ t. told k x +ℤ t) (sum_told-append k xs ys)
    ∙ sym (+ℤ_assoc (told k x) (sum_told k xs) (sum_told k ys))

run_lem :
    (k : Counter) (cs : List Call) (b : BatchCollector)
    → Same (sum_told k (run cs b).1 +ℤ pending k (run cs b).0) (pending k b +ℤ sum_due k cs)
unfolding run
run_lem k [] b = ap wrap64 (+ℤ_comm (pos 0) (pending k b))
run_lem k (c ∷ cs) b =
    let (b', out) = step c b in
    let (b'', out') = run cs b' in
    ap wrap64 (
      ap (λ t. t +ℤ pending k b'') (sum_told-append k out out')
      ∙ +ℤ_assoc (sum_told k out) (sum_told k out') (pending k b''))
    ∙ Same-add (sum_told k out' +ℤ pending k b'') (pending k b' +ℤ sum_due k cs) (sum_told k out)
        (run_lem k cs b')
    ∙ ap wrap64 (sym (+ℤ_assoc (sum_told k out) (pending k b') (sum_due k cs)))
    ∙ sym (wrap64-add_left (sum_told k out +ℤ pending k b') (sum_due k cs))
    ∙ ap (λ t. wrap64 (t +ℤ sum_due k cs)) (step_lem k c b)
    ∙ wrap64-add_left (pending k b +ℤ due k c) (sum_due k cs)
    ∙ ap wrap64 (+ℤ_assoc (pending k b) (due k c) (sum_due k cs))

-- After any sequence of records, reports and flushes of a new collector, what the reports told of a
-- counter and what is pending of it add up to what was recorded of it, modulo 2^64.
pub records_conserved :
    (k : Counter) (cs : List Call)
    → let (b, out) = run cs new_batch_collector.0 in
      wrap64 (sum_told k out +ℤ pending k b) ≡ wrap64 (sum_due k cs)
unfolding new_batch_collector pending
records_conserved k cs =
    run_lem k cs new_batch_collector.0
    ∙ ap wrap64 (ap (λ t. t +ℤ sum_due k cs) (start_lem k) ∙ zero-add (sum_due k cs))
  where
    start_lem : (k : Counter) → pending k new_batch_collector.0 ≡ pos 0
    start_lem k = ground arith
