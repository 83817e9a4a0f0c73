-- ===== src/Metrics.antt =====
-- core/metrics/batch_collector.go: counters that the calls of the stream add to and that a report
-- hands over and sets to 0. An atomic operation is one assignment, a call one step; the calls of the
-- `Collector` that a report makes are its list of observations, with the int64 values that the source
-- converts to float64 there.
pub mod Conserved
pub mod Prometheus
mod Tests
use chanjet.Common.{Bool, true, false, List, [], ◌∷◌, ◌++◌, Option, none, some, if◌then◌else◌}
use chanjet.Common.Int.{ℤ, pos, ◌+ℤ◌, eqb_ℤ, wrap64}
use chanjet.Common.Run.{Error, Run, ok, panic}
use chanjet.Consts.{OperationType, metrics_inc_op, metrics_dec_op}
use chanjet.Consts.SwitchStatus.{SwitchStatus, switch_success, switch_skip}

-- All counters are int64.
pub record Write : Type 0 where
  pub write_counts : ℤ
  pub write_sizes : ℤ
  pub write_errors : ℤ
  pub active_counts : ℤ
  pub active_sizes : ℤ

abbrev pub reset_write : Write → Write
reset_write w = record {
  write_counts = pos 0;
  write_sizes = pos 0;
  write_errors = pos 0;
  active_counts = pos 0;
  active_sizes = pos 0;
}

pub record Read : Type 0 where
  pub read_counts : ℤ
  pub read_sizes : ℤ
  pub read_errors : ℤ

abbrev pub reset_read : Read → Read
reset_read r = record { read_counts = pos 0; read_sizes = pos 0; read_errors = pos 0 }

pub record Supporting : Type 0 where
  pub worker_inc_counts : ℤ
  pub worker_dec_counts : ℤ
  pub pool_alloc : ℤ
  pub switch_counts : ℤ
  pub switch_latency : ℤ
  pub skip_switch_counts : ℤ

abbrev pub reset_supporting : Supporting → Supporting
reset_supporting s = record {
  worker_inc_counts = pos 0;
  worker_dec_counts = pos 0;
  pool_alloc = pos 0;
  switch_counts = pos 0;
  switch_latency = pos 0;
  skip_switch_counts = pos 0;
}

-- `sem_closed` says whether the channel that ends the worker is closed.
pub record BatchCollector : Type 0 where
  pub w : Write
  pub r : Read
  pub sp : Supporting
  pub sem_closed : Bool

-- The calls of the interface `Collector`.
pub data Observation : Type 0 where
  switches_collector : Bool → Observation
  observes_write observes_read : ℤ → ℤ → ℤ → Observation
  observes_active : ℤ → ℤ → Observation
  observes_worker : OperationType → ℤ → Observation
  allocates : ℤ → Observation
  switches_with_latency : SwitchStatus → ℤ → ℤ → Observation

unfoldable pub new_batch_collector : BatchCollector × List Observation
new_batch_collector = (
  record {
    w = record {
      write_counts = pos 0;
      write_sizes = pos 0;
      write_errors = pos 0;
      active_counts = pos 0;
      active_sizes = pos 0;
    };
    r = record { read_counts = pos 0; read_sizes = pos 0; read_errors = pos 0 };
    sp = record {
      worker_inc_counts = pos 0;
      worker_dec_counts = pos 0;
      pool_alloc = pos 0;
      switch_counts = pos 0;
      switch_latency = pos 0;
      skip_switch_counts = pos 0;
    };
    sem_closed = false;
  },
  switches_collector true ∷ [],
)

-- `atomic.AddInt64`.
abbrev pub plus : ℤ → ℤ → ℤ
plus counter delta = wrap64 (counter +ℤ delta)

unfoldable pub record_write : ℤ → Option Error → BatchCollector → BatchCollector
record_write size (some _) b = record b {
  w = record b.w { write_errors = plus b.w.write_errors (pos 1) };
}
record_write size none b = record b {
  w = record b.w {
    write_counts = plus b.w.write_counts (pos 1);
    write_sizes = plus b.w.write_sizes size;
    active_counts = plus b.w.active_counts (pos 1);
    active_sizes = plus b.w.active_sizes size;
  };
}

unfoldable pub record_read : ℤ → ℤ → Option Error → BatchCollector → BatchCollector
record_read count size (some _) b = record b {
  r = record b.r { read_errors = plus b.r.read_errors (pos 1) };
}
record_read count size none b = record b {
  r = record b.r {
    read_counts = plus b.r.read_counts count;
    read_sizes = plus b.r.read_sizes size;
  };
}

unfoldable pub record_switch : SwitchStatus → ℤ → BatchCollector → BatchCollector
record_switch status latency b =
    if eqb_ℤ status switch_skip
    then record b { sp = record b.sp { skip_switch_counts = plus b.sp.skip_switch_counts (pos 1) } }
    else if eqb_ℤ status switch_success
    then record b {
      sp = record b.sp {
        switch_counts = plus b.sp.switch_counts (pos 1);
        switch_latency = latency;
      };
    }
    else b

unfoldable pub observe_async_worker : OperationType → BatchCollector → BatchCollector
observe_async_worker metrics_inc_op b = record b {
  sp = record b.sp { worker_inc_counts = plus b.sp.worker_inc_counts (pos 1) };
}
observe_async_worker metrics_dec_op b = record b {
  sp = record b.sp { worker_dec_counts = plus b.sp.worker_dec_counts (pos 1) };
}

unfoldable pub record_pool_alloc : BatchCollector → BatchCollector
record_pool_alloc b = record b { sp = record b.sp { pool_alloc = plus b.sp.pool_alloc (pos 1) } }

-- `report` in its three parts, each an observation of the counters and their reset.
unfoldable pub observe_writes : BatchCollector → List Observation
observe_writes b =
    observes_write b.w.write_counts b.w.write_sizes b.w.write_errors
    ∷ observes_active b.w.active_counts b.w.active_sizes
    ∷ []

unfoldable pub observe_reads : BatchCollector → List Observation
observe_reads b = observes_read b.r.read_counts b.r.read_sizes b.r.read_errors ∷ []

unfoldable pub observe_supporting : BatchCollector → List Observation
observe_supporting b =
    observes_worker metrics_inc_op b.sp.worker_inc_counts
    ∷ observes_worker metrics_dec_op b.sp.worker_dec_counts
    ∷ allocates b.sp.pool_alloc
    ∷ switches_with_latency switch_success b.sp.switch_counts b.sp.switch_latency
    ∷ switches_with_latency switch_skip b.sp.skip_switch_counts (pos 0)
    ∷ []

unfoldable pub reset_writes : BatchCollector → BatchCollector
reset_writes b = record b { w = reset_write b.w }

-- The rest of `report`, after the reset of the writes.
unfoldable pub report_rest : List Observation → BatchCollector → BatchCollector × List Observation
unfolding observe_reads observe_supporting
report_rest told b =
    let b' : BatchCollector = record b { r = reset_read b.r } in
    (record b' { sp = reset_supporting b'.sp }, told ++ (observe_reads b ++ observe_supporting b'))

unfoldable pub report : BatchCollector → BatchCollector × List Observation
unfolding observe_writes reset_writes report_rest
report b = report_rest (observe_writes b) (reset_writes b)

-- `Stop` panics the second time.
unfoldable pub stop : BatchCollector → Run BatchCollector
stop b = if b.sem_closed then panic else ok (record b { sem_closed = true })
