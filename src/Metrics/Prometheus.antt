-- ===== src/Metrics/Prometheus.antt =====
-- core/metrics/prometheus.go, with the metrics of the client library as a parameter.
mod Names
use Prim.Native.String.{String}
use chanjet.Common.{Bool, true, false, ◌&&◌, List, [], ◌∷◌, if◌then◌else◌}
use chanjet.Common.Int.{ℤ, pos, eqb_ℤ}
use chanjet.Common.Run.{Run, ok, err, panic, ◌>>=◌}
use chanjet.Consts.{OperationType, metrics_inc_op, metrics_dec_op}
use chanjet.Consts.SwitchStatus.{SwitchStatus, switch_success, switch_failure, switch_skip}
use chanjet.Metrics.{
  Observation, switches_collector, observes_write, observes_read, observes_active, observes_worker,
  allocates, switches_with_latency,
}

-- `F` is float64 and `M` the state of a metric: a counter (`Add` panics on a negative number), a
-- counter with a label, a gauge or a histogram.
pub record Library (F M : Type 0) : Type 0 where
  pub of_int : ℤ → F
  pub neg : F → F
  pub is_zero : F → Bool
  pub counter_add : F → M → Run M
  pub counter_inc : M → M
  pub labelled_add : String → F → M → Run M
  pub gauge_set : F → M → M
  pub gauge_add : F → M → M
  pub histogram_observe : F → M → M

pub record Prometheus (M : Type 0) : Type 0 where
  pub enabled : Bool
  pub write_counter : M
  pub write_sizes : M
  pub write_errors : M
  pub read_counter : M
  pub read_sizes : M
  pub read_errors : M
  pub switch_counts : M
  pub switch_latency : M
  pub skip_switch_counts : M
  pub active_counts : M
  pub active_sizes : M
  pub async_workers : M
  pub pool_alloc : M

unfoldable pub collect_switcher : {M : Type 0} → Bool → Prometheus M → Prometheus M
collect_switcher enable p = record p { enabled = enable }

module _ {F M : Type 0} (l : Library F M) where
  unfoldable pub observe_write : F → F → F → Prometheus M → Run (Prometheus M)
  observe_write counts bytes errors p =
      let told : Run (Prometheus M) = l.labelled_add "success" counts p.write_counter >>= λ c.
      l.counter_add bytes p.write_sizes >>= λ s. l.counter_add errors p.write_errors >>= λ e.
      ok (record p { write_counter = c; write_sizes = s; write_errors = e }) in
      if p.enabled then told else ok p

  unfoldable pub observe_read : F → F → F → Prometheus M → Run (Prometheus M)
  observe_read counts bytes errors p =
      let told : Run (Prometheus M) = l.labelled_add "success" counts p.read_counter >>= λ c.
      l.counter_add bytes p.read_sizes >>= λ s. l.counter_add errors p.read_errors >>= λ e.
      ok (record p { read_counter = c; read_sizes = s; read_errors = e }) in
      if p.enabled then told else ok p

  unfoldable pub alloc_inc : F → Prometheus M → Run (Prometheus M)
  alloc_inc delta p =
      let told : Run (Prometheus M) =
        l.counter_add delta p.pool_alloc >>= λ a. ok (record p { pool_alloc = a }) in
      if p.enabled then told else ok p

  unfoldable pub observe_async_goroutine : OperationType → F → Prometheus M → Prometheus M
  observe_async_goroutine metrics_inc_op counts p =
      if p.enabled then record p { async_workers = l.gauge_add counts p.async_workers } else p
  observe_async_goroutine metrics_dec_op counts p =
      if p.enabled
      then record p { async_workers = l.gauge_add (l.neg counts) p.async_workers }
      else p

  unfoldable pub switch_with_latency : SwitchStatus → F → F → Prometheus M → Run (Prometheus M)
  switch_with_latency status counts milliseconds p =
      let success : Run (Prometheus M) = l.counter_add counts p.switch_counts >>= λ c.
      ok (record p {
        switch_counts = c;
        switch_latency = l.histogram_observe milliseconds p.switch_latency;
      }) in
      let skip : Prometheus M = record p {
        skip_switch_counts = l.counter_inc p.skip_switch_counts;
      } in
      let told =
        if eqb_ℤ status switch_success
        then success
        else if eqb_ℤ status switch_skip
        then ok skip
        else ok p in
      if p.enabled then told else ok p

  unfoldable pub observe_active : F → F → Prometheus M → Prometheus M
  observe_active counts size p =
      let zeroed : Prometheus M = record p {
        active_counts = l.gauge_set (l.of_int (pos 0)) p.active_counts;
        active_sizes = l.gauge_set (l.of_int (pos 0)) p.active_sizes;
      } in
      let q = if l.is_zero size && l.is_zero counts then zeroed else p in
      let added : Prometheus M = record q {
        active_counts = l.gauge_add counts q.active_counts;
        active_sizes = l.gauge_add size q.active_sizes;
      } in
      if p.enabled then added else p

  -- What the calls of a report do.
  unfoldable pub receive : Observation → Prometheus M → Run (Prometheus M)
  unfolding observe_write observe_read alloc_inc observe_async_goroutine switch_with_latency
      observe_active
  receive (switches_collector enable) p = ok (collect_switcher enable p)
  receive (observes_write counts bytes errors) p =
      observe_write (l.of_int counts) (l.of_int bytes) (l.of_int errors) p
  receive (observes_read counts bytes errors) p =
      observe_read (l.of_int counts) (l.of_int bytes) (l.of_int errors) p
  receive (observes_active counts size) p = ok (observe_active (l.of_int counts) (l.of_int size) p)
  receive (observes_worker op delta) p = ok (observe_async_goroutine op (l.of_int delta) p)
  receive (allocates delta) p = alloc_inc (l.of_int delta) p
  receive (switches_with_latency status counts latency) p =
      switch_with_latency status (l.of_int counts) (l.of_int latency) p

  unfoldable pub receive_all : List Observation → Prometheus M → Run (Prometheus M)
  unfolding receive
  receive_all [] p = ok p
  receive_all (o ∷ os) p = receive o p >>= λ q. receive_all os q
