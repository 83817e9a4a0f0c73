-- ===== src/Metrics/Prometheus/Names.antt =====
-- The metrics that `register` makes and registers.
use Prim.Native.String.{String}
use text.Mathlib.Text.{◌==◌}
use chanjet.Common.{Bool, true, ◌&&◌, not, List, [], ◌∷◌, ◌≡◌, refl}

pub data Kind : Type 0 where
  counter labelled_counter gauge histogram : Kind

-- A metric with the options that the client library takes.
pub record Descriptor : Type 0 where
  pub kind : Kind
  pub namespace : String
  pub name : String
  pub help : String

abbrev namespace : String
namespace = "turbo stream"

abbrev metric : Kind → String → String → Descriptor
metric kind name help = record { kind = kind; namespace = namespace; name = name; help = help }

unfoldable pub register : List Descriptor
register =
    metric labelled_counter "write_counts_total" "Number of metrics written by write."
    ∷ metric counter "write_sizes_total" "Number of metrics written by write sizes."
    ∷ metric counter "write_errors_total" "Number of errors encountered by write."
    ∷ metric labelled_counter "read_counts_total" "Number of metrics read."
    ∷ metric counter "read_metrics_sizes_total" "Number of metrics read sizes."
    ∷ metric counter "read_metrics_errors_total" "Number of read errors."
    ∷ metric counter "pool_alloc_total" "Number of pool allocations."
    ∷ metric gauge "async_workers" "Number of async workers."
    ∷ metric counter "switch_counts_total" "Number of switches."
    ∷ metric gauge "active_channel_data_counts" "Number of active channels."
    ∷ metric gauge "active_channel_data_sizes" "Number of active channel sizes."
    ∷ metric histogram "switch_latency" "Latency of switches."
    ∷ metric counter "skip_switch_counts_total" "Number of skip switches."
    ∷ []

is_new : String → List Descriptor → Bool
is_new name [] = true
is_new name (d ∷ ds) = not (name == d.name) && is_new name ds

all_new : List Descriptor → Bool
all_new [] = true
all_new (d ∷ ds) = is_new d.name ds && all_new ds

-- No name is registered twice.
names_differ : all_new register ≡ true
unfolding register is_new all_new
names_differ = refl
