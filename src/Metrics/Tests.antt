-- ===== src/Metrics/Tests.antt =====
-- A collector under a script of calls.
use chanjet.Common.{List, ◌≡◌, [], ◌∷◌, none, some}
use chanjet.Common.Int.{pos, ◌+ℤ◌, wrap64}
use chanjet.Common.Run.{buffer_full}
use chanjet.Consts.{metrics_inc_op}
use chanjet.Consts.SwitchStatus.{switch_success}
use chanjet.Metrics.{new_batch_collector}
use chanjet.Metrics.Conserved.{
  Call, wrote, was_read, switched, worked, reported, write_bytes, run, pending, sum_told, sum_due,
  records_conserved,
}

abbrev script : List Call
script =
    wrote (pos 10) none
    ∷ wrote (pos 7) (some buffer_full)
    ∷ switched switch_success (pos 3)
    ∷ reported
    ∷ worked metrics_inc_op
    ∷ was_read (pos 1) (pos 10) none
    ∷ wrote (pos 5) none
    ∷ []

records_conserved_example :
    let (b, out) = run script new_batch_collector.0 in
    wrap64 (sum_told write_bytes out +ℤ pending write_bytes b) ≡ wrap64 (sum_due write_bytes script)
records_conserved_example = records_conserved write_bytes script
