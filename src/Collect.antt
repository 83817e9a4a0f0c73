-- ===== src/Collect.antt =====
-- metrics/metrics.go and metrics/collector.go: what the collectors of the system monitor make of what
-- the gopsutil library tells them. Its answers are arguments, `none` where it returns an error, and
-- float64 is a parameter. uint64 is the natural numbers below 2^64.
pub mod Network
pub mod Disk
mod Tests
use Prim.Native.String.{String}
use chanjet.Common.{
  ℕ, zero, suc, ◌+◌, ◌-◌, ◌%◌, ◌^◌, Bool, true, false, List, [], ◌∷◌, Option, none, some, ◌==◌,
  get_elem?, if◌then◌else◌,
}
use chanjet.Common.Int.{ℤ, pos}
use chanjet.Common.Run.{Run, ok, panic, ◌>>=◌}

-- What the collectors use of float64.
pub record Floating (F : Type 0) : Type 0 where
  pub of_int : ℤ → F
  pub add : F → F → F
  pub mul : F → F → F
  pub div : F → F → F
  pub positive : F → Bool

pub record CpuStates (F : Type 0) : Type 0 where
  pub usage : F
  pub user : F
  pub system : F
  pub idle : F
  pub load1 : F
  pub load5 : F
  pub load15 : F

pub record MemoryStates (F : Type 0) : Type 0 where
  pub total : ℕ
  pub used : ℕ
  pub free : ℕ
  pub used_percent : F
  pub cached : ℕ
  pub buffers : ℕ

pub record RuntimeStates : Type 0 where
  pub goroutines : ℕ
  pub heap_alloc : ℕ
  pub stack_alloc : ℕ
  pub gc_nums : ℕ
  pub gc_pause : ℕ

-- `cpu.TimesStat` and `load.AvgStat`, as far as they are read.
pub record TimesStat (F : Type 0) : Type 0 where
  pub user : F
  pub system : F
  pub idle : F

pub record AvgStat (F : Type 0) : Type 0 where
  pub load1 : F
  pub load5 : F
  pub load15 : F

module _ {F : Type 0} (f : Floating F) where
  abbrev pub nought : F
  nought = f.of_int (pos 0)

  abbrev pub percent_base : F
  percent_base = f.of_int (pos 100)

  abbrev pub no_cpu : CpuStates F
  no_cpu = record {
    usage = nought;
    user = nought;
    system = nought;
    idle = nought;
    load1 = nought;
    load5 = nought;
    load15 = nought;
  }

  with_times : Option (List (TimesStat F)) → CpuStates F → CpuStates F
  with_times none c = c
  with_times (some []) c = c
  with_times (some (t ∷ _)) c =
      let total = f.add (f.add t.user t.system) t.idle in
      let share = λ (part : F). f.mul (f.div part total) percent_base in
      if f.positive total
      then record c { user = share t.user; system = share t.system; idle = share t.idle }
      else c

  with_load : Option (Option (AvgStat F)) → CpuStates F → CpuStates F
  with_load (some (some a)) c = record c { load1 = a.load1; load5 = a.load5; load15 = a.load15 }
  with_load (some none) c = c
  with_load none c = c

  -- `CPUCollector.Collect`: `percs[0]` panics on an empty answer.
  unfoldable pub collect_cpu :
      Option (List F)
      → Option (List (TimesStat F))
      → Option (Option (AvgStat F))
      → Run (CpuStates F)
  unfolding with_times with_load
  collect_cpu none times avg = ok no_cpu
  collect_cpu (some []) times avg = panic
  collect_cpu (some (p ∷ _)) times avg =
      ok (with_load avg (with_times times (record no_cpu { usage = p })))

  -- `MemoryCollector.Collect`; the answer is copied field by field.
  unfoldable pub collect_memory : Option (Option (MemoryStates F)) → MemoryStates F
  collect_memory (some (some vms)) = vms
  collect_memory (some none) = record {
    total = 0;
    used = 0;
    free = 0;
    used_percent = nought;
    cached = 0;
    buffers = 0;
  }
  collect_memory none = record {
    total = 0;
    used = 0;
    free = 0;
    used_percent = nought;
    cached = 0;
    buffers = 0;
  }

-- `runtime.MemStats`, as far as it is read: `num_gc` is a uint32 and `pause_ns` an array of 256.
pub record MemStats : Type 0 where
  pub heap_alloc : ℕ
  pub stack_inuse : ℕ
  pub num_gc : ℕ
  pub pause_ns : List ℕ

-- The place of the last pause.
unfoldable pub pause_index : ℕ → ℕ
pause_index num_gc = (num_gc - 1) % 256

or_panic : Option ℕ → Run ℕ
or_panic none = panic
or_panic (some n) = ok n

unfoldable pub gc_pause : MemStats → Run ℕ
unfolding pause_index or_panic
gc_pause m =
    let pause = or_panic (get_elem? m.pause_ns (pause_index m.num_gc)) in
    if m.num_gc == 0 then ok 0 else pause

-- `RuntimesCollector.Collect`.
unfoldable pub collect_runtime : ℕ → MemStats → Run RuntimeStates
unfolding gc_pause
collect_runtime goroutines m = gc_pause m >>= λ pause. ok (record {
  goroutines = goroutines;
  heap_alloc = m.heap_alloc;
  stack_alloc = m.stack_inuse;
  gc_nums = m.num_gc;
  gc_pause = pause;
})
