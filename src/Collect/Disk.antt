-- ===== src/Collect/Disk.antt =====
-- metrics/collector.go: `DiskCollector`. The order in which Go walks the map of counters is that of
-- the list; each disk is in it once.
pub mod Partitions
pub mod Rates
use Prim.Native.String.{String}
use Prim.Native.String as S
use text.Mathlib.Text.{◌==◌, starts_with}
use chanjet.Common.{
  ℕ, ◌+◌, ◌-◌, ◌%◌, ◌^◌, Bool, true, false, ◌||◌, List, [], ◌∷◌, ◌++◌, Option, none, some, ltb,
  if◌then◌else◌,
}
use chanjet.Common.Int.{ℤ, pos}
use chanjet.Collect.{Floating}
use chanjet.Common.Keyed.{value_at, assign}

-- `strings.Contains`.
unfoldable pub contains : String → String → Bool
contains S.[] t = starts_with "" t
contains (S.◌∷◌ c s) t = starts_with (S.◌∷◌ c s) t || contains s t

abbrev pub one_of : String → List String → Bool
one_of s [] = false
one_of s (t ∷ ts) = t == s || one_of s ts

-- `disk.PartitionStat` and `disk.UsageStat`, as far as they are read.
pub record PartitionStat : Type 0 where
  pub device : String
  pub mountpoint : String
  pub fstype : String
  pub opts : List String

pub record UsageStat (F : Type 0) : Type 0 where
  pub total : ℕ
  pub used : ℕ
  pub free : ℕ
  pub used_percent : F
  pub inodes_total : ℕ
  pub inodes_used : ℕ
  pub inodes_free : ℕ

pub record PartitionState (F : Type 0) : Type 0 where
  pub device : String
  pub mount_point : String
  pub fs_type : String
  pub options : String
  pub usage : UsageStat F
  pub read_only : Bool

abbrev pub skip_fs_types : List String
skip_fs_types =
    "tmpfs" ∷ "devtmpfs" ∷ "squashfs" ∷ "overlay" ∷ "autofs" ∷ "cgroup" ∷ "cgroup2" ∷ "tracefs"
    ∷ "debugfs" ∷ "pstore" ∷ "bpf" ∷ "securityfs" ∷ "configfs" ∷ "fusectl" ∷ "hugetlbfs" ∷ "mqueue"
    ∷ "binfmt_misc" ∷ []

abbrev pub skip_mounts : List String
skip_mounts =
    "/dev" ∷ "/proc" ∷ "/sys" ∷ "/run" ∷ "/snap" ∷ "/sys/kernel" ∷ "/boot/efi" ∷ "/sys/fs/cgroup"
    ∷ "/sys/fs/fuse" ∷ "/sys/fs/pstore" ∷ "/sys/fs/bpf" ∷ "/sys/kernel/debug"
    ∷ "/sys/kernel/tracing" ∷ "/proc/sys/fs/binfmt_misc" ∷ []

-- Paths of containers, and devices that are no disks.
unfoldable pub is_virtual : PartitionStat → Bool
unfolding contains
is_virtual p =
    contains p.mountpoint "/var/lib/docker"
    || contains p.mountpoint "/var/lib/kubelet"
    || contains p.mountpoint "/var/lib/lxc"
    || contains p.mountpoint "/var/lib/lxd"
    || contains p.mountpoint "/var/lib/containers"
    || starts_with p.device "gvfs"
    || contains p.device "ram"

unfoldable pub should_skip_partition : PartitionStat → Bool
unfolding is_virtual
should_skip_partition p =
    if one_of p.fstype skip_fs_types
    then true
    else if one_of p.mountpoint skip_mounts
    then true
    else if one_of "ro" p.opts
    then true
    else is_virtual p

-- `strings.Join(opts, ",")`.
unfoldable pub join : List String → String
join [] = ""
join (s ∷ []) = s
join (s ∷ t ∷ ss) = S.◌++◌ s (S.◌++◌ "," (join (t ∷ ss)))

module _ {F : Type 0} (usage : String → Option (UsageStat F)) where
  -- A partition that is not skipped, in the list of states or in that of errors.
  unfoldable pub add_partition :
      PartitionStat → List (PartitionState F) × List String → List (PartitionState F) × List String
  unfolding join
  add_partition p (states, errors) = elim (usage p.mountpoint) [
    | none ↦ (states, errors ++ (S.◌++◌ "Usage error [" (S.◌++◌ p.mountpoint "]: ") ∷ []))
    | some u ↦ (
      states
          ++ (record {
            device = p.device;
            mount_point = p.mountpoint;
            fs_type = p.fstype;
            options = join p.opts;
            usage = u;
            read_only = one_of "ro" p.opts;
          }
              ∷ []),
      errors,
    )
  ]

  -- The loop over the partitions.
  unfoldable pub add_partitions :
      List PartitionStat
      → List (PartitionState F) × List String
      → List (PartitionState F) × List String
  unfolding add_partition
  add_partitions [] r = r
  add_partitions (p ∷ ps) r =
      add_partitions ps (if should_skip_partition p then r else add_partition p r)

-- `disk.IOCountersStat`, as far as it is read: uint64 counters.
pub record IoCounters : Type 0 where
  pub read_count : ℕ
  pub write_count : ℕ
  pub read_bytes : ℕ
  pub write_bytes : ℕ
  pub read_time : ℕ
  pub write_time : ℕ
  pub io_time : ℕ

pub record DiskIoStats (F : Type 0) : Type 0 where
  pub disk_name : String
  pub read_count_per_sec : F
  pub write_count_per_sec : F
  pub read_bytes_per_sec : F
  pub write_bytes_per_sec : F
  pub read_time_per_sec : F
  pub write_time_per_sec : F
  pub utilization_percent : F

abbrev pub Disks : Type 0
Disks = List (String × IoCounters)

-- A counter that has been reset counts from 0.
abbrev pub increase : ℕ → ℕ → ℕ
increase current prev = if ltb current prev then current else current - prev

-- A subtraction of uint64.
abbrev pub minus64 : ℕ → ℕ → ℕ
minus64 a b = (a + 2 ^ 64 - b) % 2 ^ 64

unfoldable pub skips_disk : String → Bool
unfolding contains
skips_disk name = contains name "loop" || starts_with name "dm-" || contains name "nvme"

module _ {F : Type 0} (f : Floating F) (elapsed : F) where
  abbrev pub delta : ℕ → ℕ → F
  delta current prev = f.div (f.of_int (pos (increase current prev))) elapsed

  unfoldable pub rates : String → IoCounters → IoCounters → DiskIoStats F
  rates name c p = record {
    disk_name = name;
    read_count_per_sec = delta c.read_count p.read_count;
    write_count_per_sec = delta c.write_count p.write_count;
    read_bytes_per_sec = delta c.read_bytes p.read_bytes;
    write_bytes_per_sec = delta c.write_bytes p.write_bytes;
    read_time_per_sec = delta c.read_time p.read_time;
    write_time_per_sec = delta c.write_time p.write_time;
    utilization_percent =
        f.div (f.mul (f.of_int (pos 100)) (f.of_int (pos (minus64 c.io_time p.io_time))))
          (f.mul elapsed (f.of_int (pos 1000)));
  }

  abbrev pub with_previous :
      String
      → IoCounters
      → Option IoCounters
      → List (String × DiskIoStats F)
      → List (String × DiskIoStats F)
  with_previous name c none m = m
  with_previous name c (some p) m = assign m name (rates name c p)

  -- The loop over the current counters.
  unfoldable pub per_disk :
      Disks → Disks → List (String × DiskIoStats F) → List (String × DiskIoStats F)
  unfolding rates skips_disk
  per_disk prev [] m = m
  per_disk prev ((name, c) ∷ cs) m =
      per_disk prev cs (if skips_disk name then m else with_previous name c (value_at prev name) m)

-- `TotalIO` stays at its zero value and has no field here.
pub record DiskStates (F : Type 0) : Type 0 where
  pub timestamp : ℤ
  pub partitions : List (PartitionState F)
  pub per_disk_io : List (String × DiskIoStats F)
  pub errors : List String

-- `Collect`, with the seconds since the last collection, or `none` if there was none; the result has
-- the new `prevIOCounters`. The texts of errors end here where the library's own text follows.
unfoldable pub collect_disk :
    {F : Type 0}
    → Floating F
    → Option F
    → ℤ
    → List PartitionStat
    → (String → Option (UsageStat F))
    → Option Disks
    → Disks
    → DiskStates F × Disks
unfolding add_partitions per_disk
collect_disk f none now partitions usage none prev =
    (record { timestamp = now; partitions = []; per_disk_io = []; errors = [] }, [])
collect_disk f none now partitions usage (some current) prev =
    (record { timestamp = now; partitions = []; per_disk_io = []; errors = [] }, current)
collect_disk f (some seconds) now partitions usage none prev =
    let (states, errors) = add_partitions usage partitions ([], []) in
    (
      record {
        timestamp = now;
        partitions = states;
        per_disk_io = [];
        errors = errors ++ ("IO Counters error: " ∷ []);
      },
      prev,
    )
collect_disk f (some seconds) now partitions usage (some current) prev =
    let (states, errors) = add_partitions usage partitions ([], []) in
    let elapsed = if f.positive seconds then seconds else f.of_int (pos 1) in
    (
      record {
        timestamp = now;
        partitions = states;
        per_disk_io = per_disk f elapsed prev current [];
        errors = errors;
      },
      current,
    )
