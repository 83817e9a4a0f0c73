-- ===== src/Collect/Tests.antt =====
-- Two collections of network counters, partitions and disks, in whole numbers.
use Prim.Native.String.{String}
use text.Mathlib.Text.{◌==◌}
use mathlib.Core.Option.{map}
use chanjet.Common.{
  if◌then◌else◌, ℕ, ◌+◌, ◌%◌, ◌^◌, ◌≡◌, refl, not, List, [], ◌∷◌, Option, none, some, length, All,
  false, true,
}
use chanjet.Common.Count.{number_of}
use chanjet.Common.Int.{ℤ, pos, ◌+ℤ◌}
use chanjet.Collect.{Floating}
use chanjet.Common.Keyed.{value_at, assign}
use chanjet.Collect.Network.{Counter, collect_network, sum_of, last_named, collect_network_lem}
use chanjet.Collect.Disk.{
  PartitionStat, UsageStat, add_partitions, should_skip_partition, is_virtual, contains, IoCounters,
  Disks, skips_disk, rates, per_disk,
}
use chanjet.Collect.Disk.Partitions.{partitions_lem}
use chanjet.Collect.Disk.Rates.{Once, rates_of, per_disk_lem}

abbrev counters : List Counter
counters =
    ("eth0", record { bytes_sent = 5; bytes_recv = 7; packets_sent = 1; packets_recv = 2 })
    ∷ ("lo", record { bytes_sent = 10; bytes_recv = 10; packets_sent = 3; packets_recv = 3 })
    ∷ []

collect_network_lem_example :
    let n = collect_network counters in
    (n.total_bytes_sent % 2 ^ 64 ≡ sum_of (λ c. c.bytes_sent) counters % 2 ^ 64)
    × (n.total_bytes_recv % 2 ^ 64 ≡ sum_of (λ c. c.bytes_recv) counters % 2 ^ 64)
    × (n.total_packets_sent % 2 ^ 64 ≡ sum_of (λ c. c.packets_sent) counters % 2 ^ 64)
    × (n.total_packets_recv % 2 ^ 64 ≡ sum_of (λ c. c.packets_recv) counters % 2 ^ 64)
    × ((name : String) → value_at n.interface_stats name ≡ last_named name counters none)
collect_network_lem_example = collect_network_lem counters

abbrev partitions : List PartitionStat
partitions =
    record { device = "/dev/sda1"; mountpoint = "/"; fstype = "ext4"; opts = "rw" ∷ [] }
    ∷ record { device = "/dev/sda2"; mountpoint = "/data"; fstype = "ext4"; opts = "ro" ∷ [] }
    ∷ record { device = "tmpfs"; mountpoint = "/tmp"; fstype = "tmpfs"; opts = "rw" ∷ [] }
    ∷ record {
      device = "/dev/sdb1";
      mountpoint = "/mnt";
      fstype = "ext4";
      opts = "rw" ∷ "noatime" ∷ [];
    }
    ∷ []

abbrev use_of : String → Option (UsageStat ℕ)
use_of s =
    if s == "/"
    then some (record {
      total = 100;
      used = 40;
      free = 60;
      used_percent = 40;
      inodes_total = 9;
      inodes_used = 4;
      inodes_free = 5;
    })
    else none

partitions_lem_example :
    let (states, errors) = add_partitions use_of partitions ([], []) in
    All (λ s. s.read_only ≡ false) states
    × (length states + length errors ≡ number_of (λ p. not (should_skip_partition p)) partitions)
partitions_lem_example = partitions_lem use_of partitions

-- Two of the four are skipped.
two_kept : number_of (λ p. not (should_skip_partition p)) partitions ≡ 2
unfolding number_of should_skip_partition is_virtual contains
two_kept = refl

-- Whole numbers, of which no two are divided.
abbrev whole : Floating ℤ
whole = record { of_int = λ i. i; add = ◌+ℤ◌; mul = λ a b. a; div = λ a b. a; positive = λ a. true }

abbrev counters_of : ℕ → IoCounters
counters_of n = record {
  read_count = n;
  write_count = n;
  read_bytes = n;
  write_bytes = n;
  read_time = n;
  write_time = n;
  io_time = n;
}

abbrev current : Disks
current = ("sda", counters_of 7) ∷ ("nvme0n1", counters_of 3) ∷ ("sdb", counters_of 4) ∷ []

abbrev previous : Disks
previous = ("sda", counters_of 9) ∷ ("nvme0n1", counters_of 3) ∷ []

current-Once : Once current
unfolding value_at
current-Once = (refl, (refl, (refl, tt)))

per_disk_lem_example :
    value_at (per_disk whole (pos 60) previous current []) "sda"
    ≡ rates_of whole (pos 60) "sda" (value_at current "sda") (value_at previous "sda")
per_disk_lem_example = per_disk_lem whole (pos 60) previous current current-Once "sda"

-- "sda" was reset, so its 7 reads are new; "sdb" has no counters before, and "nvme0n1" is skipped.
rates_found :
    (map (λ s. s.read_count_per_sec) (value_at (per_disk whole (pos 60) previous current []) "sda")
      ≡ some (pos 7))
    × (value_at (per_disk whole (pos 60) previous current []) "sdb" ≡ none)
    × (value_at (per_disk whole (pos 60) previous current []) "nvme0n1" ≡ none)
unfolding per_disk value_at assign skips_disk contains rates
rates_found = (refl, refl, refl)
