-- ===== src/User/Simulator/Report.antt =====
-- What the simulator's `main` prints at its end, from the processes and the counters.
use project_ram_crisis.Prelude.{ℕ, ◌/◌, Bool, List, map, length}
use project_ram_crisis.Engine.Data.{MemoryRegion, Stats}
use project_ram_crisis.User.Process.{ProcessState}
use project_ram_crisis.User.Simulator.{count_shared_pages}

-- The line of a region.
pub record RegionLine : Type 0 where
  pub name : List ℕ
  pub pages : ℕ
  pub shared : ℕ

-- The lines of a process.
pub record ProcessLines : Type 0 where
  pub pid : ℕ
  pub name : List ℕ
  pub opt_in : Bool
  pub regions : List RegionLine

-- What `main` prints; `kilobytes_saved` is `bytesSaved / 1024`.
pub record SimulatorReport : Type 0 where
  pub processes : List ProcessLines
  pub pages_scanned : ℕ
  pub unique_pages : ℕ
  pub duplicate_pages : ℕ
  pub collision_probes : ℕ
  pub write_cow_events : ℕ
  pub kilobytes_saved : ℕ

abbrev pub region_line : MemoryRegion → RegionLine
region_line region = record {
  name = region.name;
  pages = length region.pages;
  shared = count_shared_pages region;
}

abbrev pub process_lines : ProcessState → ProcessLines
process_lines process = record {
  pid = process.pid;
  name = process.name;
  opt_in = process.opt_in;
  regions = map region_line process.regions;
}

unfoldable pub simulator_report : List ProcessState → Stats → SimulatorReport
simulator_report processes stats = record {
  processes = map process_lines processes;
  pages_scanned = stats.pages_scanned;
  unique_pages = stats.unique_pages;
  duplicate_pages = stats.duplicate_pages;
  collision_probes = stats.collision_probes;
  write_cow_events = stats.write_cow_events;
  kilobytes_saved = stats.bytes_saved / 1024;
}
