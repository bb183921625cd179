-- ===== src/User/DriverBenchmark.antt =====
-- The benchmark of the driver, `wmain` of user/driver_benchmark.cpp, but for what it prints. The
-- handle's events are the controller's.
pub mod Calls
pub mod Refused
use project_ram_crisis.Prelude.{
  ℕ, zero, suc, Bool, true, false, ◌&&◌, List, [], ◌∷◌, leb, if◌then◌else◌,
}
use project_ram_crisis.Driver.Dispatch.{ctl_code}
use project_ram_crisis.User.Controller.{
  IoCall, IoAnswer, Event, called, Session, leave, opened_session, untouched,
}

-- The codes as user/driver_benchmark.cpp defines them, with FILE_ANY_ACCESS, which is 0.
abbrev pub query_stats_code : ℕ
query_stats_code = ctl_code 0x802 0

abbrev pub query_health_code : ℕ
query_health_code = ctl_code 0x804 0

-- `iterations`.
abbrev pub iterations : ℕ
iterations = 50

-- sizeof(DedupeDriverStats) is 12, and of DedupeDriverHealth 28.
abbrev pub stats_call : IoCall
stats_call = record { code = query_stats_code; input = []; output_size = 12 }

abbrev pub health_call : IoCall
health_call = record { code = query_health_code; input = []; output_size = 28 }

-- What the program takes from outside: the path that the compiler makes of its literal, in which
-- `\R` is no escape of C++, the paths that CreateFileW opens, and what DeviceIoControl answers behind
-- the events so far.
pub record Outside : Type 0 where
  pub literal_path : List ℕ
  pub opens : List ℕ → Bool
  pub answer : List Event → IoCall → IoAnswer

module _ (o : Outside) where
  -- `devicePath`, by the arguments behind the program's name.
  unfoldable pub device_path : List (List ℕ) → List ℕ
  device_path [] = o.literal_path
  device_path (path ∷ rest) = path

  -- `runQuery`.
  unfoldable pub run_query : IoCall → Session → Bool × Session
  run_query c s =
      let r = o.answer s.events c in
      (r.succeeded && leb c.output_size r.bytes_returned, record s { events = called c ∷ s.events })

  -- `benchmarkQuery`, with the rounds left first.
  unfoldable pub benchmark_query : ℕ → IoCall → Session → Bool × Session
  unfolding run_query
  benchmark_query zero c s = (true, s)
  benchmark_query (suc rounds) c s =
      let (answered, t) = run_query c s in
      let rest = benchmark_query rounds c t in if answered then rest else (false, t)

  -- `wmain` with the device open.
  unfoldable pub benchmark : Session → ℕ × Session
  unfolding benchmark_query leave
  benchmark s =
      let (stats_done, t) = benchmark_query iterations stats_call s in
      let (health_done, u) = benchmark_query iterations health_call t in
      if stats_done then (if health_done then leave 0 u else leave 1 u) else leave 1 t

  unfoldable pub benchmark_wmain : List (List ℕ) → ℕ × Session
  unfolding device_path benchmark
  benchmark_wmain arguments =
      if o.opens (device_path arguments) then benchmark opened_session else (1, untouched)
