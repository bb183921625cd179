-- ===== src/Tests/BenchmarkRuns.antt =====
-- The benchmark of the driver, for a device that answers three calls and one that answers none.
use project_ram_crisis.Prelude.{ℕ, ◌≡◌, ◌⊎◌, Bool, true, false, List, [], ◌∷◌, ltb, length}
use mathlib.Core.Bool.{false≢true}
use project_ram_crisis.Driver.Data.{Status, success}
use project_ram_crisis.Driver.Policy.{codes}
use project_ram_crisis.Driver.State.{Action, pure}
use project_ram_crisis.User.Controller.{Event, opened, closed, called}
use project_ram_crisis.User.DriverBenchmark.{Outside, stats_call, benchmark_wmain}
use project_ram_crisis.User.DriverBenchmark.Calls.{IsEnd, benchmark_wmain-IsEnd}
use project_ram_crisis.User.DriverBenchmark.Refused.{Relays, benchmark_wmain-fails}
use project_ram_crisis.Tests.Machine.{machine}

abbrev answered_by : (List Event → Bool) → Outside
answered_by answers = record {
  literal_path = codes "RamDedupe";
  opens = λ path. true;
  answer = λ events c. record {
    succeeded = answers events;
    error = 0;
    bytes_returned = c.output_size;
    words = [];
  };
}

-- Fewer than four events so far.
abbrev three_answers : Outside
three_answers = answered_by (λ events. ltb (length events) 4)

abbrev no_answer : Outside
no_answer = answered_by (λ events. false)

benchmark_wmain-IsEnd_example :
    IsEnd three_answers []
      (benchmark_wmain three_answers []).0
      (benchmark_wmain three_answers []).1.events
benchmark_wmain-IsEnd_example = benchmark_wmain-IsEnd three_answers []

abbrev no_copy : ℕ → ℕ → Action machine Status
no_copy pfn address = pure success

no_answer-Relays : Relays machine no_copy no_answer
no_answer-Relays events c e = absurd (false≢true e)

benchmark_wmain-fails_example :
    ((benchmark_wmain no_answer []).0 ≡ 1)
    × (((benchmark_wmain no_answer []).1.events ≡ [])
        ⊎ ((benchmark_wmain no_answer []).1.events ≡ closed ∷ called stats_call ∷ opened ∷ []))
benchmark_wmain-fails_example = benchmark_wmain-fails machine no_copy no_answer [] no_answer-Relays
