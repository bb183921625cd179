-- ===== src/User/DriverBenchmark/Refused.antt =====
-- The driver's benchmark against the driver: the two files define their control codes apart.
use project_ram_crisis.Prelude.{
  ℕ, zero, suc, ◌≡◌, ◌≢◌, ◌⊎◌, inl, inr, refl, sym, ap, ◌∙◌, Bool, true, false, List, [], ◌∷◌, some,
  arith, Bool-cases,
}
use mathlib.Core.Bool.{false≢true}
use mathlib.Core.Option.{some-injective}
use project_ram_crisis.Driver.Kernel.{Kernel}
use project_ram_crisis.Driver.Data.{Status, success, invalid_device_request}
use project_ram_crisis.Driver.State.{DriverState, Action}
use project_ram_crisis.Driver.Dispatch.{ControlRequest, ControlReply, device_control}
use project_ram_crisis.User.Controller.{IoCall, Event, opened, closed, called}
use project_ram_crisis.User.Controller.Refused.{device_control-refuses}
use project_ram_crisis.User.Controller.Handle.{queries_stats}
use project_ram_crisis.User.DriverBenchmark.{Outside, stats_call, benchmark_wmain, iterations}
use project_ram_crisis.User.DriverBenchmark.Calls.{
  is_full, Rounds, all_full, not_full, IsEnd, not_opened, stats_failed, health_failed, all_answered,
  benchmark_wmain-IsEnd, after_calls,
}

module _ (k : Kernel) (allocate_private_copy : ℕ → ℕ → Action k Status) where
  -- Where DeviceIoControl succeeds, the driver has completed a request with this code, and with
  -- STATUS_SUCCESS.
  abbrev pub Relays : Outside → Type 0
  Relays o =
      (events : List Event) (c : IoCall)
      → (o.answer events c).succeeded ≡ true
      → (room : Bool) × (r : ControlRequest) × (s t : DriverState k) × (reply : ControlReply)
        × (r.control_code ≡ c.code)
        × (device_control k allocate_private_copy room r s ≡ some (reply, t))
        × (reply.status ≡ success)

  stats_call-not_full :
      (o : Outside) (events : List Event) → Relays o → is_full o events stats_call ≡ false
  stats_call-not_full o events relays = elim (Bool-cases (o.answer events stats_call).succeeded) [
    | inr failed ↦ simp failed
    | inl succeeded ↦
        let (room, r, s, t, reply, code, run, good) = relays events stats_call succeeded in
        absurd (
          differ (
            ap (λ (q : ControlReply × DriverState k). q.0.status)
              (some-injective _ _ (
                sym (
                  device_control-refuses k allocate_private_copy room r stats_call.code s code
                    queries_stats)
                ∙ run))
            ∙ good))
  ]
    where
      differ : invalid_device_request ≢ success
      differ e = cc

  -- No full round of calls for the statistics.
  never_full :
      (o : Outside) (n : ℕ) → Relays o → ¬ Rounds o iterations stats_call (opened ∷ []) true n
  unfolding after_calls
  never_full o _ relays (all_full all) =
      false≢true (sym (stats_call-not_full o (opened ∷ []) relays) ∙ all 0 (omega arith))

  only_once :
      (o : Outside) (n : ℕ)
      → Relays o
      → Rounds o iterations stats_call (opened ∷ []) false n
      → after_calls n stats_call (opened ∷ []) ≡ called stats_call ∷ opened ∷ []
  unfolding after_calls
  only_once o _ relays (not_full zero low all last) = refl
  only_once o _ relays (not_full (suc n) low all last) =
      absurd (false≢true (sym (stats_call-not_full o (opened ∷ []) relays) ∙ all 0 (omega arith)))

  IsEnd-fails :
      (o : Outside) (arguments : List (List ℕ)) (exit_code : ℕ) (events : List Event)
      → Relays o
      → IsEnd o arguments exit_code events
      → (exit_code ≡ 1) × ((events ≡ []) ⊎ (events ≡ closed ∷ called stats_call ∷ opened ∷ []))
  IsEnd-fails o arguments _ _ relays (not_opened shut) = (refl, inl refl)
  IsEnd-fails o arguments _ _ relays (stats_failed n opens stats) =
      (refl, inr (ap (λ (l : List Event). closed ∷ l) (only_once o n relays stats)))
  IsEnd-fails o arguments _ _ relays (health_failed n m opens stats health) =
      absurd (never_full o m relays stats)
  IsEnd-fails o arguments _ _ relays (all_answered n m opens stats health) =
      absurd (never_full o m relays stats)

  -- If DeviceIoControl succeeds only on requests that the driver completes with STATUS_SUCCESS, the
  -- driver's benchmark exits with 1, whatever its arguments: it does not open the device, or it
  -- stops at its first call.
  pub benchmark_wmain-fails :
      (o : Outside) (arguments : List (List ℕ))
      → Relays o
      → ((benchmark_wmain o arguments).0 ≡ 1)
        × (((benchmark_wmain o arguments).1.events ≡ [])
            ⊎ ((benchmark_wmain o arguments).1.events ≡ closed ∷ called stats_call ∷ opened ∷ []))
  benchmark_wmain-fails o arguments relays =
      IsEnd-fails o arguments _ _ relays (benchmark_wmain-IsEnd o arguments)
