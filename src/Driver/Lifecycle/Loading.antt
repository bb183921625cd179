-- ===== src/Driver/Lifecycle/Loading.antt =====
-- What a load leaves behind, whether it succeeds or not.
use project_ram_crisis.Prelude.{
  ◌≡◌, inl, inr, refl, sym, ap, ◌∙◌, true, false, Option, none, some, ℤ,
}
use project_ram_crisis.Driver.Kernel.{Kernel}
use project_ram_crisis.Driver.Data.{CowPrivatePage, Status, success}
use project_ram_crisis.Driver.State.{DriverState}
use project_ram_crisis.Driver.State.Lock.{IsFree}
use project_ram_crisis.Driver.Shutdown.{initialize_dedupe_driver}
use project_ram_crisis.Driver.Shutdown.Laws.{IsEmpty, initialize_dedupe_driver-ready}
use project_ram_crisis.Driver.Lifecycle.{
  Answers, DriverImage, on_driver, create_control_device, initialize, shutdown, create_and_scan,
  driver_entry, after_initialize,
}
use mathlib.Core.Bool.{false≢true}
use project_ram_crisis.Driver.Lifecycle.Device.{IsUnloaded, step, create_control_device-Retried}
use project_ram_crisis.Driver.Lifecycle.Scanning.{Outcome, shutdown_lem, scanning}

module _ (k : Kernel) (compare_cow_private_pages : CowPrivatePage → CowPrivatePage → ℤ) where
  -- What is there when the device is created.
  record IsInitialized (s : DriverImage k) : Type 0 where
    unloaded : IsUnloaded k compare_cow_private_pages s
    not_stopping : s.shutdown_event ≡ false
    free : IsFree s.driver
    empty : IsEmpty k s.driver.context
    active : s.driver.cow_interception_active ≡ true

  creating :
      (answers : Answers) (s : DriverImage k)
      → IsInitialized s
      → Outcome k compare_cow_private_pages answers
          (create_and_scan k compare_cow_private_pages answers s)
  unfolding create_and_scan
  creating answers s ready =
      let (status, d, e, l, run, outcome) =
        create_control_device-Retried k compare_cow_private_pages answers s ready.unloaded in
      let t = record s { device = d; device_exists = e; link_exists = l } in
      elim outcome [
        | inl (done, device, device_exists, link_exists) ↦
            let (final, u, scanned, result) =
              scanning k compare_cow_private_pages answers t (record {
                device = device;
                device_exists = device_exists;
                link_exists = link_exists;
                scan_thread = ready.unloaded.scan_thread;
                thread_runs = ready.unloaded.thread_runs;
                not_stopping = ready.not_stopping;
                free = ready.free;
                empty = ready.empty;
                active = ready.active;
              }) in
            (
              final,
              u,
              step k compare_cow_private_pages
                    (create_control_device k compare_cow_private_pages answers) _ run
                  ∙ rw done scanned,
              result,
            )
        | inr (failed, device, device_exists) ↦
            let (driver, down, empty, off) =
              shutdown_lem k compare_cow_private_pages t ready.empty in
            (
              status,
              record t { driver = driver },
              step k compare_cow_private_pages
                    (create_control_device k compare_cow_private_pages answers) _ run
                  ∙ rw failed (
                      step k compare_cow_private_pages (shutdown k compare_cow_private_pages) _
                        down),
              inr (
                failed,
                record {
                  device = device;
                  device_exists = device_exists;
                  scan_thread = ready.unloaded.scan_thread;
                  empty = empty;
                  off = off;
                  thread = λ runs. absurd (false≢true (sym ready.unloaded.thread_runs ∙ runs));
                },
              ),
            )
      ]

  initialize-some :
      (s : DriverImage k) (t : DriverState k)
      → initialize_dedupe_driver k s.driver ≡ some (success, t)
      → initialize k compare_cow_private_pages s
        ≡ some (success, record s { shutdown_event = false; driver = t })
  unfolding initialize on_driver
  initialize-some s t run =
      ap
        (λ (r : Option (Status × DriverState k)).
          let put : Option (Status × DriverImage k) = elim r [
            | none ↦ none
            | some (a, u) ↦ some (a, record s { shutdown_event = false; driver = u })
          ] in
          put)
        run

  -- Loading a driver that is not loaded returns, whatever the kernel answers. It succeeds with the device behind its link, the thread running and
  -- referenced, the tables empty, the mutex free and the interception active; or it fails with no
  -- device, no thread that the driver knows of, the tables empty and the interception off, and a
  -- thread runs then only if it was created and could not be referenced.
  pub driver_entry-Outcome :
      (answers : Answers) (s : DriverImage k)
      → IsUnloaded k compare_cow_private_pages s
      → Outcome k compare_cow_private_pages answers
          (driver_entry k compare_cow_private_pages answers s)
  unfolding driver_entry
  driver_entry-Outcome answers s unloaded =
      let (t, run, free, empty, active, _) = initialize_dedupe_driver-ready k s.driver in
      let (status, u, created, outcome) =
        creating answers (record s { shutdown_event = false; driver = t })
          (record {
            unloaded = record {
              device = unloaded.device;
              scan_thread = unloaded.scan_thread;
              device_exists = unloaded.device_exists;
              thread_runs = unloaded.thread_runs;
            };
            not_stopping = refl;
            free = free;
            empty = empty;
            active = active;
          }) in
      (
        status,
        u,
        step k compare_cow_private_pages (initialize k compare_cow_private_pages)
              (after_initialize k compare_cow_private_pages answers) {s = s}
              (initialize-some s t run)
            ∙ created,
        outcome,
      )
