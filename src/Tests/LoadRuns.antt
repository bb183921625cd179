-- ===== src/Tests/LoadRuns.antt =====
-- The theorems of the load and the unload.
use project_ram_crisis.Prelude.{ℕ, ◌≡◌, refl, true, false, [], ◌∷◌, none, some, ℤ}
use project_ram_crisis.Driver.Data.{CowPrivatePage, success, kernel_failure}
use project_ram_crisis.Driver.Shutdown.{empty_table}
use project_ram_crisis.Driver.Lifecycle.{Answers, DriverImage, driver_entry, driver_unload}
use project_ram_crisis.Driver.Lifecycle.Scanning.{Outcome}
use project_ram_crisis.Driver.Lifecycle.Loading.{driver_entry-Outcome}
use project_ram_crisis.Driver.Lifecycle.Unloading.{IsGone, driver_unload-IsGone, driver_unload-none}
use project_ram_crisis.Driver.Compare.{compare_cow_protected_pages, compare_process_entries}
use project_ram_crisis.Tests.Machine.{machine, quiet}

abbrev by_frame : CowPrivatePage → CowPrivatePage → ℤ
by_frame a b =
    compare_cow_protected_pages (record { page_frame_number = a.page_frame_number })
      (record { page_frame_number = b.page_frame_number })

-- The first link collides with one that is there, and the second is made.
abbrev answers : Answers
answers = record {
  create_device = success;
  create_link = kernel_failure 0xC0000035;
  create_link_again = success;
  create_thread = success;
  reference_thread = success;
  scan_returns = true;
}

abbrev unloaded : DriverImage machine
unloaded = record {
  driver = quiet;
  device = false;
  scan_thread = false;
  shutdown_event = false;
  device_exists = false;
  link_exists = true;
  thread_runs = false;
}

-- The driver with its tables empty.
abbrev loaded : DriverImage machine
loaded = record unloaded {
  driver = record quiet {
    context = record quiet.context { process_table = []; cow_protected_table = [] };
  };
  device = true;
  scan_thread = true;
  device_exists = true;
  thread_runs = true;
}

driver_entry-Outcome_example :
    Outcome machine by_frame answers (driver_entry machine by_frame answers unloaded)
driver_entry-Outcome_example =
    driver_entry-Outcome machine by_frame answers unloaded
      (record { device = refl; scan_thread = refl; device_exists = refl; thread_runs = refl })

driver_unload-IsGone_example :
    (t : DriverImage machine) × (driver_unload machine by_frame answers loaded ≡ some (tt, t))
    × IsGone machine by_frame t
driver_unload-IsGone_example =
    driver_unload-IsGone machine by_frame answers loaded
      (record { processes = refl; pages = refl; groups = refl; protected = refl; private = refl })
      refl refl refl

-- The driver with process 8 opted in.
abbrev opted : DriverImage machine
opted = record loaded { driver = quiet }

driver_unload-none_example :
    ((fuel : ℕ)
      → empty_table machine compare_process_entries fuel (record { process_id = 8 } ∷ []) ≡ none)
    × (driver_unload machine by_frame answers opted ≡ none)
driver_unload-none_example =
    driver_unload-none machine by_frame answers opted 8 (record { process_id = 8 }) [] refl refl
      refl refl (refl, tt)
