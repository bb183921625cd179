-- ===== src/Driver/Lifecycle/Unloading.antt =====
-- Unloading.
use project_ram_crisis.Prelude.{
  ℕ, ◌≡◌, refl, sym, subst, ◌∙◌, true, false, List, ◌∷◌, map, length, none, some, ℤ,
}
use project_ram_crisis.Driver.Kernel.{Kernel, Differs}
use project_ram_crisis.Driver.Data.{CowPrivatePage, ProcessOptInEntry}
use project_ram_crisis.Driver.Compare.{compare_process_entries}
use project_ram_crisis.Driver.Copies.{AllAre}
use project_ram_crisis.Driver.Registry.{process_ids, opt_in_entry}
use project_ram_crisis.Driver.Registry.Laws.{AllAre-Differs}
use project_ram_crisis.Driver.Shutdown.{empty_table, emptied}
use project_ram_crisis.Driver.Shutdown.Laws.{
  IsEmpty, IsOff, empty_table-none, shutdown_dedupe_driver-none,
}
use project_ram_crisis.Driver.Lifecycle.{
  Answers, DriverImage, stop_page_scanner, wait_for_thread, destroy_control_device, driver_unload,
  shutdown, on_driver,
}
use project_ram_crisis.Driver.Lifecycle.Device.{step}
use project_ram_crisis.Driver.Lifecycle.Scanning.{shutdown_lem, destroy-created}

module _ (k : Kernel) (compare_cow_private_pages : CowPrivatePage → CowPrivatePage → ℤ) where
  -- Nothing of the driver is left.
  pub record IsGone (t : DriverImage k) : Type 0 where
    pub device : t.device ≡ false
    pub device_exists : t.device_exists ≡ false
    pub link_exists : t.link_exists ≡ false
    pub scan_thread : t.scan_thread ≡ false
    pub thread_runs : t.thread_runs ≡ false
    pub empty : IsEmpty k t.driver.context
    pub off : IsOff k t.driver

  stop_page_scanner-some :
      (answers : Answers) (s : DriverImage k)
      → s.scan_thread ≡ true
      → answers.scan_returns ≡ true
      → stop_page_scanner k compare_cow_private_pages answers s
        ≡ some (tt, record s { shutdown_event = true; thread_runs = false; scan_thread = false })
  unfolding stop_page_scanner wait_for_thread
  stop_page_scanner-some answers s thread returns = simp (thread, returns)

  -- A driver with its device and its thread, whose scan returns and whose tables are empty, is
  -- unloaded with nothing left: no device, no link, no thread, no entry in a table.
  pub driver_unload-IsGone :
      (answers : Answers) (s : DriverImage k)
      → IsEmpty k s.driver.context
      → s.device ≡ true
      → s.scan_thread ≡ true
      → answers.scan_returns ≡ true
      → (t : DriverImage k) × (driver_unload k compare_cow_private_pages answers s ≡ some (tt, t))
        × IsGone t
  unfolding driver_unload
  driver_unload-IsGone answers s tables device thread returns =
      let stopped = record s { shutdown_event = true; thread_runs = false; scan_thread = false } in
      let gone = record stopped { device = false; device_exists = false; link_exists = false } in
      let (driver, down, empty, off) = shutdown_lem k compare_cow_private_pages gone tables in
      (
        record gone { driver = driver },
        step k compare_cow_private_pages (stop_page_scanner k compare_cow_private_pages answers) _
              {s = s} (stop_page_scanner-some answers s thread returns)
            ∙ step k compare_cow_private_pages (destroy_control_device k compare_cow_private_pages)
                _ {s = stopped} (destroy-created k compare_cow_private_pages stopped device)
            ∙ down,
        record {
          device = refl;
          device_exists = refl;
          link_exists = refl;
          scan_thread = refl;
          thread_runs = refl;
          empty = empty;
          off = off;
        },
      )

  shutdown-none :
      (s : DriverImage k)
      → emptied k compare_process_entries s.driver.context.process_table ≡ none
      → shutdown k compare_cow_private_pages s ≡ none
  unfolding shutdown on_driver
  shutdown-none s stuck =
      rw (shutdown_dedupe_driver-none k compare_cow_private_pages s.driver stuck, on_driver)

  -- A driver with its device and its thread, whose scan returns, and with a process opted in, once or
  -- more, and no other, is never unloaded: the loop over the process table does not end after any
  -- number of rounds.
  pub driver_unload-none :
      (answers : Answers) (s : DriverImage k) (process_id : ℕ) (entry : ProcessOptInEntry)
      (rest : List ProcessOptInEntry)
      → s.device ≡ true
      → s.scan_thread ≡ true
      → answers.scan_returns ≡ true
      → k.tables.elements s.driver.context.process_table ≡ entry ∷ rest
      → AllAre process_id (process_ids k s.driver)
      → ((fuel : ℕ)
          → empty_table k compare_process_entries fuel s.driver.context.process_table ≡ none)
        × (driver_unload k compare_cow_private_pages answers s ≡ none)
  unfolding driver_unload emptied
  driver_unload-none answers s process_id entry rest device thread returns here all =
      let stopped = record s { shutdown_event = true; thread_runs = false; scan_thread = false } in
      let gone = record stopped { device = false; device_exists = false; link_exists = false } in
      let (same, _) : AllAre process_id (map (λ e. e.process_id) (entry ∷ rest)) =
        subst (λ es. AllAre process_id (map (λ (e : ProcessOptInEntry). e.process_id) es)) here
          all in
      let entry_differs : Differs compare_process_entries entry
          (k.tables.elements s.driver.context.process_table) =
        subst
          (λ n.
            Differs compare_process_entries (opt_in_entry n)
              (k.tables.elements s.driver.context.process_table))
          (sym same) (AllAre-Differs process_id _ all) in
      (
        (λ fuel.
            empty_table-none k compare_process_entries fuel entry rest
              s.driver.context.process_table here entry_differs),
        step k compare_cow_private_pages (stop_page_scanner k compare_cow_private_pages answers) _
              {s = s} (stop_page_scanner-some answers s thread returns)
            ∙ step k compare_cow_private_pages (destroy_control_device k compare_cow_private_pages)
                _ {s = stopped} (destroy-created k compare_cow_private_pages stopped device)
            ∙ shutdown-none gone (
                empty_table-none k compare_process_entries
                  (length (k.tables.elements s.driver.context.process_table)) entry rest
                  s.driver.context.process_table here entry_differs),
      )
