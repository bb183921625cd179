-- ===== src/Driver/Lifecycle/Scanning.antt =====
-- The last step of a load, and what it leaves behind.
use project_ram_crisis.Prelude.{
  ◌≡◌, ◌⊎◌, inl, inr, refl, sym, ◌∙◌, Bool, true, false, Option, some, ℤ, Bool-cases,
}
use project_ram_crisis.Driver.Kernel.{Kernel}
use project_ram_crisis.Driver.Data.{CowPrivatePage, Status, success}
use project_ram_crisis.Driver.State.{DriverState, nt_success}
use project_ram_crisis.Driver.State.Lock.{IsFree}
use project_ram_crisis.Driver.Shutdown.Laws.{IsEmpty, IsOff, shutdown_dedupe_driver-IsEmpty}
use project_ram_crisis.Driver.Lifecycle.{
  Answers, DriverImage, on_driver, delete_device, delete_link, destroy_control_device,
  start_page_scanner, shutdown, start_scanning,
}
use mathlib.Core.Bool.{false≢true}
use project_ram_crisis.Driver.Lifecycle.Device.{step}

module _ (k : Kernel) (compare_cow_private_pages : CowPrivatePage → CowPrivatePage → ℤ) where
  -- A device behind its link, a thread that the driver waits for, empty tables, the mutex free and
  -- the interception active.
  pub record IsRunning (s : DriverImage k) : Type 0 where
    pub device : s.device ≡ true
    pub device_exists : s.device_exists ≡ true
    pub link_exists : s.link_exists ≡ true
    pub scan_thread : s.scan_thread ≡ true
    pub thread_runs : s.thread_runs ≡ true
    pub not_stopping : s.shutdown_event ≡ false
    pub free : IsFree s.driver
    pub empty : IsEmpty k s.driver.context
    pub active : s.driver.cow_interception_active ≡ true

  pub shutdown_lem :
      (s : DriverImage k)
      → IsEmpty k s.driver.context
      → (t : DriverState k) × (shutdown k compare_cow_private_pages s
          ≡ some (tt, record s { driver = t }))
        × IsEmpty k t.context
        × IsOff k t
  unfolding shutdown on_driver
  shutdown_lem s empty =
      let (t, run, empty', off) =
        shutdown_dedupe_driver-IsEmpty k compare_cow_private_pages s.driver empty in
      (t, rw (run, on_driver), empty', off)

  -- A load that failed: no device, no thread that the driver knows of, empty tables and the
  -- interception off. A thread runs only if it was created and could not be referenced.
  pub record HasFailed (answers : Answers) (t : DriverImage k) : Type 0 where
    pub device : t.device ≡ false
    pub device_exists : t.device_exists ≡ false
    pub scan_thread : t.scan_thread ≡ false
    pub empty : IsEmpty k t.driver.context
    pub off : IsOff k t.driver
    pub thread :
        t.thread_runs ≡ true
        → (nt_success answers.create_thread ≡ true) × (nt_success answers.reference_thread ≡ false)

  -- What is there when the scanner starts.
  pub record IsCreated (s : DriverImage k) : Type 0 where
    pub device : s.device ≡ true
    pub device_exists : s.device_exists ≡ true
    pub link_exists : s.link_exists ≡ true
    pub scan_thread : s.scan_thread ≡ false
    pub thread_runs : s.thread_runs ≡ false
    pub not_stopping : s.shutdown_event ≡ false
    pub free : IsFree s.driver
    pub empty : IsEmpty k s.driver.context
    pub active : s.driver.cow_interception_active ≡ true

  -- The outcome of a load.
  abbrev pub Outcome : Answers → Option (Status × DriverImage k) → Type 0
  Outcome answers r =
      (status : Status) × (t : DriverImage k) × (r ≡ some (status, t))
      × (((status ≡ success) × IsRunning t) ⊎ ((nt_success status ≡ false) × HasFailed answers t))

  pub destroy-created :
      (s : DriverImage k)
      → s.device ≡ true
      → destroy_control_device k compare_cow_private_pages s
        ≡ some (tt, record s { device = false; device_exists = false; link_exists = false })
  unfolding destroy_control_device delete_link delete_device
  destroy-created s device = simp device

  start_page_scanner-none :
      (answers : Answers) (s : DriverImage k)
      → nt_success answers.create_thread ≡ false
      → start_page_scanner k compare_cow_private_pages answers s ≡ some (answers.create_thread, s)
  unfolding start_page_scanner
  start_page_scanner-none answers s none_created = simp none_created

  start_page_scanner-some :
      (answers : Answers) (s : DriverImage k) (referenced : Bool)
      → nt_success answers.create_thread ≡ true
      → nt_success answers.reference_thread ≡ referenced
      → start_page_scanner k compare_cow_private_pages answers s
        ≡ some (answers.reference_thread, record s { thread_runs = true; scan_thread = referenced })
  unfolding start_page_scanner
  start_page_scanner-some answers s referenced created e = simp (created, e)

  -- The error path of the last step.
  undone :
      (answers : Answers) (status : Status) (s t : DriverImage k)
      → nt_success status ≡ false
      → start_page_scanner k compare_cow_private_pages answers s ≡ some (status, t)
      → t.device ≡ true
      → t.scan_thread ≡ false
      → IsEmpty k t.driver.context
      → (t.thread_runs ≡ true
          → (nt_success answers.create_thread ≡ true)
            × (nt_success answers.reference_thread ≡ false))
      → Outcome answers (start_scanning k compare_cow_private_pages answers s)
  unfolding start_scanning
  undone answers status s t failed run device scan_thread tables thread =
      let gone = record t { device = false; device_exists = false; link_exists = false } in
      let (driver, down, empty, off) = shutdown_lem gone tables in
      (
        status,
        record gone { driver = driver },
        step k compare_cow_private_pages (start_page_scanner k compare_cow_private_pages answers) _
              run
            ∙ rw failed (
                step k compare_cow_private_pages
                  (destroy_control_device k compare_cow_private_pages) _ (destroy-created t device)
                ∙ step k compare_cow_private_pages (shutdown k compare_cow_private_pages) _ down),
        inr (
          failed,
          record {
            device = refl;
            device_exists = refl;
            scan_thread = scan_thread;
            empty = empty;
            off = off;
            thread = thread;
          },
        ),
      )

  pub scanning :
      (answers : Answers) (s : DriverImage k)
      → IsCreated s
      → Outcome answers (start_scanning k compare_cow_private_pages answers s)
  unfolding start_scanning
  scanning answers s created = elim (Bool-cases (nt_success answers.create_thread)) [
    | inr none_created ↦
        undone answers answers.create_thread s s none_created
          (start_page_scanner-none answers s none_created) created.device created.scan_thread
          created.empty (λ runs. absurd (false≢true (sym created.thread_runs ∙ runs)))
    | inl thread ↦ elim (Bool-cases (nt_success answers.reference_thread)) [
      | inr unreferenced ↦
          undone answers answers.reference_thread s
            (record s { thread_runs = true; scan_thread = false }) unreferenced
            (start_page_scanner-some answers s false thread unreferenced) created.device refl
            created.empty (λ _. (thread, unreferenced))
      | inl referenced ↦ (
        success,
        record s { thread_runs = true; scan_thread = true },
        step k compare_cow_private_pages (start_page_scanner k compare_cow_private_pages answers) _
              (start_page_scanner-some answers s true thread referenced)
            ∙ rw referenced,
        inl (
          refl,
          record {
            device = created.device;
            device_exists = created.device_exists;
            link_exists = created.link_exists;
            scan_thread = refl;
            thread_runs = refl;
            not_stopping = created.not_stopping;
            free = created.free;
            empty = created.empty;
            active = created.active;
          },
        ),
      )
    ]
  ]
