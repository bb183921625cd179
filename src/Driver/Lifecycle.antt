-- ===== src/Driver/Lifecycle.antt =====
-- Loading and unloading: `DriverEntry`, `DriverUnload`, `CreateControlDevice`,
-- `DestroyControlDevice`, `StartPageScanner` and `StopPageScanner` of driver/deduper.cpp.
pub mod Device
pub mod Scanning
pub mod Loading
pub mod Unloading
use project_ram_crisis.Prelude.{
  ℕ, Bool, true, false, ◌||◌, Option, none, some, ◌==◌, if◌then◌else◌, ℤ,
}
use project_ram_crisis.Driver.Kernel.{Kernel}
use project_ram_crisis.Driver.Data.{CowPrivatePage, Status, success, kernel_failure}
use project_ram_crisis.Driver.State.{DriverState, nt_success}
use project_ram_crisis.Driver.State
use project_ram_crisis.Driver.Shutdown.{initialize_dedupe_driver, shutdown_dedupe_driver}

-- What the kernel answers: to IoCreateDevice, to the first and the second IoCreateSymbolicLink, to
-- PsCreateSystemThread and to ObReferenceObjectByHandle; and whether the scan that the thread is in
-- when it is to stop returns.
pub record Answers : Type 0 where
  pub create_device : Status
  pub create_link : Status
  pub create_link_again : Status
  pub create_thread : Status
  pub reference_thread : Status
  pub scan_returns : Bool

-- The driver with its device and its thread: `gDeviceObject` and `gScanThread` as whether they are
-- set, `gShutdownEvent`, and the objects that the kernel has, whether the driver knows them or not.
pub record DriverImage (k : Kernel) : Type 0 where
  pub driver : DriverState k
  pub device : Bool
  pub scan_thread : Bool
  pub shutdown_event : Bool
  pub device_exists : Bool
  pub link_exists : Bool
  pub thread_runs : Bool

-- STATUS_OBJECT_NAME_COLLISION and STATUS_OBJECT_NAME_EXISTS.
unfoldable pub is_collision : Status → Bool
is_collision (kernel_failure c) = c == 0xC0000035 || c == 0x40000000
is_collision _ = false

module _ (k : Kernel) (compare_cow_private_pages : CowPrivatePage → CowPrivatePage → ℤ) where
  abbrev pub Load : Type 0 → Type 0
  Load A = DriverImage k → Option (A × DriverImage k)

  infixl 5 ◌>>=◌ ◌>>◌
  abbrev pub ◌>>=◌ : {A B : Type 0} → Load A → (A → Load B) → Load B
  ◌>>=◌ m f s = elim (m s) [ none ↦ none | some (a, t) ↦ f a t ]

  abbrev pub ◌>>◌ : {B : Type 0} → Load (Unit {0}) → Load B → Load B
  m >> n = m >>= λ _. n

  abbrev pub pure : {A : Type 0} → A → Load A
  pure a s = some (a, s)

  -- An action on the driver's own state.
  unfoldable pub on_driver : {A : Type 0} → State.Action k A → Load A
  on_driver m s = elim (m s.driver) [
    | none ↦ none
    | some (a, t) ↦ some (a, record s { driver = t })
  ]

  unfoldable pub delete_device : Load (Unit {0})
  delete_device s = some (tt, record s { device = false; device_exists = false })

  unfoldable pub delete_link : Load (Unit {0})
  delete_link s = some (tt, record s { link_exists = false })

  -- IoCreateSymbolicLink, with its answer.
  unfoldable pub create_link : Status → Load Status
  create_link status s =
      if nt_success status then some (status, record s { link_exists = true }) else some (status, s)

  -- The error path behind the first IoCreateSymbolicLink.
  unfoldable pub retry_link : Answers → Status → Load Status
  unfolding is_collision delete_link create_link delete_device
  retry_link answers status =
      if is_collision status
      then (do
        delete_link
        again ← create_link answers.create_link_again
        if nt_success again then pure success else (delete_device >> pure again))
      else (delete_device >> pure status)

  unfoldable pub create_control_device : Answers → Load Status
  unfolding retry_link
  create_control_device answers =
      if nt_success answers.create_device
      then (do
        (λ s. some (tt, record s { device = true; device_exists = true }))
        status ← create_link answers.create_link
        if nt_success status then pure success else retry_link answers status)
      else pure answers.create_device

  unfoldable pub destroy_control_device : Load (Unit {0})
  unfolding delete_link delete_device
  destroy_control_device s = if s.device then (delete_link >> delete_device) s else some (tt, s)

  unfoldable pub start_page_scanner : Answers → Load Status
  start_page_scanner answers =
      if nt_success answers.create_thread
      then (do
        (λ s. some (tt, record s { thread_runs = true }))
        (λ s. some (
          answers.reference_thread,
          record s { scan_thread = nt_success answers.reference_thread },
        )))
      else pure answers.create_thread

  -- The thread ends at the next test of the event, if the scan that it is in returns; the wait for
  -- it never returns otherwise.
  unfoldable pub wait_for_thread : Answers → Load (Unit {0})
  wait_for_thread answers s =
      if answers.scan_returns
      then some (tt, record s { thread_runs = false; scan_thread = false })
      else none

  unfoldable pub stop_page_scanner : Answers → Load (Unit {0})
  unfolding wait_for_thread
  stop_page_scanner answers = do
    (λ s. some (tt, record s { shutdown_event = true }))
    (λ s. if s.scan_thread then wait_for_thread answers s else some (tt, s))

  -- `InitializeDedupeDriver`, which clears the event too.
  unfoldable pub initialize : Load Status
  unfolding on_driver initialize_dedupe_driver
  initialize = do
    (λ s. some (tt, record s { shutdown_event = false }))
    on_driver (initialize_dedupe_driver k)

  unfoldable pub shutdown : Load (Unit {0})
  unfolding on_driver
  shutdown = on_driver (shutdown_dedupe_driver k compare_cow_private_pages)

  -- The last step of `DriverEntry`.
  unfoldable pub start_scanning : Answers → Load Status
  unfolding start_page_scanner destroy_control_device shutdown
  start_scanning answers = do
    status ← start_page_scanner answers
    if nt_success status
        then pure success
        else (destroy_control_device >> (shutdown >> pure status))

  -- `DriverEntry` from the creation of the device on.
  unfoldable pub create_and_scan : Answers → Load Status
  unfolding create_control_device shutdown start_scanning
  create_and_scan answers = do
    status ← create_control_device answers
    if nt_success status then start_scanning answers else (shutdown >> pure status)

  -- `DriverEntry` behind the initialization.
  unfoldable pub after_initialize : Answers → Status → Load Status
  unfolding create_and_scan
  after_initialize answers status =
      if nt_success status then create_and_scan answers else pure status

  unfoldable pub driver_entry : Answers → Load Status
  unfolding initialize after_initialize
  driver_entry answers = initialize >>= after_initialize answers

  unfoldable pub driver_unload : Answers → Load (Unit {0})
  unfolding stop_page_scanner destroy_control_device shutdown
  driver_unload answers = stop_page_scanner answers >> (destroy_control_device >> shutdown)
