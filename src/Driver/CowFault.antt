-- ===== src/Driver/CowFault.antt =====
-- `CowFaultCallback` of driver/deduper.cpp.
pub mod Laws
use project_ram_crisis.Prelude.{
  ℕ, ◌/◌, ◌^◌, Bool, true, false, not, Option, none, some, ◌==◌, if◌then◌else◌,
}
use project_ram_crisis.Driver.Kernel.{Kernel, PhysicalMemory}
use project_ram_crisis.Driver.Data.{Status, success, invalid_parameter, not_supported}
use project_ram_crisis.Driver.State.{Action, nt_success, pure, ◌>>=◌, ◌>>◌}
use project_ram_crisis.Driver.CowRegistry.{is_cow_protected_pfn, unregister_cow_protected_page}

-- `AllocatePrivateCopyForCowFault` is declared in driver/deduper.cpp and defined nowhere in the
-- repository, so it is a parameter.
module _ (k : Kernel) (allocate_private_copy : ℕ → ℕ → Action k Status) where
  -- A write fault on a protected page.
  unfoldable pub copy_on_fault : ℕ → ℕ → Action k Status
  unfolding unregister_cow_protected_page
  copy_on_fault address pfn = do
    status ← allocate_private_copy address pfn
    if nt_success status
        then (do ignored ← unregister_cow_protected_page k pfn; pure success)
        else pure status

  -- The page frame of an address, with PAGE_SHIFT 12.
  abbrev pub page_frame : ℕ → ℕ
  page_frame physical = physical / 2 ^ 12

  unfoldable pub handle_fault : ℕ → ℕ → Bool → Action k Status
  unfolding copy_on_fault is_cow_protected_pfn
  handle_fault address pfn write_access = do
    protected ← is_cow_protected_pfn k pfn
    if not protected
        then pure not_supported
        else if not write_access
        then pure not_supported
        else copy_on_fault address pfn

  unfoldable pub cow_fault_callback : ℕ → Bool → Action k Status
  unfolding handle_fault
  cow_fault_callback address write_access =
      if address == 0 then pure invalid_parameter else elim (k.memory.physical_address address) [
        | none ↦ pure invalid_parameter
        | some physical ↦ handle_fault address (page_frame physical) write_access
      ]
