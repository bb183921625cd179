-- ===== src/Driver/CowFault/Laws.antt =====
-- What the fault handler does with a write to a page frame that was just protected.
use project_ram_crisis.Prelude.{ℕ, suc, ◌≡◌, Bool, true, false, some, ◌==◌, length}
use project_ram_crisis.Driver.Kernel.{Kernel}
use project_ram_crisis.Driver.Data.{Status, success, not_supported}
use project_ram_crisis.Driver.State.{DriverState, Action}
use project_ram_crisis.Driver.State.Lock.{step}
use project_ram_crisis.Driver.CowRegistry.{is_cow_protected_pfn, register_cow_protected_page}
use project_ram_crisis.Driver.CowRegistry.Laws.{
  protected_frames, IsOnly, register_cow_protected_page-new, is_cow_protected_pfn-false,
}
use project_ram_crisis.Driver.CowFault.{page_frame, handle_fault, cow_fault_callback}

module _ (k : Kernel) (allocate_private_copy : ℕ → ℕ → Action k Status) where
  handle_fault-declined :
      (address pfn : ℕ) (write_access : Bool) (s : DriverState k)
      → IsOnly k pfn s
      → handle_fault k allocate_private_copy address pfn write_access s ≡ some (not_supported, s)
  unfolding handle_fault
  handle_fault-declined address pfn write_access s only =
      step (is_cow_protected_pfn k pfn) _ (is_cow_protected_pfn-false k pfn s only)

  cow_fault_callback-declined :
      (address physical : ℕ) (write_access : Bool) (s : DriverState k)
      → IsOnly k (page_frame k allocate_private_copy physical) s
      → (address == 0) ≡ false
      → k.memory.physical_address address ≡ some physical
      → cow_fault_callback k allocate_private_copy address write_access s ≡ some (not_supported, s)
  unfolding cow_fault_callback
  cow_fault_callback-declined address physical write_access s only nonzero at = rw nonzero (
      rw (at, cow_fault_callback)
        (handle_fault-declined address (page_frame k allocate_private_copy physical) write_access s
          only))

  -- With the mutex free, no other page frame protected than that of a mapped address, and memory for
  -- an entry, registering that frame succeeds with one more entry of it; and from then on a fault at
  -- the address is declined and changes nothing, a write too: no private copy is made.
  pub cow_fault_callback-misses :
      (address physical : ℕ) (write_access : Bool) (s : DriverState k)
      → IsOnly k (page_frame k allocate_private_copy physical) s
      → (address == 0) ≡ false
      → k.memory.physical_address address ≡ some physical
      → (t : DriverState k) × (register_cow_protected_page k true
            (page_frame k allocate_private_copy physical)
            s
          ≡ some (success, t))
        × (length (protected_frames k t) ≡ suc (length (protected_frames k s)))
        × (cow_fault_callback k allocate_private_copy address write_access t
            ≡ some (not_supported, t))
  cow_fault_callback-misses address physical write_access s only nonzero at =
      let (t, run, only', more) =
        register_cow_protected_page-new k (page_frame k allocate_private_copy physical) s only in
      (t, run, more, cow_fault_callback-declined address physical write_access t only' nonzero at)
