-- ===== src/Driver/Interception.antt =====
-- The set-up of the COW interception: `InitializeCowInterception`, `ShutdownCowInterception` and the
-- registration of the fault callback, in driver/deduper.cpp.
use project_ram_crisis.Prelude.{true, false, none, some, if◌then◌else◌}
use project_ram_crisis.Driver.Kernel.{Kernel}
use project_ram_crisis.Driver.Data.{Status, success}
use project_ram_crisis.Driver.State.{Action, nt_success, pure, ◌>>=◌, ◌>>◌}

module _ {k : Kernel} where
  -- The handle is the marker 1.
  unfoldable pub register_cow_fault_callback : Action k Status
  register_cow_fault_callback s =
      some (success, record s { callback_handle = some 1; callback_registered = true })

  unfoldable pub unregister_cow_fault_callback : Action k (Unit {0})
  unregister_cow_fault_callback s = some (
    tt,
    record s {
      callback_handle = none;
      callback_registered = false;
      cow_interception_active = false;
    },
  )

  unfoldable pub initialize_cow_interception : Action k Status
  unfolding register_cow_fault_callback
  initialize_cow_interception = do
    status ← register_cow_fault_callback
    if nt_success status
        then (λ s. some (success, record s { cow_interception_active = s.callback_registered }))
        else pure status

  unfoldable pub unregister_if_registered : Action k (Unit {0})
  unfolding unregister_cow_fault_callback
  unregister_if_registered s =
      if s.callback_registered then unregister_cow_fault_callback s else some (tt, s)

  unfoldable pub shutdown_cow_interception : Action k (Unit {0})
  unfolding unregister_if_registered
  shutdown_cow_interception = do
    unregister_if_registered
    (λ s. some (tt, record s { cow_interception_active = false }))
