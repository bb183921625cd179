-- ===== src/User/Controller/Refused.antt =====
-- The driver's answer to the controller: the two files define their control codes apart.
use project_ram_crisis.Prelude.{ℕ, ◌≡◌, Bool, List, [], ◌∷◌, some}
use project_ram_crisis.Driver.Kernel.{Kernel}
use project_ram_crisis.Driver.Data.{Status, invalid_device_request}
use project_ram_crisis.Driver.State.{DriverState, Action}
use project_ram_crisis.Driver.Dispatch.{ControlRequest, status_reply, device_control}
use project_ram_crisis.User.Controller.{IoCall, Event, called, Windows, Session, wmain}
use project_ram_crisis.User.Controller.Handle.{
  IsControllerCode, registers, unregisters, queries_stats, lists, queries_health, drains, IsOpen,
  just_opened, after_call, IsHandled, never_opened, closed_again, wmain-IsHandled,
}

-- The call is among the events.
pub data IsAmong (c : IoCall) : List Event → Type 0 where
  here : {events : List Event} → IsAmong c (called c ∷ events)
  there : {event : Event} {events : List Event} → IsAmong c events → IsAmong c (event ∷ events)

nothing_among : (c : IoCall) → IsAmong c [] → ⊥
nothing_among c h = elim h [ ]

IsOpen-code :
    (c : IoCall) (events : List Event) → IsOpen events → IsAmong c events → IsControllerCode c.code
IsOpen-code c _ just_opened (there h) = elim (nothing_among c h) [ ]
IsOpen-code c _ (after_call d code o) here = code
IsOpen-code c _ (after_call d code o) (there h) = IsOpen-code c _ o h

IsHandled-code :
    (c : IoCall) (events : List Event)
    → IsHandled events
    → IsAmong c events
    → IsControllerCode c.code
IsHandled-code c _ never_opened h = absurd (nothing_among c h)
IsHandled-code c _ (closed_again o) (there h) = IsOpen-code c _ o h

module _ (k : Kernel) (allocate_private_copy : ℕ → ℕ → Action k Status) where
  -- A request with one of the controller's codes.
  pub device_control-refuses :
      (room : Bool) (r : ControlRequest) (code : ℕ) (s : DriverState k)
      → r.control_code ≡ code
      → IsControllerCode code
      → device_control k allocate_private_copy room r s
        ≡ some (status_reply invalid_device_request, s)
  unfolding device_control
  device_control-refuses room r _ s e registers = rw e
  device_control-refuses room r _ s e unregisters = rw e
  device_control-refuses room r _ s e queries_stats = rw e
  device_control-refuses room r _ s e lists = rw e
  device_control-refuses room r _ s e queries_health = rw e
  device_control-refuses room r _ s e drains = rw e

  -- Whatever the controller is run with, the driver answers each call that a run makes with
  -- STATUS_INVALID_DEVICE_REQUEST, and its state is as before.
  pub wmain-is_refused :
      (w : Windows) (fuel : ℕ) (arguments : List (List ℕ)) (exit_code : ℕ) (t : Session)
      (c : IoCall) (room : Bool) (r : ControlRequest) (s : DriverState k)
      → wmain w fuel arguments ≡ some (exit_code, t)
      → IsAmong c t.events
      → r.control_code ≡ c.code
      → device_control k allocate_private_copy room r s
        ≡ some (status_reply invalid_device_request, s)
  wmain-is_refused w fuel arguments exit_code t c room r s run among code =
      device_control-refuses room r c.code s code
        (IsHandled-code c t.events (wmain-IsHandled w fuel arguments exit_code t run) among)
