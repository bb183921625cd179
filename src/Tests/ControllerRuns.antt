-- ===== src/Tests/ControllerRuns.antt =====
-- The theorems of the controller, for a device that lists three words.
use project_ram_crisis.Prelude.{
  ℕ, ◌≡◌, refl, true, false, List, [], ◌∷◌, some, if◌then◌else◌, leb, arith, list_eq, replicate,
}
use project_ram_crisis.Driver.Data.{Status, invalid_device_request, success}
use project_ram_crisis.Driver.State.{Action, pure}
use project_ram_crisis.Driver.Policy.{codes}
use project_ram_crisis.Driver.Dispatch.{ControlRequest, status_reply, device_control}
use project_ram_crisis.User.Controller.{
  IoCall, IoAnswer, Event, opened, closed, called, Windows, Session, wmain, command_of, execute,
  list_processes, list_loop, show_list, leave, close_handle, is_short, next_size, overwritten,
  resized, printable, device_io_control, call_and_leave, list_call, drain_code,
}
use project_ram_crisis.User.Controller.Handle.{IsHandled, wmain-IsHandled}
use project_ram_crisis.User.Controller.Refused.{here, there, wmain-is_refused}
use project_ram_crisis.User.Controller.Listing.{IsListOf, wmain-total}
use project_ram_crisis.Tests.Machine.{machine, quiet}

-- The list of the processes 8 and 12, and a call that succeeds or has too little room for it.
abbrev answer_list : List Event → IoCall → IoAnswer
answer_list events c =
    if leb 24 c.output_size
    then record { succeeded = true; error = 0; bytes_returned = 24; words = 2 ∷ 8 ∷ 12 ∷ [] }
    else record { succeeded = false; error = 234; bytes_returned = 24; words = [] }

abbrev windows : Windows
windows = record { opens = true; answer = answer_list; wcstoul = λ text. 0 }

windows-IsListOf : IsListOf windows 3
unfolding is_short
windows-IsListOf = record {
  bound = omega arith;
  fits = λ events c room. ground arith;
  asks = λ events c. ground arith;
}

abbrev drained : Session
drained = record {
  events =
      closed ∷ called (record { code = drain_code; input = []; output_size = 0 }) ∷ opened ∷ [];
  printed = [];
}

drains_once : wmain windows 1 (codes "drain" ∷ []) ≡ some (1, drained)
unfolding wmain command_of execute call_and_leave device_io_control leave close_handle list_eq
drains_once = refl

lists_both :
    wmain windows 4 (codes "list" ∷ [])
    ≡ some (
      0,
      record {
        events = closed ∷ called (list_call (replicate 8 0)) ∷ opened ∷ [];
        printed = 8 ∷ 12 ∷ [];
      },
    )
unfolding wmain command_of execute list_processes list_loop show_list device_io_control leave
    close_handle list_eq is_short next_size overwritten resized printable replicate
lists_both = refl

wmain-IsHandled_example : IsHandled drained.events
wmain-IsHandled_example = wmain-IsHandled windows 1 (codes "drain" ∷ []) 1 drained drains_once

abbrev drain_request : ControlRequest
drain_request = record {
  control_code = drain_code;
  input_length = 0;
  output_length = 0;
  process_id = 0;
  faulting_address = 0;
  write_access = false;
}

abbrev no_copy : ℕ → ℕ → Action machine Status
no_copy pfn address = pure success

wmain-is_refused_example :
    device_control machine no_copy true drain_request quiet
    ≡ some (status_reply invalid_device_request, quiet)
wmain-is_refused_example =
    wmain-is_refused machine no_copy windows 1 (codes "drain" ∷ []) 1 drained
      (record { code = drain_code; input = []; output_size = 0 }) true drain_request quiet
      drains_once (there here) refl

wmain-total_example :
    (exit_code : ℕ) × (t : Session) × (wmain windows 4 (codes "list" ∷ []) ≡ some (exit_code, t))
wmain-total_example = wmain-total windows 3 4 (codes "list" ∷ []) windows-IsListOf (omega arith)
