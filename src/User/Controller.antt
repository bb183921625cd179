-- ===== src/User/Controller.antt =====
-- The controller, `wmain` of user/controller.cpp. A string is the list of its characters. What it
-- prints is left out but for the numbers of the process list.
pub mod Handle
pub mod Refused
pub mod Listing
use project_ram_crisis.Prelude.{
  ℕ, zero, suc, ◌+◌, ◌*◌, ◌-◌, ◌/◌, ◌%◌, Bool, true, false, ◌&&◌, ◌||◌, List, [], ◌∷◌, ◌++◌, Option,
  none, some, ltb, leb, ◌==◌, if◌then◌else◌, length, take, replicate, list_eq, u32_mod,
}
use project_ram_crisis.Driver.Policy.{codes}
use project_ram_crisis.Driver.Dispatch.{ctl_code}

-- The codes as user/controller.cpp defines them, with FILE_ANY_ACCESS, which is 0.
abbrev pub register_process_code : ℕ
register_process_code = ctl_code 0x800 0

abbrev pub unregister_process_code : ℕ
unregister_process_code = ctl_code 0x801 0

abbrev pub query_stats_code : ℕ
query_stats_code = ctl_code 0x802 0

abbrev pub list_processes_code : ℕ
list_processes_code = ctl_code 0x803 0

abbrev pub query_health_code : ℕ
query_health_code = ctl_code 0x804 0

abbrev pub drain_code : ℕ
drain_code = ctl_code 0x805 0

-- A call of DeviceIoControl: the code, the input as words of 8 bytes, and the size of the output.
pub record IoCall : Type 0 where
  pub code : ℕ
  pub input : List ℕ
  pub output_size : ℕ

-- What a call answers: `error` is GetLastError where it failed, and `words` is what it writes to the
-- front of the output.
pub record IoAnswer : Type 0 where
  pub succeeded : Bool
  pub error : ℕ
  pub bytes_returned : ℕ
  pub words : List ℕ

-- What happens to the handle.
pub data Event : Type 0 where
  opened closed : Event
  called : IoCall → Event

-- What the controller takes from Windows: whether CreateFileW opens the device, what a call answers
-- behind the events so far, and wcstoul to the base 10.
pub record Windows : Type 0 where
  pub opens : Bool
  pub answer : List Event → IoCall → IoAnswer
  pub wcstoul : List ℕ → ℕ

-- The events are the newest first.
pub record Session : Type 0 where
  pub events : List Event
  pub printed : List ℕ

pub data Command : Type 0 where
  optin optout stats list health drain : Command

-- The comparisons of `command`, in one place.
unfoldable pub command_of : List ℕ → Option Command
command_of text =
    if list_eq text (codes "optin")
    then some optin
    else if list_eq text (codes "optout")
    then some optout
    else if list_eq text (codes "stats")
    then some stats
    else if list_eq text (codes "list")
    then some list
    else if list_eq text (codes "health")
    then some health
    else if list_eq text (codes "drain")
    then some drain
    else none

unfoldable pub close_handle : Session → Session
close_handle s = record s { events = closed ∷ s.events }

-- Error exits and the normal exit with the device open.
unfoldable pub leave : ℕ → Session → ℕ × Session
unfolding close_handle
leave exit_code s = (exit_code, close_handle s)

-- ERROR_MORE_DATA and ERROR_INSUFFICIENT_BUFFER.
unfoldable pub is_short : IoAnswer → Bool
is_short r = (r.error == 234 || r.error == 122) && ltb 0 r.bytes_returned

-- The size of the next buffer, in words.
unfoldable pub next_size : ℕ → ℕ → ℕ
next_size size bytes_returned =
    if leb ((bytes_returned + 8 - 1) / 8) size then size * 2 else (bytes_returned + 8 - 1) / 8

-- The buffer once a call has written to it.
unfoldable pub overwritten : List ℕ → List ℕ → List ℕ
overwritten words [] = []
overwritten [] (old ∷ buffer) = old ∷ buffer
overwritten (word ∷ words) (old ∷ buffer) = word ∷ overwritten words buffer

-- `buffer.resize(size)`.
unfoldable pub resized : ℕ → List ℕ → List ℕ
resized size buffer = take size buffer ++ replicate (size - length buffer) 0

-- The size is cut to a DWORD.
abbrev pub list_call : List ℕ → IoCall
list_call buffer = record {
  code = list_processes_code;
  input = [];
  output_size = length buffer * 8 % u32_mod;
}

-- What is printed: at most what is in the buffer behind its first word, the count.
unfoldable pub printable : List ℕ → List ℕ
printable [] = []
printable (count ∷ rest) = take count rest

abbrev pub untouched : Session
untouched = record { events = []; printed = [] }

abbrev pub opened_session : Session
opened_session = record { events = opened ∷ []; printed = [] }

module _ (w : Windows) where
  -- DeviceIoControl.
  unfoldable pub device_io_control : IoCall → Session → IoAnswer × Session
  device_io_control c s = (w.answer s.events c, record s { events = called c ∷ s.events })

  -- A call, and the exit code by whether it succeeded.
  unfoldable pub call_and_leave : IoCall → Session → ℕ × Session
  unfolding device_io_control leave
  call_and_leave c s =
      let (r, t) = device_io_control c s in if r.succeeded then leave 0 t else leave 1 t

  -- `optin` and `optout`, with the arguments behind the command.
  unfoldable pub send_process : ℕ → List (List ℕ) → Session → ℕ × Session
  unfolding call_and_leave leave
  send_process code (text ∷ []) s =
      if w.wcstoul text == 0
      then leave 1 s
      else call_and_leave (record { code = code; input = w.wcstoul text ∷ []; output_size = 0 }) s
  send_process code [] s = leave 1 s
  send_process code (text ∷ more ∷ rest) s = leave 1 s

  -- The loop of `list`: its last answer, the buffer, and the session. With no fuel left it has not
  -- returned.
  unfoldable pub list_loop : ℕ → List ℕ → Session → Option (IoAnswer × List ℕ × Session)
  unfolding device_io_control is_short next_size overwritten resized
  list_loop zero buffer s = none
  list_loop (suc fuel) buffer s =
      let (r, t) = device_io_control (list_call buffer) s in
      let filled = overwritten r.words buffer in
      let later = list_loop fuel (resized (next_size (length buffer) r.bytes_returned) filled) t in
      if r.succeeded then some (r, filled, t) else if is_short r then later else some (r, filled, t)

  -- What follows the loop.
  unfoldable pub show_list : IoAnswer → List ℕ → Session → ℕ × Session
  unfolding leave printable
  show_list r buffer s =
      if r.succeeded
      then (if ltb r.bytes_returned 8
          then leave 1 s
          else leave 0 (record s { printed = printable buffer }))
      else leave 1 s

  unfoldable pub list_processes : ℕ → Session → Option (ℕ × Session)
  unfolding list_loop show_list
  list_processes fuel s = elim (list_loop fuel (replicate 8 0) s) [
    | none ↦ none
    | some (r, buffer, t) ↦ some (show_list r buffer t)
  ]

  -- The commands, with the device open. sizeof(DedupeDriverStats) is 12, and of DedupeDriverHealth
  -- 28.
  unfoldable pub execute : ℕ → Command → List (List ℕ) → Session → Option (ℕ × Session)
  unfolding call_and_leave send_process list_processes
  execute fuel optin rest s = some (send_process register_process_code rest s)
  execute fuel optout rest s = some (send_process unregister_process_code rest s)
  execute fuel stats rest s =
      some (call_and_leave (record { code = query_stats_code; input = []; output_size = 12 }) s)
  execute fuel health rest s =
      some (call_and_leave (record { code = query_health_code; input = []; output_size = 28 }) s)
  execute fuel drain rest s =
      some (call_and_leave (record { code = drain_code; input = []; output_size = 0 }) s)
  execute fuel list rest s = list_processes fuel s

  -- The arguments are those behind the program's name.
  unfoldable pub wmain : ℕ → List (List ℕ) → Option (ℕ × Session)
  unfolding execute command_of
  wmain fuel [] = some (1, untouched)
  wmain fuel (text ∷ rest) = elim (command_of text) [
    | none ↦ some (1, untouched)
    | some command ↦
        if w.opens then execute fuel command rest opened_session else some (1, untouched)
  ]
