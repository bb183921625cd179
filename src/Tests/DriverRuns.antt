-- ===== src/Tests/DriverRuns.antt =====
-- The theorems of the driver on processes and the comparison of pages.
use project_ram_crisis.Prelude.{
  List, ◌+◌, ◌*◌, ◌≡◌, ◌≢◌, ◌≤◌, ◌↔◌, ◌⊎◌, refl, true, false, [], ◌∷◌, some, length, arith,
}
use project_ram_crisis.Driver.Data.{PageSignature, Status, success, not_found, buffer_overflow}
use project_ram_crisis.Driver.Compare.{
  compare_process_entries, compare_page_entries, are_physical_pages_identical,
}
use project_ram_crisis.Driver.Compare.Order.{IsOrder, compare_page_entries-no-IsOrder}
use project_ram_crisis.Driver.Policy.{
  codes, is_process_policy_allowed, matches_none, is_ascii_string_equal_ignore_case, lower,
}
use project_ram_crisis.Driver.Policy.Laws.{IsRefused, is_process_policy_allowed_iff}
use project_ram_crisis.Driver.State.{DriverState, Action, acquire, release}
use project_ram_crisis.Driver.Registry.{
  register_opt_in_process, unregister_opt_in_process, is_process_opted_in, list_opted_in_processes,
  process_ids, ListReply, insert_process, opt_in,
}
use project_ram_crisis.Driver.Registry.Laws.{
  IsAlone, IsAllowed, HasAnother, Joins, register_opt_in_process-Joins,
}
use project_ram_crisis.Driver.Registry.History.{
  Call, joining, leaving, successes, serve_all, serve_all-counts,
}
use project_ram_crisis.Driver.Registry.ListRace.{list_counted, list_counted-misses}
use project_ram_crisis.Driver.Registry.Leaving.{unregister_opt_in_process-stays}
use project_ram_crisis.Driver.Dispatch.{
  ControlRequest, ControlReply, register_process_code, device_control,
}
use project_ram_crisis.Driver.Dispatch.Laws.{device_control-registers}
use project_ram_crisis.Driver.Registry.Listing.{list_opted_in_processes-overflow}
use project_ram_crisis.Tests.Machine.{machine, quiet, striped_pages}

quiet-IsAlone : IsAlone machine 8 quiet
quiet-IsAlone = record { free = refl; all = (refl, tt) }

register_opt_in_process-Joins_example :
    Joins machine 8 quiet (register_opt_in_process machine true 8 quiet)
register_opt_in_process-Joins_example =
    register_opt_in_process-Joins machine true 8 quiet quiet-IsAlone

abbrev nothing_done : Action machine Status
nothing_done s = some (success, s)

abbrev registering : ControlRequest
registering = record {
  control_code = register_process_code;
  input_length = 8;
  output_length = 0;
  process_id = 8;
  faulting_address = 0;
  write_access = false;
}

device_control-registers_example :
    (reply : ControlReply) × (t : DriverState machine) × (device_control machine
        (λ address pfn. nothing_done)
        true
        registering
        quiet
      ≡ some (reply, t))
    × (((reply.status ≡ success) × (8 ≤ 8) × IsAllowed machine 8 × HasAnother machine 8 quiet t)
        ⊎ ((reply.status ≢ success) × (t ≡ quiet)))
device_control-registers_example =
    device_control-registers machine (λ address pfn. nothing_done) true registering quiet
      quiet-IsAlone refl

unregister_opt_in_process-stays_example :
    unregister_opt_in_process machine 8 quiet ≡ some (not_found, quiet)
unregister_opt_in_process-stays_example =
    unregister_opt_in_process-stays machine 8 quiet quiet-IsAlone

-- Process 8 joins again, and then there is no memory, and it leaves twice.
abbrev calls : List Call
calls = joining true ∷ joining false ∷ leaving ∷ leaving ∷ []

serve_all-counts_example :
    (statuses : List Status) × (t : DriverState machine) × (serve_all machine 8 calls quiet
      ≡ some (statuses, t))
    × (length statuses ≡ 4)
    × IsAlone machine 8 t
    × (length (process_ids machine t) ≡ successes statuses + 1)
    × (is_process_opted_in machine 8 t ≡ some (false, t))
serve_all-counts_example = serve_all-counts machine 8 calls quiet quiet-IsAlone

-- Process 8 joins once more while a listing is under way.
abbrev twice : DriverState machine
twice = record quiet {
  context = record quiet.context {
    process_table = record { process_id = 8 } ∷ record { process_id = 8 } ∷ [];
  };
}

eight_joins : register_opt_in_process machine true 8 quiet ≡ some (success, twice)
unfolding register_opt_in_process opt_in insert_process acquire release is_process_policy_allowed
    matches_none is_ascii_string_equal_ignore_case lower compare_process_entries
eight_joins = refl

list_counted-misses_example :
    (reply : ListReply) × (list_counted machine 24 1 twice ≡ some (reply, twice))
    × (reply.count ≡ some 1)
    × (reply.information ≡ 16)
    × (reply.listed ≡ 8 ∷ 8 ∷ [])
    × (length reply.listed ≡ 2)
    × (list_counted machine 24 1 quiet ≡ list_opted_in_processes machine 24 quiet)
list_counted-misses_example =
    list_counted-misses machine 24 8 true quiet twice quiet-IsAlone (omega arith) eight_joins
      (omega arith)

list_opted_in_processes-overflow_example :
    (reply : ListReply) × (list_opted_in_processes machine 10 quiet ≡ some (reply, quiet))
    × (reply.status ≡ buffer_overflow)
    × (reply.information ≡ 16)
    × (reply.listed ≡ [])
    × (8 + 8 * length reply.listed ≤ 10)
list_opted_in_processes-overflow_example =
    list_opted_in_processes-overflow machine 10 quiet refl (omega arith) (omega arith) (omega arith)

is_process_policy_allowed_iff_example :
    (is_process_policy_allowed (some (codes "LSASS.exe")) ≡ false)
    ↔ IsRefused (some (codes "LSASS.exe"))
is_process_policy_allowed_iff_example = is_process_policy_allowed_iff (some (codes "LSASS.exe"))

abbrev some_signature : PageSignature
some_signature = record { hash = 7; fingerprint = 1 }

striped-same : are_physical_pages_identical striped_pages 1 3 ≡ true
unfolding are_physical_pages_identical
striped-same = refl

striped-left : are_physical_pages_identical striped_pages 1 2 ≡ false
unfolding are_physical_pages_identical
striped-left = refl

striped-right : are_physical_pages_identical striped_pages 2 3 ≡ false
unfolding are_physical_pages_identical
striped-right = refl

compare_page_entries-no-IsOrder_example : ¬ IsOrder (compare_page_entries striped_pages)
compare_page_entries-no-IsOrder_example =
    compare_page_entries-no-IsOrder striped_pages some_signature 1 2 3 (omega arith) (omega arith)
      striped-same striped-left striped-right
