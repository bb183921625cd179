-- ===== src/Driver/Registry.antt =====
-- Opting processes in and out, and listing them: `RegisterOptInProcess`, `UnregisterOptInProcess`,
-- `IsProcessOptedIn` and `ListOptedInProcesses` of driver/deduper.cpp.
pub mod Laws
pub mod History
pub mod Leaving
pub mod Listing
pub mod ListRace
use project_ram_crisis.Prelude.{
  ℕ, ◌+◌, ◌-◌, ◌*◌, ◌/◌, ◌%◌, ◌^◌, Bool, true, false, not, ◌||◌, List, [], map, Option, none, some,
  length, get_or, take, ltb, ◌==◌, if◌then◌else◌, u32_mod, u64_mod,
}
use project_ram_crisis.Driver.Kernel.{
  Kernel, GenericTables, FastMutexes, Processes, ProcessLookup, failed, found,
}
use project_ram_crisis.Driver.Data.{
  ProcessOptInEntry, Status, success, invalid_parameter, insufficient_resources, not_found,
  unsuccessful, buffer_too_small, buffer_overflow, kernel_failure,
}
use project_ram_crisis.Driver.Compare.{compare_process_entries}
use project_ram_crisis.Driver.Policy.{is_process_policy_allowed}
use project_ram_crisis.Driver.State.{
  DriverState, DedupeContext, Action, number_of, is_some, pure, gets, acquire, release, ◌>>=◌, ◌>>◌,
}

-- INVALID_HANDLE_VALUE, in 64 bits.
abbrev pub invalid_handle_value : ℕ
invalid_handle_value = 2 ^ 64 - 1

abbrev pub bad_handle : ℕ → Bool
bad_handle process_id = process_id == 0 || process_id == invalid_handle_value

abbrev pub opt_in_entry : ℕ → ProcessOptInEntry
opt_in_entry process_id = record { process_id = process_id }

pub record ListReply : Type 0 where
  pub status : Status
  pub information : ℕ
  -- `outCount[0]`, and the part of `outList` that was written.
  pub count : Option ℕ
  pub listed : List ℕ

module _ (k : Kernel) where
  abbrev pub with_process_table : DriverState k → k.tables.Table ProcessOptInEntry → DriverState k
  with_process_table s t = record s { context = record s.context { process_table = t } }

  -- The insertion into the process table, and its status.
  unfoldable pub insert_process : Bool → ℕ → Action k Status
  insert_process room process_id s =
      elim (k.tables.insert compare_process_entries room s.context.process_table
        (opt_in_entry process_id)) [
          | none ↦ some (insufficient_resources, s)
          | some (t, place, new) ↦ some (success, with_process_table s t)
        ]

  -- The part of `RegisterOptInProcess` behind its checks, under the mutex.
  unfoldable pub opt_in : Bool → ℕ → Action k Status
  unfolding insert_process
  opt_in room process_id = do acquire; status ← insert_process room process_id; release; pure status

  -- `room` says whether the pool has memory for one more entry.
  unfoldable pub register_opt_in_process : Bool → ℕ → Action k Status
  unfolding opt_in
  register_opt_in_process room process_id =
      if bad_handle process_id
      then pure invalid_parameter
      else elim (k.processes.lookup_process process_id) [
        | failed c ↦ pure (kernel_failure c)
        | found process ↦
            if k.processes.is_system_process process
              || not (is_process_policy_allowed (k.processes.image_file_name process))
            then pure invalid_parameter
            else opt_in room process_id
      ]

  pub is_process_opted_in : ℕ → Action k Bool
  is_process_opted_in process_id = do
    acquire
    present ← gets (λ c.
        is_some (k.tables.lookup compare_process_entries c.process_table (opt_in_entry process_id)))
    release
    pure present

  -- The lookup and the deletion in the process table.
  unfoldable pub delete_process : ℕ → Action k Status
  delete_process process_id s =
      elim (k.tables.lookup compare_process_entries s.context.process_table
        (opt_in_entry process_id)) [
          | none ↦ some (not_found, s)
          | some i ↦
              let entry =
                get_or (k.tables.elements s.context.process_table) i (opt_in_entry process_id) in
              let (t, removed) =
                k.tables.delete compare_process_entries s.context.process_table entry in
              some (if removed then success else unsuccessful, with_process_table s t)
        ]

  unfoldable pub unregister_opt_in_process : ℕ → Action k Status
  unfolding delete_process
  unregister_opt_in_process process_id =
      if bad_handle process_id
      then pure invalid_parameter
      else (do acquire; status ← delete_process process_id; release; pure status)

  abbrev pub process_ids : DriverState k → List ℕ
  process_ids s = map (λ e. e.process_id) (k.tables.elements s.context.process_table)

  -- What the call leaves in the buffer and returns, for the processes that it enumerates.
  abbrev pub list_reply : ℕ → ℕ → List ℕ → ListReply
  list_reply output_length total ids =
      let required = (8 + total * 8) % u64_mod in
      record {
        status = if ltb output_length required then buffer_overflow else success;
        information = required;
        count = some total;
        listed = take ((output_length - 8) / 8) ids;
      }

  unfoldable pub list_opted_in_processes : ℕ → Action k ListReply
  list_opted_in_processes output_length s =
      let total = number_of (k.tables.elements s.context.process_table) in
      if ltb output_length 8
      then some
          (record { status = buffer_too_small; information = 8; count = none; listed = [] }, s)
      else (do
        acquire
        ids ← (λ t. some (process_ids t, t))
        release
        pure (list_reply output_length total ids))
          s
