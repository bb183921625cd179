-- ===== src/Driver/Dispatch.antt =====
-- `DriverDeviceControl` of driver/deduper.cpp, with the control codes of driver/deduper.h.
pub mod Laws
use project_ram_crisis.Prelude.{
  ℕ, ◌+◌, ◌*◌, ◌^◌, Bool, true, false, ◌||◌, List, [], ◌∷◌, Option, none, some, ltb, ◌==◌,
  if◌then◌else◌,
}
use project_ram_crisis.Driver.Kernel.{Kernel}
use project_ram_crisis.Driver.Data.{
  DedupeDriverStats, DedupeDriverHealth, Status, success, buffer_too_small, invalid_device_request,
}
use project_ram_crisis.Driver.State.{Action, pure, ◌>>=◌}
use project_ram_crisis.Driver.Registry.{
  ListReply, register_opt_in_process, unregister_opt_in_process, list_opted_in_processes,
}
use project_ram_crisis.Driver.Query.{QueryReply, query_dedupe_stats, query_dedupe_health}
use project_ram_crisis.Driver.Drain.{drain_dedupe_state}
use project_ram_crisis.Driver.CowFault.{cow_fault_callback}

-- CTL_CODE for FILE_DEVICE_UNKNOWN (0x22) and METHOD_BUFFERED (0): the access stands in the bits
-- from 14 on, the function in those from 2 on.
abbrev pub ctl_code : ℕ → ℕ → ℕ
ctl_code function access = 0x22 * 2 ^ 16 + access * 2 ^ 14 + function * 2 ^ 2

abbrev pub register_process_code : ℕ
register_process_code = ctl_code 0x800 2

abbrev pub unregister_process_code : ℕ
unregister_process_code = ctl_code 0x801 2

abbrev pub query_stats_code : ℕ
query_stats_code = ctl_code 0x802 1

abbrev pub list_processes_code : ℕ
list_processes_code = ctl_code 0x803 1

abbrev pub query_health_code : ℕ
query_health_code = ctl_code 0x804 1

abbrev pub drain_code : ℕ
drain_code = ctl_code 0x805 2

abbrev pub invoke_cow_fault_code : ℕ
invoke_cow_fault_code = ctl_code 0x806 0

-- What the handler reads of a request: the code, the lengths, and the system buffer as a HANDLE and
-- as a CowFaultInvoke. `IoStatus.Information` is 0 when the request arrives.
pub record ControlRequest : Type 0 where
  pub control_code : ℕ
  pub input_length : ℕ
  pub output_length : ℕ
  pub process_id : ℕ
  pub faulting_address : ℕ
  pub write_access : Bool

-- What a handler leaves in the system buffer.
pub data Output : Type 0 where
  nothing : Output
  stats_output : DedupeDriverStats → Output
  health_output : DedupeDriverHealth → Output
  list_output : Option ℕ → List ℕ → Output
  status_output : Status → Output

pub record ControlReply : Type 0 where
  pub status : Status
  pub information : ℕ
  pub output : Output

abbrev pub status_reply : Status → ControlReply
status_reply status = record { status = status; information = 0; output = nothing }

abbrev pub stats_reply : QueryReply DedupeDriverStats → ControlReply
stats_reply reply = record {
  status = reply.status;
  information = reply.information;
  output = elim reply.output [ none ↦ nothing | some stats ↦ stats_output stats ];
}

abbrev pub health_reply : QueryReply DedupeDriverHealth → ControlReply
health_reply reply = record {
  status = reply.status;
  information = reply.information;
  output = elim reply.output [ none ↦ nothing | some health ↦ health_output health ];
}

abbrev pub list_control_reply : ListReply → ControlReply
list_control_reply reply = record {
  status = reply.status;
  information = reply.information;
  output = list_output reply.count reply.listed;
}

abbrev pub fault_reply : Status → ControlReply
fault_reply result = record { status = success; information = 4; output = status_output result }

module _ (k : Kernel) (allocate_private_copy : ℕ → ℕ → Action k Status) where
  -- A result, as a reply.
  unfoldable pub answer : {A : Type 0} → (A → ControlReply) → Action k A → Action k ControlReply
  answer reply run = do result ← run; pure (reply result)

  -- sizeof(CowFaultInvoke) is 16 and sizeof(NTSTATUS) is 4.
  unfoldable pub device_control : Bool → ControlRequest → Action k ControlReply
  unfolding answer
  device_control room r =
      if r.control_code == register_process_code
      then (if ltb r.input_length 8
          then pure (status_reply buffer_too_small)
          else answer status_reply (register_opt_in_process k room r.process_id))
      else if r.control_code == unregister_process_code
      then (if ltb r.input_length 8
          then pure (status_reply buffer_too_small)
          else answer status_reply (unregister_opt_in_process k r.process_id))
      else if r.control_code == query_stats_code
      then answer stats_reply (query_dedupe_stats k r.output_length)
      else if r.control_code == list_processes_code
      then answer list_control_reply (list_opted_in_processes k r.output_length)
      else if r.control_code == query_health_code
      then answer health_reply (query_dedupe_health k r.output_length)
      else if r.control_code == drain_code
      then answer status_reply (drain_dedupe_state k)
      else if r.control_code == invoke_cow_fault_code
      then (if ltb r.input_length 16 || ltb r.output_length 4
          then pure (status_reply buffer_too_small)
          else answer fault_reply
              (cow_fault_callback k allocate_private_copy r.faulting_address r.write_access))
      else pure (status_reply invalid_device_request)
