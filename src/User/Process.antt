-- ===== src/User/Process.antt =====
-- `ProcessState` of user/process_state.h.
use project_ram_crisis.Prelude.{ℕ, Bool, List}
use project_ram_crisis.Engine.Data.{MemoryRegion}

pub record ProcessState : Type 0 where
  pub pid : ℕ
  pub name : List ℕ
  pub opt_in : Bool
  pub regions : List MemoryRegion
