-- ===== src/Driver/State.antt =====
-- The global state of driver/deduper.cpp (`gDedupeContext`, `gDedupeMutex` and the COW flags), and
-- the actions on it. An action that never returns, because its thread waits for a mutex that it
-- owns, is `none`.
pub mod Lock
use project_ram_crisis.Prelude.{
  ℕ, ◌%◌, List, length, u32_mod, Bool, true, false, Option, none, some, if◌then◌else◌, ltb,
}
use project_ram_crisis.Driver.Kernel.{Kernel, GenericTables, FastMutexes}
use project_ram_crisis.Driver.Data.{
  ProcessOptInEntry, PageEntry, SharedPageGroup, CowProtectedPage, CowPrivatePage, Status, success,
  kernel_failure,
}

-- The five tables of `DedupeContext`.
pub record DedupeContext (k : Kernel) : Type 0 where
  pub process_table : k.tables.Table ProcessOptInEntry
  pub page_table : k.tables.Table PageEntry
  pub shared_group_table : k.tables.Table SharedPageGroup
  pub cow_protected_table : k.tables.Table CowProtectedPage
  pub cow_private_table : k.tables.Table CowPrivatePage

pub record DriverState (k : Kernel) : Type 0 where
  pub mutex : k.mutexes.Mutex
  pub context : DedupeContext k
  pub cow_interception_active : Bool
  pub callback_registered : Bool
  pub callback_handle : Option ℕ

abbrev pub Action : Kernel → Type 0 → Type 0
Action k A = DriverState k → Option (A × DriverState k)

module _ {k : Kernel} where
  abbrev pub pure : {A : Type 0} → A → Action k A
  pure a s = some (a, s)

  infixl 5 ◌>>=◌ ◌>>◌
  abbrev pub ◌>>=◌ : {A B : Type 0} → Action k A → (A → Action k B) → Action k B
  ◌>>=◌ m f s = elim (m s) [ none ↦ none | some (a, t) ↦ f a t ]

  abbrev pub ◌>>◌ : {B : Type 0} → Action k (Unit {0}) → Action k B → Action k B
  m >> n = m >>= λ _. n

  abbrev pub gets : {A : Type 0} → (DedupeContext k → A) → Action k A
  gets f s = some (f s.context, s)

  -- ExAcquireFastMutex(&gDedupeMutex).
  unfoldable pub acquire : Action k (Unit {0})
  acquire s = elim (k.mutexes.acquire s.mutex) [
    | none ↦ none
    | some m ↦ some (tt, record s { mutex = m })
  ]

  -- ExReleaseFastMutex(&gDedupeMutex).
  unfoldable pub release : Action k (Unit {0})
  release s = some (tt, record s { mutex = k.mutexes.release s.mutex })

-- NT_SUCCESS: the code, as a signed 32-bit number, is not negative.
abbrev pub nt_success : Status → Bool
nt_success success = true
nt_success (kernel_failure c) = ltb c 0x80000000
nt_success _ = false

-- RtlNumberGenericTableElements, a ULONG, for the entries of a table.
abbrev pub number_of : {A : Type 0} → List A → ℕ
number_of xs = length xs % u32_mod

-- Whether a pointer is not null.
abbrev pub is_some : {A : Type 0} → Option A → Bool
is_some none = false
is_some (some a) = true
