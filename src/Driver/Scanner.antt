-- ===== src/Driver/Scanner.antt =====
-- The page scanner: `MakePageSignatureFromUserPage`, `ScanProcessPages`, `ScanOptedInProcesses` and
-- `PageScanThread` of driver/deduper.cpp.
pub mod Ends
pub mod Rounds
pub mod Unseen
use Prim.Native.Nat.{bit_xor, bit_and}
use project_ram_crisis.Prelude.{
  ℕ, zero, suc, ◌+◌, ◌*◌, ◌/◌, ◌%◌, ◌^◌, Bool, true, false, ◌&&◌, List, [], ◌∷◌, Option, none, some,
  take, ltb, ◌==◌, if◌then◌else◌, mul64, add64, shr, u32_mod,
}
use project_ram_crisis.Driver.Kernel.{Kernel, Processes, ProcessLookup, failed, found}
use project_ram_crisis.Driver.Data.{
  PageSignature, Status, success, invalid_parameter, kernel_failure,
}
use project_ram_crisis.Driver.State.{
  DriverState, Action, nt_success, pure, acquire, release, ◌>>=◌, ◌>>◌,
}
use project_ram_crisis.Driver.Registry.{process_ids}
use project_ram_crisis.Driver.Groups.{Rooms}
use project_ram_crisis.Driver.Pages.{add_page_entry}

-- The fields of MEMORY_BASIC_INFORMATION that are read.
pub record MemoryInformation : Type 0 where
  pub base_address : ℕ
  pub region_size : ℕ
  pub state : ℕ
  pub protect : ℕ

pub data Query : Type 0 where
  query_failed : Status → Query
  query_found : MemoryInformation → Query

-- The address space of a process: what ZwQueryVirtualMemory answers, the words of a page, or `none`
-- where reading them faults, and MmGetPhysicalAddress, or `none` where it raises.
pub record AddressSpace : Type 0 where
  pub query : ℕ → Query
  pub read_words : ℕ → Option (List ℕ)
  pub physical_address : ℕ → Option ℕ

-- What the scanner takes from the kernel: ObOpenObjectByPointer, the address space of a process that
-- it attaches to, MM_LOWEST_USER_ADDRESS and MM_HIGHEST_USER_ADDRESS.
pub record UserMemory (P : Type 0) : Type 0 where
  pub open_process : P → Status
  pub space : P → AddressSpace
  pub lowest : ℕ
  pub highest : ℕ

-- PAGE_SIZE.
abbrev pub kernel_page_size : ℕ
kernel_page_size = 4096

-- The loop over the words of a page.
unfoldable pub hash_words : ℕ → List ℕ → ℕ
hash_words hash [] = hash
hash_words hash (word ∷ rest) = hash_words (mul64 (bit_xor hash word) 1099511628211) rest

unfoldable pub make_page_signature : List ℕ → PageSignature
unfolding hash_words
make_page_signature words =
    let hash = hash_words 1469598103934665603 words in
    record { hash = hash; fingerprint = bit_xor (shr hash 32) hash % u32_mod }

-- MEM_COMMIT is 0x1000, PAGE_GUARD is 0x100 and PAGE_NOACCESS is 0x01.
unfoldable pub is_readable : MemoryInformation → Bool
is_readable m = m.state == 0x1000 && (bit_and m.protect 0x100 == 0 && bit_and m.protect 0x01 == 0)

unfoldable pub region_end : MemoryInformation → ℕ
region_end m = add64 m.base_address m.region_size

module _ (k : Kernel) (user : UserMemory (k.processes.Process)) (rooms : ℕ → Rooms) where
  -- One page of a region; a fault is ignored. `rooms` tells, for an address, what the pool has
  -- memory for.
  unfoldable pub scan_page : AddressSpace → ℕ → Action k (Unit {0})
  scan_page space address = elim (space.read_words address) [
    | none ↦ pure tt
    | some words ↦ elim (space.physical_address address) [
      | none ↦ pure tt
      | some physical ↦ (do
        ignored ← add_page_entry k (rooms address) (physical / 2 ^ 12) (make_page_signature words)
        pure tt)
    ]
  ]

  -- The loop over the pages of a region. With no fuel left before its end it has not returned.
  unfoldable pub scan_pages : ℕ → AddressSpace → ℕ → ℕ → Action k (Unit {0})
  unfolding scan_page
  scan_pages zero space address end s = elim (ltb address end) [
    | true ↦ none
    | false ↦ some (tt, s)
  ]
  scan_pages (suc fuel) space address end s = elim (ltb address end) [
    | true ↦
        (scan_page space address >> scan_pages fuel space (add64 address kernel_page_size) end) s
    | false ↦ some (tt, s)
  ]

  -- The pages of a region from its base, of which there are size / 4096 + 1 at most.
  unfoldable pub scan_memory : AddressSpace → MemoryInformation → Action k (Unit {0})
  unfolding scan_pages is_readable region_end
  scan_memory space m =
      if is_readable m
      then scan_pages (m.region_size / kernel_page_size + 1) space m.base_address (region_end m)
      else pure tt

  -- The loop over the regions. Its fuel is below.
  unfoldable pub walk : ℕ → AddressSpace → ℕ → Action k (Unit {0})
  unfolding scan_memory region_end
  walk zero space current s = elim (ltb current user.highest) [ true ↦ none | false ↦ some (tt, s) ]
  walk (suc fuel) space current s = elim (ltb current user.highest) [
    | false ↦ some (tt, s)
    | true ↦ elim (space.query current) [
      | query_failed invalid_parameter ↦ some (tt, s)
      | query_failed _ ↦ walk fuel space (add64 current kernel_page_size) s
      | query_found m ↦ elim (m.region_size == 0) [
        | true ↦ scan_memory space m s
        | false ↦ (scan_memory space m >> walk fuel space (region_end m)) s
      ]
    ]
  ]

  -- Each round goes on to a greater address, so the highest one is fuel enough.
  unfoldable pub scan_address_space : AddressSpace → Action k (Unit {0})
  unfolding walk
  scan_address_space space = walk user.highest space user.lowest

  unfoldable pub scan_process_pages : ℕ → Action k Status
  unfolding scan_address_space
  scan_process_pages process_id = elim (k.processes.lookup_process process_id) [
    | failed c ↦ pure (kernel_failure c)
    | found process ↦
        if nt_success (user.open_process process)
        then (scan_address_space (user.space process) >> pure success)
        else pure (user.open_process process)
  ]

  -- The loop over the processes; each status is ignored.
  unfoldable pub scan_each : List ℕ → Action k (Unit {0})
  unfolding scan_process_pages
  scan_each [] = pure tt
  scan_each (process_id ∷ rest) = do ignored ← scan_process_pages process_id; scan_each rest

  unfoldable pub scan_opted_in_processes : Action k Status
  unfolding scan_each
  scan_opted_in_processes = do
    acquire
    process_list ← (λ s. some (take 256 (process_ids k s), s))
    release
    (scan_each process_list >> pure success)

  -- The thread, with what KeReadStateEvent tells in each round: whether it is to stop. The fuel is
  -- the number of rounds with a scan; with none left and the event not set it has not returned.
  unfoldable pub page_scan_thread : ℕ → (ℕ → Bool) → Action k (Unit {0})
  unfolding scan_opted_in_processes
  page_scan_thread zero events s = elim (events 0) [ true ↦ some (tt, s) | false ↦ none ]
  page_scan_thread (suc fuel) events s = elim (events 0) [
    | true ↦ some (tt, s)
    | false ↦ (do ignored ← scan_opted_in_processes; page_scan_thread fuel (λ i. events (suc i))) s
  ]
