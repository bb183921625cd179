-- ===== src/Driver/Kernel.antt =====
-- What the driver takes from the Windows kernel: interfaces with the documented behaviour that the
-- driver relies on. Nothing here is code of the repository.
use project_ram_crisis.Prelude.{
  ℕ, zero, suc, ◌≤◌, ◌≡◌, ◌⊎◌, inl, inr, refl, Bool, true, false, List, [], ◌∷◌, Option, none, some,
  length, set, ℤ, pos, negsuc, ltb,
}

-- RTL_GENERIC_COMPARE_RESULTS has 0 for GenericLessThan, 1 for GenericGreaterThan and 2 for
-- GenericEqual. An answer that says "not equal" is one of the first two; nothing is documented for
-- an answer that is none of the three.
abbrev pub says_unequal : ℤ → Bool
says_unequal (pos n) = ltb n 2
says_unequal (negsuc n) = false

module _ {A : Type 0} where
  -- The routine says that the key equals no entry, whichever of the two it is given first.
  abbrev pub Differs : (A → A → ℤ) → A → List A → Type 0
  Differs compare key [] = Unit
  Differs compare key (x ∷ xs) =
      (says_unequal (compare key x) ≡ true)
      × (says_unequal (compare x key) ≡ true)
      × Differs compare key xs

  abbrev pub insert_at : ℕ → A → List A → List A
  insert_at zero a xs = a ∷ xs
  insert_at (suc i) a [] = a ∷ []
  insert_at (suc i) a (x ∷ xs) = x ∷ insert_at i a xs

-- RTL_GENERIC_TABLE. `elements` are the entries in the order of the enumeration, and a pointer to
-- an entry is its place there. The laws speak only of a key that the routine says equals no entry:
-- it is not found, it is inserted as a new entry, and it is not deleted.
pub record GenericTables : Type 1 where
  pub Table : Type 0 → Type 0
  pub empty : (A : Type 0) → Table A
  pub elements : {A : Type 0} → Table A → List A
  pub lookup : {A : Type 0} → (A → A → ℤ) → Table A → A → Option ℕ
  -- The flag says whether the allocation routine has memory for a new entry. The result is the
  -- place of the entry and whether it is new, or `none` for a null pointer.
  pub insert : {A : Type 0} → (A → A → ℤ) → Bool → Table A → A → Option (Table A × ℕ × Bool)
  pub delete : {A : Type 0} → (A → A → ℤ) → Table A → A → Table A × Bool
  -- The table after a write through a pointer to an entry.
  pub assign : {A : Type 0} → Table A → ℕ → A → Table A
  pub elements_empty : (A : Type 0) → elements (empty A) ≡ []
  pub elements_assign :
      {A : Type 0} (t : Table A) (i : ℕ) (a : A) → elements (assign t i a) ≡ set (elements t) i a
  pub lookup_new :
      {A : Type 0} (compare : A → A → ℤ) (t : Table A) (key : A)
      → Differs compare key (elements t)
      → lookup compare t key ≡ none
  pub insert_full :
      {A : Type 0} (compare : A → A → ℤ) (t : Table A) (key : A)
      → Differs compare key (elements t)
      → insert compare false t key ≡ none
  pub insert_new :
      {A : Type 0} (compare : A → A → ℤ) (t : Table A) (key : A)
      → Differs compare key (elements t)
      → (t' : Table A) × (i : ℕ) × (insert compare true t key ≡ some (t', i, true))
        × (i ≤ length (elements t))
        × (elements t' ≡ insert_at i key (elements t))
  pub delete_new :
      {A : Type 0} (compare : A → A → ℤ) (t : Table A) (key : A)
      → Differs compare key (elements t)
      → delete compare t key ≡ (t, false)

-- FAST_MUTEX. It is not recursive: a thread that owns it and acquires it again never returns,
-- which is `none`.
pub record FastMutexes : Type 1 where
  pub Mutex : Type 0
  pub free : Mutex
  pub held : Mutex
  pub acquire : Mutex → Option Mutex
  pub release : Mutex → Mutex
  pub acquire_free : acquire free ≡ some held
  pub acquire_held : acquire held ≡ none
  pub release_held : release held ≡ free

-- The pages of physical memory: whether MmMapIoSpace maps one, whether RtlCompareMemory finds two
-- equal over PAGE_SIZE bytes, and the address that MmGetPhysicalAddress gives, if it does not raise.
pub record PhysicalMemory : Type 0 where
  pub maps : ℕ → Bool
  pub same_page : ℕ → ℕ → Bool
  pub physical_address : ℕ → Option ℕ

-- PsLookupProcessByProcessId returns a process, or fails with a code.
pub data ProcessLookup (P : Type 0) : Type 0 where
  failed : ℕ → ProcessLookup P
  found : P → ProcessLookup P

pub record Processes : Type 1 where
  pub Process : Type 0
  pub lookup_process : ℕ → ProcessLookup Process
  pub is_system_process : Process → Bool
  pub image_file_name : Process → Option (List ℕ)

pub record Kernel : Type 1 where
  pub tables : GenericTables
  pub mutexes : FastMutexes
  pub memory : PhysicalMemory
  pub processes : Processes

pub ProcessLookup-cases :
    {P : Type 0} (l : ProcessLookup P) → ((c : ℕ) × (l ≡ failed c)) ⊎ ((p : P) × (l ≡ found p))
ProcessLookup-cases (failed c) = inl (c, refl)
ProcessLookup-cases (found p) = inr (p, refl)
