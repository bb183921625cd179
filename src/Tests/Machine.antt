-- ===== src/Tests/Machine.antt =====
-- A kernel that computes: its tables are lists, its mutex is a flag, and it has one system process.
use project_ram_crisis.Prelude.{
  ℕ, zero, suc, ◌≡◌, refl, Bool, true, false, List, [], Option, none, some, set, ℤ, if◌then◌else◌,
  ◌==◌, ltb, arith, ◌%◌, ◌∷◌,
}
use project_ram_crisis.Driver.Kernel.{
  GenericTables, FastMutexes, PhysicalMemory, Processes, failed, found, Kernel, Differs,
  says_unequal,
}
use project_ram_crisis.Driver.Policy.{codes}
use project_ram_crisis.Driver.State.{DriverState}

-- The tables of this kernel take any answer but GenericLessThan and GenericGreaterThan, of the routine
-- with the key first, for GenericEqual.
module _ {A : Type 0} where
  abbrev pub find_match : (A → A → ℤ) → A → List A → Option ℕ
  find_match compare key [] = none
  find_match compare key (x ∷ xs) = elim (says_unequal (compare key x)) [
    | false ↦ some 0
    | true ↦ elim (find_match compare key xs) [ none ↦ none | some i ↦ some (suc i) ]
  ]

  abbrev pub remove_at : ℕ → List A → List A
  remove_at i [] = []
  remove_at zero (x ∷ xs) = xs
  remove_at (suc i) (x ∷ xs) = x ∷ remove_at i xs

  abbrev pub list_insert : (A → A → ℤ) → Bool → List A → A → Option (List A × ℕ × Bool)
  list_insert compare room t key = elim (find_match compare key t) [
    | some i ↦ some (t, i, false)
    | none ↦ if room then some (key ∷ t, 0, true) else none
  ]

  abbrev pub list_delete : (A → A → ℤ) → List A → A → List A × Bool
  list_delete compare t key = elim (find_match compare key t) [
    | some i ↦ (remove_at i t, true)
    | none ↦ (t, false)
  ]

  pub find_match-none :
      (compare : A → A → ℤ) (t : List A) (key : A)
      → Differs compare key t
      → find_match compare key t ≡ none
  find_match-none compare [] key differs = refl
  find_match-none compare (x ∷ xs) key differs =
      rw (differs.0, find_match) (rw (find_match-none compare xs key differs.2, find_match))

abbrev pub list_tables : GenericTables
list_tables = record {
  Table = λ A. List A;
  empty = λ A. [];
  elements = λ t. t;
  lookup = λ compare t key. find_match compare key t;
  insert = list_insert;
  delete = list_delete;
  assign = set;
  elements_empty = λ A. refl;
  elements_assign = λ t i a. refl;
  lookup_new = find_match-none;
  insert_full = λ compare t key d. rw (find_match-none compare t key d, list_insert);
  insert_new = λ compare t key d.
      (key ∷ t, 0, rw (find_match-none compare t key d, list_insert), omega arith, refl);
  delete_new = λ compare t key d. rw (find_match-none compare t key d, list_delete);
}

abbrev pub flag_acquire : Bool → Option Bool
flag_acquire false = some true
flag_acquire true = none

abbrev pub flags : FastMutexes
flags = record {
  Mutex = Bool;
  free = false;
  held = true;
  acquire = flag_acquire;
  release = λ m. false;
  acquire_free = refl;
  acquire_held = refl;
  release_held = refl;
}

-- Every page of this memory has the same bytes, and an address is its own physical address.
abbrev pub equal_pages : PhysicalMemory
equal_pages = record {
  maps = λ pfn. true;
  same_page = λ a b. true;
  physical_address = λ address. some address;
}

-- In this memory the pages of the even frames have the same bytes, and those of the odd frames.
abbrev pub striped_pages : PhysicalMemory
striped_pages = record {
  maps = λ pfn. true;
  same_page = λ a b. a % 2 == b % 2;
  physical_address = λ address. none;
}

-- Process 4 is the system's, 8 runs a program, and 12 a service.
abbrev pub some_processes : Processes
some_processes = record {
  Process = ℕ;
  lookup_process = λ process_id. if ltb 12 process_id then failed 1 else found process_id;
  is_system_process = λ process. process == 4;
  image_file_name = λ process. some (codes (if process == 12 then "LSASS.exe" else "calc.exe"));
}

abbrev pub machine : Kernel
machine = record {
  tables = list_tables;
  mutexes = flags;
  memory = equal_pages;
  processes = some_processes;
}

-- Process 8 is opted in, and nothing else is there.
abbrev pub quiet : DriverState machine
quiet = record {
  mutex = false;
  context = record {
    process_table = record { process_id = 8 } ∷ [];
    page_table = [];
    shared_group_table = [];
    cow_protected_table = record { page_frame_number = 3 } ∷ [];
    cow_private_table = [];
  };
  cow_interception_active = true;
  callback_registered = false;
  callback_handle = none;
}
