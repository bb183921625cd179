-- ===== src/Driver/Data.antt =====
-- The records of driver/deduper.h. UINT64 and PFN_NUMBER are 64 bits wide, ULONG and UINT32 are 32.
use project_ram_crisis.Prelude.{ℕ, Bool, List, [], ◌∷◌}

pub record PageSignature : Type 0 where
  pub hash : ℕ
  pub fingerprint : ℕ

pub record ProcessOptInEntry : Type 0 where
  pub process_id : ℕ

-- The array `PageFrameNumbers` is the list of its first `PageFrameCount` entries, so the count is
-- the length of the list. Of what stands behind them only the first place is ever read, where the
-- count is 0: `left_over` is what it holds then.
pub record SharedPageGroup : Type 0 where
  pub signature : PageSignature
  pub reference_count : ℕ
  pub page_frame_numbers : List ℕ
  pub left_over : ℕ

pub record CowProtectedPage : Type 0 where
  pub page_frame_number : ℕ

pub record CowPrivatePage : Type 0 where
  pub page_frame_number : ℕ
  pub private_page_address : ℕ

-- No number is ever taken out of the array of a PageEntry, so it has nothing left over.
pub record PageEntry : Type 0 where
  pub signature : PageSignature
  pub reference_count : ℕ
  pub page_frame_numbers : List ℕ
  pub shared : Bool

-- RTL_NUMBER_OF(PageFrameNumbers).
abbrev pub max_page_frames : ℕ
max_page_frames = 64

-- `PageFrameNumbers[0]`, with what it holds where the count is 0.
abbrev pub first_frame : ℕ → List ℕ → ℕ
first_frame left_over [] = left_over
first_frame left_over (pfn ∷ rest) = pfn

pub record DedupeDriverStats : Type 0 where
  pub opted_in_process_count : ℕ
  pub total_page_entries : ℕ
  pub duplicate_page_entries : ℕ

pub record DedupeDriverHealth : Type 0 where
  pub opted_in_process_count : ℕ
  pub total_page_entries : ℕ
  pub duplicate_page_entries : ℕ
  pub shared_page_groups : ℕ
  pub cow_protected_pages : ℕ
  pub cow_private_copies : ℕ
  pub cow_interception_active : Bool

-- NTSTATUS, with the codes that the driver names. Another code comes from the kernel.
pub data Status : Type 0 where
  success invalid_parameter insufficient_resources not_found not_supported : Status
  unsuccessful buffer_too_small buffer_overflow invalid_device_request : Status
  kernel_failure : ℕ → Status
