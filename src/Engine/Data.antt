-- ===== src/Engine/Data.antt =====
-- The records of user/dedupe_engine.h. A size_t is 64 bits wide, and a byte is a number.
use project_ram_crisis.Prelude.{ℕ, Bool, false, true, List, ◌==◌, ◌&&◌, size_max}

-- `PageSize`.
abbrev pub page_size : ℕ
page_size = 4096

pub record PageSignature : Type 0 where
  pub hash : ℕ
  pub fingerprint : ℕ

-- `PageSignatureEq`, by which the signature map compares its keys.
unfoldable pub signature_eq : PageSignature → PageSignature → Bool
signature_eq a b = a.hash == b.hash && a.fingerprint == b.fingerprint

-- `Page`; its field `data` is `bytes` here.
pub record Page : Type 0 where
  pub bytes : List ℕ
  pub home_index : ℕ
  pub shared : Bool

-- The constructor of `Page`.
unfoldable pub new_page : List ℕ → Page
new_page bytes = record { bytes = bytes; home_index = size_max; shared = false }

-- `Page::isShared`.
abbrev pub is_shared : Page → Bool
is_shared page = page.shared

-- `Page::markShared`.
unfoldable pub mark_shared : Page → ℕ → Page
mark_shared page representative = record page { home_index = representative; shared = true }

pub record MemoryRegion : Type 0 where
  pub name : List ℕ
  pub opt_in : Bool
  pub pages : List Page

-- `DedupeEngine::Stats`, which is the whole state of an engine.
pub record Stats : Type 0 where
  pub pages_scanned : ℕ
  pub duplicate_pages : ℕ
  pub unique_pages : ℕ
  pub bytes_saved : ℕ
  pub collision_probes : ℕ
  pub writes_emulated : ℕ
  pub write_cow_events : ℕ

abbrev pub no_stats : Stats
no_stats = record {
  pages_scanned = 0;
  duplicate_pages = 0;
  unique_pages = 0;
  bytes_saved = 0;
  collision_probes = 0;
  writes_emulated = 0;
  write_cow_events = 0;
}
