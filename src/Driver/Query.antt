-- ===== src/Driver/Query.antt =====
-- `QueryDedupeStats` and `QueryDedupeHealth` of driver/deduper.cpp.
pub mod Laws
pub mod Unseen
use project_ram_crisis.Prelude.{
  ℕ, zero, Bool, List, [], ◌∷◌, Option, none, some, ltb, if◌then◌else◌, add32,
}
use project_ram_crisis.Driver.Kernel.{Kernel, GenericTables}
use project_ram_crisis.Driver.Data.{
  PageEntry, DedupeDriverStats, DedupeDriverHealth, Status, success, buffer_too_small,
}
use project_ram_crisis.Driver.State.{
  DriverState, DedupeContext, Action, number_of, pure, acquire, release, ◌>>=◌, ◌>>◌,
}

-- The loop that counts the entries with more than one reference.
pub count_duplicates : ℕ → List PageEntry → ℕ
count_duplicates count [] = count
count_duplicates count (entry ∷ rest) =
    count_duplicates (if ltb 1 entry.reference_count then add32 count 1 else count) rest

-- A status, `*Information`, and what was written to the buffer.
pub record QueryReply (A : Type 0) : Type 0 where
  pub status : Status
  pub information : ℕ
  pub output : Option A

-- sizeof(DedupeDriverStats) and sizeof(DedupeDriverHealth).
abbrev pub sizeof_stats : ℕ
sizeof_stats = 12

abbrev pub sizeof_health : ℕ
sizeof_health = 28

-- `*Information` is not written on the error path: the request has it at 0.
abbrev pub too_small : {A : Type 0} → QueryReply A
too_small = record { status = buffer_too_small; information = 0; output = none }

module _ (k : Kernel) where
  abbrev pub stats_of : DriverState k → DedupeDriverStats
  stats_of s = record {
    opted_in_process_count = number_of (k.tables.elements s.context.process_table);
    total_page_entries = number_of (k.tables.elements s.context.page_table);
    duplicate_page_entries = count_duplicates 0 (k.tables.elements s.context.page_table);
  }

  unfoldable pub query_dedupe_stats : ℕ → Action k (QueryReply DedupeDriverStats)
  unfolding count_duplicates
  query_dedupe_stats output_length = if ltb output_length sizeof_stats then pure too_small else (do
    acquire
    stats ← (λ s. some (stats_of s, s))
    release
    pure (record { status = success; information = sizeof_stats; output = some stats }))

  abbrev pub health_of : DriverState k → DedupeDriverHealth
  health_of s = record {
    opted_in_process_count = number_of (k.tables.elements s.context.process_table);
    total_page_entries = number_of (k.tables.elements s.context.page_table);
    duplicate_page_entries = count_duplicates 0 (k.tables.elements s.context.page_table);
    shared_page_groups = number_of (k.tables.elements s.context.shared_group_table);
    cow_protected_pages = number_of (k.tables.elements s.context.cow_protected_table);
    cow_private_copies = number_of (k.tables.elements s.context.cow_private_table);
    cow_interception_active = s.cow_interception_active;
  }

  unfoldable pub query_dedupe_health : ℕ → Action k (QueryReply DedupeDriverHealth)
  unfolding count_duplicates
  query_dedupe_health output_length =
      if ltb output_length sizeof_health then pure too_small else (do
        acquire
        health ← (λ s. some (health_of s, s))
        release
        pure (record { status = success; information = sizeof_health; output = some health }))
