-- ===== src/Driver/Query/Laws.antt =====
-- What the two queries report.
use project_ram_crisis.Prelude.{
  ℕ, ◌+◌, ◌<◌, ◌≡◌, refl, inl, inr, ap, ◌∙◌, Bool, List, [], ◌∷◌, some, length, count_if, ltb,
  arith, u32_mod, add32, if◌then◌else◌, Bool-cases,
}
use project_ram_crisis.Driver.Kernel.{Kernel}
use project_ram_crisis.Driver.Data.{PageEntry, success}
use project_ram_crisis.Driver.State.{DriverState}
use project_ram_crisis.Driver.State.Lock.{IsFree, lock, unlock-lock, guarded_map}
use project_ram_crisis.Driver.Query.{
  count_duplicates, QueryReply, too_small, stats_of, query_dedupe_stats,
}

abbrev pub is_duplicate : PageEntry → Bool
is_duplicate entry = ltb 1 entry.reference_count

count_duplicates-from :
    (count : ℕ) (entries : List PageEntry)
    → count + length entries < u32_mod
    → count_duplicates count entries ≡ count + count_if is_duplicate entries
unfolding count_duplicates
count_duplicates-from count [] few = omega arith
count_duplicates-from count (entry ∷ rest) few =
    ground (arith, count_duplicates-from count rest, count_duplicates-from (add32 count 1) rest)

-- A report that fits.
abbrev pub reply_of : {A : Type 0} → ℕ → A → QueryReply A
reply_of size a = record { status = success; information = size; output = some a }

module _ (k : Kernel) where
  abbrev pub duplicates : DriverState k → ℕ
  duplicates s = count_if is_duplicate (k.tables.elements s.context.page_table)

  count-duplicates :
      (s : DriverState k)
      → length (k.tables.elements s.context.page_table) < u32_mod
      → count_duplicates 0 (k.tables.elements s.context.page_table) ≡ duplicates s
  count-duplicates s few =
      omega (arith, count_duplicates-from 0 (k.tables.elements s.context.page_table) (omega arith))

  pub query_dedupe_stats_lem :
      (output_length : ℕ) (s : DriverState k)
      → IsFree s
      → length (k.tables.elements s.context.page_table) < u32_mod
      → query_dedupe_stats k output_length s
        ≡ some (
          if ltb output_length 12
              then too_small
              else reply_of 12 (record (stats_of k s) { duplicate_page_entries = duplicates s }),
          s,
        )
  unfolding query_dedupe_stats
  query_dedupe_stats_lem output_length s free few = elim (Bool-cases (ltb output_length 12)) [
    | inl short ↦ rw short
    | inr room ↦ rw room (
        guarded_map (λ t. some (stats_of k t, t)) (reply_of 12) s (lock s) (stats_of k s) free refl
          refl
        ∙ ap (λ t. some (reply_of 12 (stats_of k s), t)) (unlock-lock s free)
        ∙ ap (λ n. some (reply_of 12 (record (stats_of k s) { duplicate_page_entries = n }), s))
            (count-duplicates s few))
  ]
