-- ===== src/Driver/Query/Unseen.antt =====
-- What the statistics say of identical pages that went into the page table.
use project_ram_crisis.Prelude.{
  ℕ, ◌+◌, ◌≤◌, ◌<◌, ◌≡◌, refl, ap, ◌∙◌, true, List, [], ◌∷◌, some, length, count_if, le→ltb, arith,
  u32_mod, if◌then◌else◌,
}
use project_ram_crisis.Driver.Kernel.{Kernel}
use project_ram_crisis.Driver.Data.{PageSignature, PageEntry, DedupeDriverStats}
use project_ram_crisis.Driver.State.{DriverState}
use project_ram_crisis.Driver.State.Lock.{IsFree}
use project_ram_crisis.Driver.Groups.{Rooms}
use project_ram_crisis.Driver.Pages.{new_entry}
use project_ram_crisis.Driver.Pages.Laws.{
  page_entries, AllNew, AreIdentical, AllOf, add_pages, add_pages-AllNew,
}
use project_ram_crisis.Driver.Query.{stats_of, too_small, query_dedupe_stats}
use project_ram_crisis.Driver.Query.Laws.{
  is_duplicate, duplicates, reply_of, query_dedupe_stats_lem,
}

module _ (k : Kernel) (signature : PageSignature) (P : ℕ → Type 0) where
  count_if-AllNew :
      (entries : List PageEntry) → AllNew k signature P entries → count_if is_duplicate entries ≡ 0
  count_if-AllNew [] all = refl
  count_if-AllNew (entry ∷ rest) ((pfn, p, e), all) =
      let single : is_duplicate entry ≡ is_duplicate (new_entry pfn signature) =
        ap is_duplicate e in
      ground (arith, count_if-AllNew rest all, single)

  -- Let any two page frames of `P` be found identical, and let their pages have one signature. With
  -- memory for entries, the mutex free, entries of such pages only, each new, in the table, and fewer
  -- than 2 ^ 32 of them in the end, the statistics after the calls for any number of these pages count
  -- one entry more for each page, and no duplicate.
  pub query_dedupe_stats-unseen :
      (rooms : Rooms) (frames : List ℕ) (output_length : ℕ) (s : DriverState k)
      → AreIdentical k signature P
      → rooms.page ≡ true
      → IsFree s
      → AllNew k signature P (page_entries k s)
      → AllOf k signature P frames
      → 12 ≤ output_length
      → length frames + length (page_entries k s) < u32_mod
      → (t : DriverState k) × (stats : DedupeDriverStats) × (add_pages k signature P rooms frames s
          ≡ some (tt, t))
        × (query_dedupe_stats k output_length t ≡ some (reply_of 12 stats, t))
        × (stats.total_page_entries ≡ length frames + length (page_entries k s))
        × (stats.duplicate_page_entries ≡ 0)
  query_dedupe_stats-unseen rooms frames output_length s identical room free all of fits few =
      let (t, run, free', all', more) =
        add_pages-AllNew k signature P rooms frames s identical room free all of in
      let stats = record (stats_of k t) { duplicate_page_entries = duplicates k t } in
      (
        t,
        stats,
        run,
        query_dedupe_stats_lem k output_length t free' (omega (arith, more))
            ∙ ap (λ b. some ((if b then too_small else reply_of 12 stats), t))
                (le→ltb output_length 12 fits),
        omega (arith, more),
        count_if-AllNew (page_entries k t) all',
      )
