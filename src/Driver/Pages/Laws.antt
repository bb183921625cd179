-- ===== src/Driver/Pages/Laws.antt =====
-- What `AddPageEntry` does to the page table, and where it never returns.
use project_ram_crisis.Prelude.{
  ℕ, zero, suc, ◌+◌, ◌≡◌, refl, sym, ap, subst, ◌∙◌, Bool, true, false, List, [], ◌∷◌, none, some,
  get_or, length, arith, pos,
}
use project_ram_crisis.Driver.Kernel.{Kernel, Differs, says_unequal, insert_at}
use project_ram_crisis.Driver.Copies.{length-insert_at}
use project_ram_crisis.Driver.Data.{
  PageSignature, PageEntry, SharedPageGroup, success, insufficient_resources, first_frame,
}
use project_ram_crisis.Driver.Compare.{
  compare_page_entries, compare_keys, are_physical_pages_identical,
}
use project_ram_crisis.Driver.State.{DriverState, Action, pure, acquire, release, ◌>>=◌}
use project_ram_crisis.Driver.State.Lock.{
  IsFree, lock, unlock, unlock-lock, step, step-none, acquire-IsFree, release-IsHeld,
}
use project_ram_crisis.Driver.Groups.{Rooms, new_group, compare_groups, mark_page_shared}
use project_ram_crisis.Driver.Groups.Stuck.{mark_page_shared-none}
use project_ram_crisis.Driver.Pages.{
  new_entry, join_entry, is_promoted, Promotion, compare_entries, with_page_table, update_entry,
  insert_page, finish_page, add_page_entry,
}

module _ (k : Kernel) where
  abbrev pub page_entries : DriverState k → List PageEntry
  page_entries s = k.tables.elements s.context.page_table

  -- What follows the part under the mutex.
  add_page_entry-step :
      (rooms : Rooms) (pfn : ℕ) (signature : PageSignature) (s t : DriverState k) (p : Promotion)
      → IsFree s
      → insert_page k rooms.page pfn signature (lock s) ≡ some (p, lock t)
      → add_page_entry k rooms pfn signature s ≡ finish_page k rooms p (unlock t)
  unfolding add_page_entry
  add_page_entry-step rooms pfn signature s t p free run =
      step acquire _ (acquire-IsFree s free)
      ∙ step (insert_page k rooms.page pfn signature) _ run
      ∙ step release _ (release-IsHeld (lock t) refl)

  -- With no memory for an entry and the mutex free, a page that the routine says equals no entry is
  -- refused and nothing changes.
  pub add_page_entry-full :
      (rooms : Rooms) (pfn : ℕ) (signature : PageSignature) (s : DriverState k)
      → IsFree s
      → rooms.page ≡ false
      → Differs (compare_entries k) (new_entry pfn signature) (page_entries s)
      → add_page_entry k rooms pfn signature s ≡ some (insufficient_resources, s)
  unfolding insert_page finish_page
  add_page_entry-full rooms pfn signature s free full differs =
      add_page_entry-step rooms pfn signature s s (insufficient_resources, none) free
        (rw full (
          rw (
            k.tables.insert_full (compare_entries k) s.context.page_table (new_entry pfn signature)
                differs,
            insert_page,
          )))
      ∙ ap (λ t. some (insufficient_resources, t)) (unlock-lock s free)

  -- With memory for an entry and the mutex free, such a page gets an entry of its own; the entries
  -- that were there stay, and the mutex is free afterwards.
  pub add_page_entry-new :
      (rooms : Rooms) (pfn : ℕ) (signature : PageSignature) (s : DriverState k)
      → IsFree s
      → rooms.page ≡ true
      → Differs (compare_entries k) (new_entry pfn signature) (page_entries s)
      → (t : DriverState k) × (i : ℕ) × (add_page_entry k rooms pfn signature s ≡ some (success, t))
        × IsFree t
        × (page_entries t ≡ insert_at i (new_entry pfn signature) (page_entries s))
  unfolding insert_page finish_page
  add_page_entry-new rooms pfn signature s free room differs =
      let (table, i, done, _, now) =
        k.tables.insert_new (compare_entries k) s.context.page_table (new_entry pfn signature)
          differs in
      (
        with_page_table k (unlock s) table,
        i,
        add_page_entry-step rooms pfn signature s (with_page_table k s table) (success, none) free
            (rw room (rw (done, insert_page))),
        refl,
        now,
      )

  -- With the mutex free, `AddPageEntry` never returns where the page table gives an entry that was
  -- there, which the page promotes, and the group table gives an entry for it.
  pub add_page_entry-none :
      (rooms : Rooms) (pfn i j : ℕ) (signature : PageSignature) (new : Bool) (s : DriverState k)
      (table : k.tables.Table PageEntry) (groups : k.tables.Table SharedPageGroup)
      (entry : PageEntry)
      → IsFree s
      → k.tables.insert
          (compare_entries k)
          rooms.page
          s.context.page_table
          (new_entry pfn signature)
        ≡ some (table, i, false)
      → get_or (k.tables.elements table) i (new_entry pfn signature) ≡ entry
      → is_promoted (join_entry pfn entry) ≡ true
      → k.tables.insert
          (compare_groups k)
          rooms.group
          s.context.shared_group_table
          (new_group (first_frame 0 entry.page_frame_numbers) entry.signature)
        ≡ some (groups, j, new)
      → add_page_entry k rooms pfn signature s ≡ none
  unfolding update_entry insert_page finish_page
  add_page_entry-none rooms pfn i j signature new s table groups entry free old at promoted group =
      let marked = k.tables.assign table i (record (join_entry pfn entry) { shared = true }) in
      let t = with_page_table k s marked in
      let frame = first_frame 0 entry.page_frame_numbers in
      add_page_entry-step rooms pfn signature s t (success, some (frame, entry.signature)) free
        (rw (old, insert_page) (ap (λ e. update_entry k pfn i e table (lock s)) at ∙ rw promoted))
      ∙ step-none (mark_page_shared k rooms frame entry.signature) _
          (mark_page_shared-none k rooms frame j entry.signature new (unlock t) groups refl group)

-- The page frames of one content: any two of them are found identical.
module _ (k : Kernel) (signature : PageSignature) (P : ℕ → Type 0) where
  -- Each entry is as it was made, for one of these page frames: alone in it, counted once, and not
  -- shared.
  abbrev pub AllNew : List PageEntry → Type 0
  AllNew [] = Unit
  AllNew (entry ∷ rest) = ((pfn : ℕ) × P pfn × (entry ≡ new_entry pfn signature)) × AllNew rest

  abbrev pub AreIdentical : Type 0
  AreIdentical = (a b : ℕ) → P a → P b → are_physical_pages_identical k.memory a b ≡ true

  -- The scan's calls for these pages, one after the other; each status is ignored.
  unfoldable pub add_pages : Rooms → List ℕ → Action k (Unit {0})
  add_pages rooms [] = pure tt
  add_pages rooms (pfn ∷ rest) = do
    ignored ← add_page_entry k rooms pfn signature
    add_pages rooms rest

  abbrev pub AllOf : List ℕ → Type 0
  AllOf [] = Unit
  AllOf (pfn ∷ rest) = P pfn × AllOf rest

  -- `ComparePageEntries` answers 0 for identical pages, which is GenericLessThan.
  compare-identical :
      (a b : ℕ)
      → are_physical_pages_identical k.memory a b ≡ true
      → compare_page_entries k.memory (new_entry a signature) (new_entry b signature) ≡ pos 0
  unfolding compare_page_entries compare_keys
  compare-identical a b same = ground (arith, same)

  module _ (identical : AreIdentical) where
    pub AllNew-Differs :
        (pfn : ℕ) (entries : List PageEntry)
        → P pfn
        → AllNew entries
        → Differs (compare_entries k) (new_entry pfn signature) entries
    AllNew-Differs pfn [] p all = tt
    AllNew-Differs pfn (entry ∷ rest) p ((q, pq, e), all) = (
      ap (λ x. says_unequal (compare_entries k (new_entry pfn signature) x)) e
          ∙ ap says_unequal (compare-identical pfn q (identical pfn q p pq)),
      ap (λ x. says_unequal (compare_entries k x (new_entry pfn signature))) e
          ∙ ap says_unequal (compare-identical q pfn (identical q pfn pq p)),
      AllNew-Differs pfn rest p all,
    )

    pub insert_at-AllNew :
        (i pfn : ℕ) (entries : List PageEntry)
        → P pfn
        → AllNew entries
        → AllNew (insert_at i (new_entry pfn signature) entries)
    insert_at-AllNew zero pfn entries p all = ((pfn, p, refl), all)
    insert_at-AllNew (suc i) pfn [] p all = ((pfn, p, refl), tt)
    insert_at-AllNew (suc i) pfn (entry ∷ rest) p all = (all.0, insert_at-AllNew i pfn rest p all.1)

  -- Let any two page frames of `P` be found identical, and let their pages have one signature. With
  -- memory for entries, the mutex free, and entries of such pages only, each new, in the table, the
  -- calls for any number of them return with the mutex free: the table has one entry more for each
  -- page, and every entry is still new, so no page is joined to another and none is shared.
  pub add_pages-AllNew :
      (rooms : Rooms) (frames : List ℕ) (s : DriverState k)
      → AreIdentical
      → rooms.page ≡ true
      → IsFree s
      → AllNew (page_entries k s)
      → AllOf frames
      → (t : DriverState k) × (add_pages rooms frames s ≡ some (tt, t))
        × IsFree t
        × AllNew (page_entries k t)
        × (length (page_entries k t) ≡ length frames + length (page_entries k s))
  unfolding add_pages
  add_pages-AllNew rooms [] s identical room free all of = (s, refl, free, all, omega arith)
  add_pages-AllNew rooms (pfn ∷ rest) s identical room free all (p, of) =
      let (t, i, run, free', now) =
        add_page_entry-new k rooms pfn signature s free room
          (AllNew-Differs identical pfn (page_entries k s) p all) in
      let (u, later, free'', all', more) =
        add_pages-AllNew rooms rest t identical room free'
          (subst AllNew (sym now) (insert_at-AllNew identical i pfn (page_entries k s) p all)) of in
      (
        u,
        step (add_page_entry k rooms pfn signature) _ run ∙ later,
        free'',
        all',
        omega (
          arith,
          more,
          ap length now ∙ length-insert_at i (new_entry pfn signature) (page_entries k s),
        ),
      )
