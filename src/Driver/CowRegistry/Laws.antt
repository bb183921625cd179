-- ===== src/Driver/CowRegistry/Laws.antt =====
-- What becomes of a page frame that is registered as COW-protected.
use project_ram_crisis.Prelude.{
  ℕ, zero, suc, ◌≡◌, refl, sym, ap, subst, ◌∙◌, true, false, List, [], ◌∷◌, map, some, arith,
  length,
}
use project_ram_crisis.Driver.Kernel.{Kernel, Differs, insert_at}
use project_ram_crisis.Driver.Data.{CowProtectedPage, success}
use project_ram_crisis.Driver.Compare.{compare_cow_protected_pages}
use project_ram_crisis.Driver.Copies.{AllAre, insert_at-AllAre, length-insert_at}
use project_ram_crisis.Driver.State.{DriverState, gets, is_some}
use project_ram_crisis.Driver.State.Lock.{IsFree, lock, unlock, unlock-lock, guarded_lem}
use project_ram_crisis.Driver.CowRegistry.{
  protected_page, with_cow_table, insert_protected, register_cow_protected_page,
  is_cow_protected_pfn,
}

-- `CompareCowProtectedPages` answers 0 for two entries of one page frame, which is GenericLessThan.
AllAre-Differs :
    (pfn : ℕ) (entries : List CowProtectedPage)
    → AllAre pfn (map (λ e. e.page_frame_number) entries)
    → Differs compare_cow_protected_pages (protected_page pfn) entries
unfolding compare_cow_protected_pages
AllAre-Differs pfn [] all = tt
AllAre-Differs pfn (e ∷ rest) all =
    (ground (arith, all.0), ground (arith, all.0), AllAre-Differs pfn rest all.1)

frames-insert_at :
    (i : ℕ) (e : CowProtectedPage) (entries : List CowProtectedPage)
    → map (λ x. x.page_frame_number) (insert_at i e entries)
      ≡ insert_at i e.page_frame_number (map (λ x. x.page_frame_number) entries)
frames-insert_at zero e entries = refl
frames-insert_at (suc i) e [] = refl
frames-insert_at (suc i) e (x ∷ entries) =
    ap (λ l. x.page_frame_number ∷ l) (frames-insert_at i e entries)

module _ (k : Kernel) where
  abbrev pub protected_frames : DriverState k → List ℕ
  protected_frames s =
      map (λ e. e.page_frame_number) (k.tables.elements s.context.cow_protected_table)

  -- The mutex is free, and no other page frame is protected.
  pub record IsOnly (pfn : ℕ) (s : DriverState k) : Type 0 where
    pub free : IsFree s
    pub all : AllAre pfn (protected_frames s)

  pub register_cow_protected_page-new :
      (pfn : ℕ) (s : DriverState k)
      → IsOnly pfn s
      → (t : DriverState k) × (register_cow_protected_page k true pfn s ≡ some (success, t))
        × IsOnly pfn t
        × (length (protected_frames t) ≡ suc (length (protected_frames s)))
  unfolding register_cow_protected_page insert_protected
  register_cow_protected_page-new pfn s only =
      let (table, i, done, _, now) =
        k.tables.insert_new compare_cow_protected_pages s.context.cow_protected_table
          (protected_page pfn) (AllAre-Differs pfn _ only.all) in
      let frames =
        ap (map (λ (e : CowProtectedPage). e.page_frame_number)) now
        ∙ frames-insert_at i (protected_page pfn)
            (k.tables.elements s.context.cow_protected_table) in
      (
        with_cow_table k (unlock s) table,
        guarded_lem (insert_protected k true pfn) s (with_cow_table k (lock s) table) success
            only.free (rw (done, insert_protected)) refl,
        record {
          free = refl;
          all =
              subst (AllAre pfn) (sym frames)
                (insert_at-AllAre pfn i (protected_frames s) only.all);
        },
        ap length frames ∙ length-insert_at i pfn (protected_frames s),
      )

  pub is_cow_protected_pfn-false :
      (pfn : ℕ) (s : DriverState k) → IsOnly pfn s → is_cow_protected_pfn k pfn s ≡ some (false, s)
  unfolding is_cow_protected_pfn
  is_cow_protected_pfn-false pfn s only =
      guarded_lem
        (gets (λ c.
          is_some (
            k.tables.lookup compare_cow_protected_pages c.cow_protected_table
              (protected_page pfn))))
        s (lock s) _ only.free refl refl
      ∙ ap (λ b. some (b, unlock (lock s)))
          (ap is_some (
            k.tables.lookup_new compare_cow_protected_pages s.context.cow_protected_table
              (protected_page pfn) (AllAre-Differs pfn _ only.all)))
      ∙ ap (λ t. some (false, t)) (unlock-lock s only.free)
