-- ===== src/Driver/Drain/Laws.antt =====
-- The drain of a page table of identical pages.
use project_ram_crisis.Prelude.{
  ℕ, zero, suc, ◌≡◌, sym, ap, subst, ◌∙◌, Bool, true, false, List, ◌∷◌, none, some,
}
use project_ram_crisis.Driver.Kernel.{Kernel, Differs}
use project_ram_crisis.Driver.Data.{PageSignature, PageEntry}
use project_ram_crisis.Driver.State.{DriverState, Action, ◌>>◌}
use project_ram_crisis.Driver.State.Lock.{step}
use project_ram_crisis.Driver.Pages.{compare_entries, with_page_table}
use project_ram_crisis.Driver.Pages.Laws.{page_entries, AllNew, AreIdentical, AllNew-Differs}
use project_ram_crisis.Driver.Drain.{unmark_all, delete_entry, drain_entry, drain_loop}

module _ (k : Kernel) where
  -- A round for an entry that is not shared and that the routine says equals no entry of the table
  -- leaves everything as it was.
  drain_entry-stays :
      (entry : PageEntry) (s : DriverState k)
      → entry.shared ≡ false
      → Differs (compare_entries k) entry (page_entries k s)
      → drain_entry k entry s ≡ some (tt, s)
  unfolding drain_entry delete_entry
  drain_entry-stays entry s unshared differs =
      ap
        (λ (b : Bool).
          let drained : Action k (Unit {0}) = elim b [
            | true ↦ unmark_all k entry.page_frame_numbers entry.signature >> delete_entry k entry
            | false ↦ delete_entry k entry
          ] in
          drained s)
        unshared
      ∙ ap (λ r. some (tt, with_page_table k s r.0))
          (k.tables.delete_new (compare_entries k) s.context.page_table entry differs)

  drain_loop-stays :
      (fuel : ℕ) (entry : PageEntry) (rest : List PageEntry) (s : DriverState k)
      → page_entries k s ≡ entry ∷ rest
      → entry.shared ≡ false
      → Differs (compare_entries k) entry (page_entries k s)
      → drain_loop k fuel s ≡ none
  unfolding drain_loop
  drain_loop-stays zero entry rest s here unshared differs = rw (here, drain_loop)
  drain_loop-stays (suc fuel) entry rest s here unshared differs =
      rw (here, drain_loop)
        (step (drain_entry k entry) _ (drain_entry-stays entry s unshared differs)
          ∙ drain_loop-stays fuel entry rest s here unshared differs)

  -- Let any two page frames of `P` be found identical, and let their pages have one signature. The
  -- drain of a table whose entries are of such pages only, each new, and which has one, does not end
  -- after any number of rounds.
  pub drain_loop-none :
      (fuel : ℕ) (signature : PageSignature) (P : ℕ → Type 0) (entry : PageEntry)
      (rest : List PageEntry) (s : DriverState k)
      → AreIdentical k signature P
      → page_entries k s ≡ entry ∷ rest
      → AllNew k signature P (page_entries k s)
      → drain_loop k fuel s ≡ none
  drain_loop-none fuel signature P entry rest s identical here all =
      let ((pfn, p, e), _) : AllNew k signature P (entry ∷ rest) =
        subst (AllNew k signature P) here all in
      drain_loop-stays fuel entry rest s here (ap (λ (x : PageEntry). x.shared) e) (
        subst (λ x. Differs (compare_entries k) x (page_entries k s)) (sym e)
          (AllNew-Differs k signature P identical pfn (page_entries k s) p all))
