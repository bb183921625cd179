-- ===== src/Driver/Scanner/Unseen.antt =====
-- The scanner's thread over processes whose pages are all identical.
use project_ram_crisis.Prelude.{
  ℕ, ◌+◌, ◌/◌, ◌^◌, ◌<◌, ◌≡◌, sym, subst, ap, ◌∙◌, inl, inr, Bool, true, List, some, u64_mod,
  Bool-cases, Option-cases,
}
use project_ram_crisis.Driver.Kernel.{Kernel}
use project_ram_crisis.Driver.Data.{PageSignature, Status}
use project_ram_crisis.Driver.State.{DriverState}
use project_ram_crisis.Driver.State.Lock.{IsFree, step}
use project_ram_crisis.Driver.Groups.{Rooms}
use project_ram_crisis.Driver.Pages.{add_page_entry}
use project_ram_crisis.Driver.Pages.Laws.{
  page_entries, AllNew, AreIdentical, AllNew-Differs, insert_at-AllNew, add_page_entry-new,
  add_page_entry-full,
}
use project_ram_crisis.Driver.Scanner.{
  MemoryInformation, query_found, AddressSpace, UserMemory, make_page_signature, scan_page,
  page_scan_thread,
}
use project_ram_crisis.Driver.Scanner.Ends.{Returns}
use project_ram_crisis.Driver.Scanner.Rounds.{page_scan_thread-Returns}

module _ (k : Kernel) (user : UserMemory (k.processes.Process)) (rooms : ℕ → Rooms)
    (signature : PageSignature) (P : ℕ → Type 0) where
  -- Every page that can be read has the signature, and every page frame is of `P`. A region that is
  -- found for an address goes on beyond it, and no address leaves the 64 bits.
  pub record IsUniform (space : AddressSpace) : Type 0 where
    pub content :
        (address : ℕ) (words : List ℕ)
        → space.read_words address ≡ some words
        → make_page_signature words ≡ signature
    pub frame :
        (address physical : ℕ)
        → space.physical_address address ≡ some physical
        → P (physical / 2 ^ 12)
    pub goes_on :
        (current : ℕ) (m : MemoryInformation)
        → space.query current ≡ query_found m
        → (current < m.base_address + m.region_size)
          × (m.base_address + m.region_size + 4096 < u64_mod)

  -- The mutex is free, and each page entry is as it was made.
  pub record IsUnseen (s : DriverState k) : Type 0 where
    pub free : IsFree s
    pub all : AllNew k signature P (page_entries k s)

  module _ (identical : AreIdentical k signature P) where
    add_page_entry-IsUnseen :
        (room : Rooms) (pfn : ℕ) (s : DriverState k)
        → P pfn
        → IsUnseen s
        → (status : Status) × (t : DriverState k) × (add_page_entry k room pfn signature s
            ≡ some (status, t))
          × IsUnseen t
    add_page_entry-IsUnseen room pfn s p unseen =
        let differs = AllNew-Differs k signature P identical pfn (page_entries k s) p unseen.all in
        elim (Bool-cases room.page) [
          | inr full ↦
              (_, s, add_page_entry-full k room pfn signature s unseen.free full differs, unseen)
          | inl some_room ↦
              let (t, i, run, free, now) =
                add_page_entry-new k room pfn signature s unseen.free some_room differs in
              (
                _,
                t,
                run,
                record {
                  free = free;
                  all = subst (AllNew k signature P) (sym now) (
                      insert_at-AllNew k signature P identical i pfn (page_entries k s) p
                        unseen.all);
                },
              )
        ]

    scan_page-IsUnseen :
        (space : AddressSpace) (address : ℕ) (s : DriverState k)
        → IsUniform space
        → IsUnseen s
        → Returns k user rooms IsUnseen (scan_page k user rooms space address s)
    unfolding scan_page
    scan_page-IsUnseen space address s uniform unseen =
        elim (Option-cases (space.read_words address)) [
          | inl unreadable ↦ (s, rw (unreadable, scan_page), unseen)
          | inr (words, read) ↦ elim (Option-cases (space.physical_address address)) [
            | inl unmapped ↦ (s, rw (read, scan_page) (rw (unmapped, scan_page)), unseen)
            | inr (physical, mapped) ↦
                let (status, t, run, unseen') =
                  add_page_entry-IsUnseen (rooms address) (physical / 2 ^ 12) s
                    (uniform.frame address physical mapped) unseen in
                let run' : add_page_entry k (rooms address) (physical / 2 ^ 12)
                      (make_page_signature words) s
                    ≡ some (status, t) =
                  ap (λ x. add_page_entry k (rooms address) (physical / 2 ^ 12) x s)
                    (uniform.content address words read)
                  ∙ run in
                (
                  t,
                  rw (read, scan_page)
                      (rw (mapped, scan_page)
                        (step
                          (add_page_entry k (rooms address) (physical / 2 ^ 12)
                            (make_page_signature words))
                          _ run')),
                  unseen',
                )
          ]
        ]

  -- Let any two page frames of `P` be found identical, and let the pages of every process have one
  -- signature and frames of `P`; let a region that is found for an address go on beyond it, and no
  -- address leave the 64 bits. From a state with the mutex free and page entries of such pages only,
  -- each new, the scanner's thread ends by a round in which the event is set, whatever memory there is
  -- for entries; and each page entry is then still new, so no page was joined to another or shared.
  pub page_scan_thread-IsUnseen :
      (round : ℕ) (events : ℕ → Bool) (s : DriverState k)
      → AreIdentical k signature P
      → ((process : k.processes.Process) → IsUniform (user.space process))
      → user.highest + 4096 < u64_mod
      → IsUnseen s
      → events round ≡ true
      → (t : DriverState k) × (page_scan_thread k user rooms round events s ≡ some (tt, t))
        × IsUnseen t
  page_scan_thread-IsUnseen round events s identical uniform highest unseen set =
      page_scan_thread-Returns k user rooms IsUnseen round events s
        (λ process. record {
          goes_on = (uniform process).goes_on;
          highest_bound = highest;
          visits = λ address t u.
              scan_page-IsUnseen identical (user.space process) address t (uniform process) u;
        })
        (λ t u. u.free) unseen set
