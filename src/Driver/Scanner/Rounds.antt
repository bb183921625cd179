-- ===== src/Driver/Scanner/Rounds.antt =====
-- A round of the scanner over the opted-in processes ends, and so does its thread, if the scan of
-- each page does.
use project_ram_crisis.Prelude.{
  ℕ, zero, suc, ◌≡◌, refl, ap, ◌∙◌, ◌⊎◌, inl, inr, Bool, true, List, [], ◌∷◌, some, arith, take,
  Bool-cases,
}
use project_ram_crisis.Driver.Kernel.{Kernel, ProcessLookup, failed, found}
use project_ram_crisis.Driver.Data.{Status, success, kernel_failure}
use project_ram_crisis.Driver.State.{DriverState, nt_success, pure, acquire, release, ◌>>◌}
use project_ram_crisis.Driver.State.Lock.{
  IsFree, lock, unlock-lock, step, acquire-IsFree, release-IsHeld,
}
use project_ram_crisis.Driver.Registry.{process_ids}
use project_ram_crisis.Driver.Groups.{Rooms}
use project_ram_crisis.Driver.Scanner.{
  UserMemory, scan_address_space, scan_process_pages, scan_each, scan_opted_in_processes,
  page_scan_thread,
}
use project_ram_crisis.Driver.Scanner.Ends.{IsWalkable, walk-Returns}

module _ (k : Kernel) (user : UserMemory (k.processes.Process)) (rooms : ℕ → Rooms)
    (P : DriverState k → Type 0) where
  -- Each process has an address space whose walk ends.
  abbrev pub AreWalkable : Type 0
  AreWalkable = (process : k.processes.Process) → IsWalkable k user rooms P (user.space process)

  module _ (ok : AreWalkable) where
    scan_process_pages-Returns :
        (process_id : ℕ) (s : DriverState k)
        → P s
        → (status : Status) × (t : DriverState k) × (scan_process_pages k user rooms process_id s
            ≡ some (status, t))
          × P t
    unfolding scan_process_pages scan_address_space
    scan_process_pages-Returns process_id s p =
        elim (lookup-cases (k.processes.lookup_process process_id)) [
          | inl (c, e) ↦ (kernel_failure c, s, rw (e, scan_process_pages), p)
          | inr (process, e) ↦ elim (Bool-cases (nt_success (user.open_process process))) [
            | inr closed ↦ (
              user.open_process process,
              s,
              rw (e, scan_process_pages) (rw (closed, scan_process_pages)),
              p,
            )
            | inl opened ↦
                let (t, run, p') =
                  walk-Returns k user rooms P (user.space process) (ok process) user.highest
                    user.lowest s (omega arith) p in
                (
                  success,
                  t,
                  rw (e, scan_process_pages)
                      (rw (opened, scan_process_pages)
                        (step (scan_address_space k user rooms (user.space process)) _ run)),
                  p',
                )
          ]
        ]
      where
        lookup-cases :
            (r : ProcessLookup (k.processes.Process))
            → ((c : ℕ) × (r ≡ failed c)) ⊎ ((process : k.processes.Process) × (r ≡ found process))
        lookup-cases (failed c) = inl (c, refl)
        lookup-cases (found process) = inr (process, refl)

    scan_each-Returns :
        (process_list : List ℕ) (s : DriverState k)
        → P s
        → (t : DriverState k) × (scan_each k user rooms process_list s ≡ some (tt, t)) × P t
    unfolding scan_each
    scan_each-Returns [] s p = (s, refl, p)
    scan_each-Returns (process_id ∷ rest) s p =
        let (status, t, run, p') = scan_process_pages-Returns process_id s p in
        let (u, later, p'') = scan_each-Returns rest t p' in
        (u, step (scan_process_pages k user rooms process_id) _ run ∙ later, p'')

    -- A round over the opted-in processes returns, with success.
    pub scan_opted_in_processes-Returns :
        (s : DriverState k)
        → IsFree s
        → P s
        → (t : DriverState k) × (scan_opted_in_processes k user rooms s ≡ some (success, t)) × P t
    unfolding scan_opted_in_processes
    scan_opted_in_processes-Returns s free p =
        let process_list = take 256 (process_ids k (lock s)) in
        let (t, run, p') = scan_each-Returns process_list s p in
        (
          t,
          step acquire _ (acquire-IsFree s free)
              ∙ step release _ (release-IsHeld (lock s) refl)
              ∙ ap (scan_each k user rooms process_list >> pure success) (unlock-lock s free)
              ∙ step (scan_each k user rooms process_list) _ run,
          p',
        )

  -- Let `P` be kept by the scan of each page, which returns, and let it say that the mutex is free;
  -- let every region that is found for an address end beyond it, and let no address leave the 64
  -- bits. If the event is set in some round, the scanner's thread ends by then, and keeps `P`.
  pub page_scan_thread-Returns :
      (round : ℕ) (events : ℕ → Bool) (s : DriverState k)
      → AreWalkable
      → ((t : DriverState k) → P t → IsFree t)
      → P s
      → events round ≡ true
      → (t : DriverState k) × (page_scan_thread k user rooms round events s ≡ some (tt, t)) × P t
  unfolding page_scan_thread
  page_scan_thread-Returns zero events s ok free p set = (s, rw (set, page_scan_thread), p)
  page_scan_thread-Returns (suc round) events s ok free p set = elim (Bool-cases (events 0)) [
    | inl now ↦ (s, rw (now, page_scan_thread), p)
    | inr later ↦
        let (t, run, p') = scan_opted_in_processes-Returns ok s (free s p) p in
        let (u, rest, p'') =
          page_scan_thread-Returns round (λ i. events (suc i)) t ok free p' set in
        (
          u,
          rw (later, page_scan_thread) (step (scan_opted_in_processes k user rooms) _ run ∙ rest),
          p'',
        )
  ]
