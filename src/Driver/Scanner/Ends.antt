-- ===== src/Driver/Scanner/Ends.antt =====
-- A scan ends, if each page's does.
use project_ram_crisis.Prelude.{
  ℕ, zero, suc, ◌+◌, ◌*◌, ◌/◌, ◌≤◌, ◌<◌, ◌≡◌, refl, ◌∙◌, ◌⊎◌, inl, inr, true, Option, some, ltb,
  ◌==◌, add64, u64_mod, arith, Bool-cases,
}
use project_ram_crisis.Driver.Kernel.{Kernel}
use project_ram_crisis.Driver.Data.{
  Status, success, invalid_parameter, insufficient_resources, not_found, not_supported,
  unsuccessful, buffer_too_small, buffer_overflow, invalid_device_request, kernel_failure,
}
use project_ram_crisis.Driver.State.{DriverState}
use project_ram_crisis.Driver.State.Lock.{step}
use project_ram_crisis.Driver.Groups.{Rooms}
use project_ram_crisis.Driver.Scanner.{
  MemoryInformation, Query, query_failed, query_found, AddressSpace, UserMemory, is_readable,
  region_end, scan_page, scan_pages, scan_memory, walk,
}

module _ (k : Kernel) (user : UserMemory (k.processes.Process)) (rooms : ℕ → Rooms)
    (P : DriverState k → Type 0) where
  -- An action that returns, and keeps `P`.
  abbrev pub Returns : Option (Unit {0} × DriverState k) → Type 0
  Returns r = (t : DriverState k) × (r ≡ some (tt, t)) × P t

  -- What the termination of a walk over an address space rests on: a region that is found for an
  -- address goes on beyond it, and no sum of addresses leaves the 64 bits. And `P` is kept by the
  -- scan of each page, which returns.
  pub record IsWalkable (space : AddressSpace) : Type 0 where
    pub goes_on :
        (current : ℕ) (m : MemoryInformation)
        → space.query current ≡ query_found m
        → (current < m.base_address + m.region_size)
          × (m.base_address + m.region_size + 4096 < u64_mod)
    pub highest_bound : user.highest + 4096 < u64_mod
    pub visits :
        (address : ℕ) (s : DriverState k) → P s → Returns (scan_page k user rooms space address s)

  module _ (space : AddressSpace) (ok : IsWalkable space) where
    scan_pages-more :
        (fuel address end : ℕ) (s t : DriverState k)
        → ltb address end ≡ true
        → scan_page k user rooms space address s ≡ some (tt, t)
        → Returns (scan_pages k user rooms fuel space (add64 address 4096) end t)
        → Returns (scan_pages k user rooms (suc fuel) space address end s)
    unfolding scan_pages
    scan_pages-more fuel address end s t more run (u, rest, p) =
        (u, rw (more, scan_pages) (step (scan_page k user rooms space address) _ run ∙ rest), p)

    scan_pages-Returns :
        (fuel address end : ℕ) (s : DriverState k)
        → end + 4096 < u64_mod
        → end ≤ address + fuel * 4096
        → P s
        → Returns (scan_pages k user rooms fuel space address end s)
    unfolding scan_pages
    scan_pages-Returns zero address end s bound enough p = (s, ground arith, p)
    scan_pages-Returns (suc fuel) address end s bound enough p =
        elim (Bool-cases (ltb address end)) [
          | inr done ↦ (s, rw (done, scan_pages), p)
          | inl more ↦
              let (t, run, p') = ok.visits address s p in
              let enough' : end ≤ add64 address 4096 + fuel * 4096 = ground arith in
              scan_pages-more fuel address end s t more run
                (scan_pages-Returns fuel (add64 address 4096) end t bound enough' p')
        ]

    scan_memory-Returns :
        (m : MemoryInformation) (s : DriverState k)
        → m.base_address + m.region_size + 4096 < u64_mod
        → P s
        → Returns (scan_memory k user rooms space m s)
    unfolding scan_memory region_end
    scan_memory-Returns m s bound p = elim (Bool-cases (is_readable m)) [
      | inr unreadable ↦ (s, rw (unreadable, scan_memory), p)
      | inl readable ↦
          let (t, run, p') =
            scan_pages-Returns (m.region_size / 4096 + 1) m.base_address
              (add64 m.base_address m.region_size) s (omega arith) (omega arith) p in
          (t, rw (readable, scan_memory) run, p')
    ]

    -- One round of the walk, behind the answer of the query.
    walk-found :
        (fuel current : ℕ) (m : MemoryInformation) (s : DriverState k)
        → ltb current user.highest ≡ true
        → space.query current ≡ query_found m
        → ((t : DriverState k) → P t → Returns (walk k user rooms fuel space (region_end m) t))
        → P s
        → Returns (walk k user rooms (suc fuel) space current s)
    unfolding walk
    walk-found fuel current m s below answer rest p =
        let (t, run, p') = scan_memory-Returns m s (ok.goes_on current m answer).1 p in
        elim (Bool-cases (m.region_size == 0)) [
          | inl nothing ↦ (t, rw (below, walk) (rw (answer, walk) (rw (nothing, walk) run)), p')
          | inr some_size ↦
              let (u, later, p'') = rest t p' in
              (
                u,
                rw (below, walk)
                    (rw (answer, walk)
                      (rw (some_size, walk)
                        (step (scan_memory k user rooms space m) _ run ∙ later))),
                p'',
              )
        ]

    walk-failed :
        (fuel current : ℕ) (status : Status) (s : DriverState k)
        → ltb current user.highest ≡ true
        → space.query current ≡ query_failed status
        → Returns (walk k user rooms fuel space (add64 current 4096) s)
        → P s
        → Returns (walk k user rooms (suc fuel) space current s)
    unfolding walk
    walk-failed fuel current invalid_parameter s below answer rest p =
        (s, rw (below, walk) (rw (answer, walk)), p)
    walk-failed fuel current success s below answer (t, run, p') p =
        (t, rw (below, walk) (rw (answer, walk) run), p')
    walk-failed fuel current insufficient_resources s below answer (t, run, p') p =
        (t, rw (below, walk) (rw (answer, walk) run), p')
    walk-failed fuel current not_found s below answer (t, run, p') p =
        (t, rw (below, walk) (rw (answer, walk) run), p')
    walk-failed fuel current not_supported s below answer (t, run, p') p =
        (t, rw (below, walk) (rw (answer, walk) run), p')
    walk-failed fuel current unsuccessful s below answer (t, run, p') p =
        (t, rw (below, walk) (rw (answer, walk) run), p')
    walk-failed fuel current buffer_too_small s below answer (t, run, p') p =
        (t, rw (below, walk) (rw (answer, walk) run), p')
    walk-failed fuel current buffer_overflow s below answer (t, run, p') p =
        (t, rw (below, walk) (rw (answer, walk) run), p')
    walk-failed fuel current invalid_device_request s below answer (t, run, p') p =
        (t, rw (below, walk) (rw (answer, walk) run), p')
    walk-failed fuel current (kernel_failure c) s below answer (t, run, p') p =
        (t, rw (below, walk) (rw (answer, walk) run), p')

    Query-cases :
        (q : Query)
        → ((status : Status) × (q ≡ query_failed status))
          ⊎ ((m : MemoryInformation) × (q ≡ query_found m))
    Query-cases (query_failed status) = inl (status, refl)
    Query-cases (query_found m) = inr (m, refl)

    pub walk-Returns :
        (fuel current : ℕ) (s : DriverState k)
        → user.highest ≤ current + fuel
        → P s
        → Returns (walk k user rooms fuel space current s)
    unfolding walk region_end
    walk-Returns zero current s enough p = (s, ground arith, p)
    walk-Returns (suc fuel) current s enough p = elim (Bool-cases (ltb current user.highest)) [
      | inr done ↦ (s, rw (done, walk), p)
      | inl below ↦ elim (Query-cases (space.query current)) [
        | inl (status, answer) ↦
            let later : user.highest ≤ add64 current 4096 + fuel =
              ground (arith, ok.highest_bound) in
            walk-failed fuel current status s below answer
              (walk-Returns fuel (add64 current 4096) s later p) p
        | inr (m, answer) ↦
            let (ahead, bound) = ok.goes_on current m answer in
            let later : user.highest ≤ add64 m.base_address m.region_size + fuel = omega arith in
            walk-found fuel current m s below answer
              (λ t p'. walk-Returns fuel (region_end m) t later p') p
      ]
    ]
