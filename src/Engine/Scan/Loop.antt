-- ===== src/Engine/Scan/Loop.antt =====
-- The whole loop of `scanRegion` against the reference, by induction on the pages left.
use project_ram_crisis.Prelude.{
  ℕ, suc, ◌+◌, ◌*◌, ◌<◌, ◌≤◌, ◌≡◌, refl, ◌∙◌, inl, inr, Bool, true, false, not, List, [], ◌∷◌, ◌++◌,
  append_assoc, none, some, arith, length, length-append, count_if, get_elem?-append_at,
  set-append_at, add64, u64_mod, size_max, Bool-cases, Option-cases,
}
use project_ram_crisis.Engine.Data.{PageSignature, Page, Stats, no_stats, mark_shared, page_size}
use project_ram_crisis.Engine.Signature.{signature_of}
use project_ram_crisis.Engine.SignatureMap.{SignatureMap, push_back, lookup_list, insert_default}
use project_ram_crisis.Engine.Reference.{Seen, first_with, dedupe, merges}
use project_ram_crisis.Engine.Scan.{
  ScanState, scan_page, scan_loop, keep_page, count_duplicate, count_scanned, count_kept,
}
use project_ram_crisis.Engine.Scan.Agreement.{
  Located, Tracks, Located-set, Located-append, Tracks-insert_default, Tracks-push_back,
  first_with-lt-size_max,
}
use project_ram_crisis.Engine.Scan.Steps.{
  at_page, scan_page-shared, scan_page-keep, scan_page-merge,
}

abbrev pub is_unshared : Page → Bool
is_unshared page = not page.shared

-- A page that is not shared has no home, and its signature reads inside its bytes.
abbrev pub IsReady : Page → Type 0
IsReady page =
    page.shared ≡ false
    → (page.home_index ≡ size_max) × (s : PageSignature) × (signature_of page.bytes ≡ some s)

abbrev pub AllReady : List Page → Type 0
AllReady [] = Unit
AllReady (page ∷ rest) = IsReady page × AllReady rest

-- The counters that a scan changes hold 64-bit numbers.
pub record AreWords (s : Stats) : Type 0 where
  pub scanned : s.pages_scanned < u64_mod
  pub duplicate : s.duplicate_pages < u64_mod
  pub unique : s.unique_pages < u64_mod
  pub saved : s.bytes_saved < u64_mod

pub no_stats-AreWords : AreWords no_stats
no_stats-AreWords = record {
  scanned = omega arith;
  duplicate = omega arith;
  unique = omega arith;
  saved = omega arith;
}

-- How the counters move from `a` to `b` over a scan of these pages.
pub record Counted (seen : Seen) (index : ℕ) (pages : List Page) (a b : Stats) : Type 0 where
  pub scanned : b.pages_scanned ≡ add64 a.pages_scanned (count_if is_unshared pages)
  pub duplicate : b.duplicate_pages ≡ add64 a.duplicate_pages (merges seen index pages)
  pub unique :
      b.unique_pages ≡ add64 a.unique_pages (count_if is_unshared (dedupe seen index pages))
  pub saved : b.bytes_saved ≡ add64 a.bytes_saved (page_size * merges seen index pages)
  pub writes : b.writes_emulated ≡ a.writes_emulated
  pub cow : b.write_cow_events ≡ a.write_cow_events

abbrev state : List Page → Stats → SignatureMap → ScanState
state pages stats m = record { pages = pages; stats = stats; signature_map = m }

-- The loop ends with the reference's pages and counters.
abbrev pub Ends : ℕ → ℕ → ScanState → List Page → Seen → List Page → Type 0
Ends rounds index s done seen rest =
    (t : ScanState) × (scan_loop rounds index s ≡ some t)
    × (t.pages ≡ done ++ dedupe seen index rest)
    × Counted seen index rest s.stats t.stats

continue :
    (rounds index : ℕ) (s u t : ScanState)
    → scan_page index s ≡ some u
    → scan_loop rounds (suc index) u ≡ some t
    → scan_loop (suc rounds) index s ≡ some t
unfolding scan_loop
continue rounds index s u t e h = rw e h

shift_index :
    {index : ℕ} (done : List Page) (page : Page)
    → index ≡ length done
    → suc index ≡ length (done ++ page ∷ [])
shift_index done page e = omega (arith, length-append done (page ∷ []))

-- What a scan of `rest` gives for a scan of `page ∷ rest`, in the three cases of a round.
module _ (done : List Page) (page : Page) (rest : List Page) (seen : Seen) (index : ℕ)
    (stats : Stats) (m : SignatureMap) (ei : index ≡ length done) where
  Ends-skip :
      page.shared ≡ true
      → Ends
          (length rest)
          (suc index)
          (at_page done page rest stats m)
          (done ++ page ∷ [])
          seen
          rest
      → Ends (suc (length rest)) index (at_page done page rest stats m) done seen (page ∷ rest)
  unfolding dedupe merges
  Ends-skip shared (t, run, result, counts) = (
    t,
    continue (length rest) index _ _ t (rw ei (scan_page-shared done page rest stats m shared)) run,
    simp shared (result ∙ append_assoc done (page ∷ []) _),
    ground (arith, counts),
  )

  module _ (s : PageSignature) (unshared : page.shared ≡ false) (fresh : page.home_index ≡ size_max)
      (signed : signature_of page.bytes ≡ some s) (located : Located (done ++ page ∷ rest) seen)
      (tracks : Tracks m seen) where
    abbrev kept : ScanState
    kept = keep_page s index (
        at_page done page rest (count_scanned (length (lookup_list s m)) stats)
          (insert_default s m))

    Ends-keep :
        first_with page.bytes seen ≡ none
        → Ends
            (length rest)
            (suc index)
            kept
            (done ++ page ∷ [])
            (seen ++ (index, page.bytes) ∷ [])
            rest
        → Ends (suc (length rest)) index (at_page done page rest stats m) done seen (page ∷ rest)
    unfolding dedupe merges keep_page
    Ends-keep new (t, run, result, counts) = (
      t,
      continue (length rest) index (at_page done page rest stats m) kept t
          (rw ei
            (scan_page-keep done page rest stats m seen s unshared fresh signed located tracks new))
          run,
      simp (unshared, new) (result ∙ append_assoc done (page ∷ []) _),
      ground (arith, counts),
    )

    abbrev merged : ℕ → ScanState
    merged r =
        at_page done (mark_shared page r) rest
          (count_duplicate (count_scanned (length (lookup_list s m)) stats)) (insert_default s m)

    Ends-merge :
        (r : ℕ)
        → r < size_max
        → first_with page.bytes seen ≡ some r
        → Ends (length rest) (suc index) (merged r) (done ++ mark_shared page r ∷ []) seen rest
        → Ends (suc (length rest)) index (at_page done page rest stats m) done seen (page ∷ rest)
    unfolding dedupe merges
    Ends-merge r small old (t, run, result, counts) = (
      t,
      continue (length rest) index _ _ t
          (rw ei (
            scan_page-merge done page rest stats m seen s unshared fresh signed located tracks r
              small old))
          run,
      simp (unshared, old) (result ∙ append_assoc done (mark_shared page r ∷ []) _),
      ground (arith, counts),
    )

pub scan_pages-Ends :
    (rest done : List Page) (seen : Seen) (index : ℕ) (stats : Stats) (m : SignatureMap)
    → index ≡ length done
    → index + length rest ≤ size_max
    → AllReady rest
    → Located (done ++ rest) seen
    → Tracks m seen
    → AreWords stats
    → Ends (length rest) index (state (done ++ rest) stats m) done seen rest
unfolding keep_page
scan_pages-Ends [] done seen index stats m ei fits ready located tracks words = (
  state (done ++ []) stats m,
  unfold scan_loop in refl,
  unfold dedupe in refl,
  unfold dedupe merges in ground arith,
)
scan_pages-Ends (page ∷ rest) done seen index stats m ei fits ready located tracks words =
    elim (Bool-cases page.shared) [
      | inl shared ↦ Ends-skip done page rest seen index stats m ei shared (
          rw (append_assoc done (page ∷ []) rest) at (
            scan_pages-Ends rest (done ++ page ∷ []) seen (suc index) stats m
              (shift_index done page ei) (omega arith) ready.1
              (rw (append_assoc done (page ∷ []) rest) located) tracks words))
      | inr unshared ↦
          let (fresh, s, signed) = ready.0 unshared in
          let here = get_elem?-append_at done rest page in
          elim (Option-cases (first_with page.bytes seen)) [
            | inl new ↦
                Ends-keep done page rest seen index stats m ei s unshared fresh signed located
                  tracks new
                  (rw (append_assoc done (page ∷ []) rest) at (
                    scan_pages-Ends rest (done ++ page ∷ []) (seen ++ (index, page.bytes) ∷ [])
                      (suc index) (count_kept (count_scanned (length (lookup_list s m)) stats))
                      (push_back s index (insert_default s m)) (shift_index done page ei)
                      (omega arith) ready.1
                      (rw (append_assoc done (page ∷ []) rest)
                        (Located-append _ index page seen (rw ei here) (omega arith) located))
                      (Tracks-push_back s m seen index page.bytes signed tracks)
                      (ground (arith, words))))
            | inr (r, old) ↦
                Ends-merge done page rest seen index stats m ei s unshared fresh signed located
                  tracks r (first_with-lt-size_max page.bytes _ seen r located old) old
                  (rw (append_assoc done (mark_shared page r ∷ []) rest) at (
                    scan_pages-Ends rest (done ++ mark_shared page r ∷ []) seen (suc index)
                      (count_duplicate (count_scanned (length (lookup_list s m)) stats))
                      (insert_default s m) (shift_index done (mark_shared page r) ei) (omega arith)
                      ready.1
                      (rw (append_assoc done (mark_shared page r ∷ []) rest) (
                        rw (set-append_at done rest page (mark_shared page r)) at (
                          Located-set _ (length done) page (mark_shared page r) seen here
                            (unfold mark_shared in refl) located)))
                      (Tracks-insert_default s m seen tracks) (ground (arith, words))))
          ]
    ]
