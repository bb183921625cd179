-- ===== src/Engine/Scan/Steps.antt =====
-- One round of the loop of `scanRegion`, in each of its three cases.
use project_ram_crisis.Prelude.{
  ℕ, ◌<◌, ◌≡◌, refl, true, false, List, ◌∷◌, ◌++◌, none, some, arith, length, get_elem?-append_at,
  set-append_at, size_max,
}
use project_ram_crisis.Engine.Data.{PageSignature, Page, Stats, mark_shared}
use project_ram_crisis.Engine.Signature.{signature_of, make_signature}
use project_ram_crisis.Engine.SignatureMap.{SignatureMap, lookup_list, insert_default}
use project_ram_crisis.Engine.Reference.{Seen, first_with}
use project_ram_crisis.Engine.Scan.{
  ScanState, scan_page, scan_unshared, settle, merge_page, keep_page, count_duplicate,
  count_scanned,
}
use project_ram_crisis.Engine.Scan.Agreement.{Located, Tracks, find_lem}

-- The state that the loop finds at a page.
abbrev pub at_page : List Page → Page → List Page → Stats → SignatureMap → ScanState
at_page done page rest stats m = record {
  pages = done ++ page ∷ rest;
  stats = stats;
  signature_map = m;
}

module _ (done : List Page) (page : Page) (rest : List Page) (stats : Stats)
    (m : SignatureMap) where
  pub scan_page-shared :
      page.shared ≡ true
      → scan_page (length done) (at_page done page rest stats m)
        ≡ some (at_page done page rest stats m)
  unfolding scan_page
  scan_page-shared e = rw (get_elem?-append_at done rest page) (rw e)

  module _ (seen : Seen) (s : PageSignature) (unshared : page.shared ≡ false)
      (fresh : page.home_index ≡ size_max) (signed : signature_of page.bytes ≡ some s)
      (located : Located (done ++ page ∷ rest) seen) (tracks : Tracks m seen) where
    abbrev probed : Stats
    probed = count_scanned (length (lookup_list s m)) stats

    scan_page-settle :
        scan_page (length done) (at_page done page rest stats m)
        ≡ settle s
            (length done)
            (first_with page.bytes seen)
            (at_page done page rest probed (insert_default s m))
    unfolding scan_page scan_unshared make_signature
    scan_page-settle = rw (get_elem?-append_at done rest page) (
        simp unshared (
          rw signed
            (rw (tracks s, find_lem (done ++ page ∷ rest) page s seen signed located) refl)))

    pub scan_page-keep :
        first_with page.bytes seen ≡ none
        → scan_page (length done) (at_page done page rest stats m)
          ≡ some (keep_page s (length done) (at_page done page rest probed (insert_default s m)))
    unfolding settle
    scan_page-keep e = rw scan_page-settle (rw e)

    pub scan_page-merge :
        (r : ℕ)
        → r < size_max
        → first_with page.bytes seen ≡ some r
        → scan_page (length done) (at_page done page rest stats m)
          ≡ some
              (at_page done (mark_shared page r) rest (count_duplicate probed) (insert_default s m))
    unfolding settle merge_page
    scan_page-merge r small e = rw scan_page-settle (rw e merged)
      where
        merged :
            merge_page (length done) r (at_page done page rest probed (insert_default s m))
            ≡ some (
                at_page done
                  (mark_shared page r)
                  rest
                  (count_duplicate probed)
                  (insert_default s m))
        merged = ground (
          arith,
          get_elem?-append_at done rest page,
          set-append_at done rest page (mark_shared page r),
        )
