-- ===== src/User/Simulator/Sharing.antt =====
-- What a scan makes of the simulator's regions.
use project_ram_crisis.Prelude.{
  ℕ, zero, suc, ◌+◌, ◌%◌, ◌<◌, ◌≤◌, ◌≡◌, refl, sym, ap, ◌∙◌, ◌⊎◌, inl, inr, ◌/◌, ◌*◌, add64, Bool,
  true, false, List, [], some, length, get_elem?, get_elem?-map, arith, Bool-cases, size_max,
  if◌then◌else◌, ◌==◌, count_if,
}
use mathlib.Core.Option.{some-injective}
use project_ram_crisis.Engine.Data.{Page, is_shared, MemoryRegion, Stats, new_page, page_size}
use project_ram_crisis.Engine.Signature.Bounds.{signature_of-total}
use project_ram_crisis.Engine.Reference.Laws.{contents}
use project_ram_crisis.Engine.Reference.Settled.{AllSettled-distinct}
use project_ram_crisis.Engine.Scan.{scan_region}
use project_ram_crisis.Engine.Scan.Loop.{AllReady, AreWords}
use project_ram_crisis.Engine.Scan.Region.{CanScan, scan_region-AllSettled}
use project_ram_crisis.User.Simulator.{
  page_bytes, make_page, sample_page, opted_in_page, region_page, region_pages, make_region,
}

module _ (draw : ℕ → ℕ → ℕ) where
  pub length-if :
      (test : Bool) (xs ys : List ℕ) (n : ℕ)
      → length xs ≡ n
      → length ys ≡ n
      → length (if test then xs else ys) ≡ n
  length-if true xs ys n first second = first
  length-if false xs ys n first second = second

  pub length-page_bytes :
      (rounds i base_value seed : ℕ) → length (page_bytes draw rounds i base_value seed) ≡ rounds
  unfolding page_bytes
  length-page_bytes zero i base_value seed = refl
  length-page_bytes (suc rounds) i base_value seed =
      ap suc (length-page_bytes rounds (suc i) base_value seed)

  length-make_page : (base_value seed : ℕ) → length (make_page draw base_value seed) ≡ page_size
  unfolding make_page
  length-make_page base_value seed = length-page_bytes page_size 0 base_value seed

  length-sample_page : (content_seed j : ℕ) → length (sample_page draw content_seed j) ≡ page_size
  unfolding sample_page
  length-sample_page content_seed j =
      length-make_page ((content_seed + j * 3) % 256) (content_seed + 17 + j * 11)

  length-opted_in_page :
      (content_seed i : ℕ) → length (opted_in_page draw content_seed i) ≡ page_size
  unfolding opted_in_page
  length-opted_in_page content_seed i =
      length-if (i % 5 == 0) _ _ _ (length-sample_page content_seed 0) (
        length-if (i % 5 == 1) _ _ _ (length-sample_page content_seed 1) (
          length-if (i % 5 == 2) _ _ _ (length-sample_page content_seed (i / 5 % 8)) (
            length-if (i % 5 == 3) _ _ _ (length-sample_page content_seed (i / 3 % 8))
              (length-make_page ((content_seed + 2) % 256) (add64 (content_seed + 50) i)))))

  length-region_page :
      (opt_in : Bool) (content_seed i : ℕ)
      → length (region_page draw opt_in content_seed i) ≡ page_size
  unfolding region_page
  length-region_page opt_in content_seed i =
      length-if opt_in _ _ _ (length-opted_in_page content_seed i)
        (length-make_page ((content_seed + 4) % 256) (add64 (content_seed + 90) i))

  pub length-region_pages :
      (rounds i : ℕ) (opt_in : Bool) (content_seed : ℕ)
      → length (region_pages draw rounds i opt_in content_seed) ≡ rounds
  unfolding region_pages
  length-region_pages zero i opt_in content_seed = refl
  length-region_pages (suc rounds) i opt_in content_seed =
      ap suc (length-region_pages rounds (suc i) opt_in content_seed)

  pub AllReady-region_pages :
      (rounds i : ℕ) (opt_in : Bool) (content_seed : ℕ)
      → AllReady (region_pages draw rounds i opt_in content_seed)
  unfolding region_pages new_page
  AllReady-region_pages zero i opt_in content_seed = tt
  AllReady-region_pages (suc rounds) i opt_in content_seed = (
    (λ _.
        let (s, e) =
          signature_of-total (region_page draw opt_in content_seed i)
            (omega (arith, length-region_page opt_in content_seed i)) in
        (refl, s, e)),
    AllReady-region_pages rounds (suc i) opt_in content_seed,
  )

  pub count-shared-region_pages :
      (rounds i : ℕ) (opt_in : Bool) (content_seed : ℕ)
      → count_if is_shared (region_pages draw rounds i opt_in content_seed) ≡ 0
  unfolding region_pages new_page
  count-shared-region_pages zero i opt_in content_seed = refl
  count-shared-region_pages (suc rounds) i opt_in content_seed =
      omega (arith, count-shared-region_pages rounds (suc i) opt_in content_seed)

  get_elem?-region_pages :
      (rounds i k : ℕ) (opt_in : Bool) (content_seed : ℕ)
      → k < rounds
      → get_elem? (region_pages draw rounds i opt_in content_seed) k
        ≡ some (new_page (region_page draw opt_in content_seed (i + k)))
  unfolding region_pages
  get_elem?-region_pages zero i k opt_in content_seed low = absurd (omega arith)
  get_elem?-region_pages (suc rounds) i zero opt_in content_seed low =
      ap (λ n. some (new_page (region_page draw opt_in content_seed n))) {x = i} {y = i + zero}
        (omega arith)
  get_elem?-region_pages (suc rounds) i (suc k) opt_in content_seed low =
      get_elem?-region_pages rounds (suc i) k opt_in content_seed (omega arith)
      ∙ ap (λ n. some (new_page (region_page draw opt_in content_seed n))) {x = suc i + k}
          {y = i + suc k} (omega arith)

  opted_in_page-zero :
      (content_seed j : ℕ)
      → j % 5 ≡ 0
      → opted_in_page draw content_seed j ≡ sample_page draw content_seed 0
  unfolding opted_in_page
  opted_in_page-zero content_seed j e =
      let here : (j % 5 == 0) ≡ true = ground arith in rw (here, opted_in_page)

  opted_in_page-one :
      (content_seed j : ℕ)
      → j % 5 ≡ 1
      → opted_in_page draw content_seed j ≡ sample_page draw content_seed 1
  unfolding opted_in_page
  opted_in_page-one content_seed j e =
      let not_zero : (j % 5 == 0) ≡ false = ground arith in
      let here : (j % 5 == 1) ≡ true = ground arith in
      rw (not_zero, opted_in_page) (rw (here, opted_in_page))

  -- Pages of the first two kinds, whose index modulo 5 is the same, have the same bytes.
  region_page-same :
      (content_seed j k : ℕ)
      → j % 5 < 2
      → j % 5 ≡ k % 5
      → region_page draw true content_seed j ≡ region_page draw true content_seed k
  unfolding region_page
  region_page-same content_seed j k low same = elim (zero-or-one (j % 5) low) [
    | inl e ↦
        opted_in_page-zero content_seed j e ∙ sym (opted_in_page-zero content_seed k (sym same ∙ e))
    | inr e ↦
        opted_in_page-one content_seed j e ∙ sym (opted_in_page-one content_seed k (sym same ∙ e))
  ]
    where
      zero-or-one : (n : ℕ) → n < 2 → (n ≡ 0) ⊎ (n ≡ 1)
      zero-or-one n h = omega arith

  make_region-CanScan :
      (name : List ℕ) (pages content_seed : ℕ) (stats : Stats)
      → pages ≤ size_max
      → AreWords stats
      → CanScan stats (make_region draw name true pages content_seed)
  unfolding make_region
  make_region-CanScan name pages content_seed stats fits words = record {
    opted_in = refl;
    fits = omega (arith, length-region_pages pages 0 true content_seed);
    ready = AllReady-region_pages pages 0 true content_seed;
    words = words;
  }

  -- The bytes of a page, in a region with the same contents.
  bytes-made :
      (name : List ℕ) (pages content_seed k : ℕ) (after : List Page) (q : Page)
      → contents after ≡ contents (make_region draw name true pages content_seed).pages
      → k < pages
      → get_elem? after k ≡ some q
      → q.bytes ≡ region_page draw true content_seed k
  unfolding make_region new_page
  bytes-made name pages content_seed k after q same low at =
      some-injective _ _ (
        sym (get_elem?-map (λ (p : Page). p.bytes) after k q at)
        ∙ ap (λ (l : List (List ℕ)). get_elem? l k) same
        ∙ get_elem?-map (λ (p : Page). p.bytes) (region_pages draw pages 0 true content_seed) k _
            (get_elem?-region_pages pages 0 k true content_seed low))
      ∙ ap (region_page draw true content_seed) {x = 0 + k} {y = k} (omega arith)

  -- A scan of an opted-in region that the simulator makes, with no more pages than a size_t counts,
  -- returns. No page loses its content, and of two pages whose indices leave the same rest 0 or 1
  -- modulo 5, the later one is shared if the earlier one is not.
  pub make_region-shares :
      (name : List ℕ) (pages content_seed : ℕ) (stats : Stats)
      → pages ≤ size_max
      → AreWords stats
      → (after : Stats) × (result : MemoryRegion) × (scan_region stats
            (make_region draw name true pages content_seed)
          ≡ some (after, result))
        × (contents result.pages ≡ contents (make_region draw name true pages content_seed).pages)
        × ((j k : ℕ) (p q : Page)
            → j < k
            → k < pages
            → j % 5 < 2
            → j % 5 ≡ k % 5
            → get_elem? result.pages j ≡ some p
            → get_elem? result.pages k ≡ some q
            → p.shared ≡ false
            → q.shared ≡ true)
  make_region-shares name pages content_seed stats fits words =
      let region = make_region draw name true pages content_seed in
      let (after, result, run, same, settled) =
        scan_region-AllSettled stats region
          (make_region-CanScan name pages content_seed stats fits words) in
      (
        after,
        result,
        run,
        same,
        λ j k p q before low kind alike at_j at_k alone. elim (Bool-cases q.shared) [
          | inl shared ↦ shared
          | inr free ↦ absurd (
              AllSettled-distinct [] region.pages result.pages j k p q settled (omega arith) at_j
                at_k alone free
                (bytes-made name pages content_seed j result.pages p same (omega arith) at_j
                  ∙ region_page-same content_seed j k kind alike
                  ∙ sym (bytes-made name pages content_seed k result.pages q same low at_k)))
        ],
      )
