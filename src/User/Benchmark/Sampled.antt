-- ===== src/User/Benchmark/Sampled.antt =====
-- The pages that the benchmark makes, and those that a scan merges for certain.
use project_ram_crisis.Prelude.{
  ℕ, zero, suc, ◌+◌, ◌*◌, ◌%◌, ◌<◌, ◌≤◌, ◌≡◌, refl, sym, ap, subst, Bool, true, false, List, [],
  length, arith, if◌then◌else◌, ◌==◌, add64, count_if, inl, inr, Bool-cases, not, ◌&&◌,
}
use project_ram_crisis.Engine.Data.{Page, new_page, page_size}
use project_ram_crisis.Engine.Signature.Bounds.{signature_of-total}
use project_ram_crisis.Engine.Reference.{Seen, merges}
use project_ram_crisis.Engine.Reference.Laws.{is_unshared}
use project_ram_crisis.Engine.Reference.Known.{Knows, merges-known, merges-learns}
use project_ram_crisis.Engine.Scan.Loop.{AllReady}
use project_ram_crisis.User.Simulator.Sharing.{length-page_bytes, length-if}
use project_ram_crisis.User.Benchmark.{make_page, sample_page, region_page, region_pages}

-- How many of the pages from i on are one of the first three of their four.
unfoldable pub sampled : ℕ → ℕ → ℕ
sampled zero i = 0
sampled (suc rounds) i = (if i % 4 == 3 then 0 else 1) + sampled rounds (suc i)

sampled-fourth :
    (rounds i : ℕ) → (i % 4 == 3) ≡ true → sampled (suc rounds) i ≡ sampled rounds (suc i)
unfolding sampled
sampled-fourth rounds i e = simp e (omega arith)

sampled-one :
    (rounds i : ℕ) → (i % 4 == 3) ≡ false → sampled (suc rounds) i ≡ suc (sampled rounds (suc i))
unfolding sampled
sampled-one rounds i e = simp e (omega arith)

module _ (draw : ℕ → ℕ → ℕ) where
  length-make_page : (base_value seed : ℕ) → length (make_page draw base_value seed) ≡ page_size
  unfolding make_page
  length-make_page base_value seed = length-page_bytes draw page_size 0 base_value seed

  length-region_page :
      (opt_in : Bool) (content_seed i : ℕ)
      → length (region_page draw opt_in content_seed i) ≡ page_size
  unfolding region_page sample_page
  length-region_page opt_in content_seed i =
      length-if draw (opt_in && not (i % 4 == 3)) _ _ _
        (length-make_page ((content_seed + i % 4 * 8) % 256) (content_seed + 17 + i % 4 * 11))
        (length-make_page ((content_seed + 3) % 256) (add64 (content_seed + 90) i))

  pub length-region_pages :
      (rounds i : ℕ) (opt_in : Bool) (content_seed : ℕ)
      → length (region_pages draw rounds i opt_in content_seed) ≡ rounds
  unfolding region_pages
  length-region_pages zero i opt_in content_seed = refl
  length-region_pages (suc rounds) i opt_in content_seed =
      ap suc (length-region_pages rounds (suc i) opt_in content_seed)

  pub count-region_pages :
      (rounds i : ℕ) (opt_in : Bool) (content_seed : ℕ)
      → count_if is_unshared (region_pages draw rounds i opt_in content_seed) ≡ rounds
  unfolding region_pages new_page
  count-region_pages zero i opt_in content_seed = refl
  count-region_pages (suc rounds) i opt_in content_seed =
      omega (arith, count-region_pages rounds (suc i) opt_in content_seed)

  pub AllReady-region_pages :
      (rounds i : ℕ) (opt_in : Bool) (content_seed : ℕ)
      → AllReady (region_pages draw rounds i opt_in content_seed)
  unfolding region_pages new_page
  AllReady-region_pages zero i opt_in content_seed = tt
  AllReady-region_pages (suc rounds) i opt_in content_seed = (
    (λ _.
        let (s, e) =
          signature_of-total (region_page draw opt_in content_seed i)
            (omega (arith, length-region_page opt_in content_seed i)) in
        (refl, s, e)),
    AllReady-region_pages rounds (suc i) opt_in content_seed,
  )

  -- The three samples that pages are made of are known.
  abbrev KnowsSamples : ℕ → Seen → Type 0
  KnowsSamples content_seed seen = (j : ℕ) → j < 3 → Knows seen (sample_page draw content_seed j)

  -- The first page made, and the rest.
  abbrev made : ℕ → ℕ → Page
  made content_seed i = new_page (region_page draw true content_seed i)

  unfoldable pub made_rest : ℕ → ℕ → ℕ → List Page
  made_rest content_seed rounds i = region_pages draw rounds i true content_seed

  made-free : (content_seed i : ℕ) → (made content_seed i).shared ≡ false
  unfolding new_page
  made-free content_seed i = refl

  made-sample :
      (content_seed i : ℕ)
      → (i % 4 == 3) ≡ false
      → (made content_seed i).bytes ≡ sample_page draw content_seed (i % 4)
  unfolding new_page region_page
  made-sample content_seed i e = rw (e, region_page)

  merges-sampled :
      (rounds i content_seed : ℕ) (seen : Seen)
      → KnowsSamples content_seed seen
      → sampled rounds i ≤ merges seen i (made_rest content_seed rounds i)
  unfolding made_rest region_pages
  merges-sampled zero i content_seed seen known = unfold sampled in omega arith
  merges-sampled (suc rounds) i content_seed seen known = elim (Bool-cases (i % 4 == 3)) [
    | inl fourth ↦
        let (later, extends, _, fewer) =
          merges-learns seen i (made content_seed i) (made_rest content_seed rounds (suc i))
            (made-free content_seed i) in
        omega (
          arith,
          sampled-fourth rounds i fourth,
          merges-sampled rounds (suc i) content_seed later (λ j low. extends _ (known j low)),
          fewer,
        )
    | inr one ↦ omega (
      arith,
      sampled-one rounds i one,
      merges-known seen i (made content_seed i) (made_rest content_seed rounds (suc i))
          (made-free content_seed i)
          (subst (Knows seen) (sym (made-sample content_seed i one))
            (known (i % 4) (ground arith))),
      merges-sampled rounds (suc i) content_seed seen known,
    )
  ]

  -- The samples are known once the first three pages are met.
  pub merges-first :
      (rounds content_seed : ℕ)
      → sampled rounds 3 ≤ merges [] 0 (made_rest content_seed (suc (suc (suc rounds))) 0)
  unfolding made_rest region_pages
  merges-first rounds content_seed =
      let page = made content_seed in
      let rest = made_rest content_seed in
      let (a, _, knows_zero, fewer_zero) =
        merges-learns [] 0 (page 0) (rest (suc (suc rounds)) 1) (made-free content_seed 0) in
      let (b, ab, knows_one, fewer_one) =
        merges-learns a 1 (page 1) (rest (suc rounds) 2) (made-free content_seed 1) in
      let (c, bc, knows_two, fewer_two) =
        merges-learns b 2 (page 2) (rest rounds 3) (made-free content_seed 2) in
      omega (
        arith,
        fewer_zero,
        fewer_one,
        fewer_two,
        merges-sampled rounds 3 content_seed c (
            by_index content_seed c
              (bc _ (ab _ (subst (Knows a) (made-sample content_seed 0 refl) knows_zero)))
              (bc _ (subst (Knows b) (made-sample content_seed 1 refl) knows_one))
              (subst (Knows c) (made-sample content_seed 2 refl) knows_two)),
      )
    where
      by_index :
          (content_seed : ℕ) (seen : Seen)
          → Knows seen (sample_page draw content_seed 0)
          → Knows seen (sample_page draw content_seed 1)
          → Knows seen (sample_page draw content_seed 2)
          → KnowsSamples content_seed seen
      by_index content_seed seen k0 k1 k2 zero low = k0
      by_index content_seed seen k0 k1 k2 (suc zero) low = k1
      by_index content_seed seen k0 k1 k2 (suc (suc zero)) low = k2
      by_index content_seed seen k0 k1 k2 (suc (suc (suc j))) low = absurd (omega arith)
