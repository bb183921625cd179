-- ===== src/User/Benchmark/Savings.antt =====
-- What the benchmark reports, whatever its pages hold.
use project_ram_crisis.Prelude.{
  ℕ, suc, ◌+◌, ◌*◌, ◌-◌, ◌/◌, ◌≤◌, ◌≡◌, refl, ap, ◌∙◌, true, false, List, [], some, length, arith,
  add64, count_if,
}
use project_ram_crisis.Engine.Data.{Page, MemoryRegion, Stats, no_stats}
use project_ram_crisis.Engine.Reference.{merges}
use project_ram_crisis.Engine.Reference.Laws.{count-dedupe, is_unshared, length-dedupe}
use project_ram_crisis.Engine.Scan.{scan_region}
use project_ram_crisis.Engine.Scan.Loop.{no_stats-AreWords, AreWords, Counted}
use project_ram_crisis.Engine.Scan.Region.{
  rescanned, scan_region-dedupe, scan_region-opted_out, AreWords-Counted,
}
use project_ram_crisis.Driver.Policy.{codes}
use project_ram_crisis.User.Benchmark.{
  report, region_pages, make_region, browser, electron, service, kernel, main,
}
use project_ram_crisis.User.Benchmark.Sampled.{
  sampled, merges-first, length-region_pages, count-region_pages, AllReady-region_pages, made_rest,
}

module _ (draw : ℕ → ℕ → ℕ) where
  -- How the counters move over a region whose pages are all new: `merged` of them are merged.
  record Gained (pages merged : ℕ) (a b : Stats) : Type 0 where
    pub scanned : b.pages_scanned ≡ add64 a.pages_scanned pages
    pub duplicate : b.duplicate_pages ≡ add64 a.duplicate_pages merged
    pub unique : b.unique_pages ≡ add64 a.unique_pages (pages - merged)
    pub saved : b.bytes_saved ≡ add64 a.bytes_saved (4096 * merged)
    pub cow : b.write_cow_events ≡ a.write_cow_events
    pub few : merged ≤ pages

  scan-Gained :
      (name : List ℕ) (rounds content_seed : ℕ) (stats : Stats)
      → rounds ≤ 1000
      → AreWords stats
      → (after : Stats) × (result : MemoryRegion) × (merged : ℕ) × (scan_region stats
            (make_region draw name true (suc (suc (suc rounds))) content_seed)
          ≡ some (after, result))
        × (length result.pages ≡ suc (suc (suc rounds)))
        × Gained (suc (suc (suc rounds))) merged stats after
        × AreWords after
        × (sampled rounds 3 ≤ merged)
  unfolding make_region made_rest
  scan-Gained name rounds content_seed stats small words =
      let n = suc (suc (suc rounds)) in
      let pages = region_pages draw n 0 true content_seed in
      let region = make_region draw name true n content_seed in
      let (after, run, counts) = scan_region-dedupe stats region (record {
        opted_in = refl;
        fits = omega (arith, length-region_pages draw n 0 true content_seed);
        ready = AllReady-region_pages draw n 0 true content_seed;
        words = words;
      }) in
      (
        after,
        rescanned region,
        merges [] 0 pages,
        run,
        length-dedupe [] 0 pages ∙ length-region_pages draw n 0 true content_seed,
        gained n pages after counts (count-region_pages draw n 0 true content_seed),
        AreWords-Counted pages stats after counts,
        merges-first draw rounds content_seed,
      )
    where
      gained :
          (n : ℕ) (pages : List Page) (after : Stats)
          → Counted [] 0 pages stats after
          → count_if is_unshared pages ≡ n
          → Gained n (merges [] 0 pages) stats after
      gained n pages after counts all = record {
        scanned = omega (arith, counts.scanned);
        duplicate = counts.duplicate;
        unique = omega (arith, counts.unique, count-dedupe [] 0 pages);
        saved = counts.saved;
        cow = counts.cow;
        few = omega (arith, count-dedupe [] 0 pages);
      }

  -- What the counters are in the end.
  record IsTotal (merged : ℕ) (stats : Stats) : Type 0 where
    pub scanned : stats.pages_scanned ≡ 240
    pub duplicate : stats.duplicate_pages ≡ merged
    pub unique : stats.unique_pages ≡ 240 - merged
    pub saved : stats.bytes_saved ≡ 4096 * merged
    pub cow : stats.write_cow_events ≡ 0

  report-IsTotal :
      (merged : ℕ) (stats : Stats)
      → IsTotal merged stats
      → report 272 stats ≡ record {
        total_pages = 272;
        pages_scanned = 240;
        unique_pages = 240 - merged;
        duplicate_pages = merged;
        kilobytes_saved = merged * 4;
        write_cow_events = 0;
      }
  unfolding report
  report-IsTotal merged stats h =
      simp (h.scanned, h.duplicate, h.unique, h.saved, h.cow)
        (ap
          (λ (kilobytes : ℕ). record {
            total_pages = 272;
            pages_scanned = 240;
            unique_pages = 240 - merged;
            duplicate_pages = merged;
            kilobytes_saved = kilobytes;
            write_cow_events = 0;
          })
          {x = 4096 * merged / 1024} {y = merged * 4} (omega arith))

  gains-IsTotal :
      (first second third : Stats) (m n o : ℕ)
      → Gained 120 m no_stats first
      → Gained 72 n first second
      → Gained 48 o second third
      → IsTotal (m + n + o) third
  gains-IsTotal first second third m n o g h i = record {
    scanned = omega (arith, g.scanned, h.scanned, i.scanned);
    duplicate = omega (arith, g.duplicate, h.duplicate, i.duplicate, g.few, h.few, i.few);
    unique = omega (arith, g.unique, h.unique, i.unique, g.few, h.few, i.few);
    saved = omega (arith, g.saved, h.saved, i.saved, g.few, h.few, i.few);
    cow = i.cow ∙ h.cow ∙ g.cow;
  }

  -- The end of `main`, by what its four scans return.
  main-report :
      (first second third : Stats) (tabs app cache : MemoryRegion)
      → scan_region no_stats (browser draw) ≡ some (first, tabs)
      → scan_region first (electron draw) ≡ some (second, app)
      → scan_region second (service draw) ≡ some (third, cache)
      → length tabs.pages ≡ 120
      → length app.pages ≡ 72
      → length cache.pages ≡ 48
      → main draw ≡ some (report 272 third)
  unfolding main
  main-report first second third tabs app cache run_first run_second run_third a b c =
      let out = scan_region-opted_out third (kernel draw) (unfold make_region in refl) in
      let all : length (kernel draw).pages ≡ 32 =
        unfold make_region in length-region_pages draw 32 0 false 0xA0 in
      rw run_first (
        rw run_second (
          rw run_third (
            rw out (
              ap (λ (total : ℕ). some (report total third))
                {x = length tabs.pages
                  + length app.pages
                  + length cache.pages
                  + length (kernel draw).pages}
                {y = 272} (omega arith)))))

  -- Whatever the generator draws, the benchmark ends, and reports 272 pages, of which it scanned
  -- the 240 that opted in. At least 171 of those are merged, and the rest is unique; 4 KB are
  -- saved for each page merged, and no write is reported.
  pub main-merges :
      (merged : ℕ) × (171 ≤ merged)
      × (merged ≤ 240)
      × (main draw
          ≡ some (record {
            total_pages = 272;
            pages_scanned = 240;
            unique_pages = 240 - merged;
            duplicate_pages = merged;
            kilobytes_saved = merged * 4;
            write_cow_events = 0;
          }))
  main-merges =
      let (first, tabs, m, run_first, size_first, g, words_first, low_first) =
        scan-Gained (codes "BrowserTabs") 117 0x10 no_stats (omega arith) no_stats-AreWords in
      let (second, app, n, run_second, size_second, h, words_second, low_second) =
        scan-Gained (codes "ElectronApp") 69 0x40 first (omega arith) words_first in
      let (third, cache, o, run_third, size_third, i, _, low_third) =
        scan-Gained (codes "ServiceCache") 45 0x70 second (omega arith) words_second in
      (
        m + n + o,
        unfold sampled in omega (arith, low_first, low_second, low_third),
        omega (arith, g.few, h.few, i.few),
        main-report first second third tabs app cache run_first run_second run_third size_first
              size_second size_third
            ∙ ap some
                (report-IsTotal (m + n + o) third (gains-IsTotal first second third m n o g h i)),
      )
