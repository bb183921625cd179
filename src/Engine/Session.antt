-- ===== src/Engine/Session.antt =====
-- Scans and writes in any order, against a memory that is never deduplicated.
use project_ram_crisis.Prelude.{
  ℕ, zero, suc, ◌≤◌, ◌≡◌, refl, sym, ap, subst, ◌∙◌, inl, inr, false, List, [], ◌∷◌, ◌++◌, Option,
  none, some, arith, length, length-le_of_none, get_elem?, set, get_elem?-map, map-set,
  get_elem?-ge, length-map, length-set, ◌>>=◌, Bool-cases, Option-cases, size_max,
}
use project_ram_crisis.Engine.Data.{Page, MemoryRegion, Stats, mark_shared}
use project_ram_crisis.Engine.Signature.Bounds.{IsSampled, signature_of-total}
use project_ram_crisis.Engine.Reference.{Seen, dedupe}
use project_ram_crisis.Engine.Reference.Laws.{
  contents, contents-dedupe, length-dedupe, dedupe-shared, dedupe-kept, dedupe-merged, page-cases,
}
use project_ram_crisis.Engine.Scan.{scan_region}
use project_ram_crisis.Engine.Scan.Loop.{AllReady, AreWords}
use project_ram_crisis.Engine.Scan.Region.{
  CanScan, rescanned, scan_region-dedupe, scan_region-opted_out, AreWords-Counted,
}
use project_ram_crisis.Engine.Write.{write_to_page, resized}
use project_ram_crisis.Engine.Write.Laws.{
  written, counted, written-IsWritten, bytes-written, write_to_page-inside, write_to_page-outside,
}

-- What a client does with an engine and one region.
pub data Request : Type 0 where
  scan : Request
  write : ℕ → ℕ → Request

pub step : Request → Stats × MemoryRegion → Option (Stats × MemoryRegion)
step scan (stats, region) = scan_region stats region
step (write index value) (stats, region) = write_to_page stats region index value

pub run : List Request → Stats × MemoryRegion → Option (Stats × MemoryRegion)
unfolding step
run [] s = some s
run (r ∷ rest) s = step r s >>= run rest

-- The same requests on plain memory: a scan does nothing.
pub plain_step : Request → List (List ℕ) → List (List ℕ)
plain_step scan memory = memory
plain_step (write index value) memory = elim (get_elem? memory index) [
  | none ↦ memory
  | some bytes ↦ set memory index (set (resized bytes) 0 value)
]

pub plain_run : List Request → List (List ℕ) → List (List ℕ)
unfolding plain_step
plain_run [] memory = memory
plain_run (r ∷ rest) memory = plain_run rest (plain_step r memory)

-- A page that can be hashed, and has no home unless it is shared.
abbrev pub IsSoundPage : Page → Type 0
IsSoundPage page =
    IsSampled (length page.bytes) × (page.shared ≡ false → page.home_index ≡ size_max)

abbrev pub AllSound : List Page → Type 0
AllSound [] = Unit
AllSound (page ∷ rest) = IsSoundPage page × AllSound rest

pub record IsSound (s : Stats × MemoryRegion) : Type 0 where
  pub fits : length s.1.pages ≤ size_max
  pub pages : AllSound s.1.pages
  pub words : AreWords s.0

AllReady-AllSound : (pages : List Page) → AllSound pages → AllReady pages
AllReady-AllSound [] h = tt
AllReady-AllSound (page ∷ rest) h = (
  λ e. let (s, signed) = signature_of-total page.bytes h.0.0 in (h.0.1 e, s, signed),
  AllReady-AllSound rest h.1,
)

AllSound-get :
    (pages : List Page) (i : ℕ) (p : Page)
    → AllSound pages
    → get_elem? pages i ≡ some p
    → IsSoundPage p
AllSound-get [] i p h e = cc
AllSound-get (page ∷ rest) zero p h e = subst IsSoundPage (cc) h.0
AllSound-get (page ∷ rest) (suc i) p h e = AllSound-get rest i p h.1 e

AllSound-set :
    (pages : List Page) (i : ℕ) (p : Page)
    → AllSound pages
    → IsSoundPage p
    → AllSound (set pages i p)
AllSound-set [] i p h s = tt
AllSound-set (page ∷ rest) zero p h s = (s, h.1)
AllSound-set (page ∷ rest) (suc i) p h s = (h.0, AllSound-set rest i p h.1 s)

AllSound-dedupe :
    (seen : Seen) (index : ℕ) (pages : List Page)
    → AllSound pages
    → AllSound (dedupe seen index pages)
unfolding dedupe mark_shared
AllSound-dedupe seen index [] h = tt
AllSound-dedupe seen index (page ∷ rest) h =
    page-cases seen page (AllSound (dedupe seen index (page ∷ rest)))
      (λ e.
        rw (dedupe-shared seen index page rest e) (h.0, AllSound-dedupe seen (suc index) rest h.1))
      (λ e new.
        rw (dedupe-kept seen index page rest e new)
          (h.0, AllSound-dedupe (seen ++ (index, page.bytes) ∷ []) (suc index) rest h.1))
      (λ r e old.
        rw (dedupe-merged seen index page rest r e old)
          ((h.0.0, λ f. cc), AllSound-dedupe seen (suc index) rest h.1))

-- The session goes on, and its memory is the plain one.
abbrev pub Refines : Option (Stats × MemoryRegion) → List (List ℕ) → Type 0
Refines o memory =
    (t : Stats × MemoryRegion) × (o ≡ some t) × (contents t.1.pages ≡ memory) × IsSound t

scan-Refines :
    (stats : Stats) (region : MemoryRegion)
    → IsSound (stats, region)
    → Refines (scan_region stats region) (contents region.pages)
scan-Refines stats region sound = elim (Bool-cases region.opt_in) [
  | inl opted ↦
      let can : CanScan stats region = record {
        opted_in = opted;
        fits = sound.fits;
        ready = AllReady-AllSound region.pages sound.pages;
        words = sound.words;
      } in
      let (after, run, counts) = scan_region-dedupe stats region can in
      (
        (after, rescanned region),
        run,
        contents-dedupe [] 0 region.pages,
        record {
          fits = omega (arith, sound.fits, length-dedupe [] 0 region.pages);
          pages = AllSound-dedupe [] 0 region.pages sound.pages;
          words = AreWords-Counted region.pages stats after counts;
        },
      )
  | inr out ↦ ((stats, region), scan_region-opted_out stats region out, refl, sound)
]

IsSampled-resized : (bytes : List ℕ) → IsSampled (length bytes) → IsSampled (length (resized bytes))
unfolding resized
IsSampled-resized [] h = absurd (omega arith)
IsSampled-resized (byte ∷ rest) h = h

IsSoundPage-written :
    (value : ℕ) (page : Page) → IsSoundPage page → IsSoundPage (written value page)
IsSoundPage-written value page sound =
    let w = written-IsWritten value page in
    (
      subst IsSampled (sym w.size) (IsSampled-resized page.bytes sound.0),
      λ _. elim (Bool-cases page.shared) [ inl e ↦ w.home e | inr e ↦ w.same_home e ∙ sound.1 e ],
    )

module _ (index value : ℕ) (memory : List (List ℕ)) where
  plain_out : get_elem? memory index ≡ none → plain_step (write index value) memory ≡ memory
  unfolding plain_step
  plain_out e = rw (e, plain_step)

  plain_in :
      {bytes : List ℕ}
      → get_elem? memory index ≡ some bytes
      → plain_step (write index value) memory ≡ set memory index (set (resized bytes) 0 value)
  unfolding plain_step
  plain_in e = rw (e, plain_step)

write-Refines :
    (stats : Stats) (region : MemoryRegion) (index value : ℕ)
    → IsSound (stats, region)
    → Refines
        (write_to_page stats region index value)
        (plain_step (write index value) (contents region.pages))
write-Refines stats region index value sound = elim (Option-cases (get_elem? region.pages index)) [
  | inl out ↦ (
    (stats, region),
    write_to_page-outside stats region index value (length-le_of_none region.pages index out),
    rw (
        plain_out index value _ (
          get_elem?-ge (contents region.pages) index (
            omega (
              arith,
              length-map (λ (p : Page). p.bytes) region.pages,
              length-le_of_none region.pages index out,
            )))),
    sound,
  )
  | inr (page, at) ↦ (
    (counted page stats, record region { pages = set region.pages index (written value page) }),
    write_to_page-inside stats region index value page at,
    rw (plain_in index value _ (get_elem?-map (λ (p : Page). p.bytes) region.pages index page at)) (
        map-set (λ (p : Page). p.bytes) region.pages index (written value page)
        ∙ ap (set (contents region.pages) index) (bytes-written value page)),
    record {
      fits = omega (arith, sound.fits, length-set region.pages index (written value page));
      pages =
          AllSound-set region.pages index _ sound.pages
            (IsSoundPage-written value page (AllSound-get region.pages index page sound.pages at));
      words = ground (arith, sound.words);
    },
  )
]

step-Refines :
    (r : Request) (stats : Stats) (region : MemoryRegion)
    → IsSound (stats, region)
    → Refines (step r (stats, region)) (plain_step r (contents region.pages))
unfolding step
step-Refines scan stats region sound = unfold plain_step in scan-Refines stats region sound
step-Refines (write index value) stats region sound = write-Refines stats region index value sound

-- From a sound region (its pages can be indexed and hashed, and have no home unless they are
-- shared) any sequence of scans and writes is served without a read outside a vector, to a sound
-- region, and the contents of its pages are those of a memory that is written and never
-- deduplicated.
pub run-Refines :
    (requests : List Request) (stats : Stats) (region : MemoryRegion)
    → IsSound (stats, region)
    → Refines (run requests (stats, region)) (plain_run requests (contents region.pages))
unfolding run plain_run
run-Refines [] stats region sound = ((stats, region), refl, refl, sound)
run-Refines (r ∷ rest) stats region sound =
    let ((stats', region'), one, same, sound') = step-Refines r stats region sound in
    let (t, others, final, kept) = run-Refines rest stats' region' sound' in
    (t, rw one others, final ∙ ap (plain_run rest) same, kept)
