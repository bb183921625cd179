-- ===== src/Tests/ScanRuns.antt =====
-- The theorems of the scanner's thread.
use project_ram_crisis.Prelude.{
  ℕ, ap, Bool, ◌≡◌, inl, inr, refl, true, false, List, [], ◌∷◌, Option, none, some, ltb, ◌==◌,
  if◌then◌else◌, ◌+◌, ◌<◌, arith, u64_mod, ◌/◌, ◌^◌, Option-cases, Bool-cases, sym, ◌∙◌, subst,
}
use project_ram_crisis.Driver.Kernel.{Differs}
use project_ram_crisis.Driver.Data.{
  PageSignature, Status, success, insufficient_resources, invalid_parameter,
}
use project_ram_crisis.Driver.State.{DriverState}
use project_ram_crisis.Driver.State.Lock.{IsFree, step}
use project_ram_crisis.Driver.Groups.{Rooms}
use project_ram_crisis.Driver.Pages.{compare_entries, new_entry, add_page_entry}
use project_ram_crisis.Driver.Pages.Laws.{page_entries, add_page_entry-full}
use project_ram_crisis.Driver.Scanner.{
  MemoryInformation, Query, query_failed, query_found, AddressSpace, UserMemory,
  make_page_signature, scan_page, page_scan_thread,
}
use project_ram_crisis.Driver.Scanner.Ends.{Returns}
use project_ram_crisis.Driver.Scanner.Rounds.{AreWalkable, page_scan_thread-Returns}
use project_ram_crisis.Driver.Scanner.Unseen.{IsUniform, IsUnseen, page_scan_thread-IsUnseen}
use mathlib.Core.Option.{some-injective, none-ne-some}
use project_ram_crisis.Driver.Compare.{are_physical_pages_identical}
use project_ram_crisis.Tests.Machine.{machine, quiet}

-- One region of two pages, of which the second cannot be read; no memory for an entry.
abbrev region : ℕ → Query
region address =
    if ltb address 8192
    then query_found (record { base_address = 0; region_size = 8192; state = 0x1000; protect = 4 })
    else query_failed invalid_parameter

abbrev words_at : ℕ → Option (List ℕ)
words_at address = if address == 0 then some (7 ∷ []) else none

abbrev user : UserMemory ℕ
user = record {
  open_process = λ process. success;
  space = λ process. record {
    query = region;
    read_words = words_at;
    physical_address = λ address. some address;
  };
  lowest = 0;
  highest = 65536;
}

abbrev rooms : ℕ → Rooms
rooms address = record { page = false; group = false; cow = false }

-- Memory for every entry.
abbrev roomy : ℕ → Rooms
roomy address = record { page = true; group = true; cow = true }

-- The mutex is free and there is no page entry.
record HasNoPage (s : DriverState machine) : Type 0 where
  free : IsFree s
  entries : page_entries machine s ≡ []

visits :
    (space : AddressSpace) (address : ℕ) (s : DriverState machine)
    → HasNoPage s
    → Returns machine user rooms HasNoPage (scan_page machine user rooms space address s)
unfolding scan_page
visits space address s p = elim (Option-cases (space.read_words address)) [
  | inl unreadable ↦ (s, rw (unreadable, scan_page), p)
  | inr (words, read) ↦ elim (Option-cases (space.physical_address address)) [
    | inl unmapped ↦ (s, rw (read, scan_page) (rw (unmapped, scan_page)), p)
    | inr (physical, mapped) ↦ (
      s,
      rw (read, scan_page)
          (rw (mapped, scan_page)
            (step
              (add_page_entry machine (rooms address) (physical / 2 ^ 12)
                (make_page_signature words))
              _ (refused (physical / 2 ^ 12) (make_page_signature words)))),
      p,
    )
  ]
]
  where
    refused :
        (pfn : ℕ) (signature : PageSignature)
        → add_page_entry machine (rooms address) pfn signature s ≡ some (insufficient_resources, s)
    refused pfn signature =
        add_page_entry-full machine (rooms address) pfn signature s p.free refl
          (subst (Differs (compare_entries machine) (new_entry pfn signature)) (sym p.entries) tt)

found-same : (a b : MemoryInformation) → query_found a ≡ query_found b → a ≡ b
found-same a b e = cc

failed-found : (a : Status) (b : MemoryInformation) → query_failed a ≡ query_found b → ⊥
failed-found a b e = cc

region-ahead :
    (current : ℕ) (m : MemoryInformation)
    → region current ≡ query_found m
    → (current < m.base_address + m.region_size) × (m.base_address + m.region_size + 4096 < u64_mod)
region-ahead current m e = elim (Bool-cases (ltb current 8192)) [
  | inl below ↦
      let same : record { base_address = 0; region_size = 8192; state = 0x1000; protect = 4 } ≡ m =
        found-same _ m (sym (rw below) ∙ e) in
      subst
        (λ (x : MemoryInformation).
          (current < x.base_address + x.region_size)
          × (x.base_address + x.region_size + 4096 < u64_mod))
        same (ground arith, omega arith)
  | inr beyond ↦ absurd (failed-found invalid_parameter m (sym (rw beyond) ∙ e))
]

user-AreWalkable : AreWalkable machine user rooms HasNoPage
user-AreWalkable process = record {
  goes_on = region-ahead;
  highest_bound = omega arith;
  visits = visits (user.space process);
}

-- The event is set in round 2.
abbrev events : ℕ → Bool
events round = round == 2

page_scan_thread-Returns_example :
    (t : DriverState machine) × (page_scan_thread machine user rooms 2 events quiet ≡ some (tt, t))
    × HasNoPage t
page_scan_thread-Returns_example =
    page_scan_thread-Returns machine user rooms HasNoPage 2 events quiet user-AreWalkable
      (λ t p. p.free) (record { free = refl; entries = refl }) refl

-- All pages of the machine's memory are identical.
abbrev AnyFrame : ℕ → Type 0
AnyFrame pfn = Unit

AnyFrame-AreIdentical :
    (a b : ℕ) → AnyFrame a → AnyFrame b → are_physical_pages_identical machine.memory a b ≡ true
unfolding are_physical_pages_identical
AnyFrame-AreIdentical a b p q = ground arith

seven-content :
    (address : ℕ) (words : List ℕ)
    → words_at address ≡ some words
    → make_page_signature words ≡ make_page_signature (7 ∷ [])
seven-content address words read = elim (Bool-cases (address == 0)) [
  | inl first ↦ ap make_page_signature (sym (some-injective _ _ (sym (rw first) ∙ read)))
  | inr other ↦ absurd (none-ne-some words (sym (rw other) ∙ read))
]

user-IsUniform :
    (process : ℕ)
    → IsUniform machine user roomy (make_page_signature (7 ∷ [])) AnyFrame (user.space process)
user-IsUniform process = record {
  content = seven-content;
  frame = λ address physical at. tt;
  goes_on = region-ahead;
}

page_scan_thread-IsUnseen_example :
    (t : DriverState machine) × (page_scan_thread machine user roomy 2 events quiet ≡ some (tt, t))
    × IsUnseen machine user roomy (make_page_signature (7 ∷ [])) AnyFrame t
page_scan_thread-IsUnseen_example =
    page_scan_thread-IsUnseen machine user roomy (make_page_signature (7 ∷ [])) AnyFrame 2 events
      quiet AnyFrame-AreIdentical user-IsUniform (omega arith) (record { free = refl; all = tt })
      refl
