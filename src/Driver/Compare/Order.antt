-- ===== src/Driver/Compare/Order.antt =====
-- Whether `ComparePageEntries`, which answers -1, 0 and 1, orders the entries by the sign.
use project_ram_crisis.Prelude.{
  ℕ, ◌<◌, ◌≡◌, ap, true, false, pos, negsuc, is_negative, negate, ℤ, arith, [], ◌∷◌,
}
use project_ram_crisis.Driver.Kernel.{PhysicalMemory}
use project_ram_crisis.Driver.Data.{PageSignature, PageEntry}
use project_ram_crisis.Driver.Compare.{
  are_physical_pages_identical, compare_keys, compare_page_entries,
}

module _ {A : Type 0} where
  -- A three-way comparison by the sign of its answer, as qsort takes it.
  pub record IsOrder (compare : A → A → ℤ) : Type 0 where
    pub reflexive : (a : A) → compare a a ≡ pos 0
    pub flips : (a b : A) → compare b a ≡ negate (compare a b)
    pub transitive :
        (a b c : A)
        → is_negative (compare a b) ≡ true
        → is_negative (compare b c) ≡ true
        → is_negative (compare a c) ≡ true
    pub respects : (a b c : A) → compare a b ≡ pos 0 → compare a c ≡ compare b c

-- An entry for one page frame.
abbrev pub entry_at : PageSignature → ℕ → PageEntry
entry_at s pfn = record {
  signature = s;
  reference_count = 1;
  page_frame_numbers = pfn ∷ [];
  shared = false;
}

compare_page_entries-lt :
    (memory : PhysicalMemory) (s : PageSignature) (a b : ℕ)
    → a < b
    → are_physical_pages_identical memory a b ≡ false
    → compare_page_entries memory (entry_at s a) (entry_at s b) ≡ negsuc 0
unfolding compare_page_entries compare_keys
compare_page_entries-lt memory s a b low other = ground arith

compare_page_entries-same :
    (memory : PhysicalMemory) (s : PageSignature) (a b : ℕ)
    → are_physical_pages_identical memory a b ≡ true
    → compare_page_entries memory (entry_at s a) (entry_at s b) ≡ pos 0
unfolding compare_page_entries compare_keys
compare_page_entries-same memory s a b same = ground arith

-- `ComparePageEntries` is no order where two pages of one signature have the same bytes, and a
-- page of the same signature and other bytes has a frame number between theirs.
pub compare_page_entries-no-IsOrder :
    (memory : PhysicalMemory) (s : PageSignature) (a b c : ℕ)
    → a < b
    → b < c
    → are_physical_pages_identical memory a c ≡ true
    → are_physical_pages_identical memory a b ≡ false
    → are_physical_pages_identical memory b c ≡ false
    → ¬ IsOrder (compare_page_entries memory)
compare_page_entries-no-IsOrder memory s a b c low high same left right order = cc (
  order.transitive (entry_at s a) (entry_at s b) (entry_at s c)
      (ap is_negative (compare_page_entries-lt memory s a b low left))
      (ap is_negative (compare_page_entries-lt memory s b c high right)),
  ap is_negative (compare_page_entries-same memory s a c same),
)
