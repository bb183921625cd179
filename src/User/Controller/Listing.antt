-- ===== src/User/Controller/Listing.antt =====
-- The loop of the list command ends.
use project_ram_crisis.Prelude.{
  ℕ, zero, suc, ◌+◌, ◌*◌, ◌-◌, ◌/◌, ◌≤◌, ◌<◌, ◌≡◌, ◌⊎◌, inl, inr, refl, sym, ap, ◌∙◌, true, false,
  List, [], ◌∷◌, some, Bool-cases, Option-cases, leb, take, length, replicate, length-append,
  length-replicate, u32_mod, arith,
}
use mathlib.Core.Bool.{true≢false}
use project_ram_crisis.User.Controller.{
  IoCall, IoAnswer, Event, Windows, Session, Command, command_of, is_short, next_size, overwritten,
  resized, list_call, list_loop, list_processes, execute, wmain, opened_session, untouched, optin,
  optout, stats, list, health, drain, show_list,
}
use project_ram_crisis.User.Controller.Handle.{answered, filled, grown, behind, list_loop-cases}

length-overwritten : (words buffer : List ℕ) → length (overwritten words buffer) ≡ length buffer
unfolding overwritten
length-overwritten words [] = refl
length-overwritten [] (old ∷ buffer) = refl
length-overwritten (word ∷ words) (old ∷ buffer) = ap suc (length-overwritten words buffer)

length-take : (n : ℕ) (xs : List ℕ) → n ≤ length xs → length (take n xs) ≡ n
length-take zero xs h = refl
length-take (suc n) [] h = omega arith
length-take (suc n) (x ∷ xs) h = ap suc (length-take n xs (omega arith))

take-all : (n : ℕ) (xs : List ℕ) → length xs ≤ n → take n xs ≡ xs
take-all zero [] h = refl
take-all zero (x ∷ xs) h = absurd (omega arith)
take-all (suc n) [] h = refl
take-all (suc n) (x ∷ xs) h = ap (λ l. x ∷ l) (take-all n xs (omega arith))

length-resized : (n : ℕ) (xs : List ℕ) → length xs ≤ n → length (resized n xs) ≡ n
unfolding resized
length-resized n xs h = omega (
  arith,
  length-append (take n xs) (replicate (n - length xs) 0),
  ap length (take-all n xs h),
  length-replicate {A = ℕ} (n - length xs) 0,
)

-- The next buffer is larger, and at most twice as large, or as large as what the device asks for.
next_size-grows :
    (size bytes_returned : ℕ)
    → 0 < size
    → (size < next_size size bytes_returned)
      × ((next_size size bytes_returned ≤ size * 2)
          ⊎ (next_size size bytes_returned ≤ (bytes_returned + 7) / 8))
unfolding next_size
next_size-grows size bytes_returned h =
    elim (Bool-cases (leb ((bytes_returned + 8 - 1) / 8) size)) [
      | inl small ↦ rw small (omega arith, inl (omega arith))
      | inr large ↦ (ground arith, inr (ground arith))
    ]

module _ (w : Windows) where
  -- A device whose process list has `limit` words: a call with room for them is not answered as
  -- too short, and no call asks for more.
  pub record IsListOf (limit : ℕ) : Type 0 where
    pub bound : limit * 16 < u32_mod
    pub fits :
        (events : List Event) (c : IoCall)
        → limit * 8 ≤ c.output_size
        → is_short (w.answer events c) ≡ false
    pub asks : (events : List Event) (c : IoCall) → (w.answer events c).bytes_returned ≤ limit * 8

  -- A call that is too short had fewer words.
  short-lt :
      (limit : ℕ) (buffer : List ℕ) (s : Session)
      → IsListOf limit
      → length buffer * 8 < u32_mod
      → is_short (answered w buffer s) ≡ true
      → length buffer < limit
  short-lt limit buffer s ok bound short = elim (lt-or-le (length buffer) limit) [
    | inl less ↦ less
    | inr enough ↦
        absurd (true≢false (sym short ∙ ok.fits s.events (list_call buffer) (omega arith)))
  ]
    where
      lt-or-le : (a b : ℕ) → (a < b) ⊎ (b ≤ a)
      lt-or-le a b = omega arith

  list_loop-total :
      (limit fuel : ℕ) (buffer : List ℕ) (s : Session)
      → IsListOf limit
      → 0 < length buffer
      → length buffer * 8 < u32_mod
      → limit < length buffer + fuel
      → 0 < fuel
      → (r : IoAnswer) × (final : List ℕ) × (t : Session) × (list_loop w fuel buffer s
          ≡ some (r, final, t))
        × ((r.succeeded ≡ true) ⊎ (is_short r ≡ false))
  list_loop-total limit zero buffer s ok some_size bound enough some_fuel = absurd (omega arith)
  list_loop-total limit (suc fuel) buffer s ok some_size bound enough some_fuel =
      elim (list_loop-cases w fuel buffer s) [
        | inl (run, ends) ↦ (answered w buffer s, filled w buffer s, behind w buffer s, run, ends)
        | inr (goes_on, not_done, short) ↦
            let less = short-lt limit buffer s ok bound short in
            let asked = ok.asks s.events (list_call buffer) in
            let (larger, at_most) =
              next_size-grows (length buffer) (answered w buffer s).bytes_returned some_size in
            let same = length-overwritten (answered w buffer s).words buffer in
            let size =
              length-resized (next_size (length buffer) (answered w buffer s).bytes_returned)
                (filled w buffer s) (omega arith) in
            let below =
              next-le limit (length buffer) (answered w buffer s).bytes_returned less asked
                at_most in
            let (r, final, t, run, ends) =
              list_loop-total limit fuel (grown w buffer s) (behind w buffer s) ok (omega arith)
                (omega (arith, ok.bound)) (omega arith) (omega arith) in
            (r, final, t, goes_on ∙ run, ends)
      ]
    where
      next-le :
          (limit size bytes : ℕ) {next : ℕ}
          → size < limit
          → bytes ≤ limit * 8
          → (next ≤ size * 2) ⊎ (next ≤ (bytes + 7) / 8)
          → next ≤ limit * 2
      next-le limit size bytes less asked (inl h) = omega arith
      next-le limit size bytes less asked (inr h) = omega arith

  list_processes-shows :
      (fuel : ℕ) (s t : Session) (r : IoAnswer) (final : List ℕ)
      → list_loop w fuel (replicate 8 0) s ≡ some (r, final, t)
      → list_processes w fuel s ≡ some (show_list w r final t)
  unfolding list_processes
  list_processes-shows fuel s t r final run = rw (run, list_processes)

  list_processes-total :
      (limit fuel : ℕ) (s : Session)
      → IsListOf limit
      → limit < fuel
      → (exit_code : ℕ) × (t : Session) × (list_processes w fuel s ≡ some (exit_code, t))
  list_processes-total limit fuel s ok enough =
      let (r, final, t, run, _) =
        list_loop-total limit fuel (replicate 8 0) s ok (omega (arith, size)) (omega (arith, size))
          (omega (arith, size)) (omega arith) in
      (
        (show_list w r final t).0,
        (show_list w r final t).1,
        list_processes-shows fuel s t r final run,
      )
    where
      first : List ℕ
      first = replicate 8 0

      size : length first ≡ 8
      size = length-replicate {A = ℕ} 8 0

  execute-total :
      (limit fuel : ℕ) (command : Command) (rest : List (List ℕ)) (s : Session)
      → IsListOf limit
      → limit < fuel
      → (exit_code : ℕ) × (t : Session) × (execute w fuel command rest s ≡ some (exit_code, t))
  unfolding execute
  execute-total limit fuel list rest s ok enough = list_processes-total limit fuel s ok enough
  execute-total limit fuel optin rest s ok enough = (_, _, refl)
  execute-total limit fuel optout rest s ok enough = (_, _, refl)
  execute-total limit fuel stats rest s ok enough = (_, _, refl)
  execute-total limit fuel health rest s ok enough = (_, _, refl)
  execute-total limit fuel drain rest s ok enough = (_, _, refl)

  -- Where the device's process list has `limit` words, so that no call with room for them is
  -- answered as too short and none asks for more than them, and twice as many fit in a DWORD,
  -- the controller returns, with any fuel above `limit`.
  pub wmain-total :
      (limit fuel : ℕ) (arguments : List (List ℕ))
      → IsListOf limit
      → limit < fuel
      → (exit_code : ℕ) × (t : Session) × (wmain w fuel arguments ≡ some (exit_code, t))
  unfolding wmain
  wmain-total limit fuel [] ok enough = (1, untouched, refl)
  wmain-total limit fuel (text ∷ rest) ok enough = elim (Option-cases (command_of text)) [
    | inl unknown ↦ (1, untouched, rw (unknown, wmain))
    | inr (command, known) ↦ elim (Bool-cases w.opens) [
      | inr shut ↦ (1, untouched, rw (known, wmain) (rw (shut, wmain)))
      | inl opens ↦
          let (exit_code, t, run) =
            execute-total limit fuel command rest opened_session ok enough in
          (exit_code, t, rw (known, wmain) (rw (opens, wmain) run))
    ]
  ]
