-- ===== src/User/Controller/Handle.antt =====
-- The handle of the device, and the codes that reach it.
use project_ram_crisis.Prelude.{
  ℕ, zero, suc, ◌≡◌, ◌⊎◌, inl, inr, sym, ap, ◌∙◌, true, false, List, [], ◌∷◌, Option, none, some,
  Bool-cases, subst, ltb, Option-cases, ◌==◌, replicate, length,
}
use mathlib.Core.Option.{some-injective, none-ne-some}
use project_ram_crisis.User.Controller.{
  printable, IoCall, IoAnswer, Event, opened, closed, called, Windows, Session, Command, optin,
  optout, stats, list, health, drain, command_of, leave, is_short, next_size, overwritten, resized,
  list_call, device_io_control, call_and_leave, send_process, list_loop, show_list, list_processes,
  execute, wmain, opened_session, untouched, register_process_code, unregister_process_code,
  query_stats_code, list_processes_code, query_health_code, drain_code,
}

-- The codes that the controller calls with.
pub data IsControllerCode : ℕ → Type 0 where
  registers : IsControllerCode register_process_code
  unregisters : IsControllerCode unregister_process_code
  queries_stats : IsControllerCode query_stats_code
  lists : IsControllerCode list_processes_code
  queries_health : IsControllerCode query_health_code
  drains : IsControllerCode drain_code

-- The device was opened, and called with such codes since.
pub data IsOpen : List Event → Type 0 where
  just_opened : IsOpen (opened ∷ [])
  after_call :
      {events : List Event} (c : IoCall)
      → IsControllerCode c.code
      → IsOpen events
      → IsOpen (called c ∷ events)

-- The device was never opened, or opened, called with such codes, and closed once, as the last.
pub data IsHandled : List Event → Type 0 where
  never_opened : IsHandled []
  closed_again : {events : List Event} → IsOpen events → IsHandled (closed ∷ events)

module _ (w : Windows) where
  the_end : {q r : ℕ × Session} → IsHandled q.1.events → some q ≡ some r → IsHandled r.1.events
  the_end h e = subst (λ (q : ℕ × Session). IsHandled q.1.events) (some-injective _ _ e) h

  leave-IsHandled :
      (exit_code : ℕ) (s : Session) → IsOpen s.events → IsHandled (leave exit_code s).1.events
  unfolding leave
  leave-IsHandled exit_code s o = closed_again o

  call_and_leave-IsHandled :
      (c : IoCall) (s : Session)
      → IsControllerCode c.code
      → IsOpen s.events
      → IsHandled (call_and_leave w c s).1.events
  unfolding call_and_leave device_io_control
  call_and_leave-IsHandled c s code o = elim (Bool-cases (w.answer s.events c).succeeded) [
    | inl done ↦
        rw done
          (leave-IsHandled 0 (record s { events = called c ∷ s.events }) (after_call c code o))
    | inr not_done ↦
        rw not_done
          (leave-IsHandled 1 (record s { events = called c ∷ s.events }) (after_call c code o))
  ]

  send_process-IsHandled :
      (code : ℕ) (rest : List (List ℕ)) (s : Session)
      → IsControllerCode code
      → IsOpen s.events
      → IsHandled (send_process w code rest s).1.events
  unfolding send_process
  send_process-IsHandled code [] s ok o = leave-IsHandled 1 s o
  send_process-IsHandled code (text ∷ []) s ok o = elim (Bool-cases (w.wcstoul text == 0)) [
    | inl invalid ↦ rw invalid (leave-IsHandled 1 s o)
    | inr valid ↦ rw valid (
        call_and_leave-IsHandled
          (record { code = code; input = w.wcstoul text ∷ []; output_size = 0 }) s ok o)
  ]
  send_process-IsHandled code (text ∷ more ∷ rest) s ok o = leave-IsHandled 1 s o

  -- The session behind a call of the loop, and the buffer that it filled.
  abbrev pub behind : List ℕ → Session → Session
  behind buffer s = record s { events = called (list_call buffer) ∷ s.events }

  abbrev pub answered : List ℕ → Session → IoAnswer
  answered buffer s = w.answer s.events (list_call buffer)

  abbrev pub filled : List ℕ → Session → List ℕ
  filled buffer s = overwritten (answered buffer s).words buffer

  abbrev pub grown : List ℕ → Session → List ℕ
  grown buffer s =
      resized (next_size (length buffer) (answered buffer s).bytes_returned) (filled buffer s)

  pub list_loop-cases :
      (fuel : ℕ) (buffer : List ℕ) (s : Session)
      → ((list_loop w (suc fuel) buffer s
            ≡ some (answered buffer s, filled buffer s, behind buffer s))
          × (((answered buffer s).succeeded ≡ true) ⊎ (is_short (answered buffer s) ≡ false)))
        ⊎ ((list_loop w (suc fuel) buffer s ≡ list_loop w fuel (grown buffer s) (behind buffer s))
            × ((answered buffer s).succeeded ≡ false)
            × (is_short (answered buffer s) ≡ true))
  unfolding list_loop device_io_control
  list_loop-cases fuel buffer s = elim (Bool-cases (answered buffer s).succeeded) [
    | inl done ↦ inl (simp done, inl done)
    | inr not_done ↦ elim (Bool-cases (is_short (answered buffer s))) [
      | inl short ↦ inr (simp (not_done, short), not_done, short)
      | inr other ↦ inl (simp (not_done, other), inr other)
    ]
  ]

  list_loop-IsOpen :
      (fuel : ℕ) (buffer final : List ℕ) (r : IoAnswer) (s t : Session)
      → IsOpen s.events
      → list_loop w fuel buffer s ≡ some (r, final, t)
      → IsOpen t.events
  unfolding list_loop
  list_loop-IsOpen zero buffer final r s t o e = absurd (none-ne-some _ e)
  list_loop-IsOpen (suc fuel) buffer final r s t o e = elim (list_loop-cases fuel buffer s) [
    | inl (ends, _) ↦
        subst (λ (u : Session). IsOpen u.events)
          (ap (λ (q : IoAnswer × List ℕ × Session). q.2) (some-injective _ _ (sym ends ∙ e)))
          now_open
    | inr (goes_on, _, _) ↦
        list_loop-IsOpen fuel (grown buffer s) final r (behind buffer s) t now_open
          (sym goes_on ∙ e)
  ]
    where
      now_open : IsOpen (behind buffer s).events
      now_open = after_call (list_call buffer) lists o

  show_list-IsHandled :
      (r : IoAnswer) (buffer : List ℕ) (s : Session)
      → IsOpen s.events
      → IsHandled (show_list w r buffer s).1.events
  unfolding show_list
  show_list-IsHandled r buffer s o = elim (Bool-cases r.succeeded) [
    | inr not_done ↦ rw not_done (leave-IsHandled 1 s o)
    | inl done ↦ elim (Bool-cases (ltb r.bytes_returned 8)) [
      | inl too_few ↦ rw done (rw too_few (leave-IsHandled 1 s o))
      | inr enough ↦
          rw done (rw enough (leave-IsHandled 0 (record s { printed = printable buffer }) o))
    ]
  ]

  list_processes-IsHandled :
      (fuel exit_code : ℕ) (s t : Session)
      → IsOpen s.events
      → list_processes w fuel s ≡ some (exit_code, t)
      → IsHandled t.events
  unfolding list_processes
  list_processes-IsHandled fuel exit_code s t o e =
      elim (Option-cases (list_loop w fuel (replicate 8 0) s)) [
        | inl never ↦ absurd (none-ne-some _ (ap shown (sym never) ∙ e))
        | inr ((r, buffer, u), run) ↦
            subst (λ (q : ℕ × Session). IsHandled q.1.events)
              (some-injective _ _ (ap shown (sym run) ∙ e))
              (show_list-IsHandled r buffer u
                (list_loop-IsOpen fuel (replicate 8 0) buffer r s u o run))
      ]
    where
      shown : Option (IoAnswer × List ℕ × Session) → Option (ℕ × Session)
      shown none = none
      shown (some (r, buffer, t)) = some (show_list w r buffer t)

  execute-IsHandled :
      (fuel : ℕ) (command : Command) (rest : List (List ℕ)) (exit_code : ℕ) (s t : Session)
      → IsOpen s.events
      → execute w fuel command rest s ≡ some (exit_code, t)
      → IsHandled t.events
  unfolding execute
  execute-IsHandled fuel optin rest exit_code s t o e =
      the_end (send_process-IsHandled register_process_code rest s registers o) e
  execute-IsHandled fuel optout rest exit_code s t o e =
      the_end (send_process-IsHandled unregister_process_code rest s unregisters o) e
  execute-IsHandled fuel stats rest exit_code s t o e =
      the_end (call_and_leave-IsHandled _ s queries_stats o) e
  execute-IsHandled fuel health rest exit_code s t o e =
      the_end (call_and_leave-IsHandled _ s queries_health o) e
  execute-IsHandled fuel drain rest exit_code s t o e =
      the_end (call_and_leave-IsHandled _ s drains o) e
  execute-IsHandled fuel list rest exit_code s t o e =
      list_processes-IsHandled fuel exit_code s t o e

  -- Whatever the arguments and the answers of the device, a run of the controller that ends never
  -- opened the device, or opened it once, called it with the controller's six codes alone, and
  -- closed it once, as the last.
  pub wmain-IsHandled :
      (fuel : ℕ) (arguments : List (List ℕ)) (exit_code : ℕ) (t : Session)
      → wmain w fuel arguments ≡ some (exit_code, t)
      → IsHandled t.events
  unfolding wmain
  wmain-IsHandled fuel [] exit_code t e = the_end never_opened e
  wmain-IsHandled fuel (text ∷ rest) exit_code t e = elim (Option-cases (command_of text)) [
    | inl unknown ↦ the_end {q = (1, untouched)} never_opened (sym (rw (unknown, wmain)) ∙ e)
    | inr (command, known) ↦ elim (Bool-cases w.opens) [
      | inl opens ↦
          execute-IsHandled fuel command rest exit_code opened_session t just_opened
            (sym (rw (known, wmain) (rw (opens, wmain))) ∙ e)
      | inr shut ↦
          the_end {q = (1, untouched)} never_opened (sym (rw (known, wmain) (rw (shut, wmain))) ∙ e)
    ]
  ]
