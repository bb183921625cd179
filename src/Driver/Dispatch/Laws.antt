-- ===== src/Driver/Dispatch/Laws.antt =====
-- Which requests return, and what they leave.
use project_ram_crisis.Prelude.{
  ℕ, ◌≡◌, ◌≢◌, ◌≤◌, ◌⊎◌, inl, inr, refl, Bool, some, ltb, Bool-cases, arith,
}
use project_ram_crisis.Driver.Kernel.{Kernel}
use project_ram_crisis.Driver.Data.{Status, success, buffer_too_small}
use project_ram_crisis.Driver.State.{DriverState, Action}
use project_ram_crisis.Driver.State.Lock.{step}
use project_ram_crisis.Driver.Registry.{register_opt_in_process}
use project_ram_crisis.Driver.Registry.Laws.{
  IsAllowed, IsAlone, HasAnother, register_opt_in_process-Joins,
}
use project_ram_crisis.Driver.Dispatch.{
  ControlRequest, ControlReply, status_reply, register_process_code, answer, device_control,
}

module _ (k : Kernel) (allocate_private_copy : ℕ → ℕ → Action k Status) where
  answer-some :
      {A : Type 0} (reply : A → ControlReply) (run : Action k A) (s t : DriverState k) (a : A)
      → run s ≡ some (a, t)
      → answer k allocate_private_copy reply run s ≡ some (reply a, t)
  unfolding answer
  answer-some reply run s t a e = step run _ e

  -- With the mutex free and no other process in the table than the one of the request, a request to
  -- register it returns. It succeeds only if the buffer holds a handle and the driver lets the process
  -- in, and then the table has one more entry of it. Otherwise nothing has changed.
  pub device_control-registers :
      (room : Bool) (r : ControlRequest) (s : DriverState k)
      → IsAlone k r.process_id s
      → r.control_code ≡ register_process_code
      → (reply : ControlReply) × (t : DriverState k) × (device_control k allocate_private_copy room
            r s
          ≡ some (reply, t))
        × (((reply.status ≡ success)
              × (8 ≤ r.input_length)
              × IsAllowed k r.process_id
              × HasAnother k r.process_id s t)
            ⊎ ((reply.status ≢ success) × (t ≡ s)))
  device_control-registers room r s alone code = elim (Bool-cases (ltb r.input_length 8)) [
    | inl short ↦ (
      status_reply buffer_too_small,
      s,
      unfold device_control in rw code (rw short),
      inr (ne_small, refl),
    )
    | inr enough ↦
        let (status, t, run, outcome) = register_opt_in_process-Joins k room r.process_id s alone in
        (
          status_reply status,
          t,
          unfold device_control in
              rw code (
                rw enough (
                  answer-some status_reply (register_opt_in_process k room r.process_id) s t status
                    run)),
          elim outcome [
            | inl (done, allowed, another) ↦ inl (done, ground arith, allowed, another)
            | inr refused ↦ inr refused
          ],
        )
  ]
    where
      ne_small : buffer_too_small ≢ success
      ne_small e = cc
