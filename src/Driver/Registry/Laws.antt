-- ===== src/Driver/Registry/Laws.antt =====
-- Opting in: who gets in, and what a second opting in of the same process does.
use project_ram_crisis.Prelude.{
  ℕ, zero, suc, ◌≡◌, ◌≢◌, refl, sym, ap, subst, ◌∙◌, ◌⊎◌, inl, inr, Bool, true, false, not, ◌||◌,
  List, [], ◌∷◌, map, Option, some, arith, length, Bool-cases,
}
use project_ram_crisis.Driver.Kernel.{Kernel, found, ProcessLookup-cases, Differs, insert_at}
use project_ram_crisis.Driver.Data.{
  ProcessOptInEntry, Status, success, invalid_parameter, insufficient_resources, kernel_failure,
}
use project_ram_crisis.Driver.Compare.{compare_process_entries}
use project_ram_crisis.Driver.Copies.{AllAre, insert_at-AllAre, length-insert_at}
use project_ram_crisis.Driver.Policy.{is_process_policy_allowed}
use project_ram_crisis.Driver.State.{DriverState}
use project_ram_crisis.Driver.State.Lock.{IsFree, lock, unlock, unlock-lock, guarded_lem}
use project_ram_crisis.Driver.Registry.{
  bad_handle, opt_in_entry, process_ids, insert_process, opt_in, register_opt_in_process,
  with_process_table,
}

-- `CompareProcessEntries` answers 0 for two entries of one process, which is GenericLessThan.
pub AllAre-Differs :
    (process_id : ℕ) (entries : List ProcessOptInEntry)
    → AllAre process_id (map (λ e. e.process_id) entries)
    → Differs compare_process_entries (opt_in_entry process_id) entries
unfolding compare_process_entries
AllAre-Differs process_id [] all = tt
AllAre-Differs process_id (e ∷ rest) all =
    (ground (arith, all.0), ground (arith, all.0), AllAre-Differs process_id rest all.1)

ids-insert_at :
    (i : ℕ) (e : ProcessOptInEntry) (entries : List ProcessOptInEntry)
    → map (λ x. x.process_id) (insert_at i e entries)
      ≡ insert_at i e.process_id (map (λ x. x.process_id) entries)
ids-insert_at zero e entries = refl
ids-insert_at (suc i) e [] = refl
ids-insert_at (suc i) e (x ∷ entries) = ap (λ l. x.process_id ∷ l) (ids-insert_at i e entries)

module _ (k : Kernel) where
  -- A process that the driver lets in: a handle that the kernel knows, not a system process, and
  -- with an image name that the policy allows.
  pub record IsAllowed (process_id : ℕ) : Type 0 where
    pub process : k.processes.Process
    pub good_handle : bad_handle process_id ≡ false
    pub known : k.processes.lookup_process process_id ≡ found process
    pub not_system : k.processes.is_system_process process ≡ false
    pub policy : is_process_policy_allowed (k.processes.image_file_name process) ≡ true

  -- The mutex is free, and no other process is in the table.
  pub record IsAlone (process_id : ℕ) (s : DriverState k) : Type 0 where
    pub free : IsFree s
    pub all : AllAre process_id (process_ids k s)

  -- `t` has one entry more than `s`, and it is of this process, as all are.
  abbrev pub HasAnother : ℕ → DriverState k → DriverState k → Type 0
  HasAnother process_id s t =
      IsAlone process_id t × (length (process_ids k t) ≡ suc (length (process_ids k s)))

  opt_in-full :
      (process_id : ℕ) (s : DriverState k)
      → IsAlone process_id s
      → opt_in k false process_id s ≡ some (insufficient_resources, s)
  unfolding opt_in insert_process
  opt_in-full process_id s alone =
      guarded_lem (insert_process k false process_id) s (lock s) insufficient_resources alone.free
        (rw (
          k.tables.insert_full compare_process_entries s.context.process_table
              (opt_in_entry process_id) (AllAre-Differs process_id _ alone.all),
          insert_process,
        ))
        refl
      ∙ ap (λ t. some (insufficient_resources, t)) (unlock-lock s alone.free)

  opt_in-new :
      (process_id : ℕ) (s : DriverState k)
      → IsAlone process_id s
      → (t : DriverState k) × (opt_in k true process_id s ≡ some (success, t))
        × HasAnother process_id s t
  unfolding opt_in insert_process
  opt_in-new process_id s alone =
      let (table, i, done, _, now) =
        k.tables.insert_new compare_process_entries s.context.process_table
          (opt_in_entry process_id) (AllAre-Differs process_id _ alone.all) in
      let ids =
        ap (map (λ (e : ProcessOptInEntry). e.process_id)) now
        ∙ ids-insert_at i (opt_in_entry process_id) (k.tables.elements s.context.process_table) in
      (
        with_process_table k (unlock s) table,
        guarded_lem (insert_process k true process_id) s (with_process_table k (lock s) table)
            success alone.free (rw (done, insert_process)) refl,
        (
          record {
            free = refl;
            all =
                subst (AllAre process_id) (sym ids)
                  (insert_at-AllAre process_id i (process_ids k s) alone.all);
          },
          ap length ids ∙ length-insert_at i process_id (process_ids k s),
        ),
      )

  -- The outcome of an opting in.
  abbrev pub Joins : ℕ → DriverState k → Option (Status × DriverState k) → Type 0
  Joins process_id s r =
      (status : Status) × (t : DriverState k) × (r ≡ some (status, t))
      × (((status ≡ success) × IsAllowed process_id × HasAnother process_id s t)
          ⊎ ((status ≢ success) × (t ≡ s)))

  ne_invalid : invalid_parameter ≢ success
  ne_invalid e = cc

  ne_full : insufficient_resources ≢ success
  ne_full e = cc

  ne_failure : (c : ℕ) → kernel_failure c ≢ success
  ne_failure c e = cc

  opt_in-Joins :
      (room : Bool) (process_id : ℕ) (s : DriverState k)
      → IsAlone process_id s
      → IsAllowed process_id
      → Joins process_id s (opt_in k room process_id s)
  opt_in-Joins false process_id s alone allowed =
      (insufficient_resources, s, opt_in-full process_id s alone, inr (ne_full, refl))
  opt_in-Joins true process_id s alone allowed =
      let (t, run, another) = opt_in-new process_id s alone in
      (success, t, run, inl (refl, allowed, another))

  register-known :
      (room : Bool) (process_id : ℕ) (s : DriverState k) (process : k.processes.Process)
      → IsAlone process_id s
      → bad_handle process_id ≡ false
      → k.processes.lookup_process process_id ≡ found process
      → Joins process_id s (register_opt_in_process k room process_id s)
  unfolding register_opt_in_process
  register-known room process_id s process alone good known =
      elim (Bool-cases (
        k.processes.is_system_process process
        || not (is_process_policy_allowed (k.processes.image_file_name process)))) [
          | inl refused ↦
              (invalid_parameter, s, rw good (rw known (rw refused)), inr (ne_invalid, refl))
          | inr allowed ↦
              let (status, t, run, outcome) = opt_in-Joins room process_id s alone (record {
                process = process;
                good_handle = good;
                known = known;
                not_system = ground arith;
                policy = ground arith;
              }) in
              (status, t, rw good (rw known (rw allowed run)), outcome)
        ]

  -- With the mutex free and no other process in the table than this one, opting it in returns. It
  -- succeeds only for a process that the driver lets in, and then the table has one more entry of it,
  -- also if it was opted in before. Otherwise the state is as before.
  pub register_opt_in_process-Joins :
      (room : Bool) (process_id : ℕ) (s : DriverState k)
      → IsAlone process_id s
      → Joins process_id s (register_opt_in_process k room process_id s)
  register_opt_in_process-Joins room process_id s alone =
      elim (Bool-cases (bad_handle process_id)) [
        | inl bad ↦
            (invalid_parameter, s, unfold register_opt_in_process in rw bad, inr (ne_invalid, refl))
        | inr good ↦ elim (ProcessLookup-cases (k.processes.lookup_process process_id)) [
          | inl (c, unknown) ↦ (
            kernel_failure c,
            s,
            unfold register_opt_in_process in rw good (rw unknown),
            inr (ne_failure c, refl),
          )
          | inr (process, known) ↦ register-known room process_id s process alone good known
        ]
      ]
