-- ===== src/Driver/State/Lock.antt =====
-- A body that runs between an acquisition and a release of the mutex.
use project_ram_crisis.Prelude.{◌≡◌, ap, sym, ◌∙◌, none, some}
use project_ram_crisis.Driver.Kernel.{Kernel}
use project_ram_crisis.Driver.State.{DriverState, Action, acquire, release, pure, ◌>>=◌, ◌>>◌}

module _ {k : Kernel} where
  -- The mutex is not owned.
  abbrev pub IsFree : DriverState k → Type 0
  IsFree s = s.mutex ≡ k.mutexes.free

  -- The mutex is owned, so the next acquisition never returns.
  abbrev pub IsHeld : DriverState k → Type 0
  IsHeld s = s.mutex ≡ k.mutexes.held

  abbrev pub lock : DriverState k → DriverState k
  lock s = record s { mutex = k.mutexes.held }

  abbrev pub unlock : DriverState k → DriverState k
  unlock s = record s { mutex = k.mutexes.free }

  pub acquire-IsFree : (s : DriverState k) → IsFree s → acquire s ≡ some (tt, lock s)
  unfolding acquire
  acquire-IsFree s free = rw (ap k.mutexes.acquire free ∙ k.mutexes.acquire_free, acquire)

  pub acquire-IsHeld : (s : DriverState k) → IsHeld s → acquire s ≡ none
  unfolding acquire
  acquire-IsHeld s held = rw (ap k.mutexes.acquire held ∙ k.mutexes.acquire_held, acquire)

  pub release-IsHeld : (s : DriverState k) → IsHeld s → release s ≡ some (tt, unlock s)
  unfolding release
  release-IsHeld s held =
      ap (λ m. some (tt, record s { mutex = m }))
        (ap k.mutexes.release held ∙ k.mutexes.release_held)

  -- A state with a free mutex, locked and unlocked, is itself.
  pub unlock-lock : (s : DriverState k) → IsFree s → unlock (lock s) ≡ s
  unlock-lock s free = λ i. record s { mutex = sym free i }

  -- A step that returns, followed by the rest.
  pub step :
      {A B : Type 0} (m : Action k A) (f : A → Action k B) {s t : DriverState k} {a : A}
      → m s ≡ some (a, t)
      → (m >>= f) s ≡ f a t
  step m f e = rw (e, ◌>>=◌)

  -- A step that never returns.
  pub step-none :
      {A B : Type 0} (m : Action k A) (f : A → Action k B) {s : DriverState k}
      → m s ≡ none
      → (m >>= f) s ≡ none
  step-none m f e = rw (e, ◌>>=◌)

  module _ {A B : Type 0} (body : Action k A) (f : A → B) where
    pub guarded_map :
        (s t : DriverState k) (a : A)
        → IsFree s
        → body (lock s) ≡ some (a, t)
        → IsHeld t
        → (acquire >> (body >>= λ r. release >> pure (f r))) s ≡ some (f a, unlock t)
    guarded_map s t a free run held =
        step acquire _ (acquire-IsFree s free)
        ∙ step body _ run
        ∙ step release _ (release-IsHeld t held)

  pub guarded_lem :
      {A : Type 0} (body : Action k A) (s t : DriverState k) (a : A)
      → IsFree s
      → body (lock s) ≡ some (a, t)
      → IsHeld t
      → (acquire >> (body >>= λ r. release >> pure r)) s ≡ some (a, unlock t)
  guarded_lem body = guarded_map body (λ r. r)
