-- ===== src/Driver/Lifecycle/Device.antt =====
-- The device and its link.
use project_ram_crisis.Prelude.{
  ◌≡◌, ◌⊎◌, inl, inr, refl, ◌∙◌, Bool, true, false, Option, some, ℤ, Bool-cases,
}
use project_ram_crisis.Driver.Kernel.{Kernel}
use project_ram_crisis.Driver.Data.{CowPrivatePage, Status, success}
use project_ram_crisis.Driver.State.{nt_success}
use project_ram_crisis.Driver.Lifecycle.{
  Answers, DriverImage, is_collision, Load, on_driver, delete_device, delete_link, create_link,
  retry_link, create_control_device, destroy_control_device, start_page_scanner, initialize,
  shutdown, start_scanning, create_and_scan, driver_entry, after_initialize,
}
use project_ram_crisis.Driver.Lifecycle

module _ (k : Kernel) (compare_cow_private_pages : CowPrivatePage → CowPrivatePage → ℤ) where
  -- No device and no thread.
  pub record IsUnloaded (s : DriverImage k) : Type 0 where
    pub device : s.device ≡ false
    pub scan_thread : s.scan_thread ≡ false
    pub device_exists : s.device_exists ≡ false
    pub thread_runs : s.thread_runs ≡ false

  pub step :
      {A B : Type 0} (m : Load k compare_cow_private_pages A)
      (f : A → Load k compare_cow_private_pages B) {s t : DriverImage k} {a : A}
      → m s ≡ some (a, t)
      → (Lifecycle.◌>>=◌ k compare_cow_private_pages m f) s ≡ f a t
  step m f e = rw (e, Lifecycle.◌>>=◌)

  create_link-some :
      (status : Status) (s : DriverImage k)
      → nt_success status ≡ true
      → create_link k compare_cow_private_pages status s
        ≡ some (status, record s { link_exists = true })
  unfolding create_link
  create_link-some status s done = simp done

  create_link-none :
      (status : Status) (s : DriverImage k)
      → nt_success status ≡ false
      → create_link k compare_cow_private_pages status s ≡ some (status, s)
  unfolding create_link
  create_link-none status s failed = simp failed

  -- The device is deleted again, unless the link is made at the second attempt.
  abbrev pub Retried : Answers → DriverImage k → Option (Status × DriverImage k) → Type 0
  Retried answers s r =
      (status : Status) × (device device_exists link_exists : Bool) × (r
        ≡ some (
          status,
          record s { device = device; device_exists = device_exists; link_exists = link_exists },
        ))
      × (((status ≡ success) × (device ≡ true) × (device_exists ≡ true) × (link_exists ≡ true))
          ⊎ ((nt_success status ≡ false) × (device ≡ false) × (device_exists ≡ false)))

  retry_link-Retried :
      (answers : Answers) (status : Status) (s : DriverImage k)
      → s.device ≡ true
      → s.device_exists ≡ true
      → nt_success status ≡ false
      → Retried answers s (retry_link k compare_cow_private_pages answers status s)
  unfolding retry_link delete_device delete_link
  retry_link-Retried answers status s device device_exists failed =
      elim (Bool-cases (is_collision status)) [
        | inr other ↦ (status, false, false, s.link_exists, simp other, inr (failed, refl, refl))
        | inl collision ↦ elim (Bool-cases (nt_success answers.create_link_again)) [
          | inl again ↦ (
            success,
            s.device,
            s.device_exists,
            true,
            simp collision (
                step (create_link k compare_cow_private_pages answers.create_link_again) _ (
                  create_link-some answers.create_link_again (record s { link_exists = false })
                    again)
                ∙ simp again),
            inl (refl, device, device_exists, refl),
          )
          | inr not_again ↦ (
            answers.create_link_again,
            false,
            false,
            false,
            simp collision (
                step (create_link k compare_cow_private_pages answers.create_link_again) _ (
                  create_link-none answers.create_link_again (record s { link_exists = false })
                    not_again)
                ∙ simp not_again),
            inr (not_again, refl, refl),
          )
        ]
      ]

  pub create_control_device-Retried :
      (answers : Answers) (s : DriverImage k)
      → IsUnloaded s
      → Retried answers s (create_control_device k compare_cow_private_pages answers s)
  unfolding create_control_device
  create_control_device-Retried answers s unloaded =
      elim (Bool-cases (nt_success answers.create_device)) [
        | inr no_device ↦ (
          answers.create_device,
          s.device,
          s.device_exists,
          s.link_exists,
          simp no_device,
          inr (no_device, unloaded.device, unloaded.device_exists),
        )
        | inl created ↦ elim (Bool-cases (nt_success answers.create_link)) [
          | inl link ↦ (
            success,
            true,
            true,
            true,
            simp created (
                step (create_link k compare_cow_private_pages answers.create_link) _
                  (create_link-some answers.create_link with_device link)
                ∙ simp link),
            inl (refl, refl, refl, refl),
          )
          | inr no_link ↦
              let (status, d, e, l, run, outcome) =
                retry_link-Retried answers answers.create_link with_device refl refl no_link in
              (
                status,
                d,
                e,
                l,
                simp created (
                    step (create_link k compare_cow_private_pages answers.create_link) _
                      (create_link-none answers.create_link with_device no_link)
                    ∙ simp no_link run),
                outcome,
              )
        ]
      ]
    where
      with_device : DriverImage k
      with_device = record s { device = true; device_exists = true }
