-- ===== src/Context/Selection.antt =====
-- engine/core/vksc_context.cpp: the physical device that `SelectPhysicalDevice` selects.
use soteria.Prelude.{
  ℕ, ◌<◌, ◌≡◌, ◌≢◌, refl, ap, inl, inr, ◌⊎◌, Bool, true, false, Option, none, some, List, [], ◌∷◌,
  ◌++◌, arith, All, ◌==◌, Bool-cases, ==→eq, sym, subst, ◌∙◌, min, max, not, ◌&&◌, ltb,
  if◌then◌else◌, if_elim,
}
use soteria.Result.{k_vksc_enumerate_failed}
use soteria.Vulkan.{Driver, History}
use soteria.Vulkan.Enumerate.{IsConforming}
use soteria.Context.Families.{HasGraphics, IsFirstFamily, graphics_family-outcome}
use soteria.Context.{
  graphics_family, max_queue_families, try_device, select_pass, select_from, select_physical_device,
  device_cap,
}

module _ (d : Driver) (h : History) (preferred : ℕ) where
  -- The flags of those queue families of a device that are examined, `kMaxQueueFamilies` at most.
  abbrev pub examined : ℕ → List ℕ
  examined pd = ((d.queue_families h pd).fetch (min 16 (d.queue_families h pd).count)).1

  -- The device has the preferred driver, where that is asked for.
  abbrev pub Passes : Bool → ℕ → Type 0
  Passes use_filter pd = use_filter ≡ true → (d.device_properties h pd).driver_id ≡ preferred

  -- The device is passed over: it has another driver, or no family, or none with a graphics queue is
  -- examined.
  abbrev pub IsRejected : Bool → ℕ → Type 0
  IsRejected use_filter pd =
      ((use_filter ≡ true) × ((d.device_properties h pd).driver_id ≢ preferred))
      ⊎ (((d.queue_families h pd).count ≡ 0) ⊎ All (λ flags. ¬ HasGraphics flags) (examined pd))

  abbrev pub AllRejected : Bool → List ℕ → Type 0
  AllRejected use_filter = All (IsRejected use_filter)

  -- What the body of the loop finds for a device.
  abbrev DeviceOutcome : Bool → ℕ → Option ℕ → Type 0
  DeviceOutcome use_filter pd o =
      ((o ≡ none) × IsRejected use_filter pd)
      ⊎ ((family : ℕ) × (o ≡ some family)
          × Passes use_filter pd
          × IsFirstFamily (examined pd) family)

  try_device-outcome :
      (use_filter : Bool) (pd : ℕ)
      → DeviceOutcome use_filter pd (try_device d h use_filter preferred pd)
  unfolding try_device
  try_device-outcome use_filter pd =
      let families = d.queue_families h pd in
      let cap =
        if ltb max_queue_families families.count then max_queue_families else families.count in
      let capped : cap ≡ min 16 families.count = ground arith in
      if_elim (DeviceOutcome use_filter pd)
        (use_filter && not ((d.device_properties h pd).driver_id == preferred))
        (λ other. inl (refl, inl (ground (arith, other), λ e. ground (arith, e, other))))
        (λ passes.
          let good : Passes use_filter pd = λ on. ground (arith, on, passes) in
          if_elim (DeviceOutcome use_filter pd) (families.count == 0)
            (λ empty. inl (refl, inr (inl (==→eq families.count 0 empty))))
            (λ some_families.
              subst (λ n. DeviceOutcome use_filter pd (graphics_family (families.fetch n).1 0))
                (sym capped)
                (elim (graphics_family-outcome (examined pd) 0) [
                  | inl (missing, rejected) ↦ inl (missing, inr (inr rejected))
                  | inr (family, same, first) ↦
                      inr (family, same ∙ ap some (omega arith), good, first)
                ])))

  -- `pd` is the first device of the list that passes the filter and has a graphics queue among its
  -- examined families, and `family` is the first such family.
  pub record IsFirst (use_filter : Bool) (devices : List ℕ) (pd family : ℕ) : Type 0 where
    pub before : List ℕ
    pub after : List ℕ
    pub split : devices ≡ before ++ pd ∷ after
    pub passes : Passes use_filter pd
    pub has_queue : IsFirstFamily (examined pd) family
    pub skipped : AllRejected use_filter before

  -- What one pass selects.
  abbrev PassOutcome : Bool → List ℕ → Option (ℕ × ℕ) → Type 0
  PassOutcome use_filter devices found =
      ((found ≡ none) × AllRejected use_filter devices)
      ⊎ ((pd : ℕ) × (family : ℕ) × (found ≡ some (pd, family))
          × IsFirst use_filter devices pd family)

  select_pass_lem :
      (use_filter : Bool) (devices : List ℕ)
      → PassOutcome use_filter devices (select_pass d h use_filter preferred devices)
  unfolding select_pass
  select_pass_lem use_filter [] = inl (refl, tt)
  select_pass_lem use_filter (pd ∷ devices) =
      step (try_device d h use_filter preferred pd) (try_device-outcome use_filter pd)
        (select_pass_lem use_filter devices)
    where
      step :
          (o : Option ℕ)
          → DeviceOutcome use_filter pd o
          → PassOutcome use_filter devices (select_pass d h use_filter preferred devices)
          → PassOutcome use_filter (pd ∷ devices) (elim o [
            | none ↦ select_pass d h use_filter preferred devices
            | some family ↦ some (pd, family)
          ])
      step o (inr (family, same, passes, has_queue)) rest =
          subst
            (λ o'. PassOutcome use_filter (pd ∷ devices) (elim o' [
              | none ↦ select_pass d h use_filter preferred devices
              | some family' ↦ some (pd, family')
            ]))
            (sym same)
            (inr (
              pd,
              family,
              refl,
              record {
                before = [];
                after = devices;
                split = refl;
                passes = passes;
                has_queue = has_queue;
                skipped = tt;
              },
            ))
      step o (inl (same, rejected)) rest =
          subst
            (λ o'. PassOutcome use_filter (pd ∷ devices) (elim o' [
              | none ↦ select_pass d h use_filter preferred devices
              | some family' ↦ some (pd, family')
            ]))
            (sym same) (passed_over rejected rest)
        where
          passed_over :
              IsRejected use_filter pd
              → PassOutcome use_filter devices (select_pass d h use_filter preferred devices)
              → PassOutcome use_filter (pd ∷ devices) (select_pass d h use_filter preferred devices)
          passed_over e (inl (missing, all)) = inl (missing, (e, all))
          passed_over e (inr (found, family, found_same, f)) = inr (
            found,
            family,
            found_same,
            record {
              before = pd ∷ f.before;
              after = f.after;
              split = ap (◌∷◌ pd) f.split;
              passes = f.passes;
              has_queue = f.has_queue;
              skipped = (e, f.skipped);
            },
          )

  -- Of each device at most `kMaxQueueFamilies` queue families are examined. With a preferred driver, the
  -- first of the devices that have that driver and a graphics queue in an examined family is selected if
  -- there is one; otherwise, and without a preferred driver, the first device with a graphics queue in
  -- an examined family is, in both cases with the first such family. Nothing is selected exactly if no
  -- device has a graphics queue in an examined family.
  pub select_from_lem :
      (devices : List ℕ)
      → ((select_from d h preferred devices ≡ none) × AllRejected false devices)
        ⊎ ((pd : ℕ) × (family : ℕ) × (select_from d h preferred devices ≡ some (pd, family))
            × (((preferred ≢ 0) × IsFirst true devices pd family)
                ⊎ (IsFirst false devices pd family × ((preferred ≡ 0) ⊎ AllRejected true devices))))
  unfolding select_from
  select_from_lem devices =
      pick (select_pass_lem false devices) (select_pass_lem true devices)
        (Bool-cases (preferred == 0))
    where
      pick :
          PassOutcome false devices (select_pass d h false preferred devices)
          → PassOutcome true devices (select_pass d h true preferred devices)
          → ((preferred == 0) ≡ true) ⊎ ((preferred == 0) ≡ false)
          → ((select_from d h preferred devices ≡ none) × AllRejected false devices)
            ⊎ ((pd : ℕ) × (family : ℕ) × (select_from d h preferred devices ≡ some (pd, family))
                × (((preferred ≢ 0) × IsFirst true devices pd family)
                    ⊎ (IsFirst false devices pd family
                        × ((preferred ≡ 0) ⊎ AllRejected true devices))))
      pick (inl (missing, rejected)) filtered (inl any) = inl (rw any missing, rejected)
      pick (inr (pd, family, same, f)) filtered (inl any) =
          inr (pd, family, rw any same, inr (f, inl (==→eq preferred 0 any)))
      pick plain (inr (pd, family, same, f)) (inr wanted) =
          inr (pd, family, rw (wanted, same) refl, inl ((λ e. ground (arith, e, wanted)), f))
      pick (inl (missing, rejected)) (inl (nothing, filtered)) (inr wanted) =
          inl (rw (wanted, nothing) missing, rejected)
      pick (inr (pd, family, same, f)) (inl (nothing, filtered)) (inr wanted) =
          inr (pd, family, rw (wanted, nothing) same, inr (f, inr filtered))

device_cap-clamp : (max_devices : ℕ) → device_cap max_devices ≡ min 8 (max 1 max_devices)
unfolding device_cap
device_cap-clamp max_devices = ground arith

-- If the driver has more devices than the cap, which is `maxPhysicalDevices` in the range from 1 to 8, a
-- conforming driver answers `VK_INCOMPLETE`, and the selection fails instead of choosing among the
-- first devices.
pub select_rejects :
    (d : Driver) (h : History) (inst preferred max_devices : ℕ)
    → IsConforming (d.physical_devices h inst)
    → min 8 (max 1 max_devices) < (d.physical_devices h inst).count
    → (select_physical_device d h inst preferred max_devices).0 ≡ k_vksc_enumerate_failed
unfolding select_physical_device
select_rejects d h inst preferred max_devices c more =
    let cap = device_cap max_devices in
    let over : cap < (d.physical_devices h inst).count =
      omega (arith, more, device_cap-clamp max_devices) in
    ground (arith, over, c.truncated cap over)
