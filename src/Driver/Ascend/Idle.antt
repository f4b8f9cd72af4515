-- ===== src/Driver/Ascend/Idle.antt =====
-- src/device/ascend.rs, `status`: what has been seen of a device that is called idle.
use xlurm.Base.{
  ℕ, ◌-◌, ◌^◌, ◌≡◌, ap, subst, inl, inr, Option, some, List, arith, if◌then◌else◌, Bool-cases,
  nat_eq, ◌==◌, ◌!=◌, option_eq, Text, text_eq, ◌>>=◌, ◌>>◌, pure, ensure, context, ensure-ok,
  Keeps-ok, ok, int_eq, ℤ, pos, negsuc,
}
use xlurm.Model.{kind_eq, state_eq, Device, idle, unhealthy}
use xlurm.Model.Errors.{no_health, invalid_logical_id, invalid_card_id, invalid_chip_id}
use xlurm.Driver.{Foreign, check, option_or}
use xlurm.Driver.Calls.{context-Keeps, context-ok, check-ok, used-idle}
use xlurm.Driver.Reading.{ensure-pure}
use xlurm.Driver.Ascend.{to_int, occupancy, used_by, status, Dcmi, api, legacy}

module _ {W : Type 0} where
  occupancy-idle : (count : ℤ) (w : W) → (occupancy count w).0 ≡ ok idle → count ≡ pos 0
  unfolding occupancy
  occupancy-idle (negsuc m) w e = absurd (cc)
  occupancy-idle (pos n) w e = ap pos (used-idle n (ensure-pure _ _ _ _ e).1)

  -- A device answers that it is in good health and that it runs no process.
  unfoldable pub Vacant : (health : Foreign ℕ W) (processes : Foreign ℤ W) → W → Type 0
  Vacant health processes w =
      ((health w).0 ≡ (pos 0, 0)) × ((processes (health w).1).0 ≡ (pos 0, pos 0))

  -- What both versions do once they have the device's numbers.
  healthy-Vacant :
      (health : Foreign ℕ W) (processes : Foreign ℤ W) (asked used : Text) (w : W)
      → ((check health asked >>= λ h.
            ensure (h != 2 ^ 32 - 1) no_health
            >> (if h == 0 then used_by (check processes used) else pure unhealthy))
          w).0
        ≡ ok idle
      → Vacant health processes w
  unfolding Vacant
  healthy-Vacant health processes asked used w e =
      let (h, called, e1) = check-ok health asked _ w e in
      let (t, e2) = ensure-ok (h != 2 ^ 32 - 1) no_health _ (health w).1 e1 in
      elim (Bool-cases (h == 0)) [
        | inr k ↦ absurd (ground (arith, rw k at e2))
        | inl y ↦
            let (count, answer, e3) = check-ok processes used occupancy (health w).1 (rw y at e2) in
            (
              subst (λ n. (health w).0 ≡ (pos 0, n)) (ground arith) called,
              subst (λ n. (processes (health w).1).0 ≡ (pos 0, n)) (occupancy-idle count _ e3)
                  answer,
            )
      ]

module _ {W : Type 0} (utf8 : List ℕ → Option Text) where
  -- The answers of a device, by the version of the library.
  unfoldable pub Confirmed : Dcmi W → Device → W → Type 0
  Confirmed (api driver) device w =
      (id : ℤ) × (to_int device.id ≡ some id) × Vacant (driver.health id) (driver.processes id 64) w
  Confirmed (legacy driver) device w =
      (slot : ℤ) × (chip : ℤ) × (to_int (option_or device.id device.npu) ≡ some slot)
      × (to_int (option_or 0 device.chip) ≡ some chip)
      × Vacant (driver.health slot chip) (driver.processes slot chip 64) w

  pub status-Confirmed :
      (driver : Dcmi W) (device : Device) (w : W)
      → (status utf8 driver device w).0 ≡ ok idle
      → Confirmed driver device w
  unfolding status Confirmed
  status-Confirmed (api driver) device w e =
      let error = invalid_logical_id (pos device.id) in
      let (id, c, e1) =
        Keeps-ok (context (to_int device.id) error) _ w (context-Keeps (to_int device.id) error)
          e in
      (
        id,
        context-ok (to_int device.id) error w c,
        healthy-Vacant (driver.health id) (driver.processes id 64) _ _ w e1,
      )
  status-Confirmed (legacy driver) device w e =
      let n = option_or device.id device.npu in
      let m = option_or 0 device.chip in
      let (slot, c, e1) =
        Keeps-ok (context (to_int n) (invalid_card_id n)) _ w
          (context-Keeps (to_int n) (invalid_card_id n)) e in
      let (chip, d, e2) =
        Keeps-ok (context (to_int m) (invalid_chip_id m)) _ w
          (context-Keeps (to_int m) (invalid_chip_id m)) e1 in
      (
        slot,
        chip,
        context-ok (to_int n) (invalid_card_id n) w c,
        context-ok (to_int m) (invalid_chip_id m) w d,
        healthy-Vacant (driver.health slot chip) (driver.processes slot chip 64) _ _ w e2,
      )
