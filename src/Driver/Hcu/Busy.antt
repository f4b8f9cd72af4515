-- ===== src/Driver/Hcu/Busy.antt =====
-- src/device/hcu.rs, `busy_devices`: which indices may be in the set.
use xlurm.Base.{
  ℕ, ◌≤◌, ◌<◌, ◌≡◌, subst, List, [], ◌∷◌, map, arith, ltb, leb, nat_eq, option_eq, text_eq, All,
  All-append, ensure-ok, >>=-ok, ok, int_eq, pos,
}
use xlurm.Model.Errors.{
  invalid_device_count, invalid_process_count, invalid_process_id, invalid_index,
}
use xlurm.Driver.{range, is_device_count, push_each}
use xlurm.Driver.Calls.{check-ok}
use xlurm.Driver.Reading.{ensure-pure}
use xlurm.Driver.Found.{push_each-All}
use xlurm.Driver.Hcu.{concat, device_count, check_indices, process_devices, busy_devices, Smi}

All-concat : (P : ℕ → Type 0) (xss : List (List ℕ)) → All (All P) xss → All P (concat xss)
unfolding concat
All-concat P [] h = tt
All-concat P (xs ∷ xss) (h, hs) = All-append P xs (concat xss) h (All-concat P xss hs)

module _ {W : Type 0} (driver : Smi W) where
  pub device_count-bounds : (w : W) (n : ℕ) → (device_count driver w).0 ≡ ok n → (1 ≤ n) × (n ≤ 64)
  unfolding device_count
  device_count-bounds w n e =
      let (count, called, e1) = check-ok driver.count _ _ w e in
      let (t, same) = ensure-pure _ _ _ _ e1 in ground (arith, t, same)

  check_indices-ok :
      (devices : ℕ) (ids : List ℕ) (w : W)
      → (check_indices driver devices ids w).0 ≡ ok tt
      → All (λ id. id < devices) ids
  unfolding check_indices
  check_indices-ok devices [] w e = tt
  check_indices-ok devices (id ∷ ids) w e =
      let (t, e1) = ensure-ok (ltb id devices) (invalid_index id) _ w e in
      (ground (arith, t), check_indices-ok devices ids w e1)

  process_devices-ok :
      (devices process : ℕ) (w : W) (ids : List ℕ)
      → (process_devices driver devices process w).0 ≡ ok ids
      → All (λ id. id < devices) ids
  unfolding process_devices
  process_devices-ok devices process w ids e =
      let (t, e1) = ensure-ok (ltb 0 process) invalid_process_id _ w e in
      let ((n, gpus), called, e2) = check-ok (driver.process_gpus process 64) _ _ w e1 in
      let (u, e3) = ensure-ok (is_device_count n) (invalid_device_count (pos n)) _ _ e2 in
      let (v, checked, e4) = >>=-ok (check_indices driver devices (map gpus (range 0 n))) _ _ e3 in
      subst (All (λ id. id < devices)) (ground (arith, e4))
        (check_indices-ok devices (map gpus (range 0 n)) _ checked)

  used-All :
      (n : ℕ) (processes : List ℕ) (w : W) (used : List (List ℕ))
      → (push_each (process_devices driver n) processes w).0 ≡ ok used
      → All (λ id. id < n) (concat used)
  used-All n processes w used e =
      All-concat (λ id. id < n) used
        (push_each-All (process_devices driver n) (All (λ id. id < n)) processes w used
          (λ process v xs h. process_devices-ok n process v xs h) e)

  -- Every index of a busy device is that of one of the devices that the library counts, which are at
  -- most 64.
  pub busy_devices-bounded :
      (w : W) (ids : List ℕ)
      → (busy_devices driver w).0 ≡ ok ids
      → (n : ℕ) × ((device_count driver w).0 ≡ ok n) × (n ≤ 64) × All (λ id. id < n) ids
  unfolding busy_devices
  busy_devices-bounded w ids e =
      let (n, counted, e1) = >>=-ok (device_count driver) _ w e in
      let ((count, processes), called, e2) = check-ok (driver.processes 4096) _ _ _ e1 in
      let (t, e3) = ensure-ok (leb count 4096) (invalid_process_count (pos count)) _ _ e2 in
      let (used, pushed, e4) =
        >>=-ok (push_each (process_devices driver n) (map processes (range 0 count))) _ _ e3 in
      (
        n,
        counted,
        (device_count-bounds w n counted).1,
        subst (All (λ id. id < n)) (ground (arith, e4))
            (used-All n (map processes (range 0 count)) _ used pushed),
      )
