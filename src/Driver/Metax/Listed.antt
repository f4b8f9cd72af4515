-- ===== src/Driver/Metax/Listed.antt =====
-- src/device/metax.rs, `discover`: the devices that are found.
use xlurm.Base.{
  ℕ, ◌≡◌, refl, Option, List, arith, nat_eq, option_eq, Text, text, text_eq, ensure-ok, >>=-ok, ok,
  int_eq, pos,
}
use xlurm.Model.{kind_eq, state_eq, Device, metax}
use xlurm.Model.Errors.{invalid_device_count}
use xlurm.Driver.{range, is_device_count, read_text}
use xlurm.Driver.Calls.{check-ok}
use xlurm.Driver.Found.{length-range, listing-Found, Found}
use xlurm.Driver.Metax.{device_handle, device_uuid, found_device, discover, Mxsml}

module _ {H W : Type 0} (driver : Mxsml H W) (utf8 : List ℕ → Option Text) where
  found_device-kind :
      (id : ℕ) (w : W) (d : Device) → (found_device driver utf8 id w).0 ≡ ok d → d.kind ≡ metax
  unfolding found_device
  found_device-kind id w d e =
      let (handle, h, e1) = >>=-ok (device_handle driver utf8 id) _ w e in
      let (visible, u, e2) = >>=-ok (device_uuid driver utf8 handle) _ _ e1 in
      let (name, n, e3) =
        >>=-ok (read_text utf8 driver.name (text "mxSmlExDeviceGetName") handle) _ _ e2 in
      ground (arith, e3)

  pub discover-Found :
      (w : W) (devices : List Device)
      → (discover driver utf8 w).0 ≡ ok devices
      → Found metax devices
  unfolding discover
  discover-Found w devices e =
      let (count, called, e1) = check-ok driver.count _ _ w e in
      let (t, e2) = ensure-ok (is_device_count count) (invalid_device_count (pos count)) _ _ e1 in
      listing-Found metax (found_device driver utf8) found_device-kind (λ ds. ds) (λ ds. refl)
        (λ ds h. h) (range 0 count) _ devices (rw (length-range 0 count) (ground (arith, t))) e2
