-- ===== src/Device/Drivers/Silent.antt =====
-- src/device/mod.rs, `refresh`: monitoring that fails never makes a device available.
use xlurm.Base.{
  ℕ, ◌≡◌, ap, ◌≢◌, inl, inr, false, Option, some, List, Bool-cases, nat_eq, option_eq, Text,
  text_eq, get_elem?, err, int_eq, ℤ, pos,
}
use xlurm.Model.{kind_eq, state_eq, Device, Kind, nvidia, ascend, mthreads, metax, ppu, hcu}
use xlurm.Model.Errors.{Error}
use xlurm.Scheduler.Machine.{Inventory}
use xlurm.Scheduler.Tick.{is_idle}
use xlurm.Scheduler.Allocate.Devices.{IsKeyed}
use xlurm.Device.Refresh.{refresh}
use xlurm.Device.Drivers.{monitors, Drivers}
use xlurm.Device.Drivers.Free.{nvidia_asked, NvidiaFree, HcuFree}
use xlurm.Device.Drivers.Evidence.{Evidence, refresh-Evidence}
use xlurm.Driver.{Foreign}
use xlurm.Driver.Hcu.{busy_devices}
use xlurm.Driver.Ascend.{Dcmi, api, legacy}
use xlurm.Driver.Metax.{Mxsml}
use xlurm.Driver.Ppu.{Hgml}
use xlurm.Driver.Mthreads.{Mtml}
use xlurm.Driver.Ascend.Idle as AscendIdle

-- A call of a library that does not return 0.
abbrev pub Refused : {A W : Type 0} → Foreign A W → Type 0
Refused {W = W} call = (w : W) → (call w).0.0 ≢ pos 0

-- The calls for the health of a device fail.
abbrev pub NoHealth : {W : Type 0} → Dcmi W → Type 0
NoHealth (api driver) = (id : ℤ) → Refused (driver.health id)
NoHealth (legacy driver) = (slot chip : ℤ) → Refused (driver.health slot chip)

module _ {H W : Type 0} (utf8 : List ℕ → Option Text) (drivers : Drivers H W)
    (describe : Error → Text) where
  -- The tools fail, and each driver that was loaded refuses to open a device, or to tell its health.
  pub record Silent : Type 0 where
    pub nvidia_fails : (w : W) → (e : Error) × ((drivers.query_processes w).0 ≡ err e)
    pub health_fails : (w : W) → (e : Error) × ((drivers.query_health w).0 ≡ err e)
    pub ascend_fails : (driver : Dcmi W) → drivers.ascend_driver ≡ some driver → NoHealth driver
    pub mthreads_fails :
        (driver : Mtml H W)
        → drivers.mthreads_driver ≡ some driver
        → (id : ℕ) → Refused (driver.device id)
    pub metax_fails :
        (driver : Mxsml H W)
        → drivers.metax_driver ≡ some driver
        → (id : ℕ) → Refused (driver.handle id)
    pub ppu_fails :
        (driver : Hgml H W)
        → drivers.ppu_driver ≡ some driver
        → (id : ℕ) → Refused (driver.handle id)

  not-Confirmed :
      (driver : Dcmi W) (device : Device) (w : W)
      → NoHealth driver
      → ¬ (AscendIdle.Confirmed utf8 driver device w)
  unfolding AscendIdle.Confirmed AscendIdle.Vacant
  not-Confirmed (api driver) device w silent (id, _, (asked, _)) = silent id w (ap (λ r. r.0) asked)
  not-Confirmed (legacy driver) device w silent (slot, chip, _, _, (asked, _)) =
      silent slot chip w (ap (λ r. r.0) asked)

  no-Evidence :
      (silent : Silent) (k : Kind) (devices : List Device) (device : Device) (begun w : W)
      → ¬ (Evidence utf8 drivers describe k devices device begun w)
  unfolding Evidence NvidiaFree HcuFree
  no-Evidence silent nvidia devices device begun w (t, asked, _, _) =
      let (x, refusal) = silent.nvidia_fails begun in absurd (cc)
  no-Evidence silent hcu devices device begun w (driver, ids, t, health, _, _, _, asked, _, _) =
      let (x, refusal) =
        silent.health_fails
          (busy_devices driver (nvidia_asked utf8 drivers describe devices begun)).1 in
      absurd (cc)
  no-Evidence silent ascend devices device begun w (driver, loaded, seen) =
      not-Confirmed driver device w (silent.ascend_fails driver loaded) seen
  no-Evidence silent mthreads devices device begun w (driver, loaded, seen) =
      silent.mthreads_fails driver loaded device.id w (ap (λ r. r.0) seen.opened)
  no-Evidence silent metax devices device begun w (driver, loaded, seen) =
      silent.metax_fails driver loaded device.id w (ap (λ r. r.0) seen.opened)
  no-Evidence silent ppu devices device begun w (driver, loaded, seen) =
      silent.ppu_fails driver loaded device.id w (ap (λ r. r.0) seen.opened)

  -- Where the tools fail, and each vendor's driver is absent or refuses to open the devices (for
  -- Ascend, to tell their health), no device of an inventory of different keys counts as idle after a
  -- refresh, whatever it was before: a tick then starts no job on any device.
  pub refresh-fail_closed :
      (silent : Silent) (inventory : Inventory) (w : W) (i : ℕ) (d : Device)
      → IsKeyed inventory.devices
      → get_elem? inventory.devices i ≡ some d
      → is_idle (refresh (monitors utf8 drivers) describe inventory w).0.status d ≡ false
  refresh-fail_closed silent inventory w i d keyed at_i =
      elim (Bool-cases
        (is_idle (refresh (monitors utf8 drivers) describe inventory w).0.status d)) [
          | inr n ↦ n
          | inl y ↦ absurd (
              no-Evidence silent d.kind inventory.devices d w _
                (refresh-Evidence utf8 drivers describe inventory w i d keyed at_i y))
        ]
