-- ===== src/Device/Drivers.antt =====
-- src/device/mod.rs, `Inventory`: the monitors that the drivers are.
pub mod Evidence
pub mod Free
pub mod Silent
use xlurm.Base.{ℕ, Option, none, some, List, nat_eq, option_eq, Text, text_eq, Result, int_eq}
use xlurm.Model.{kind_eq, state_eq}
use xlurm.Model.Errors.{Error}
use xlurm.Device.Refresh.{Monitors}
use xlurm.Driver.Metax.{Mxsml}
use xlurm.Driver.Ppu.{Hgml}
use xlurm.Driver.Mthreads.{Mtml}
use xlurm.Driver.Hcu.{busy_devices, Smi}
use xlurm.Driver.Ascend.{status, Dcmi}
use xlurm.Driver.Metax
use xlurm.Driver.Ppu
use xlurm.Driver.Mthreads
use xlurm.Driver.Ascend

-- The drivers that were loaded, and the two command line tools.
pub record Drivers (H W : Type 0) : Type 0 where
  pub query_processes : W → Result Error Text × W
  pub query_health : W → Result Error Text × W
  pub ascend_driver : Option (Dcmi W)
  pub mthreads_driver : Option (Mtml H W)
  pub metax_driver : Option (Mxsml H W)
  pub ppu_driver : Option (Hgml H W)
  pub hcu_driver : Option (Smi W)

abbrev mapped : {A B : Type 0} → (A → B) → Option A → Option B
mapped f none = none
mapped f (some a) = some (f a)

module _ {H W : Type 0} (utf8 : List ℕ → Option Text) where
  unfoldable pub monitors : Drivers H W → Monitors W
  unfolding busy_devices Metax.status Ppu.status Mthreads.status Ascend.status
  monitors drivers = record {
    nvidia_smi = drivers.query_processes;
    hcu_smi = mapped busy_devices drivers.hcu_driver;
    hcu_healthcheck = drivers.query_health;
    dcmi = mapped (Ascend.status utf8) drivers.ascend_driver;
    mtml = mapped (λ driver. Mthreads.status driver utf8) drivers.mthreads_driver;
    mxsml = mapped (λ driver. Metax.status driver utf8) drivers.metax_driver;
    hgml = mapped (λ driver. Ppu.status driver utf8) drivers.ppu_driver;
  }
