-- ===== src/Device/Loaded.antt =====
-- src/device/mod.rs, `discover`: the drivers of the vendors are loaded, and asked for their devices.
use xlurm.Base.{
  ℕ, ◌≡◌, Option, List, nat_eq, option_eq, Text, text_eq, ◌>>=◌, throw, >>=-ok, Result, ok, int_eq,
}
use xlurm.Model.{kind_eq, state_eq, Device, Kind, nvidia, ascend, mthreads, metax, ppu, hcu}
use xlurm.Model.Errors.{Error, no_devices}
use xlurm.Scheduler.Machine.{Inventory}
use xlurm.Scheduler.Allocate.Devices.{IsKeyed}
use xlurm.Device.Discover.{Vendors, Backend}
use xlurm.Device.Discover.Keyed.{OfKind, discover-loads}
use xlurm.Driver.Loading.{load, Loader}
use xlurm.Driver.Found.{Found}
use xlurm.Driver.Metax.{Mxsml}
use xlurm.Driver.Ppu.{Hgml}
use xlurm.Driver.Mthreads.{Mtml}
use xlurm.Driver.Hcu.{wanted, Smi}
use xlurm.Driver.Ascend.{discover, load_dcmi, Api, Legacy, Dcmi, api, legacy, Chosen, newer, older}
use xlurm.Device.Discover
use xlurm.Driver.Metax
use xlurm.Driver.Ppu
use xlurm.Driver.Mthreads
use xlurm.Driver.Hcu
use xlurm.Driver.Ascend
use xlurm.Driver.Metax.Listed as MetaxListed
use xlurm.Driver.Ppu.Listed as PpuListed
use xlurm.Driver.Mthreads.Listed as MthreadsListed
use xlurm.Driver.Hcu.Listed as HcuListed
use xlurm.Driver.Ascend.Listed as AscendListed

-- The loader of libraries, and the functions of each library that it may open.
pub record Libraries (L H W : Type 0) : Type 0 where
  pub loader : Loader L W
  pub mxsml : L → Mxsml H W
  pub hgml : L → Hgml H W
  pub mtml : L → Mtml H W
  pub smi : L → Smi W
  pub newer_dcmi : L → Api W
  pub older_dcmi : L → Legacy W

module _ {L H W : Type 0} (libraries : Libraries L H W) (utf8 : List ℕ → Option Text)
    (describe : Error → Text) where
  open libraries use {loader, mxsml, hgml, mtml, smi, newer_dcmi, older_dcmi}

  abbrev dcmi : Chosen loader → Dcmi W
  dcmi (newer library) = api (newer_dcmi library)
  dcmi (older library) = legacy (older_dcmi library)

  -- The branch of each kind; there is no driver for NVIDIA's devices.
  unfoldable pub load_kind : Kind → W → Result Error (List Device) × W
  unfolding load load_dcmi Metax.discover Ppu.discover Mthreads.discover Hcu.discover
      Ascend.discover
  load_kind nvidia = throw no_devices
  load_kind ascend = load_dcmi loader describe >>= λ c. Ascend.discover utf8 (dcmi c)
  load_kind mthreads = load loader Mthreads.wanted >>= λ l. Mthreads.discover (mtml l) utf8
  load_kind metax = load loader Metax.wanted >>= λ l. Metax.discover (mxsml l) utf8
  load_kind ppu = load loader Ppu.wanted >>= λ l. Ppu.discover (hgml l) utf8
  load_kind hcu = load loader Hcu.wanted >>= λ l. Hcu.discover (smi l)

  -- Whichever driver is loaded, its devices are at least one and at most 64, all of its kind, with
  -- different keys.
  load_kind-Found :
      (kind : Kind) (w : W) (devices : List Device)
      → (load_kind kind w).0 ≡ ok devices
      → Found kind devices
  unfolding load_kind
  load_kind-Found nvidia w devices e = absurd (cc)
  load_kind-Found ascend w devices e =
      let (c, h, e1) = >>=-ok (load_dcmi loader describe) _ w e in
      AscendListed.discover-Found utf8 (dcmi c) _ devices e1
  load_kind-Found mthreads w devices e =
      let (l, h, e1) = >>=-ok (load loader Mthreads.wanted) _ w e in
      MthreadsListed.discover-Found (mtml l) utf8 _ devices e1
  load_kind-Found metax w devices e =
      let (l, h, e1) = >>=-ok (load loader Metax.wanted) _ w e in
      MetaxListed.discover-Found (mxsml l) utf8 _ devices e1
  load_kind-Found ppu w devices e =
      let (l, h, e1) = >>=-ok (load loader Ppu.wanted) _ w e in
      PpuListed.discover-Found (hgml l) utf8 _ devices e1
  load_kind-Found hcu w devices e =
      let (l, h, e1) = >>=-ok (load loader Hcu.wanted) _ w e in
      HcuListed.discover-Found (smi l) _ devices e1

  load_kind-OfKind :
      (kind : Kind) (w : W) (devices : List Device)
      → (load_kind kind w).0 ≡ ok devices
      → OfKind kind devices
  load_kind-OfKind kind w devices e =
      let found = load_kind-Found kind w devices e in (found.one_kind, found.keyed)

  -- The vendors' tools, and the drivers of these libraries.
  abbrev pub by_libraries : Vendors W → Vendors W
  by_libraries vendors = record vendors { load = load_kind }

  -- An inventory that has been discovered has no two devices of one key, whatever backends were
  -- chosen and whatever the drivers' libraries answer.
  pub discover-IsKeyed :
      (vendors : Vendors W) (choice : Backend) (w : W) (inventory : Inventory)
      → (Discover.discover (by_libraries vendors) describe choice w).0 ≡ ok inventory
      → IsKeyed inventory.devices
  discover-IsKeyed vendors choice w inventory e =
      discover-loads (by_libraries vendors) describe load_kind-OfKind choice w inventory e
