-- ===== src/Device/Discover.antt =====
-- src/device/mod.rs, `discover`: the devices of the selected backends.
pub mod Keyed
use xlurm.Base.{
  ◌≡◌, refl, inl, inr, Bool, true, false, List, [], ◌∷◌, ◌++◌, if◌then◌else◌, nat_eq, ◌==◌,
  option_eq, Text, text_eq, Result-cases, Result, ok, err, int_eq,
}
use xlurm.Model.{priority, kind_eq, state_eq, Device, Kind, nvidia}
use xlurm.Model.Errors.{Error}
use xlurm.Scheduler.Machine.{Inventory}
use xlurm.Device.{parse_nvidia}
use xlurm.Device.Refresh.{refresh, Monitors}

pub data Backend : Type 0 where
  automatic no_backend : Backend
  only : Kind → Backend

abbrev pub is_selected : Backend → Kind → Bool
is_selected automatic kind = true
is_selected no_backend kind = false
is_selected (only wanted) kind = wanted == kind

abbrev pub is_automatic : Backend → Bool
is_automatic automatic = true
is_automatic _ = false

-- `nvidia-smi`, and for each other kind the loading of its driver and the driver's `discover`. The
-- drivers that were loaded watch the devices afterwards.
pub record Vendors (W : Type 0) : Type 0 where
  pub query_gpus : W → Result Error Text × W
  pub load : Kind → W → Result Error (List Device) × W
  pub monitors : (loaded : List Kind) → Monitors W

pub record Found : Type 0 where
  pub devices : List Device
  pub loaded : List Kind

module _ {W : Type 0} (vendors : Vendors W) (describe : Error → Text) where
  parsed : Result Error Text → Result Error (List Device)
  parsed (err e) = err e
  parsed (ok t) = parse_nvidia t

  unfoldable pub probe : Kind → W → Result Error (List Device) × W
  unfolding parsed parse_nvidia
  probe kind w =
      if kind == nvidia
      then (let (r, w') = vendors.query_gpus w in (parsed r, w'))
      else vendors.load kind w

  -- An error of one backend ends an explicit discovery, and is only printed in an automatic one.
  unfoldable pub discover_kinds : Backend → List Kind → Found → W → Result Error Found × W
  unfolding probe
  discover_kinds choice [] found w = (ok found, w)
  discover_kinds choice (kind ∷ kinds) found w =
      let (r, w') = probe kind w in
      elim (is_selected choice kind) [
        | false ↦ discover_kinds choice kinds found w
        | true ↦ elim r [
          | ok ds ↦
              discover_kinds choice kinds
                (record { devices = found.devices ++ ds; loaded = kind ∷ found.loaded }) w'
          | err e ↦ elim (is_automatic choice) [
            | true ↦ discover_kinds choice kinds found w'
            | false ↦ (err e, w')
          ]
        ]
      ]

  abbrev pub no_devices_found : Found
  no_devices_found = record { devices = []; loaded = [] }

  abbrev pub fresh : Found → Inventory
  fresh found = record { devices = found.devices; status = []; monitoring_errors = [] }

  -- `Inventory::discover`
  unfoldable pub discover : Backend → W → Result Error Inventory × W
  unfolding discover_kinds refresh
  discover choice w =
      let (r, w') = discover_kinds choice priority no_devices_found w in
      elim r [
        | err e ↦ (err e, w')
        | ok found ↦
            let (inventory, w'') =
              refresh (vendors.monitors found.loaded) describe (fresh found) w' in
            (ok inventory, w'')
      ]

  discover_kinds-skip :
      (choice : Backend) (kind : Kind) (kinds : List Kind) (found : Found) (w : W)
      → is_selected choice kind ≡ false
      → discover_kinds choice (kind ∷ kinds) found w ≡ discover_kinds choice kinds found w
  unfolding discover_kinds
  discover_kinds-skip choice kind kinds found w e = rw (e, discover_kinds) refl

  discover_kinds-found :
      (choice : Backend) (kind : Kind) (kinds : List Kind) (found : Found) (w : W)
      (ds : List Device)
      → is_selected choice kind ≡ true
      → (probe kind w).0 ≡ ok ds
      → discover_kinds choice (kind ∷ kinds) found w
        ≡ discover_kinds choice kinds
            (record { devices = found.devices ++ ds; loaded = kind ∷ found.loaded })
            (probe kind w).1
  unfolding discover_kinds
  discover_kinds-found choice kind kinds found w ds e h = rw (e, h, discover_kinds) refl

  discover_kinds-passed :
      (kind : Kind) (kinds : List Kind) (found : Found) (w : W) (x : Error)
      → (probe kind w).0 ≡ err x
      → discover_kinds automatic (kind ∷ kinds) found w
        ≡ discover_kinds automatic kinds found (probe kind w).1
  unfolding discover_kinds
  discover_kinds-passed kind kinds found w x h = rw (h, discover_kinds) refl

  automatic_kinds :
      (kinds : List Kind) (found : Found) (w : W)
      → (all_found : Found) × ((discover_kinds automatic kinds found w).0 ≡ ok all_found)
  automatic_kinds [] found w = (found, unfold discover_kinds in refl)
  automatic_kinds (kind ∷ kinds) found w = elim (Result-cases (probe kind w).0) [
    | inl (ds, h) ↦
        rw (discover_kinds-found automatic kind kinds found w ds refl h) (automatic_kinds kinds _ _)
    | inr (x, h) ↦ rw (discover_kinds-passed kind kinds found w x h) (automatic_kinds kinds found _)
  ]

  -- Automatic discovery never fails, whichever drivers and tools are missing or broken.
  pub discover-automatic :
      (w : W) → (inventory : Inventory) × ((discover automatic w).0 ≡ ok inventory)
  unfolding discover
  discover-automatic w =
      let (found, h) = automatic_kinds priority no_devices_found w in
      (
        (refresh (vendors.monitors found.loaded) describe (fresh found)
            (discover_kinds automatic priority no_devices_found w).1).0,
        rw (h, discover) refl,
      )
