-- ===== src/Driver/Ascend.antt =====
-- src/device/ascend.rs: discovery and status by both versions of the Ascend driver's library.
pub mod Idle
pub mod Listed
use xlurm.Driver.Loading.{symbol, symbols, or_else, open_first, load, optional, Loader, Wanted}
use xlurm.Base.{
  ℕ, suc, ◌-◌, ◌^◌, false, Option, none, some, List, [], ◌∷◌, map, ltb, leb, if◌then◌else◌, nat_eq,
  ◌==◌, ◌!=◌, option_eq, Text, text, text_eq, ◌>>=◌, ◌>>◌, pure, ensure, context, Result, ok, err,
  to_string, int_eq, natural, ℤ, pos, negsuc,
}
use xlurm.Model.{kind_eq, state_eq, Device, ascend, Status, idle, busy, unhealthy}
use xlurm.Model.Errors.{
  Error, no_health, invalid_chip_name, invalid_device_count, invalid_process_count,
  invalid_logical_id, invalid_card_id, invalid_chip_id, dcmi_apis_unavailable,
}
use xlurm.Driver.{Foreign, until_nul, range, is_device_count, check, push_each, option_or}
use xlurm.Device.{validate}

-- The functions of the newer library. The lists are buffers of the capacity with the number of
-- entries that are set; `chip_info` writes the chip's name, and `health` a `c_uint`.
pub record Api (W : Type 0) : Type 0 where
  pub device_list : (capacity : ℕ) → Foreign (ℤ × (ℕ → ℤ)) W
  pub chip_info : (id : ℤ) → Foreign (List ℕ) W
  pub health : (id : ℤ) → Foreign ℕ W
  pub processes : (id : ℤ) → (capacity : ℕ) → Foreign ℤ W

-- The functions of the older library, where a device is a chip of a card.
pub record Legacy (W : Type 0) : Type 0 where
  pub cards : (capacity : ℕ) → Foreign (ℤ × (ℕ → ℤ)) W
  pub device_count : (card_id : ℤ) → Foreign ℤ W
  pub chip : (card_id chip : ℤ) → Foreign (List ℕ) W
  pub health : (card_id chip : ℤ) → Foreign ℕ W
  pub processes : (card_id chip : ℤ) → (capacity : ℕ) → Foreign ℤ W

pub data Dcmi (W : Type 0) : Type 0 where
  api : Api W → Dcmi W
  legacy : Legacy W → Dcmi W

-- A `c_int` as the `u32` of the same 32 bits.
abbrev pub as_u32 : ℤ → ℕ
as_u32 (pos n) = n
as_u32 (negsuc n) = 2 ^ 32 - 1 - n

-- The text of a `c_int`.
abbrev pub int_to_string : ℤ → Text
int_to_string (pos n) = to_string n
int_to_string (negsuc n) = b'-' ∷ to_string (suc n)

-- `c_int::try_from` of a `u32`
abbrev pub to_int : ℕ → Option ℤ
to_int n = if ltb n (2 ^ 31) then some (pos n) else none

-- `sort_by_key(|device| device.id)`, which is stable.
unfoldable pub insert_by_id : Device → List Device → List Device
insert_by_id d [] = d ∷ []
insert_by_id d (e ∷ ds) =
    let rest = insert_by_id d ds in if leb d.id e.id then d ∷ e ∷ ds else e ∷ rest

unfoldable pub sort_by_id : List Device → List Device
unfolding insert_by_id
sort_by_id [] = []
sort_by_id (d ∷ ds) = insert_by_id d (sort_by_id ds)

-- The chip's name before the buffer's first zero.
abbrev pub chip_name : List ℕ → List ℕ
chip_name bytes = option_or bytes (until_nul bytes)

module _ {W : Type 0} where
  -- The count of a list of at least one device and at most 64.
  unfoldable pub device_total : ℤ → W → Result Error ℕ × W
  device_total count = do
    n ← context (natural count) (invalid_device_count count)
    ensure (is_device_count n) (invalid_device_count count)
    pure n

  -- How many processes a device has.
  unfoldable pub occupancy : ℤ → W → Result Error Status × W
  occupancy count = do
    n ← context (natural count) (invalid_process_count count)
    ensure (leb n 64) (invalid_process_count count)
    pure (if n == 0 then idle else Status.busy)

  abbrev pub used_by : (W → Result Error ℤ × W) → W → Result Error Status × W
  used_by call = call >>= occupancy

module _ {W : Type 0} (driver : Api W) (utf8 : List ℕ → Option Text) where
  unfoldable pub api_device : ℤ → W → Result Error Device × W
  unfolding until_nul
  api_device logical = do
    id ← context (natural logical) (invalid_logical_id logical)
    bytes ← check (driver.chip_info logical) (text "dcmiv2_get_device_chip_info")
    name ← context (utf8 (chip_name bytes)) invalid_chip_name
    pure (record {
      kind = ascend;
      id = id;
      visible = int_to_string logical;
      name = name;
      npu = none;
      chip = none;
    })

  unfoldable pub api_discover : W → Result Error (List Device) × W
  unfolding device_total api_device range push_each sort_by_id validate
  api_discover = do
    found ← check (driver.device_list 64) (text "dcmiv2_get_device_list")
    count ← device_total found.0
    devices ← push_each api_device (map found.1 (range 0 count))
    λ w. (validate (sort_by_id devices), w)

  unfoldable pub api_status : Device → W → Result Error Status × W
  unfolding occupancy
  api_status device = do
    id ← context (to_int device.id) (invalid_logical_id (pos device.id))
    health ← check (driver.health id) (text "dcmiv2_get_device_health")
    ensure (health != 2 ^ 32 - 1) no_health
    if health == 0
        then used_by (check (driver.processes id 64) (text "dcmiv2_get_device_resource_info"))
        else pure unhealthy

module _ {W : Type 0} (driver : Legacy W) (utf8 : List ℕ → Option Text) where
  unfoldable pub card_ids : W → Result Error (List ℤ) × W
  unfolding device_total range
  card_ids = do
    found ← check (driver.cards 64) (text "dcmi_get_card_list")
    count ← device_total found.0
    pure (map found.1 (range 0 count))

  unfoldable pub legacy_device : ℤ → W → Result Error Device × W
  unfolding until_nul device_total
  legacy_device card_id = do
    count ← check (driver.device_count card_id) (text "dcmi_get_device_num_in_card")
    device_total count
    bytes ← check (driver.chip card_id (pos 0)) (text "dcmi_get_device_chip_info")
    name ← context (utf8 (chip_name bytes)) invalid_chip_name
    pure (record {
      kind = ascend;
      id = as_u32 card_id;
      visible = int_to_string card_id;
      name = name;
      npu = some (as_u32 card_id);
      chip = some 0;
    })

  unfoldable pub legacy_discover : W → Result Error (List Device) × W
  unfolding card_ids legacy_device range push_each validate
  legacy_discover = do
    cards ← card_ids
    devices ← push_each legacy_device cards
    λ w. (validate devices, w)

  unfoldable pub legacy_status : Device → W → Result Error Status × W
  unfolding occupancy
  legacy_status device = do
    card_id ←
        context (to_int (option_or device.id device.npu))
          (invalid_card_id (option_or device.id device.npu))
    chip ← context (to_int (option_or 0 device.chip)) (invalid_chip_id (option_or 0 device.chip))
    health ← check (driver.health card_id chip) (text "dcmi_get_device_health")
    ensure (health != 2 ^ 32 - 1) no_health
    if health == 0
        then used_by
            (check (driver.processes card_id chip 64) (text "dcmi_get_device_resource_info"))
        else pure unhealthy

module _ {W : Type 0} (utf8 : List ℕ → Option Text) where
  unfoldable pub discover : Dcmi W → W → Result Error (List Device) × W
  unfolding api_discover legacy_discover
  discover (api driver) = api_discover driver utf8
  discover (legacy driver) = legacy_discover driver utf8

  unfoldable pub status : Dcmi W → Device → W → Result Error Status × W
  unfolding api_status legacy_status
  status (api driver) = api_status driver utf8
  status (legacy driver) = legacy_status driver utf8

abbrev pub wanted_api : Wanted
wanted_api = record {
  variable = text "XLURM_DCMI_LIBRARY";
  path = text "/usr/local/dcmi/libdcmi.so";
  paths = text "/usr/local/Ascend/driver/lib64/driver/libdcmi.so" ∷ text "libdcmi.so" ∷ [];
  first = text "dcmiv2_init";
  functions =
      text "dcmiv2_init"
      ∷ text "dcmiv2_get_device_list"
      ∷ text "dcmiv2_get_device_chip_info"
      ∷ text "dcmiv2_get_device_health"
      ∷ text "dcmiv2_get_device_resource_info"
      ∷ [];
  gives_handle = false;
}

module _ {L W : Type 0} (loader : Loader L W) where
  -- `Api::load`
  unfoldable pub load_api : W → Result Error L × W
  unfolding load
  load_api = load loader wanted_api

  -- `Legacy::load`: the library is started before its other functions are looked up.
  unfoldable pub load_legacy : W → Result Error L × W
  unfolding open_first symbol symbols
  load_legacy = do
    library ← open_first loader wanted_api.path wanted_api.paths
    symbol loader library (text "dcmi_init")
    check (loader.start library (text "dcmi_init")) (text "dcmi_init")
    optional loader (symbol loader library (text "dcmi_shutdown"))
    symbols loader library (text "dcmi_get_card_list" ∷ text "dcmi_get_device_num_in_card" ∷ [])
    or_else loader (symbol loader library (text "dcmi_get_device_chip_info_v2"))
        (symbol loader library (text "dcmi_get_device_chip_info"))
    symbols loader library
        (text "dcmi_get_device_health" ∷ text "dcmi_get_device_resource_info" ∷ [])
    pure library

  -- The library that `Dcmi::load` has chosen: the newer functions, or else the older ones.
  pub data Chosen : Type 0 where
    newer older : L → Chosen

  abbrev pub chosen : {A B : Type 0} → (A → B) → (W → Result Error A × W) → W → Result Error B × W
  chosen f call = do a ← call; pure (f a)

  -- `Dcmi::load`
  unfoldable pub load_dcmi : (Error → Text) → W → Result Error Chosen × W
  unfolding load_api load_legacy
  load_dcmi describe w = elim (loader.getenv (text "XLURM_DCMI_LIBRARY")) [
    | some t ↦ chosen newer load_api w
    | none ↦
        let (r, w') = load_api w in
        let (q, w'') = load_legacy w' in
        elim r [
          | ok library ↦ (ok (newer library), w')
          | err e ↦ elim q [
            | ok library ↦ (ok (older library), w'')
            | err f ↦ (err (dcmi_apis_unavailable (describe e) (describe f)), w'')
          ]
        ]
  ]
