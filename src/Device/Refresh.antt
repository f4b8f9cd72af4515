-- ===== src/Device/Refresh.antt =====
-- src/device/mod.rs, `refresh`: each device is given the status that its monitor reports.
use xlurm.Base.{
  ℕ, Bool, true, false, not, ◌||◌, Option, none, some, List, [], ◌∷◌, if◌then◌else◌, nat_eq, ◌==◌,
  option_eq, Text, text, text_eq, is_empty, any, all, contains, Result, ok, err, int_eq,
}
use xlurm.Model.{
  kind_eq, key, state_eq, Device, nvidia, ascend, mthreads, metax, ppu, hcu, Status, idle, unknown,
  unhealthy,
}
use xlurm.Model.Errors.{Error, dcmi_unavailable, hcu_smi_unavailable}
use xlurm.Scheduler.Machine.{Inventory}
use xlurm.Scheduler.Exclude.{lookup}
use xlurm.Device.{trim, lines, starts_with, hcu_health_status, card_health}

-- The drivers that were found, and the command line tools.
pub record Monitors (W : Type 0) : Type 0 where
  pub nvidia_smi : W → Result Error Text × W
  pub hcu_smi : Option (W → Result Error (List ℕ) × W)
  pub hcu_healthcheck : W → Result Error Text × W
  pub dcmi : Option (Device → W → Result Error Status × W)
  pub mtml : Option (Device → W → Status × W)
  pub mxsml : Option (Device → W → Status × W)
  pub hgml : Option (Device → W → Status × W)

-- What is asked once for all devices of a kind.
pub record Findings : Type 0 where
  pub nvidia_busy : Option (Result Error Text)
  pub hcu_busy : Option (Result Error (List ℕ))
  pub hcu_healthy : Option (List (ℕ × Bool))

-- `test.then(call)`
abbrev pub ask_if : {A W : Type 0} → Bool → (W → A × W) → W → Option A × W
ask_if true call w = let (a, w') = call w in (some a, w')
ask_if false call w = (none, w)

unfoldable pub is_process_line : Text → Bool
unfolding trim starts_with
is_process_line line = is_empty (trim line) || starts_with (text "GPU-") (trim line)

unfoldable pub nvidia_idle : Option (Result Error Text) → Device → Option Bool
unfolding is_process_line lines trim
nvidia_idle none device = none
nvidia_idle (some (err e)) device = none
nvidia_idle (some (ok t)) device =
    if all is_process_line (lines t)
    then some (not (any (λ line. trim line == device.visible) (lines t)))
    else none

unfoldable pub healthy_by : Option (List (ℕ × Bool)) → ℕ → Option Bool
unfolding card_health
healthy_by none id = none
healthy_by (some health) id = card_health id health

unfoldable pub process_idle : Option (Result Error (List ℕ)) → ℕ → Option Bool
process_idle none id = none
process_idle (some (err e)) id = none
process_idle (some (ok ids)) id = some (not (contains ids id))

abbrev pub word_of : Option Bool → Status
word_of none = unknown
word_of (some true) = idle
word_of (some false) = Status.busy

unfoldable pub hcu_status : Findings → Device → Status
unfolding healthy_by process_idle
hcu_status findings device = elim (healthy_by findings.hcu_healthy device.id) [
  | none ↦ unknown
  | some false ↦ unhealthy
  | some true ↦ word_of (process_idle findings.hcu_busy device.id)
]

abbrev pub put_status : Text → Status → Inventory → Inventory
put_status k status inventory = record inventory { status = (k, status) ∷ inventory.status }

-- `HashMap::remove`
unfoldable pub remove_key : Text → List (Text × Text) → List (Text × Text)
remove_key k [] = []
remove_key k ((j, v) ∷ m) = if j == k then remove_key k m else (j, v) ∷ remove_key k m

-- A new error replaces the old one, and an error that is known already changes nothing.
unfoldable pub note_error : Text → Text → Inventory → Inventory
unfolding lookup
note_error k error inventory =
    if lookup k inventory.monitoring_errors == some error
    then inventory
    else record inventory { monitoring_errors = (k, error) ∷ inventory.monitoring_errors }

module _ {W : Type 0} (monitors : Monitors W) (describe : Error → Text) where
  open monitors use {nvidia_smi, hcu_smi, hcu_healthcheck, dcmi, mtml, mxsml, hgml}

  unfoldable pub busy_hcus : W → Result Error (List ℕ) × W
  busy_hcus w = elim hcu_smi [ none ↦ (err hcu_smi_unavailable, w) | some call ↦ call w ]

  abbrev pub parsed_health : Option (Result Error Text) → Option (List (ℕ × Bool))
  parsed_health (some (ok t)) = hcu_health_status t
  parsed_health _ = none

  unfoldable pub gather : List Device → W → Findings × W
  unfolding busy_hcus hcu_health_status
  gather devices w =
      let (n, w₁) = ask_if (any (λ (d : Device). d.kind == nvidia) devices) nvidia_smi w in
      let (b, w₂) = ask_if (any (λ (d : Device). d.kind == hcu) devices) busy_hcus w₁ in
      let (h, w₃) = ask_if (any (λ (d : Device). d.kind == hcu) devices) hcu_healthcheck w₂ in
      (record { nvidia_busy = n; hcu_busy = b; hcu_healthy = parsed_health h }, w₃)

  -- A driver that was not found knows nothing.
  abbrev by_driver : Option (Device → W → Status × W) → Device → Inventory → W → Inventory × W
  by_driver none device inventory w = (put_status (key device) unknown inventory, w)
  by_driver (some call) device inventory w =
      let (status, w') = call device w in (put_status (key device) status inventory, w')

  unfoldable pub ascend_result : Device → W → Result Error Status × W
  ascend_result device w = elim dcmi [
    | none ↦ (err dcmi_unavailable, w)
    | some call ↦ call device w
  ]

  abbrev pub ascend_noted : Device → Result Error Status → Inventory → Inventory
  ascend_noted device (ok status) inventory =
      put_status (key device) status (record inventory {
        monitoring_errors = remove_key (key device) inventory.monitoring_errors;
      })
  ascend_noted device (err e) inventory =
      put_status (key device) unknown (note_error (key device) (describe e) inventory)

  unfoldable pub refresh_device : Findings → Device → Inventory → W → Inventory × W
  unfolding nvidia_idle hcu_status ascend_result note_error remove_key
  refresh_device findings device inventory w = elim device.kind [
    | nvidia ↦
        (put_status (key device) (word_of (nvidia_idle findings.nvidia_busy device)) inventory, w)
    | ascend ↦ let (r, w') = ascend_result device w in (ascend_noted device r inventory, w')
    | mthreads ↦ by_driver mtml device inventory w
    | metax ↦ by_driver mxsml device inventory w
    | ppu ↦ by_driver hgml device inventory w
    | hcu ↦ (put_status (key device) (hcu_status findings device) inventory, w)
  ]

  unfoldable pub refresh_devices : Findings → List Device → Inventory → W → Inventory × W
  unfolding refresh_device
  refresh_devices findings [] inventory w = (inventory, w)
  refresh_devices findings (d ∷ ds) inventory w =
      let (inventory', w') = refresh_device findings d inventory w in
      refresh_devices findings ds inventory' w'

  -- `Inventory::refresh`
  unfoldable pub refresh : Inventory → W → Inventory × W
  unfolding gather refresh_devices
  refresh inventory w =
      let (findings, w') = gather inventory.devices w in
      refresh_devices findings inventory.devices inventory w'
