-- ===== src/Device/Drivers/Free.antt =====
-- src/device/mod.rs, `refresh`: what the tools have answered where an NVIDIA or HCU device becomes
-- idle.
use xlurm.Base.{
  ℕ, ◌≡◌, refl, ◌≢◌, ◌⊎◌, inl, inr, Bool, true, false, ◌&&◌, ◌||◌, Option, some, List, [], ◌∷◌,
  arith, Bool-cases, Option-cases, nat_eq, ◌==◌, list_beq_iff, option_eq, Text, text, text_eq,
  is_empty, any, all, contains, All, Result-cases, ok, int_eq,
}
use xlurm.Model.{kind_eq, state_eq, Device, nvidia}
use xlurm.Model.Errors.{Error}
use xlurm.Device.{trim, lines, starts_with, hcu_health_status, card_health}
use xlurm.Device.Refresh.{
  ask_if, is_process_line, nvidia_idle, healthy_by, process_idle, busy_hcus, parsed_health,
}
use xlurm.Device.Drivers.{monitors, Drivers}
use xlurm.Driver.Hcu.{busy_devices, Smi}

and-both : (a b : Bool) → (a && b) ≡ true → (a ≡ true) × (b ≡ true)
and-both a b e = (ground arith, ground arith)

process_line-cases :
    (t : Text)
    → (is_empty t || starts_with (text "GPU-") t) ≡ true
    → (t ≡ []) ⊎ (starts_with (text "GPU-") t ≡ true)
process_line-cases [] e = inl refl
process_line-cases (c ∷ cs) e = inr e

all-process_lines :
    (ls : List Text)
    → all is_process_line ls ≡ true
    → All (λ line. (trim line ≡ []) ⊎ (starts_with (text "GPU-") (trim line) ≡ true)) ls
unfolding is_process_line
all-process_lines [] e = tt
all-process_lines (l ∷ ls) e =
    let (one, rest) = and-both (is_process_line l) (all is_process_line ls) e in
    (process_line-cases (trim l) one, all-process_lines ls rest)

none-listed :
    (device : Device) (ls : List Text)
    → any (λ line. trim line == device.visible) ls ≡ false
    → All (λ line. trim line ≢ device.visible) ls
none-listed device [] e = tt
none-listed device (l ∷ ls) e = (
  (λ h. absurd (ground (arith, e, (list_beq_iff (trim l) device.visible).1 h))),
  none-listed device ls (ground (arith, e)),
)

module _ {H W : Type 0} (utf8 : List ℕ → Option Text) (drivers : Drivers H W)
    (describe : Error → Text) where
  -- What `refresh` asks first: which processes use NVIDIA devices, if there are such devices.
  abbrev pub nvidia_asked : List Device → W → W
  nvidia_asked devices w =
      (ask_if (any (λ (d : Device). d.kind == nvidia) devices) drivers.query_processes w).1

  -- The tool for NVIDIA devices lists the identifiers of those in use, and not this one.
  unfoldable pub NvidiaFree : Device → W → Type 0
  NvidiaFree device w =
      (t : Text) × ((drivers.query_processes w).0 ≡ ok t)
      × All (λ line. (trim line ≡ []) ⊎ (starts_with (text "GPU-") (trim line) ≡ true)) (lines t)
      × All (λ line. trim line ≢ device.visible) (lines t)

  -- The driver for HCU devices does not count this one among those in use, and the tool that is asked
  -- next calls it healthy.
  unfoldable pub HcuFree : Device → W → Type 0
  HcuFree device w =
      (driver : Smi W) × (ids : List ℕ) × (t : Text) × (health : List (ℕ × Bool))
      × (drivers.hcu_driver ≡ some driver)
      × ((busy_devices driver w).0 ≡ ok ids)
      × (contains ids device.id ≡ false)
      × ((drivers.query_health (busy_devices driver w).1).0 ≡ ok t)
      × (hcu_health_status t ≡ some health)
      × (card_health device.id health ≡ some true)

  pub nvidia-Free :
      (b : Bool) (device : Device) (w : W)
      → nvidia_idle (ask_if b drivers.query_processes w).0 device ≡ some true
      → NvidiaFree device w
  unfolding nvidia_idle NvidiaFree
  nvidia-Free false device w e = absurd (cc)
  nvidia-Free true device w e = elim (Result-cases (drivers.query_processes w).0) [
    | inr (x, h) ↦ absurd (ground (arith, rw h at e))
    | inl (t, h) ↦ elim (Bool-cases (all is_process_line (lines t))) [
      | inr n ↦ absurd (ground (arith, rw (h, n) at e))
      | inl y ↦ (
        t,
        h,
        all-process_lines (lines t) y,
        none-listed device (lines t) (ground (arith, rw (h, y) at e)),
      )
    ]
  ]

  pub hcu-Free :
      (b : Bool) (device : Device) (w : W)
      → (let busy = ask_if b (busy_hcus (monitors utf8 drivers) describe) w in
          (healthy_by
              (parsed_health
                (monitors utf8 drivers)
                describe
                (ask_if b drivers.query_health busy.1).0)
              device.id
            ≡ some true)
          × (process_idle busy.0 device.id ≡ some true))
      → HcuFree device w
  unfolding healthy_by process_idle HcuFree monitors busy_hcus
  hcu-Free false device w (healthy, unused) = absurd (cc)
  hcu-Free true device w (healthy, unused) = elim (Option-cases drivers.hcu_driver) [
    | inl n ↦ absurd (ground (arith, rw n at unused))
    | inr (driver, s) ↦ elim (Result-cases (busy_devices driver w).0) [
      | inr (x, h) ↦ absurd (ground (arith, rw (s, h) at unused))
      | inl (ids, h) ↦ elim (Result-cases (drivers.query_health (busy_devices driver w).1).0) [
        | inr (x, k) ↦ absurd (ground (arith, rw (s, k) at healthy))
        | inl (t, k) ↦ elim (Option-cases (hcu_health_status t)) [
          | inl n ↦ absurd (ground (arith, rw (s, k, n) at healthy))
          | inr (health, m) ↦ (
            driver,
            ids,
            t,
            health,
            s,
            h,
            ground (arith, rw (s, h) at unused),
            k,
            m,
            rw (s, k, m) at healthy,
          )
        ]
      ]
    ]
  ]
