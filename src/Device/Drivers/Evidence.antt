-- ===== src/Device/Drivers/Evidence.antt =====
-- src/device/mod.rs, `refresh`: what each driver has answered where a device becomes idle.
use xlurm.Scheduler.Allocate.Devices.{IsKeyed}
use xlurm.Device.Entries.{lookup-hit, lookup-miss, note_error-status}
use xlurm.Scheduler.Tick.{is_idle}
use xlurm.Scheduler.Machine.{Inventory}
use xlurm.Base.{
  ℕ, zero, suc, ◌≡◌, refl, sym, ap, ◌∙◌, subst, ◌≢◌, inl, inr, true, Option, some, List, [], ◌∷◌,
  arith, Bool-cases, Option-cases, nat_eq, ◌==◌, list_beq_iff, beq_refl, option_eq, Text, text_eq,
  get_elem?, take, All, Result-cases, ok, int_eq,
}
use xlurm.Model.{
  kind_eq, key, state_eq, Device, Kind, nvidia, ascend, mthreads, metax, ppu, hcu, Status, idle,
  unknown,
}
use xlurm.Model.Errors.{Error, dcmi_unavailable}
use xlurm.Device.Refresh.{
  nvidia_idle, healthy_by, process_idle, word_of, hcu_status, gather, refresh_device,
  refresh_devices, refresh, Monitors, Findings,
}
use xlurm.Device.Drivers.Free.{nvidia_asked, NvidiaFree, HcuFree, nvidia-Free, hcu-Free}
use xlurm.Device.Drivers.{monitors, Drivers}
use xlurm.Driver.Metax.{Mxsml}
use xlurm.Driver.Ppu.{Hgml}
use xlurm.Driver.Mthreads.{Mtml}
use xlurm.Driver.Ascend.{status, Dcmi}
use xlurm.Driver.Metax
use xlurm.Driver.Ppu
use xlurm.Driver.Mthreads
use xlurm.Driver.Ascend
use xlurm.Driver.Metax.Idle as MetaxIdle
use xlurm.Driver.Ppu.Idle as PpuIdle
use xlurm.Driver.Mthreads.Idle as MthreadsIdle
use xlurm.Driver.Ascend.Idle as AscendIdle

is_idle-other :
    (k : Text) (st : Status) (m : List (Text × Status)) (d : Device)
    → key d ≢ k
    → is_idle ((k, st) ∷ m) d ≡ is_idle m d
is_idle-other k st m d n = elim (Bool-cases (k == key d)) [
  | inl y ↦ absurd (n (sym ((list_beq_iff k (key d)).0 y)))
  | inr e ↦ ground (arith, lookup-miss k (key d) st m e)
]

is_idle-own :
    (st : Status) (m : List (Text × Status)) (d : Device)
    → is_idle ((key d, st) ∷ m) d ≡ true
    → st ≡ idle
is_idle-own st m d e = ground (arith, e, lookup-hit (key d) (key d) st m (beq_refl (key d)))

module _ {H W : Type 0} (utf8 : List ℕ → Option Text) (drivers : Drivers H W)
    (describe : Error → Text) where
  -- What makes a device idle: the findings about all devices of its kind, or its driver's answers.
  Noted : Kind → Findings → Device → W → Type 0
  Noted nvidia findings device w = nvidia_idle findings.nvidia_busy device ≡ some true
  Noted hcu findings device w =
      (healthy_by findings.hcu_healthy device.id ≡ some true)
      × (process_idle findings.hcu_busy device.id ≡ some true)
  Noted ascend findings device w =
      (driver : Dcmi W) × (drivers.ascend_driver ≡ some driver)
      × AscendIdle.Confirmed utf8 driver device w
  Noted mthreads findings device w =
      (driver : Mtml H W) × (drivers.mthreads_driver ≡ some driver)
      × MthreadsIdle.Confirmed driver utf8 device w
  Noted metax findings device w =
      (driver : Mxsml H W) × (drivers.metax_driver ≡ some driver)
      × MetaxIdle.Confirmed driver utf8 device w
  Noted ppu findings device w =
      (driver : Hgml H W) × (drivers.ppu_driver ≡ some driver)
      × PpuIdle.Confirmed driver utf8 device w

  abbrev watch_all : Monitors W
  watch_all = monitors utf8 drivers

  hcu_status-idle :
      (findings : Findings) (d : Device)
      → hcu_status findings d ≡ idle
      → (healthy_by findings.hcu_healthy d.id ≡ some true)
        × (process_idle findings.hcu_busy d.id ≡ some true)
  unfolding hcu_status
  hcu_status-idle findings d e = ground arith

  -- The entry of a device after its turn, and what it rests on where it is idle.
  abbrev Justified : Kind → Findings → Device → Inventory → W → Type 0
  Justified kind findings d inventory w =
      (st : Status) × (st ≡ idle → Noted kind findings d w)
      × ((refresh_device watch_all describe findings d inventory w).0.status
          ≡ (key d, st) ∷ inventory.status)

  refresh_device-Justified :
      (findings : Findings) (d : Device) (inventory : Inventory) (w : W) (k : Kind)
      → d.kind ≡ k
      → Justified k findings d inventory w
  unfolding refresh_device Noted monitors
  refresh_device-Justified findings d inventory w nvidia e =
      (word_of (nvidia_idle findings.nvidia_busy d), (λ i. ground (arith, i)), ground (arith, e))
  refresh_device-Justified findings d inventory w hcu e =
      (hcu_status findings d, (λ i. hcu_status-idle findings d i), ground (arith, e))
  refresh_device-Justified findings d inventory w ascend e =
      elim (Option-cases drivers.ascend_driver) [
        | inl n ↦ (
          unknown,
          (λ i. absurd (cc)),
          ground (arith, e, n, note_error-status (key d) (describe dcmi_unavailable) inventory),
        )
        | inr (driver, s) ↦ elim (Result-cases (Ascend.status utf8 driver d w).0) [
          | inl (st, h) ↦ (
            st,
            (λ i. (driver, s, AscendIdle.status-Confirmed utf8 driver d w (h ∙ ap ok i))),
            ground (arith, e, s, h),
          )
          | inr (x, h) ↦ (
            unknown,
            (λ i. absurd (cc)),
            ground (arith, e, s, h, note_error-status (key d) (describe x) inventory),
          )
        ]
      ]
  refresh_device-Justified findings d inventory w mthreads e =
      elim (Option-cases drivers.mthreads_driver) [
        | inl n ↦ (unknown, (λ i. absurd (cc)), ground (arith, e, n))
        | inr (driver, s) ↦ (
          (Mthreads.status driver utf8 d w).0,
          (λ i. (driver, s, MthreadsIdle.status-Confirmed driver utf8 d w i)),
          ground (arith, e, s),
        )
      ]
  refresh_device-Justified findings d inventory w metax e =
      elim (Option-cases drivers.metax_driver) [
        | inl n ↦ (unknown, (λ i. absurd (cc)), ground (arith, e, n))
        | inr (driver, s) ↦ (
          (Metax.status driver utf8 d w).0,
          (λ i. (driver, s, MetaxIdle.status-Confirmed driver utf8 d w i)),
          ground (arith, e, s),
        )
      ]
  refresh_device-Justified findings d inventory w ppu e = elim (Option-cases drivers.ppu_driver) [
    | inl n ↦ (unknown, (λ i. absurd (cc)), ground (arith, e, n))
    | inr (driver, s) ↦ (
      (Ppu.status driver utf8 d w).0,
      (λ i. (driver, s, PpuIdle.status-Confirmed driver utf8 d w i)),
      ground (arith, e, s),
    )
  ]

  -- Where the drivers are asked later in the round, the entries of devices with other keys stay.
  other-stays :
      (findings : Findings) (ds : List Device) (inventory : Inventory) (w : W) (d : Device)
      → All (λ x. key d ≢ key x) ds
      → is_idle (refresh_devices watch_all describe findings ds inventory w).0.status d
        ≡ is_idle inventory.status d
  unfolding refresh_devices
  other-stays findings [] inventory w d h = refl
  other-stays findings (x ∷ ds) inventory w d (n, h) =
      let (st, i, same) = refresh_device-Justified findings x inventory w x.kind refl in
      other-stays findings ds _ _ d h
      ∙ ap (λ m. is_idle m d) same
      ∙ is_idle-other (key x) st inventory.status d n

  -- A device is asked after those before it in the inventory.
  refresh_devices-idle :
      (findings : Findings) (ds : List Device) (inventory : Inventory) (w : W) (i : ℕ) (d : Device)
      → IsKeyed ds
      → get_elem? ds i ≡ some d
      → is_idle (refresh_devices watch_all describe findings ds inventory w).0.status d ≡ true
      → Noted d.kind findings d
          (refresh_devices watch_all describe findings (take i ds) inventory w).1
  unfolding refresh_devices
  refresh_devices-idle findings [] inventory w i d keyed at_i e = absurd (cc)
  refresh_devices-idle findings (x ∷ ds) inventory w zero d (fresh, keyed) at_i e =
      let (st, evidence, same) = refresh_device-Justified findings x inventory w x.kind refl in
      let it : x ≡ d = ground (arith, at_i) in
      subst
        (λ y.
          is_idle (refresh_devices watch_all describe findings (x ∷ ds) inventory w).0.status y
            ≡ true
          → Noted y.kind findings y w)
        it
        (λ h. evidence (
          is_idle-own st inventory.status x
            (rw same at (sym (other-stays findings ds _ _ x fresh) ∙ h))))
        e
  refresh_devices-idle findings (x ∷ ds) inventory w (suc i) d (fresh, keyed) at_i e =
      refresh_devices-idle findings ds _ _ i d keyed at_i e

  -- The evidence that a device is idle: from a tool about all devices of its kind, asked in the
  -- states that `refresh` begins with (`begun`, and after the first tool), or from its own driver,
  -- asked in the state `w`.
  unfoldable pub Evidence : Kind → List Device → Device → W → W → Type 0
  Evidence nvidia devices device begun w = NvidiaFree utf8 drivers describe device begun
  Evidence hcu devices device begun w =
      HcuFree utf8 drivers describe device (nvidia_asked utf8 drivers describe devices begun)
  Evidence ascend devices device begun w =
      (driver : Dcmi W) × (drivers.ascend_driver ≡ some driver)
      × AscendIdle.Confirmed utf8 driver device w
  Evidence mthreads devices device begun w =
      (driver : Mtml H W) × (drivers.mthreads_driver ≡ some driver)
      × MthreadsIdle.Confirmed driver utf8 device w
  Evidence metax devices device begun w =
      (driver : Mxsml H W) × (drivers.metax_driver ≡ some driver)
      × MetaxIdle.Confirmed driver utf8 device w
  Evidence ppu devices device begun w =
      (driver : Hgml H W) × (drivers.ppu_driver ≡ some driver)
      × PpuIdle.Confirmed driver utf8 device w

  Noted-Evidence :
      (k : Kind) (devices : List Device) (device : Device) (begun w : W)
      → Noted k (gather watch_all describe devices begun).0 device w
      → Evidence k devices device begun w
  unfolding Noted Evidence gather monitors
  Noted-Evidence nvidia devices device begun w e =
      nvidia-Free utf8 drivers describe _ device begun e
  Noted-Evidence hcu devices device begun w (healthy, unused) =
      hcu-Free utf8 drivers describe _ device _ (healthy, unused)
  Noted-Evidence ascend devices device begun w e = e
  Noted-Evidence mthreads devices device begun w e = e
  Noted-Evidence metax devices device begun w e = e
  Noted-Evidence ppu devices device begun w e = e

  -- The state of the world in which the driver of the device at a position is asked: after the tools,
  -- and after the devices before it.
  abbrev pub asked_in : Inventory → W → ℕ → W
  asked_in inventory w i =
      let (findings, w') = gather watch_all describe inventory.devices w in
      (refresh_devices watch_all describe findings (take i inventory.devices) inventory w').1

  -- Where a device counts as idle after a refresh, the calls of this refresh have answered so: a
  -- MetaX, PPU or Moore Threads driver, asked in the device's turn, that the device still has its
  -- identity and runs no process, and a MetaX driver also that it is available; an Ascend driver,
  -- asked in its turn, that it is healthy and runs no process; for NVIDIA the tool, that only other
  -- devices have processes; for HCU the driver, that it has no process, and the tool, that it is
  -- healthy. The keys of the devices must be different, as `validate` makes them.
  pub refresh-Evidence :
      (inventory : Inventory) (w : W) (i : ℕ) (d : Device)
      → IsKeyed inventory.devices
      → get_elem? inventory.devices i ≡ some d
      → is_idle (refresh watch_all describe inventory w).0.status d ≡ true
      → Evidence d.kind inventory.devices d w (asked_in inventory w i)
  unfolding refresh
  refresh-Evidence inventory w i d keyed at_i e = Noted-Evidence d.kind inventory.devices d w _ (
      refresh_devices-idle (gather watch_all describe inventory.devices w).0 inventory.devices
        inventory (gather watch_all describe inventory.devices w).1 i d keyed at_i e)
