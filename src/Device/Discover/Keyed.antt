-- ===== src/Device/Discover/Keyed.antt =====
-- src/device/mod.rs, `discover`: the keys of the devices of all backends together.
use xlurm.Device.Refresh.{
  note_error, gather, ascend_result, refresh_device, refresh_devices, refresh, Monitors, Findings,
}
use xlurm.Scheduler.Machine.{new, Inventory}
use xlurm.Device.Discover.{
  is_selected, is_automatic, probe, discover_kinds, no_devices_found, fresh, discover, Vendors,
  Found, Backend,
}
use xlurm.Device.Valid.{validate-IsKeyed}
use xlurm.Base.{
  ◌≡◌, refl, sym, ap, ◌∙◌, subst, ◌≢◌, inl, inr, not, List, [], ◌∷◌, ◌++◌, arith, if◌then◌else◌,
  Bool-cases, nat_eq, ◌==◌, option_eq, Text, text, text_eq, is_empty, filter, All, Pairwise,
  All-append, All-imp, Pairwise-append, Result-cases, ok, int_eq,
}
use xlurm.Model.{
  priority, kind_beq_iff, kind_eq, kind_label, key, state_eq, Device, Kind, nvidia, ascend,
  mthreads, metax, ppu, hcu, Error,
}
use xlurm.Scheduler.Allocate.Devices.{IsKeyed}
use xlurm.Device.{trim, lines, validate, nvidia_line, nvidia_lines, parse_nvidia}

-- The kind that a key begins with.
kind_of : Text → Kind
kind_of [] = metax
kind_of (c ∷ []) = metax
kind_of (c ∷ e ∷ cs) =
    if c == b'n'
    then nvidia
    else if c == b'a'
    then ascend
    else if c == b'p'
    then ppu
    else if c == b'h'
    then hcu
    else if e == b't'
    then mthreads
    else metax

kind_of-key : (k : Kind) (rest : Text) → kind_of (kind_label k ++ text ":" ++ rest) ≡ k
unfolding kind_of kind_label
kind_of-key nvidia rest = refl
kind_of-key ascend rest = refl
kind_of-key mthreads rest = refl
kind_of-key metax rest = refl
kind_of-key ppu rest = refl
kind_of-key hcu rest = refl

-- Devices of different kinds have different keys.
pub key-kind : (a b : Device) → key a ≡ key b → a.kind ≡ b.kind
unfolding key
key-kind a b e = sym (kind_of-key a.kind a.visible) ∙ ap kind_of e ∙ kind_of-key b.kind b.visible

-- The devices of one backend.
abbrev pub OfKind : Kind → List Device → Type 0
OfKind kind ds = All (λ (d : Device). d.kind ≡ kind) ds × IsKeyed ds

nvidia_line-kind : (line : Text) (d : Device) → nvidia_line line ≡ ok d → d.kind ≡ nvidia
unfolding nvidia_line
nvidia_line-kind line d e = ground (arith, e)

nvidia_lines-kind :
    (ls : List Text) (ds : List Device)
    → nvidia_lines ls ≡ ok ds
    → All (λ (d : Device). d.kind ≡ nvidia) ds
unfolding nvidia_lines
nvidia_lines-kind [] ds e = let same : [] ≡ ds = ground (arith, e) in subst (All _) same tt
nvidia_lines-kind (l ∷ ls) ds e = elim (Result-cases (nvidia_line l)) [
  | inr (x, h) ↦ absurd (ground (arith, h, e))
  | inl (d, h) ↦ elim (Result-cases (nvidia_lines ls)) [
    | inr (x, k) ↦ absurd (ground (arith, h, k, e))
    | inl (rest, k) ↦
        let same : d ∷ rest ≡ ds = ground (arith, h, k, e) in
        subst (All (λ (d : Device). d.kind ≡ nvidia)) same
          (nvidia_line-kind l d h, nvidia_lines-kind ls rest k)
  ]
]

parse_nvidia-OfKind : (t : Text) (ds : List Device) → parse_nvidia t ≡ ok ds → OfKind nvidia ds
unfolding parse_nvidia
parse_nvidia-OfKind t ds e =
    elim (Result-cases (nvidia_lines (filter (λ l. not (is_empty (trim l))) (lines t)))) [
      | inr (x, h) ↦ absurd (ground (arith, h, e))
      | inl (found, h) ↦
          let accepted : validate found ≡ ok ds = rw (h, parse_nvidia) at e in
          let (same, filled, keyed) = validate-IsKeyed found ds accepted in
          (
            rw same (nvidia_lines-kind (filter (λ l. not (is_empty (trim l))) (lines t)) found h),
            keyed,
          )
    ]

-- No device of the list has a kind that is still to come.
abbrev AllBefore : List Kind → List Device → Type 0
AllBefore kinds ds = All (λ k. All (λ (d : Device). d.kind ≢ k) ds) kinds

-- The devices of one kind after those of other kinds.
append-IsKeyed :
    (kind : Kind) (ds new : List Device)
    → IsKeyed ds
    → All (λ (d : Device). d.kind ≢ kind) ds
    → OfKind kind new
    → IsKeyed (ds ++ new)
append-IsKeyed kind ds new keyed before (own, new_keyed) =
    Pairwise-append (λ a b. key a ≢ key b) ds new keyed new_keyed
      (All-imp (λ (d : Device). d.kind ≢ kind) (λ d. All (λ e. key d ≢ key e) new) ds
        (λ d n.
          All-imp (λ (e : Device). e.kind ≡ kind) (λ e. key d ≢ key e) new
            (λ e same keys. n (key-kind d e keys ∙ same)) own)
        before)

append-AllBefore :
    (kind : Kind) (kinds : List Kind) (ds new : List Device)
    → All (λ k. kind ≢ k) kinds
    → AllBefore kinds ds
    → OfKind kind new
    → AllBefore kinds (ds ++ new)
append-AllBefore kind [] ds new others before own = tt
append-AllBefore kind (k ∷ kinds) ds new (n, others) (h, before) own = (
  All-append _ ds new h (
      All-imp (λ (d : Device). d.kind ≡ kind) (λ (d : Device). d.kind ≢ k) new
        (λ d same e. n (sym same ∙ e)) own.0),
  append-AllBefore kind kinds ds new others before own,
)

module _ {W : Type 0} (vendors : Vendors W) (describe : Error → Text)
    (loads : (kind : Kind) (w : W) (ds : List Device)
      → (vendors.load kind w).0 ≡ ok ds
      → OfKind kind ds) where
  probe-OfKind :
      (kind : Kind) (w : W) (ds : List Device)
      → (probe vendors describe kind w).0 ≡ ok ds
      → OfKind kind ds
  unfolding probe
  probe-OfKind kind w ds e = elim (Bool-cases (kind == nvidia)) [
    | inr n ↦ loads kind w ds (ground (arith, n, e))
    | inl y ↦ elim (Result-cases (vendors.query_gpus w).0) [
      | inr (x, h) ↦ absurd (ground (arith, y, h, e))
      | inl (t, h) ↦
          subst (λ k. OfKind k ds) (sym ((kind_beq_iff kind nvidia).0 y))
            (parse_nvidia-OfKind t ds (ground (arith, y, h, e)))
    ]
  ]

  discover_kinds-IsKeyed :
      (choice : Backend) (kinds : List Kind) (found all_found : Found) (w : W)
      → Pairwise (λ a b. a ≢ b) kinds
      → IsKeyed found.devices
      → AllBefore kinds found.devices
      → (discover_kinds vendors describe choice kinds found w).0 ≡ ok all_found
      → IsKeyed all_found.devices
  unfolding discover_kinds
  discover_kinds-IsKeyed choice [] found all_found w distinct keyed before e =
      let same : found ≡ all_found = ground (arith, e) in rw (sym same) keyed
  discover_kinds-IsKeyed choice (kind ∷ kinds) found all_found w (others, distinct) keyed
        (here, before) e =
      elim (Bool-cases (is_selected choice kind)) [
        | inr n ↦
            discover_kinds-IsKeyed choice kinds found all_found w distinct keyed before
              (rw (n, discover_kinds) at e)
        | inl y ↦ elim (Result-cases (probe vendors describe kind w).0) [
          | inl (ds, h) ↦
              discover_kinds-IsKeyed choice kinds _ all_found _ distinct
                (append-IsKeyed kind found.devices ds keyed here (probe-OfKind kind w ds h))
                (append-AllBefore kind kinds found.devices ds others before
                  (probe-OfKind kind w ds h))
                (rw (y, h, discover_kinds) at e)
          | inr (x, h) ↦ elim (Bool-cases (is_automatic choice)) [
            | inl z ↦
                discover_kinds-IsKeyed choice kinds found all_found _ distinct keyed before
                  (rw (y, h, z, discover_kinds) at e)
            | inr z ↦ absurd (ground (arith, rw (y, h, z, discover_kinds) at e))
          ]
        ]
      ]

priority-distinct : Pairwise (λ a b. a ≢ b) priority
priority-distinct = ground arith

module _ {W : Type 0} (monitors : Monitors W) (describe : Error → Text) where
  refresh_device-devices :
      (findings : Findings) (d : Device) (inventory : Inventory) (w : W) (k : Kind)
      → d.kind ≡ k
      → (refresh_device monitors describe findings d inventory w).0.devices ≡ inventory.devices
  unfolding refresh_device note_error
  refresh_device-devices findings d inventory w nvidia e = ground (arith, e)
  refresh_device-devices findings d inventory w mthreads e = ground (arith, e)
  refresh_device-devices findings d inventory w metax e = ground (arith, e)
  refresh_device-devices findings d inventory w ppu e = ground (arith, e)
  refresh_device-devices findings d inventory w hcu e = ground (arith, e)
  refresh_device-devices findings d inventory w ascend e =
      elim (Result-cases (ascend_result monitors describe d w).0) [
        | inl (st, h) ↦ ground (arith, e, h)
        | inr (x, h) ↦ ground (arith, e, h)
      ]

  refresh_devices-devices :
      (findings : Findings) (ds : List Device) (inventory : Inventory) (w : W)
      → (refresh_devices monitors describe findings ds inventory w).0.devices ≡ inventory.devices
  unfolding refresh_devices
  refresh_devices-devices findings [] inventory w = refl
  refresh_devices-devices findings (d ∷ ds) inventory w =
      refresh_devices-devices findings ds _ _
      ∙ refresh_device-devices findings d inventory w d.kind refl

  refresh-devices :
      (inventory : Inventory) (w : W)
      → (refresh monitors describe inventory w).0.devices ≡ inventory.devices
  unfolding refresh
  refresh-devices inventory w =
      let (findings, w') = gather monitors describe inventory.devices w in
      refresh_devices-devices findings inventory.devices inventory w'

module _ {W : Type 0} (vendors : Vendors W) (describe : Error → Text) where
  pub discover-loads :
      (loads : (kind : Kind) (w : W) (ds : List Device)
        → (vendors.load kind w).0 ≡ ok ds
        → OfKind kind ds)
      (choice : Backend) (w : W) (inventory : Inventory)
      → (discover vendors describe choice w).0 ≡ ok inventory
      → IsKeyed inventory.devices
  unfolding discover
  discover-loads loads choice w inventory e =
      elim (Result-cases
        (discover_kinds vendors describe choice priority (no_devices_found vendors describe) w).0) [
          | inr (x, h) ↦ absurd (ground (arith, h, e))
          | inl (found, h) ↦
              let w' =
                (discover_kinds vendors describe choice priority (no_devices_found vendors describe)
                  w).1 in
              let after = vendors.monitors found.loaded in
              let begun = fresh vendors describe found in
              let same : (refresh after describe begun w').0 ≡ inventory = ground (arith, h, e) in
              rw (sym same, refresh-devices after describe begun w')
                (discover_kinds-IsKeyed vendors describe loads choice priority
                  (no_devices_found vendors describe) found w priority-distinct tt
                  (tt, (tt, (tt, (tt, (tt, (tt, tt)))))) h)
        ]
