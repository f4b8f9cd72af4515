-- ===== src/Device/Valid.antt =====
-- src/device/mod.rs, `validate`: an inventory that is accepted has no two devices of one key.
use xlurm.Base.{
  ◌≡◌, ◌≢◌, inl, inr, true, false, List, [], ◌∷◌, arith, Bool-cases, nat_eq, list_beq_iff,
  option_eq, Text, text_eq, is_empty, contains, All, All-imp, ok, int_eq,
}
use xlurm.Model.{kind_eq, key, state_eq, Device}
use xlurm.Scheduler.Allocate.Devices.{IsKeyed}
use xlurm.Device.{all_new, validate}

all_new-fresh :
    (keys : List Text) (ds : List Device)
    → all_new keys ds ≡ true
    → All (λ d. contains keys (key d) ≡ false) ds
unfolding all_new
all_new-fresh keys [] e = tt
all_new-fresh keys (d ∷ ds) e = (
  ground arith,
  All-imp (λ x. contains (key d ∷ keys) (key x) ≡ false) (λ x. contains keys (key x) ≡ false) ds
      (λ x h. ground arith) (all_new-fresh (key d ∷ keys) ds (ground arith)),
)

all_new-IsKeyed : (keys : List Text) (ds : List Device) → all_new keys ds ≡ true → IsKeyed ds
unfolding all_new
all_new-IsKeyed keys [] e = tt
all_new-IsKeyed keys (d ∷ ds) e =
    let rest : all_new (key d ∷ keys) ds ≡ true = ground arith in
    (
      All-imp (λ x. contains (key d ∷ keys) (key x) ≡ false) (λ x. key d ≢ key x) ds
          (λ x h same. absurd (ground (arith, h, (list_beq_iff (key d) (key x)).1 same)))
          (all_new-fresh (key d ∷ keys) ds rest),
      all_new-IsKeyed (key d ∷ keys) ds rest,
    )

-- An inventory that `validate` accepts is the given one, has a device, and its keys are different.
pub validate-IsKeyed :
    (devices accepted : List Device)
    → validate devices ≡ ok accepted
    → (accepted ≡ devices) × (is_empty devices ≡ false) × IsKeyed accepted
unfolding validate
validate-IsKeyed devices accepted e = elim (Bool-cases (is_empty devices)) [
  | inl y ↦ absurd (ground arith)
  | inr n ↦ elim (Bool-cases (all_new [] devices)) [
    | inr repeated ↦ absurd (ground arith)
    | inl distinct ↦
        let same : accepted ≡ devices = ground arith in
        (same, n, rw same (all_new-IsKeyed [] devices distinct))
  ]
]
