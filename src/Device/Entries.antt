-- ===== src/Device/Entries.antt =====
-- src/device/mod.rs, `refresh`: the entries of the map of statuses.
use xlurm.Base.{
  ◌≡◌, refl, inl, inr, true, false, some, List, ◌∷◌, Bool-cases, nat_eq, ◌==◌, option_eq, Text,
  text_eq, int_eq,
}
use xlurm.Model.{kind_eq, state_eq, Status}
use xlurm.Scheduler.Machine.{Inventory}
use xlurm.Scheduler.Exclude.{lookup}
use xlurm.Device.Refresh.{note_error}

pub lookup-hit :
    (k j : Text) (st : Status) (m : List (Text × Status))
    → (k == j) ≡ true
    → lookup j ((k, st) ∷ m) ≡ some st
unfolding lookup
lookup-hit k j st m e = rw e refl

pub lookup-miss :
    (k j : Text) (st : Status) (m : List (Text × Status))
    → (k == j) ≡ false
    → lookup j ((k, st) ∷ m) ≡ lookup j m
unfolding lookup
lookup-miss k j st m e = rw e refl

pub note_error-status :
    (k error : Text) (inventory : Inventory)
    → (note_error k error inventory).status ≡ inventory.status
unfolding note_error
note_error-status k error inventory =
    elim (Bool-cases (lookup k inventory.monitoring_errors == some error)) [
      | inl y ↦ rw y refl
      | inr n ↦ rw n refl
    ]
