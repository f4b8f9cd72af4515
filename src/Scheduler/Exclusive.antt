-- ===== src/Scheduler/Exclusive.antt =====
-- The invariant of the queue: running jobs never share a device, and job numbers only grow.
pub mod Requests
pub mod Covers
pub mod Ticks
pub mod Steps
use xlurm.Base.{
  ◌≤◌, ◌<◌, ◌≡◌, sym, ◌≢◌, List, [], ◌∷◌, nat_eq, option_eq, text_eq, All, Pairwise, All-imp,
  int_eq,
}
use xlurm.Model.{kind_eq, key, state_eq, Device, Job, Store, running}
use xlurm.Scheduler.Machine.{Scheduler}
use xlurm.Scheduler.Allocate.Devices.{IsKeyed}
use xlurm.Scheduler.Allocate.Complete.{HasDistinctIds}

-- No device of the one is a device of the other.
abbrev pub NoCommonDevice : List Device → List Device → Type 0
NoCommonDevice ds es = All (λ d. All (λ e. key d ≢ key e) es) ds

abbrev pub Apart : Job → Job → Type 0
Apart a b = a.state ≡ running → b.state ≡ running → NoCommonDevice a.devices b.devices

pub record IsExclusive (jobs : List Job) : Type 0 where
  pub apart : Pairwise Apart jobs
  pub keyed : All (λ (j : Job). IsKeyed j.devices) jobs

-- Job numbers grow along the queue, up to the last number given.
pub record IsNumbered (st : Store) : Type 0 where
  pub increasing : Pairwise (λ (a b : Job). a.id < b.id) st.jobs
  pub bounded : All (λ (j : Job). j.id ≤ st.next_id) st.jobs

pub record Inv {W : Type 0} (s : Scheduler W) : Type 0 where
  pub inventory_keyed : IsKeyed s.inventory.devices
  pub exclusive : IsExclusive s.store.jobs
  pub numbered : IsNumbered s.store
  pub distinct_ids : All (λ (j : Job). HasDistinctIds j.spec) s.store.jobs

NoCommonDevice-symm : (ds es : List Device) → NoCommonDevice ds es → NoCommonDevice es ds
NoCommonDevice-symm ds [] h = tt
NoCommonDevice-symm ds (e ∷ es) h = (
  All-imp (λ d. All (λ x. key d ≢ key x) (e ∷ es)) (λ d. key e ≢ key d) ds (λ d r p. r.0 (sym p)) h,
  NoCommonDevice-symm ds es (
      All-imp (λ d. All (λ x. key d ≢ key x) (e ∷ es)) (λ d. All (λ x. key d ≢ key x) es) ds
        (λ d r. r.1) h),
)

pub Apart-symm : (a b : Job) → Apart a b → Apart b a
Apart-symm a b h rb ra = NoCommonDevice-symm a.devices b.devices (h ra rb)

-- A job that has no new devices and has not started running.
pub record Weaker (j k : Job) : Type 0 where
  pub same_devices : k.devices ≡ j.devices
  pub was_running : k.state ≡ running → j.state ≡ running

pub Apart-Weaker : (a b c d : Job) → Weaker a c → Weaker b d → Apart a b → Apart c d
Apart-Weaker a b c d p q h rc rd =
    rw (p.same_devices, q.same_devices) (h (p.was_running rc) (q.was_running rd))
