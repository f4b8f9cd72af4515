-- ===== src/Scheduler/Exclusive/Covers.antt =====
-- One job of the queue changes: it stops, or it starts on devices that are not reserved.
use xlurm.Base.{
  ℕ, ◌≡◌, refl, ap, ◌≢◌, true, false, some, List, [], ◌∷◌, ◌++◌, map, arith, nat_eq, beq_refl,
  option_eq, Text, text_eq, get_elem?, set, contains, contains-append, All, All-set, All-intro,
  All-imp, Pairwise-set, int_eq,
}
use xlurm.Model.{kind_eq, key, state_eq, Device, Job, Store, running}
use xlurm.Scheduler.Allocate.Devices.{IsKeyed}
use xlurm.Scheduler.Allocate.Complete.{HasDistinctIds}
use xlurm.Scheduler.Tick.Cases.{Each, Each-set}
use xlurm.Scheduler.Exclusive.{NoCommonDevice, Apart, Apart-symm, IsExclusive, IsNumbered}
use xlurm.Scheduler.Exclusive.Requests.{SameRequest-IsNumbered, SameRequest-distinct, SameRequest}

-- The keys of all running jobs are reserved.
abbrev pub Covers : List Text → List Job → Type 0
Covers reserved =
    All (λ (j : Job). j.state ≡ running → All (λ d. contains reserved (key d) ≡ true) j.devices)

pub keys-covered :
    (ds : List Device) (reserved : List Text)
    → All (λ d. contains (map key ds ++ reserved) (key d) ≡ true) ds
keys-covered [] reserved = tt
keys-covered (d ∷ ds) reserved = (
  ground (arith, beq_refl (key d)),
  All-imp (λ e. contains (map key ds ++ reserved) (key e) ≡ true)
      (λ e. contains (key d ∷ map key ds ++ reserved) (key e) ≡ true) ds (λ e h. ground arith)
      (keys-covered ds reserved),
)

more-covered :
    (more reserved : List Text) (ds : List Device)
    → All (λ d. contains reserved (key d) ≡ true) ds
    → All (λ d. contains (more ++ reserved) (key d) ≡ true) ds
more-covered more reserved ds =
    All-imp _ (λ d. contains (more ++ reserved) (key d) ≡ true) ds
      (λ d h. ground (arith, contains-append more reserved (key d)))

pub Covers-append :
    (more reserved : List Text) (jobs : List Job)
    → Covers reserved jobs
    → Covers (more ++ reserved) jobs
Covers-append more reserved jobs =
    All-imp _
      (λ (j : Job).
        j.state ≡ running → All (λ d. contains (more ++ reserved) (key d) ≡ true) j.devices)
      jobs (λ j h r. more-covered more reserved j.devices (h r))

-- Devices in and out of a set of keys differ.
covered-apart :
    (reserved : List Text) (ds es : List Device)
    → All (λ d. contains reserved (key d) ≡ true) ds
    → All (λ e. contains reserved (key e) ≡ false) es
    → NoCommonDevice ds es
covered-apart reserved ds es h g =
    All-imp _ (λ d. All (λ e. key d ≢ key e) es) ds
      (λ d p. All-imp _ (λ e. key d ≢ key e) es (λ e q same. cc (ap (contains reserved) same)) g) h

module _ (jobs : List Job) (i : ℕ) (j k : Job) (at : get_elem? jobs i ≡ some j)
    (keyed : IsKeyed k.devices) (exclusive : IsExclusive jobs) where
  -- A job may run on devices that no running job has.
  pub set_running-IsExclusive :
      (reserved : List Text)
      → Covers reserved jobs
      → All (λ d. contains reserved (key d) ≡ false) k.devices
      → IsExclusive (set jobs i k)
  set_running-IsExclusive reserved covers free = record {
    apart = Pairwise-set Apart jobs i k Apart-symm exclusive.apart (
        All-imp _ (λ x. Apart x k) jobs
          (λ x h rx rk. covered-apart reserved x.devices k.devices (h rx) free) covers);
    keyed = All-set (λ (x : Job). IsKeyed x.devices) jobs i k exclusive.keyed keyed;
  }

  pub set_stopped-IsExclusive : k.state ≢ running → IsExclusive (set jobs i k)
  set_stopped-IsExclusive stopped = record {
    apart =
        Pairwise-set Apart jobs i k Apart-symm exclusive.apart
          (All-intro (λ x. Apart x k) (λ x rx rk. absurd (stopped rk)) jobs);
    keyed = All-set (λ (x : Job). IsKeyed x.devices) jobs i k exclusive.keyed keyed;
  }

module _ (st : Store) (i : ℕ) (j k : Job) (at : get_elem? st.jobs i ≡ some j)
    (same : SameRequest j k) where
  abbrev pub after_set : Each SameRequest st.jobs (set st.jobs i k)
  after_set =
      Each-set SameRequest (λ a. record { same_id = refl; same_spec = refl; same_owner = refl })
        st.jobs i j k at same

  pub set-IsNumbered :
      IsNumbered st → IsNumbered (record { next_id = st.next_id; jobs = set st.jobs i k })
  set-IsNumbered = SameRequest-IsNumbered st (set st.jobs i k) after_set

  pub set-distinct :
      All (λ (j : Job). HasDistinctIds j.spec) st.jobs
      → All (λ (j : Job). HasDistinctIds j.spec) (set st.jobs i k)
  set-distinct = SameRequest-distinct st.jobs (set st.jobs i k) after_set
