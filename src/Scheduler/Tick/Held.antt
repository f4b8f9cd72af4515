-- ===== src/Scheduler/Tick/Held.antt =====
-- src/scheduler.rs, `tick`: the keys and the running jobs that it counts along are those of the queue.
use xlurm.Base.{
  ℕ, zero, suc, ◌≡◌, refl, ap, inl, inr, true, false, some, List, [], ◌∷◌, ◌++◌, map, arith,
  Bool-cases, nat_eq, option_eq, Text, text_eq, get_elem?, set, filter, flat_map, contains,
  contains-append, int_eq,
}
use xlurm.Model.{kind_eq, key, state_eq, Job}
use xlurm.Scheduler.Tick.{is_running}
use xlurm.Scheduler.Tick.Capacity.{running_count}

-- The keys of the devices that running jobs have.
abbrev pub running_keys : List Job → List Text
running_keys jobs = flat_map (λ (j : Job). map key j.devices) (filter is_running jobs)

module _ (j k : Job) (x : Text) where
  pub running_keys-started :
      (jobs : List Job) (i : ℕ)
      → get_elem? jobs i ≡ some j
      → is_running j ≡ false
      → is_running k ≡ true
      → contains (running_keys (set jobs i k)) x ≡ false
      → (contains (map key k.devices) x ≡ false) × (contains (running_keys jobs) x ≡ false)
  running_keys-started [] i at idle_j runs e = absurd (cc)
  running_keys-started (y ∷ jobs) zero at idle_j runs e =
      let e' : contains (map key k.devices ++ running_keys jobs) x ≡ false = rw runs at e in
      let parts = contains-append (map key k.devices) (running_keys jobs) x in
      (ground (arith, parts, e'), ground (arith, parts, e', at, idle_j))
  running_keys-started (y ∷ jobs) (suc i) at idle_j runs e = elim (Bool-cases (is_running y)) [
    | inr n ↦ rw n (running_keys-started jobs i at idle_j runs (rw n at e))
    | inl r ↦
        let e' : contains (map key y.devices ++ running_keys (set jobs i k)) x ≡ false =
          rw r at e in
        let after = contains-append (map key y.devices) (running_keys (set jobs i k)) x in
        let before = contains-append (map key y.devices) (running_keys jobs) x in
        let (own, others) =
          running_keys-started jobs i at idle_j runs (ground (arith, after, e')) in
        (own, rw r (ground (arith, before, after, e', others)))
  ]

  pub running_keys-stopped :
      (jobs : List Job) (i : ℕ)
      → get_elem? jobs i ≡ some j
      → is_running j ≡ false
      → is_running k ≡ false
      → running_keys (set jobs i k) ≡ running_keys jobs
  running_keys-stopped [] i at idle_j stopped = refl
  running_keys-stopped (y ∷ jobs) zero at idle_j stopped = ground arith
  running_keys-stopped (y ∷ jobs) (suc i) at idle_j stopped = elim (Bool-cases (is_running y)) [
    | inl r ↦
        rw r (ap (λ m. map key y.devices ++ m) (running_keys-stopped jobs i at idle_j stopped))
    | inr n ↦ rw n (running_keys-stopped jobs i at idle_j stopped)
  ]

pub count-started :
    (jobs : List Job) (i : ℕ) (j k : Job)
    → get_elem? jobs i ≡ some j
    → is_running j ≡ false
    → is_running k ≡ true
    → running_count (set jobs i k) ≡ suc (running_count jobs)
count-started [] i j k at idle_j runs = absurd (cc)
count-started (y ∷ jobs) zero j k at idle_j runs = ground arith
count-started (y ∷ jobs) (suc i) j k at idle_j runs =
    ground (arith, count-started jobs i j k at idle_j runs)

pub count-stopped :
    (jobs : List Job) (i : ℕ) (j k : Job)
    → get_elem? jobs i ≡ some j
    → is_running j ≡ false
    → is_running k ≡ false
    → running_count (set jobs i k) ≡ running_count jobs
count-stopped [] i j k at idle_j stopped = refl
count-stopped (y ∷ jobs) zero j k at idle_j stopped = ground arith
count-stopped (y ∷ jobs) (suc i) j k at idle_j stopped =
    ground (arith, count-stopped jobs i j k at idle_j stopped)

pub get_elem?-set_hit :
    (jobs : List Job) (i : ℕ) (j k : Job)
    → get_elem? jobs i ≡ some j
    → get_elem? (set jobs i k) i ≡ some k
get_elem?-set_hit [] i j k at = absurd (cc)
get_elem?-set_hit (y ∷ jobs) zero j k at = refl
get_elem?-set_hit (y ∷ jobs) (suc i) j k at = get_elem?-set_hit jobs i j k at
