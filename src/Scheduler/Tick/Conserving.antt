-- ===== src/Scheduler/Tick/Conserving.antt =====
-- src/scheduler.rs, `tick`: no device is left idle that a pending job could be given.
use xlurm.Base.{
  ℕ, zero, suc, ◌≤◌, ◌≡◌, refl, ◌∙◌, subst, inl, inr, true, false, not, none, some, List, [], ◌∷◌,
  ◌++◌, map, arith, Bool-cases, nat_eq, option_eq, Text, text_eq, get_elem?, set, filter, contains,
  contains-append, int_eq,
}
use xlurm.Model.{kind_eq, key, state_eq, Device, Job, pending}
use xlurm.Scheduler.Machine.{Scheduler}
use xlurm.Scheduler.Allocate.{allocate}
use xlurm.Scheduler.Allocate.Complete.{Within, allocate-within}
use xlurm.Scheduler.Tick.{is_running, is_idle, started, replace_job, reserved_keys}
use xlurm.Scheduler.Tick.Cases.{Each, Each-refl, Each-trans, Each-set}
use xlurm.Scheduler.Tick.Capacity.{running_count}
use xlurm.Scheduler.Tick.Held.{
  running_keys, running_keys-started, running_keys-stopped, count-started, count-stopped,
}

-- A job keeps its request, and never waits again once it does not.
abbrev pub Ages : Job → Job → Type 0
Ages j k = (k.spec ≡ j.spec) × (k.state ≡ pending → j.state ≡ pending)

Ages-trans : (a b c : Job) → Ages a b → Ages b c → Ages a c
Ages-trans a b c (p, q) (p', q') = (p' ∙ p, λ e. q (q' e))

pub Each-at :
    (js ks : List Job) (i : ℕ) (j : Job)
    → Each Ages js ks
    → get_elem? js i ≡ some j
    → (k : Job) × (get_elem? ks i ≡ some k) × Ages j k
Each-at [] ks i j h at = absurd (cc)
Each-at (x ∷ js) [] i j h at = absurd h
Each-at (x ∷ js) (y ∷ ks) zero j (h, hs) at =
    let same : x ≡ j = cc in (y, refl, subst (λ z. Ages z y) same h)
Each-at (x ∷ js) (y ∷ ks) (suc i) j (h, hs) at = Each-at js ks i j hs at

module _ {W : Type 0} where
  -- What a part of the second loop does to the scheduler and to the keys that it counts along.
  pub record Going (s : Scheduler W) (reserved : List Text) (t : Scheduler W)
      (reserved' : List Text) : Type 0 where
    pub same_inventory : t.inventory ≡ s.inventory
    pub same_excluded : t.excluded_devices ≡ s.excluded_devices
    pub same_limit : t.max_running ≡ s.max_running
    pub ages : Each Ages s.store.jobs t.store.jobs
    pub more : Within reserved reserved'

  pub Going-refl : (s : Scheduler W) (reserved : List Text) → Going s reserved s reserved
  Going-refl s reserved = record {
    same_inventory = refl;
    same_excluded = refl;
    same_limit = refl;
    ages = Each-refl Ages (λ j. (refl, λ e. e)) s.store.jobs;
    more = λ x e. e;
  }

  pub Going-trans :
      (s t u : Scheduler W) (p q r : List Text) → Going s p t q → Going t q u r → Going s p u r
  Going-trans s t u p q r a b = record {
    same_inventory = b.same_inventory ∙ a.same_inventory;
    same_excluded = b.same_excluded ∙ a.same_excluded;
    same_limit = b.same_limit ∙ a.same_limit;
    ages = Each-trans Ages Ages-trans s.store.jobs t.store.jobs u.store.jobs a.ages b.ages;
    more = λ x e. b.more x (a.more x e);
  }

  -- The keys counted along are reserved by the queue too, and the jobs counted along are running.
  abbrev pub Held : List Text → ℕ → Scheduler W → Type 0
  Held reserved n t = Within reserved (reserved_keys t) × (n ≤ running_count t.store.jobs)

  -- The job at a position does not wait, or cannot be given devices.
  abbrev pub Dealt : Scheduler W → List Text → ℕ → Type 0
  Dealt t reserved i =
      (k : Job) × (get_elem? t.store.jobs i ≡ some k)
      × (k.state ≡ pending → allocate k.spec t.inventory.devices reserved ≡ none)

  pub Dealt-later :
      (s t : Scheduler W) (reserved reserved' : List Text) (i : ℕ)
      → Going s reserved t reserved'
      → Dealt s reserved i
      → Dealt t reserved' i
  Dealt-later s t reserved reserved' i going (j, at, refused) =
      let (k, at', (same, before)) = Each-at s.store.jobs t.store.jobs i j going.ages at in
      (
        k,
        at',
        (λ waits.
            allocate-within k.spec t.inventory.devices reserved reserved' going.more
              (rw (same, going.same_inventory) (refused (before waits)))),
      )

  module _ (i : ℕ) (j : Job) (reserved : List Text) (n : ℕ) (s : Scheduler W) (w : W)
      (at : get_elem? s.store.jobs i ≡ some j) (waits : j.state ≡ pending) where
    abbrev with_job : Job → Scheduler W
    with_job k = record (replace_job i k s) { world = w }

    pub replaced-Going :
        (k : Job) (keys : List Text)
        → k.spec ≡ j.spec
        → Going s reserved (with_job k) (keys ++ reserved)
    replaced-Going k keys same = record {
      same_inventory = refl;
      same_excluded = refl;
      same_limit = refl;
      ages = Each-set Ages (λ a. (refl, λ e. e)) s.store.jobs i j k at (same, λ e. waits);
      more = λ x e. ground (arith, contains-append keys reserved x, e);
    }

    idle_now : is_running j ≡ false
    idle_now = ground (arith, waits)

    -- The keys that are reserved for other reasons than running jobs.
    abbrev fixed : List Text
    fixed =
        map key (filter (λ d. not (is_idle s.inventory.status d)) s.inventory.devices)
        ++ s.excluded_devices

    pub started-Held :
        (devices : List Device) (time : ℕ)
        → Held reserved n s
        → Held (map key devices ++ reserved) (suc n) (with_job (started devices time j))
    unfolding reserved_keys
    started-Held devices time (within, counted) =
        let k = started devices time j in
        let jobs' = set s.store.jobs i k in
        (
          λ x e. elim (Bool-cases (contains (running_keys jobs') x)) [
            | inl y ↦ ground (arith, contains-append fixed (running_keys jobs') x, y)
            | inr f ↦
                let (own, others) = running_keys-started j k x s.store.jobs i at idle_now refl f in
                let given : contains reserved x ≡ true =
                  ground (arith, contains-append (map key devices) reserved x, own, e) in
                ground (
                  arith,
                  contains-append fixed (running_keys jobs') x,
                  contains-append fixed (running_keys s.store.jobs) x,
                  within x given,
                  others,
                )
          ],
          rw (count-started s.store.jobs i j k at idle_now refl) (omega (arith, counted)),
        )

    pub stopped-Held :
        (k : Job) → is_running k ≡ false → Held reserved n s → Held reserved n (with_job k)
    unfolding reserved_keys
    stopped-Held k stopped (within, counted) = (
      λ x e. rw (running_keys-stopped j k x s.store.jobs i at idle_now stopped) (within x e),
      rw (count-stopped s.store.jobs i j k at idle_now stopped) counted,
    )
