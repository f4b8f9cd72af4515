-- ===== src/Scheduler/Exclusive/Ticks.antt =====
-- `tick` keeps the invariant of the queue, also when an executor or the disk fails half-way.
use xlurm.Base.{
  ℕ, ◌≡◌, refl, sym, subst, ◌≢◌, inl, inr, List, [], ◌∷◌, ◌++◌, map, arith, if◌then◌else◌,
  Bool-cases, nat_eq, option_eq, Text, text_eq, filter, count_if, flat_map, All-set, All-get_elem?,
  int_eq,
}
use xlurm.Model.{kind_eq, key, state_beq_iff, state_eq, Job, running, Error}
use xlurm.Scheduler.Machine.{with_jobs, Host, Scheduler}
use xlurm.Scheduler.Allocate.Devices.{IsKeyed, allocate-IsAllocation}
use xlurm.Scheduler.Allocate.Complete.{HasDistinctIds, allocate-IsKeyed}
use xlurm.Scheduler.Tick.{
  finish, is_running, pending_order, started, reserved_keys, poll_jobs, collect, start_pending,
  tick,
}
use xlurm.Scheduler.Tick.Cases.{Each, poll_jobs-Polled, Polled}
use xlurm.Scheduler.Tick.Order.{pending_order-pending, pending_order-distinct}
use xlurm.Scheduler.Tick.Loop.{start_jobs_ind, tick_ind, Rule}
use xlurm.Scheduler.Exclusive.{Apart, Apart-Weaker, Inv, Weaker}
use xlurm.Scheduler.Exclusive.Requests.{
  Each-All, Each-Pairwise, Each-imp, Polled-Weaker, Polled-SameRequest, SameRequest-IsNumbered,
  SameRequest-distinct, SameRequest,
}
use xlurm.Scheduler.Exclusive.Covers.{
  Covers, keys-covered, Covers-append, set_running-IsExclusive, set_stopped-IsExclusive,
  set-IsNumbered, set-distinct,
}

module _ {W : Type 0} where
  -- Steps that start no job keep the invariant.
  pub jobs-Inv :
      (s : Scheduler W) (jobs : List Job) (w : W)
      → Each Weaker s.store.jobs jobs
      → Each SameRequest s.store.jobs jobs
      → Inv s
      → Inv (record (with_jobs s jobs) { world = w })
  jobs-Inv s jobs w weaker same v = record {
    inventory_keyed = v.inventory_keyed;
    exclusive = record {
      apart = Each-Pairwise Weaker Apart Apart-Weaker s.store.jobs jobs weaker v.exclusive.apart;
      keyed =
          Each-All Weaker (λ (j : Job). IsKeyed j.devices) (λ a b p k. rw p.same_devices k)
            s.store.jobs jobs weaker v.exclusive.keyed;
    };
    numbered = SameRequest-IsNumbered s.store jobs same v.numbered;
    distinct_ids = SameRequest-distinct s.store.jobs jobs same v.distinct_ids;
  }

  collect-Inv : (host : Host W) (s : Scheduler W) → Inv s → Inv (collect host s).1
  unfolding collect
  collect-Inv host s v =
      let jobs = (poll_jobs host s.store.jobs s.world).1 in
      let polled = poll_jobs-Polled host s.store.jobs s.world in
      jobs-Inv s jobs (poll_jobs host s.store.jobs s.world).2
        (Each-imp Polled Weaker s.store.jobs jobs Polled-Weaker polled)
        (Each-imp Polled SameRequest s.store.jobs jobs Polled-SameRequest polled) v

abbrev running_keys : List Job → List Text
running_keys jobs = flat_map (λ (j : Job). map key j.devices) (filter is_running jobs)

running_keys-cons :
    (j : Job) (jobs : List Job)
    → running_keys (j ∷ jobs)
      ≡ (if is_running j then map key j.devices ++ running_keys jobs else running_keys jobs)
running_keys-cons j jobs = ground arith

running_keys-Covers : (jobs : List Job) → Covers (running_keys jobs) jobs
running_keys-Covers [] = tt
running_keys-Covers (j ∷ jobs) =
    subst (λ r. Covers r (j ∷ jobs)) (sym (running_keys-cons j jobs))
      (elim (Bool-cases (is_running j)) [
        | inl y ↦
            subst
              (λ b.
                Covers (if b then map key j.devices ++ running_keys jobs else running_keys jobs)
                  (j ∷ jobs))
              (sym y)
              (
                (λ _. keys-covered j.devices (running_keys jobs)),
                Covers-append (map key j.devices) (running_keys jobs) jobs
                    (running_keys-Covers jobs),
              )
        | inr n ↦
            subst
              (λ b.
                Covers (if b then map key j.devices ++ running_keys jobs else running_keys jobs)
                  (j ∷ jobs))
              (sym n)
              (
                (λ r. absurd (ground (arith, (state_beq_iff j.state running).1 r))),
                running_keys-Covers jobs,
              )
      ])

pub Inv-world : {W : Type 0} (s : Scheduler W) (w : W) → Inv s → Inv (record s { world = w })
Inv-world s w v = record {
  inventory_keyed = v.inventory_keyed;
  exclusive = v.exclusive;
  numbered = v.numbered;
  distinct_ids = v.distinct_ids;
}

-- The invariant of the loop.
record Safe {W : Type 0} (reserved : List Text) (n : ℕ) (s : Scheduler W) : Type 0 where
  inv : Inv s
  covers : Covers reserved s.store.jobs

module _ {W : Type 0} (host : Host W) (describe : Error → Text) where
  Safe-Rule : Rule host describe Safe
  Safe-Rule = record {
    ran = λ i j devices reserved n s p room at pend granted time w.
        let keyed =
          allocate-IsKeyed j.spec s.inventory.devices reserved devices p.inv.inventory_keyed
            (All-get_elem? (λ (x : Job). HasDistinctIds x.spec) s.store.jobs i j p.inv.distinct_ids
              at)
            granted in
        let allocation =
          allocate-IsAllocation j.spec s.inventory.devices reserved devices granted in
        let same : SameRequest j (started devices time j) = record {
          same_id = refl;
          same_spec = refl;
          same_owner = refl;
        } in
        record {
          inv = record {
            inventory_keyed = p.inv.inventory_keyed;
            exclusive =
                set_running-IsExclusive s.store.jobs i j (started devices time j) at keyed
                  p.inv.exclusive reserved p.covers allocation.unreserved;
            numbered = set-IsNumbered s.store i j (started devices time j) at same p.inv.numbered;
            distinct_ids =
                set-distinct s.store i j (started devices time j) at same p.inv.distinct_ids;
          };
          covers =
              All-set _ s.store.jobs i (started devices time j)
                (Covers-append (map key devices) reserved s.store.jobs p.covers)
                (λ _. keys-covered devices reserved);
        };
    failed_start = λ i j devices reserved n s p at pend granted time o w is_failed.
        let k = finish o (started devices time j) in
        let keyed =
          allocate-IsKeyed j.spec s.inventory.devices reserved devices p.inv.inventory_keyed
            (All-get_elem? (λ (x : Job). HasDistinctIds x.spec) s.store.jobs i j p.inv.distinct_ids
              at)
            granted in
        let same : SameRequest j k = record {
          same_id = refl;
          same_spec = refl;
          same_owner = refl;
        } in
        let stopped : k.state ≢ running = (λ e. ground arith) in
        record {
          inv = record {
            inventory_keyed = p.inv.inventory_keyed;
            exclusive = set_stopped-IsExclusive s.store.jobs i j k at keyed p.inv.exclusive stopped;
            numbered = set-IsNumbered s.store i j k at same p.inv.numbered;
            distinct_ids = set-distinct s.store i j k at same p.inv.distinct_ids;
          };
          covers = All-set _ s.store.jobs i k p.covers (λ e. absurd (stopped e));
        };
  }

  reserved_keys-Covers : (s : Scheduler W) → Covers (reserved_keys s) s.store.jobs
  unfolding reserved_keys
  reserved_keys-Covers s = Covers-append _ _ s.store.jobs (running_keys-Covers s.store.jobs)

  start_pending-Inv : (s : Scheduler W) → Inv s → Inv (start_pending host describe s).1
  unfolding start_pending
  start_pending-Inv s v =
      let (reserved, n, safe) =
        start_jobs_ind host describe Safe Safe-Rule (pending_order s.store.jobs) (reserved_keys s)
          (count_if is_running s.store.jobs) s (pending_order-pending s.store.jobs)
          (pending_order-distinct s.store.jobs)
          (record { inv = v; covers = reserved_keys-Covers s }) in
      safe.inv

  -- The invariant survives every tick: job numbers stay increasing, and no device is given to two
  -- running jobs or twice to one, whatever fails.
  pub tick-Inv : (s : Scheduler W) → Inv s → Inv (tick host describe s).1
  tick-Inv s v = tick_ind host describe Inv s Inv-world (collect-Inv host s v) (start_pending-Inv)
