-- ===== src/Scheduler/Tick/Grants.antt =====
-- What a job that a tick starts is given, and what a tick leaves alone.
use mathlib.Core.List.{Mem, not-mem-nil, eq-or-mem_of_mem-cons}
use mathlib.Core.Bool.{Bool-set}
use mathlib.Core.Logic.Or
use xlurm.Scheduler.Tick.Order.{pending_order-pending, pending_order-distinct}
use xlurm.Scheduler.Allocate.{allocate}
use xlurm.Scheduler.Exclusive.Requests.{Each-imp}
use xlurm.Scheduler.Tick.Loop.{start_jobs_ind, tick_ind, Rule}
use xlurm.Scheduler.Tick.Cases.{
  Each, Each-trans, Each-set, poll_jobs-Polled, Polled, untouched, collected,
}
use xlurm.Base.{
  ℕ, ◌≡◌, refl, ap, ◌∙◌, ◌≢◌, ◌⊎◌, inl, inr, true, false, not, some, List, [], ◌∷◌, ◌++◌, map,
  arith, Bool-cases, nat_eq, beq_refl, option_eq, Text, text_eq, get_elem?, set, filter, count_if,
  flat_map, contains, contains-append, All, All-imp, All-imp2, int_eq,
}
use xlurm.Model.{kind_eq, key, state_eq, terminal, Device, Job, pending, running, Status, Error}
use xlurm.Scheduler.Machine.{Host, Inventory, Scheduler}
use xlurm.Scheduler.Tick.{
  finish, is_running, pending_order, is_idle, started, replace_job, reserved_keys, collect,
  start_pending, tick,
}
use xlurm.Scheduler.Allocate.Devices.{allocate-IsAllocation, IsAllocation}

-- The devices that are not idle.
abbrev busy : List (Text × Status) → List Device → List Text
busy status ds = map key (filter (λ d. not (is_idle status d)) ds)

idle-head :
    (status : List (Text × Status)) (d : Device) (ds : List Device)
    → contains (busy status (d ∷ ds)) (key d) ≡ false
    → is_idle status d ≡ true
idle-head status d ds e = elim (Bool-cases (is_idle status d)) [
  | inl y ↦ y
  | inr n ↦ absurd (ground (arith, beq_refl (key d)))
]

idle-tail :
    (status : List (Text × Status)) (x : Device) (ds : List Device) (k : Text)
    → contains (busy status (x ∷ ds)) k ≡ false
    → contains (busy status ds) k ≡ false
idle-tail status x ds k e = ground arith

idle-of_mem :
    (status : List (Text × Status)) (ds : List Device) (d : Device)
    → Mem d ds
    → contains (busy status ds) (key d) ≡ false
    → is_idle status d ≡ true
idle-of_mem status [] d m e = absurd (not-mem-nil m)
idle-of_mem status (x ∷ ds) d m e =
    Or.elim (Bool-set (is_idle status d) true) (eq-or-mem_of_mem-cons m)
      (λ same. rw same (idle-head status x ds (rw same at e)))
      (λ later. idle-of_mem status ds d later (idle-tail status x ds (key d) e))

module _ {W : Type 0} (s : Scheduler W) where
  -- What `tick` promises of the devices of a job that it starts.
  pub record IsGranted (k : Job) : Type 0 where
    pub from_inventory : All (λ d. Mem d s.inventory.devices) k.devices
    pub all_idle : All (λ d. is_idle s.inventory.status d ≡ true) k.devices
    pub enabled : All (λ d. contains s.excluded_devices (key d) ≡ false) k.devices
    pub as_requested :
        (reserved : List Text) × IsAllocation k.spec s.inventory.devices reserved k.devices

  -- A running job was running before, on the same devices, or has been granted its devices. A job
  -- that has ended is not touched.
  pub record Follows (j k : Job) : Type 0 where
    pub same_request : k.spec ≡ j.spec
    pub runs_by_grant :
        k.state ≡ running → ((j.state ≡ running) × (k.devices ≡ j.devices)) ⊎ IsGranted k
    pub keeps_ended : terminal j.state ≡ true → k ≡ j

  Follows-refl : (j : Job) → Follows j j
  Follows-refl j = record {
    same_request = refl;
    runs_by_grant = λ r. inl (r, refl);
    keeps_ended = λ _. refl;
  }

  IsGranted-same : (j k : Job) → k.spec ≡ j.spec → k.devices ≡ j.devices → IsGranted j → IsGranted k
  IsGranted-same j k e d g = record {
    from_inventory = rw d g.from_inventory;
    all_idle = rw d g.all_idle;
    enabled = rw d g.enabled;
    as_requested = (g.as_requested.0, rw (d, e) g.as_requested.1);
  }

  Follows-trans : (i j k : Job) → Follows i j → Follows j k → Follows i k
  Follows-trans i j k p q = record {
    same_request = q.same_request ∙ p.same_request;
    runs_by_grant = λ r. elim (q.runs_by_grant r) [
      | inr g ↦ inr g
      | inl (r', same) ↦ elim (p.runs_by_grant r') [
        | inl (r'', same') ↦ inl (r'', same ∙ same')
        | inr g ↦ inr (IsGranted-same j k q.same_request same g)
      ]
    ];
    keeps_ended = λ e. q.keeps_ended (rw (p.keeps_ended e) e) ∙ p.keeps_ended e;
  }

  Polled-Follows : (j k : Job) → Polled j k → Follows j k
  Polled-Follows j k (untouched e) = rw e (Follows-refl j)
  Polled-Follows j k (collected o r e) = record {
    same_request = ap (λ (x : Job). x.spec) e;
    runs_by_grant = λ _. inl (r, ap (λ (x : Job). x.devices) e);
    keeps_ended = λ t. absurd (ground arith);
  }

  stopped-Follows :
      (j k : Job) → j.state ≡ pending → k.spec ≡ j.spec → k.state ≢ running → Follows j k
  stopped-Follows j k p same r = record {
    same_request = same;
    runs_by_grant = λ e. absurd (r e);
    keeps_ended = λ t. absurd (ground arith);
  }

  granted-Follows : (j k : Job) → j.state ≡ pending → k.spec ≡ j.spec → IsGranted k → Follows j k
  granted-Follows j k p same g = record {
    same_request = same;
    runs_by_grant = λ _. inr g;
    keeps_ended = λ t. absurd (ground arith);
  }

  -- No key that must not be given away has been forgotten.
  abbrev Reserves : List Text → Type 0
  Reserves reserved =
      (x : Text)
      → contains reserved x ≡ false
      → (contains (busy s.inventory.status s.inventory.devices) x ≡ false)
        × (contains s.excluded_devices x ≡ false)

  allocation-IsGranted :
      (k : Job) (reserved : List Text)
      → Reserves reserved
      → IsAllocation k.spec s.inventory.devices reserved k.devices
      → IsGranted k
  allocation-IsGranted k reserved h a = record {
    from_inventory = a.from_inventory;
    all_idle =
        All-imp2 (λ d. Mem d s.inventory.devices) (λ d. contains reserved (key d) ≡ false)
          (λ d. is_idle s.inventory.status d ≡ true) k.devices
          (λ d m e. idle-of_mem s.inventory.status s.inventory.devices d m (h (key d) e).0)
          a.from_inventory a.unreserved;
    enabled =
        All-imp (λ d. contains reserved (key d) ≡ false)
          (λ d. contains s.excluded_devices (key d) ≡ false) k.devices (λ d e. (h (key d) e).1)
          a.unreserved;
    as_requested = (reserved, a);
  }

  -- Of the parts of `tick`.
  record Trails (t : Scheduler W) : Type 0 where
    same_inventory : t.inventory ≡ s.inventory
    same_excluded : t.excluded_devices ≡ s.excluded_devices
    follows : Each Follows s.store.jobs t.store.jobs

  -- Of the loop.
  record Reserving (reserved : List Text) (n : ℕ) (t : Scheduler W) : Type 0 where
    reserves : Reserves reserved
    trails : Trails t

  Trails-replace :
      (t : Scheduler W) (i : ℕ) (j k : Job) (w : W)
      → Trails t
      → get_elem? t.store.jobs i ≡ some j
      → Follows j k
      → Trails (record (replace_job i k t) { world = w })
  Trails-replace t i j k w p at f = record {
    same_inventory = p.same_inventory;
    same_excluded = p.same_excluded;
    follows =
        Each-trans Follows Follows-trans s.store.jobs t.store.jobs (set t.store.jobs i k) p.follows
          (Each-set Follows Follows-refl t.store.jobs i j k at f);
  }

  Reserves-append : (keys reserved : List Text) → Reserves reserved → Reserves (keys ++ reserved)
  Reserves-append keys reserved h x e = h x (ground (arith, contains-append keys reserved x))

  apart :
      (xs ys zs : List Text) (x : Text)
      → contains (xs ++ ys ++ zs) x ≡ false
      → (contains xs x ≡ false) × (contains ys x ≡ false)
  apart xs ys zs x e =
      let outer = contains-append (xs ++ ys) zs x in
      let inner = contains-append xs ys x in (ground arith, ground arith)

  reserved_keys-Reserves : (t : Scheduler W) → Trails t → Reserves (reserved_keys t)
  unfolding reserved_keys
  reserved_keys-Reserves t p x e =
      let keys = flat_map (λ (j : Job). map key j.devices) (filter is_running t.store.jobs) in
      let parts : (contains (busy t.inventory.status t.inventory.devices) x ≡ false)
          × (contains t.excluded_devices x ≡ false) =
        apart (busy t.inventory.status t.inventory.devices) t.excluded_devices keys x e in
      (
        rw (ap (λ (v : Inventory). busy v.status v.devices) p.same_inventory) at (parts.0),
        rw p.same_excluded at (parts.1),
      )

  grant-IsGranted :
      (reserved : List Text) (n : ℕ) (t : Scheduler W) (j : Job) (devices : List Device) (time : ℕ)
      → Reserving reserved n t
      → allocate j.spec t.inventory.devices reserved ≡ some devices
      → IsGranted (started devices time j)
  grant-IsGranted reserved n t j devices time p granted =
      let a : IsAllocation j.spec s.inventory.devices reserved devices =
        allocate-IsAllocation j.spec s.inventory.devices reserved devices
          (rw p.trails.same_inventory at granted) in
      allocation-IsGranted (started devices time j) reserved p.reserves a

  module _ (host : Host W) (describe : Error → Text) where
    Reserving-Rule : Rule host describe Reserving
    Reserving-Rule = record {
      ran = λ i j devices reserved n t p room at pend granted time w. record {
        reserves = Reserves-append (map key devices) reserved p.reserves;
        trails = Trails-replace t i j (started devices time j) w p.trails at (
            granted-Follows j (started devices time j) pend refl
              (grant-IsGranted reserved n t j devices time p granted));
      };
      failed_start = λ i j devices reserved n t p at pend granted time o w is_failed. record {
        reserves = p.reserves;
        trails =
            Trails-replace t i j (finish o (started devices time j)) w p.trails at
              (stopped-Follows j (finish o (started devices time j)) pend refl (λ r. ground arith));
      };
    }

    start_pending-Trails : (t : Scheduler W) → Trails t → Trails (start_pending host describe t).1
    unfolding start_pending
    start_pending-Trails t p =
        let (reserved, n, c) =
          start_jobs_ind host describe Reserving Reserving-Rule (pending_order t.store.jobs)
            (reserved_keys t) (count_if is_running t.store.jobs) t
            (pending_order-pending t.store.jobs) (pending_order-distinct t.store.jobs)
            (record { reserves = reserved_keys-Reserves t p; trails = p }) in
        c.trails

    collect-Trails : Trails (collect host s).1
    unfolding collect
    collect-Trails = record {
      same_inventory = refl;
      same_excluded = refl;
      follows =
          Each-imp Polled Follows s.store.jobs _ Polled-Follows
            (poll_jobs-Polled host s.store.jobs s.world);
    }

    -- Through a tick, whatever fails: a job that runs afterwards was running before on the same
    -- devices, or has been granted devices of the inventory that are idle and not excluded and
    -- meet its request; and a job that has ended is never touched again.
    pub tick-Follows : Each Follows s.store.jobs (tick host describe s).1.store.jobs
    tick-Follows =
        let p : Trails (tick host describe s).1 =
          tick_ind host describe Trails s
            (λ t w q. record {
              same_inventory = q.same_inventory;
              same_excluded = q.same_excluded;
              follows = q.follows;
            })
            collect-Trails start_pending-Trails in
        p.follows
