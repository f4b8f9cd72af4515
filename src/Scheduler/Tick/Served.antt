-- ===== src/Scheduler/Tick/Served.antt =====
-- src/scheduler.rs, `tick`: no job waits that could be given devices, unless the limit is reached.
use xlurm.Scheduler.Allocate.Complete.{allocate-within}
use xlurm.Scheduler.Tick.Capacity.{running_count}
use xlurm.Base.{
  ℕ, zero, suc, ◌≤◌, ◌<◌, ◌≡◌, refl, subst, ◌≢◌, ◌⊎◌, inl, inr, true, false, none, some, List, [],
  ◌∷◌, ◌++◌, map, arith, leb, Bool-cases, Option-cases, nat_eq, option_eq, Text, text_eq, get_elem?,
  All, Pairwise, Result-cases, ok, int_eq,
}
use xlurm.Model.{kind_eq, key, state_eq, Device, Job, pending}
use xlurm.Model.Errors.{Error}
use xlurm.Scheduler.Machine.{save, Host, Scheduler}
use xlurm.Scheduler.Allocate.{allocate}
use xlurm.Scheduler.Tick.{
  finish, is_running, pending_order, started, reserved_keys, collect, launch, start_jobs,
  start_pending, tick,
}
use xlurm.Scheduler.Tick.Cases.{Each, launch-Launched, Launched, runs, fails}
use xlurm.Scheduler.Tick.Conserving.{
  Ages, Going-refl, Going-trans, Held, Dealt, Dealt-later, replaced-Going, started-Held,
  stopped-Held, Going,
}
use xlurm.Scheduler.Tick.Held.{get_elem?-set_hit}
use xlurm.Scheduler.Tick.Loop.{
  pending-set, start_jobs-full, start_jobs-skip, start_jobs-error, start_jobs-started,
  start_jobs-failed, tick-stops, tick-unchanged, tick-unsaved, tick-saved,
}
use xlurm.Scheduler.Tick.Order.Complete.{pending_order-complete}
use xlurm.Scheduler.Tick.Order.{IsPendingAt, pending_order-pending, pending_order-distinct}

Each-back :
    (js ks : List Job) (i : ℕ) (k : Job)
    → Each Ages js ks
    → get_elem? ks i ≡ some k
    → (j : Job) × (get_elem? js i ≡ some j) × Ages j k
Each-back js [] i k h at = absurd (cc)
Each-back [] (y ∷ ks) i k h at = absurd h
Each-back (x ∷ js) (y ∷ ks) zero k (h, hs) at =
    let same : y ≡ k = cc in (x, refl, subst (λ z. Ages x z) same h)
Each-back (x ∷ js) (y ∷ ks) (suc i) k (h, hs) at = Each-back js ks i k hs at

module _ {W : Type 0} (host : Host W) (describe : Error → Text) where
  -- The end of the second loop of `tick`, over the positions `is`.
  record Ending (is : List ℕ) (s : Scheduler W) (reserved : List Text) (t : Scheduler W)
      : Type 0 where
    final_keys : List Text
    final_count : ℕ
    going : Going s reserved t final_keys
    held : Held final_keys final_count t
    served : (t.max_running ≤ final_count) ⊎ All (Dealt t final_keys) is

  -- A round comes before the others; it has dealt with its position.
  before_others :
      (i : ℕ) (is : List ℕ) (s s' t : Scheduler W) (reserved reserved' : List Text)
      → Going s reserved s' reserved'
      → Dealt s' reserved' i
      → Ending is s' reserved' t
      → Ending (i ∷ is) s reserved t
  before_others i is s s' t reserved reserved' going dealt rest = record {
    final_keys = rest.final_keys;
    final_count = rest.final_count;
    going = Going-trans s s' t reserved reserved' rest.final_keys going rest.going;
    held = rest.held;
    served = elim rest.served [
      | inl full ↦ inl full
      | inr all_dealt ↦
          inr (Dealt-later s' t reserved' rest.final_keys i rest.going dealt, all_dealt)
    ];
  }

  module _ (i : ℕ) (is : List ℕ) (reserved : List Text) (n : ℕ) (s : Scheduler W) (j : Job)
      (room : leb s.max_running n ≡ false) (at : get_elem? s.store.jobs i ≡ some j)
      (waits : j.state ≡ pending) (others : All (IsPendingAt s.store.jobs) is)
      (apart : Pairwise (λ a b. a ≢ b) (i ∷ is)) (holds : Held reserved n s) (devices : List Device)
      (granted : allocate j.spec s.inventory.devices reserved ≡ some devices)
      (rest : (reserved' : List Text) (n' : ℕ)
        → All (IsPendingAt (launch host describe i j devices s).1.store.jobs) is
        → Held reserved' n' (launch host describe i j devices s).1
        → (start_jobs host describe is reserved' n' (launch host describe i j devices s).1).0
          ≡ ok tt
        → Ending is
            (launch host describe i j devices s).1
            reserved'
            (start_jobs host describe is reserved' n'
              (launch host describe i j devices s).1).1) where
    abbrev after : Scheduler W
    after = (launch host describe i j devices s).1

    launch-Ending :
        Launched i j devices s (launch host describe i j devices s).0 after
        → (start_jobs host describe (i ∷ is) reserved n s).0 ≡ ok tt
        → Ending (i ∷ is) s reserved (start_jobs host describe (i ∷ is) reserved n s).1
    launch-Ending (runs time w not_false same) e =
        let k = started devices time j in
        elim (Result-cases (launch host describe i j devices s).0) [
          | inr (x, h) ↦ absurd (
              ground (
                arith,
                rw (start_jobs-error host describe i is reserved n s j room at devices granted x h)
                    at e,
              ))
          | inl (false, h) ↦ absurd (not_false h)
          | inl (true, h) ↦
              rw (start_jobs-started host describe i is reserved n s j room at devices granted h) (
                before_others i is s after _ reserved (map key devices ++ reserved)
                  (rw same (replaced-Going i j reserved n s w at waits k (map key devices) refl))
                  (k, rw same (get_elem?-set_hit s.store.jobs i j k at), (λ p. absurd (cc)))
                  (rest (map key devices ++ reserved) (suc n)
                    (rw same (pending-set s.store.jobs i k is apart.0 others))
                    (rw same (started-Held i j reserved n s w at waits devices time holds))
                    (rw
                      (start_jobs-started host describe i is reserved n s j room at devices granted
                        h)
                      at e)))
        ]
    launch-Ending (fails time o w is_failed not_true same) e =
        let k = finish o (started devices time j) in
        let stopped : is_running k ≡ false = ground (arith, is_failed) in
        elim (Result-cases (launch host describe i j devices s).0) [
          | inr (x, h) ↦ absurd (
              ground (
                arith,
                e,
                start_jobs-error host describe i is reserved n s j room at devices granted x h,
              ))
          | inl (true, h) ↦ absurd (not_true h)
          | inl (false, h) ↦
              rw (start_jobs-failed host describe i is reserved n s j room at devices granted h) (
                before_others i is s after _ reserved reserved
                  (rw same (replaced-Going i j reserved n s w at waits k [] refl))
                  (
                    k,
                    rw same (get_elem?-set_hit s.store.jobs i j k at),
                    (λ p. absurd (ground (arith, p, is_failed))),
                  )
                  (rest reserved n (rw same (pending-set s.store.jobs i k is apart.0 others))
                    (rw same (stopped-Held i j reserved n s w at waits k stopped holds))
                    (rw
                      (start_jobs-failed host describe i is reserved n s j room at devices granted
                        h)
                      at e)))
        ]

  serve :
      (is : List ℕ) (reserved : List Text) (n : ℕ) (s : Scheduler W)
      → All (IsPendingAt s.store.jobs) is
      → Pairwise (λ a b. a ≢ b) is
      → Held reserved n s
      → (start_jobs host describe is reserved n s).0 ≡ ok tt
      → Ending is s reserved (start_jobs host describe is reserved n s).1
  serve [] reserved n s waiting apart holds e =
      unfold start_jobs in
      record {
        final_keys = reserved;
        final_count = n;
        going = Going-refl s reserved;
        held = holds;
        served = inr tt;
      }
  serve (i ∷ is) reserved n s ((j, at, waits), others) apart holds e =
      elim (Bool-cases (leb s.max_running n)) [
        | inl full ↦ rw (start_jobs-full host describe i is reserved n s full) (record {
          final_keys = reserved;
          final_count = n;
          going = Going-refl s reserved;
          held = holds;
          served = inl (ground arith);
        })
        | inr room ↦ elim (Option-cases (allocate j.spec s.inventory.devices reserved)) [
          | inl refused ↦ rw (start_jobs-skip host describe i is reserved n s j room at refused) (
              before_others i is s s _ reserved reserved (Going-refl s reserved)
                (j, at, (λ p. refused))
                (serve is reserved n s others apart.1 holds
                  (rw (start_jobs-skip host describe i is reserved n s j room at refused) at e)))
          | inr (devices, granted) ↦
              launch-Ending i is reserved n s j room at waits others apart holds devices granted
                (λ reserved' n' pend h r.
                  serve is reserved' n' (launch host describe i j devices s).1 pend apart.1 h r)
                (launch-Launched host describe i j devices s) e
        ]
      ]

  -- Nothing is left for a pending job, or the limit is reached.
  IsServed : Scheduler W → Type 0
  IsServed t =
      (t.max_running ≤ running_count t.store.jobs)
      ⊎ ((i : ℕ) (k : Job)
          → get_elem? t.store.jobs i ≡ some k
          → k.state ≡ pending
          → allocate k.spec t.inventory.devices (reserved_keys t) ≡ none)

  start_pending-IsServed :
      (s : Scheduler W)
      → (start_pending host describe s).0 ≡ ok tt
      → IsServed (start_pending host describe s).1
  unfolding start_pending IsServed
  start_pending-IsServed s e =
      let t = (start_pending host describe s).1 in
      let ending =
        serve (pending_order s.store.jobs) (reserved_keys s) (running_count s.store.jobs) s
          (pending_order-pending s.store.jobs) (pending_order-distinct s.store.jobs)
          ((λ x h. h), omega arith) e in
      elim ending.served [
        | inl full ↦ inl (omega (arith, full, ending.held.1))
        | inr dealt ↦ inr (λ i k at waits.
            let (j, at', (same, before)) =
              Each-back s.store.jobs t.store.jobs i k ending.going.ages at in
            let (k', at'', refused) =
              pending_order-complete (Dealt t ending.final_keys) s.store.jobs i j dealt at'
                (before waits) in
            allocate-within k.spec t.inventory.devices ending.final_keys (reserved_keys t)
              ending.held.0
              (let same : k' ≡ k = cc in
                subst (λ (z : Job). allocate z.spec t.inventory.devices ending.final_keys ≡ none)
                  same (refused (rw same waits))))
      ]

  tick-IsServed :
      (s : Scheduler W) → (tick host describe s).0 ≡ ok tt → IsServed (tick host describe s).1
  tick-IsServed s e = elim (Result-cases (collect host s).0) [
    | inr (x, h) ↦ absurd (ground (arith, e, tick-stops host describe s x h))
    | inl (false, h) ↦
        rw (tick-unchanged host describe s h)
          (start_pending-IsServed (collect host s).1 (rw (tick-unchanged host describe s h) at e))
    | inl (true, h) ↦ elim (Result-cases (save host (collect host s).1).0) [
      | inr (x, g) ↦ absurd (ground (arith, e, tick-unsaved host describe s h x g))
      | inl (_, g) ↦ rw (tick-saved host describe s h g) (
          start_pending-IsServed (save host (collect host s).1).1
            (rw (tick-saved host describe s h g) at e))
    ]
  ]

  -- After a tick without an error that leaves fewer jobs running than the limit allows, no job that
  -- is still pending could be given devices: the devices that are idle, not excluded and not held by
  -- a running job do not meet its request.
  pub tick-conserves :
      (s : Scheduler W) (i : ℕ) (k : Job)
      → (tick host describe s).0 ≡ ok tt
      → running_count (tick host describe s).1.store.jobs < (tick host describe s).1.max_running
      → get_elem? (tick host describe s).1.store.jobs i ≡ some k
      → k.state ≡ pending
      → allocate k.spec
          (tick host describe s).1.inventory.devices
          (reserved_keys (tick host describe s).1)
        ≡ none
  unfolding IsServed
  tick-conserves s i k e room at waits = elim (tick-IsServed s e) [
    | inl full ↦ absurd (omega (arith, full, room))
    | inr served ↦ served i k at waits
  ]
