-- ===== src/Daemon/Kept.antt =====
-- src/daemon.rs, `serve`: a property that each operation keeps is kept by every request and every
-- round of its loop.
use xlurm.Scheduler.Cleanup.{cleanup}
use xlurm.Scheduler.Tick.{cancel, tick}
use xlurm.Scheduler.Exclude.{set_devices_excluded}
use xlurm.Scheduler.Submit.{submit}
use xlurm.Base.{
  ℕ, zero, suc, ◌≡◌, inl, inr, Bool, true, false, not, ◌&&◌, ◌||◌, Option, none, some, List, [],
  ◌∷◌, arith, if◌then◌else◌, Bool-cases, nat_eq, ◌==◌, option_eq, Text, text_eq, is_empty, find?,
  Result-cases, ◌>>=◌, ◌>>◌, pure, ensure, context, modify, Result, int_eq,
}
use xlurm.Model.{kind_eq, state_eq, Submission, Owner, Job}
use xlurm.Model.Errors.{
  Error, job_not_found, only_root_runs_for_others, only_administrator_devices,
  only_administrator_stops, no_device_ids, jobs_are_running,
}
use xlurm.Model.Wire.{Request, Response}
use xlurm.Scheduler.Machine.{outside, get, Host, Scheduler}
use xlurm.Daemon.{
  is_stop, is_ok, authorize, change_devices, running_ids, check_stop, check_idle, read_log, handle,
  respond, serve_clients, clean_up, refresh, run_tasks, turn, Platform, Health, Arrival, client,
  turned_away, accept_failed,
}

module _ {W : Type 0} where
  -- A property of the state that a run keeps, whatever its result.
  abbrev pub Holds :
      {A : Type 0} → (Scheduler W → Type 0) → (Scheduler W → Result Error A × Scheduler W) → Type 0
  Holds P m = (s : Scheduler W) → P s → P (m s).1

  >>=-Holds :
      {A B : Type 0} (P : Scheduler W → Type 0) (m : Scheduler W → Result Error A × Scheduler W)
      (f : A → Scheduler W → Result Error B × Scheduler W)
      → Holds P m
      → ((a : A) → Holds P (f a))
      → Holds P (m >>= f)
  >>=-Holds P m f hm hf s p = elim (Result-cases (m s).0) [
    | inl (a, e) ↦ rw e (hf a (m s).1 (hm s p))
    | inr (x, e) ↦ rw e (hm s p)
  ]

  ensure-Holds : (P : Scheduler W → Type 0) (b : Bool) (e : Error) → Holds P (ensure b e)
  ensure-Holds P true e s p = p
  ensure-Holds P false e s p = p

  context-Holds :
      {A : Type 0} (P : Scheduler W → Type 0) (o : Option A) (e : Error) → Holds P (context o e)
  context-Holds P none e s p = p
  context-Holds P (some a) e s p = p

  authorize-Holds : (P : Scheduler W → Type 0) (uid : ℕ) (o : Owner) → Holds P (authorize uid o)
  unfolding authorize
  authorize-Holds P uid o = ensure-Holds P _ _

module _ {W : Type 0} (host : Host W) where
  get-Holds : (P : Scheduler W → Type 0) (id : ℕ) → Holds P (get host id)
  unfolding get
  get-Holds P id s p =
      context-Holds P (find? (λ (j : Job). j.id == id) s.store.jobs) job_not_found s p

  -- A property of the state that each operation keeps, whatever its result.
  pub record KeptBy (platform : Platform W) (describe : Error → Text) (P : Scheduler W → Type 0)
      : Type 0 where
    pub moved : (s : Scheduler W) (w : W) → P s → P (record s { world = w })
    pub refreshed : (health : Health) (s : Scheduler W) → P s → P (refresh host platform health s)
    pub submitted : (spec : Submission) (owner : Owner) → Holds P (submit host spec owner)
    pub cancelled : (id : ℕ) → Holds P (cancel host id)
    pub excluded : (ids : List ℕ) (b : Bool) → Holds {W = W} P (set_devices_excluded ids b)
    pub ticked : Holds P (tick host describe)
    pub cleaned : (time : ℕ) → Holds P (cleanup host time)

  module _ (platform : Platform W) (describe : Error → Text) (P : Scheduler W → Type 0)
      (kept : KeptBy platform describe P) where
    read_log-eq :
        (id offset : ℕ) (s : Scheduler W)
        → (read_log host platform id offset s).1
          ≡ record s { world = (read_log host platform id offset s).1.world }
    unfolding read_log
    read_log-eq id offset s = ground arith

    read_log-Kept : (id offset : ℕ) → Holds P (read_log host platform id offset)
    read_log-Kept id offset s v = rw (read_log-eq id offset s) (kept.moved s _ v)

    outside-Kept : {A : Type 0} (call : W → Result Error A × W) → Holds P (outside call)
    outside-Kept call s v = kept.moved s (call s.world).1 v

    change_devices-Kept :
        (euid uid : ℕ) (ids : List ℕ) (excluded : Bool)
        → Holds {W = W} P (change_devices euid uid ids excluded)
    unfolding change_devices
    change_devices-Kept euid uid ids excluded =
        >>=-Holds {B = Response} P (ensure ((uid == 0) || uid == euid) only_administrator_devices) _
          (ensure-Holds P ((uid == 0) || uid == euid) only_administrator_devices)
          (λ _.
            >>=-Holds {B = Response} P (ensure (not (is_empty ids)) no_device_ids) _
              (ensure-Holds P (not (is_empty ids)) no_device_ids)
              (λ _.
                >>=-Holds {B = Response} P (set_devices_excluded ids excluded) _
                  (kept.excluded ids excluded) (λ _ s v. v)))

    -- A request about one job.
    owned-Kept :
        {A : Type 0} (uid id : ℕ) (k : Job → Scheduler W → Result Error A × Scheduler W)
        → ((j : Job) → Holds P (k j))
        → Holds P (do j ← get host id; authorize uid j.owner; k j)
    owned-Kept uid id k h =
        >>=-Holds P (get host id) _ (get-Holds P id)
          (λ j. >>=-Holds P (authorize uid j.owner) _ (authorize-Holds P uid j.owner) (λ _. h j))

    check_stop-Kept : (uid : ℕ) → Holds {W = W} P (check_stop platform.geteuid uid)
    unfolding check_stop
    check_stop-Kept uid =
        ensure-Holds P ((uid == 0) || uid == platform.geteuid) only_administrator_stops

    check_idle-Kept : Holds {W = W} P check_idle
    unfolding check_idle
    check_idle-Kept s v =
        ensure-Holds P (is_empty (running_ids s)) (jobs_are_running (running_ids s)) s v

    pub handle-Kept :
        (uid gid : ℕ) (request : Request) (s : Scheduler W)
        → P s
        → P (handle host platform uid gid request s).1
    unfolding handle
    handle-Kept uid gid (Request.submit spec) =
        let own : Bool = (platform.geteuid == 0) || uid == platform.geteuid in
        >>=-Holds {B = Response} P (ensure own only_root_runs_for_others) _
          (ensure-Holds P own only_root_runs_for_others)
          (λ _.
            >>=-Holds {B = Response} P (outside (platform.account uid gid)) _
              (outside-Kept (platform.account uid gid))
              (λ owner.
                >>=-Holds {B = Response} P (submit host spec owner) _ (kept.submitted spec owner)
                  (λ _ s v. v)))
    handle-Kept uid gid Request.queue = λ s v. v
    handle-Kept uid gid (Request.get id) = owned-Kept uid id _ (λ j s v. v)
    handle-Kept uid gid (Request.cancel id) =
        owned-Kept uid id _ (λ j. >>=-Holds P (cancel host id) _ (kept.cancelled id) (λ _ s v. v))
    handle-Kept uid gid (Request.log id offset) = owned-Kept uid id _ (λ j. read_log-Kept id offset)
    handle-Kept uid gid Request.info = λ s v. v
    handle-Kept uid gid (Request.exclude ids) = change_devices-Kept platform.geteuid uid ids true
    handle-Kept uid gid (Request.include ids) = change_devices-Kept platform.geteuid uid ids false
    handle-Kept uid gid Request.stop =
        >>=-Holds P (check_stop platform.geteuid uid) _ (check_stop-Kept uid) (λ _ s v. v)
    handle-Kept uid gid Request.restart =
        >>=-Holds P (check_stop platform.geteuid uid) _ (check_stop-Kept uid)
          (λ _. >>=-Holds P check_idle _ check_idle-Kept (λ _ s v. v))

    serve_clients-Kept :
        (n : ℕ) (arrivals : List Arrival)
        → Holds P (serve_clients host platform describe n arrivals)
    unfolding serve_clients
    serve_clients-Kept zero arrivals s v = v
    serve_clients-Kept (suc n) [] s v = v
    serve_clients-Kept (suc n) (accept_failed e ∷ arrivals) s v = v
    serve_clients-Kept (suc n) (turned_away ∷ arrivals) s v = serve_clients-Kept n arrivals s v
    serve_clients-Kept (suc n) (client uid gid request ∷ arrivals) s v =
        let (r, s') = handle host platform uid gid request s in
        elim (Bool-cases (is_stop request && is_ok (respond host platform describe r))) [
          | inl y ↦ rw y (handle-Kept uid gid request s v)
          | inr next ↦ rw next (serve_clients-Kept n arrivals s' (handle-Kept uid gid request s v))
        ]

    refreshed-Kept :
        (health : Option Health)
        → Holds {A = Unit {0}} P
            (modify (elim health [ none ↦ λ s. s | some h ↦ refresh host platform h ]))
    refreshed-Kept none s v = v
    refreshed-Kept (some h) s v = kept.refreshed h s v

    cleaned-Kept :
        (clean : Bool)
        → Holds {A = Unit {0}} P (modify (λ s. if clean then clean_up host platform s else s))
    cleaned-Kept true s v =
        let (time, w) = host.now s.world in
        kept.cleaned time (record s { world = w }) (kept.moved s w v)
    cleaned-Kept false s v = v

    run_tasks-Kept :
        (health : Option Health) (clean : Bool)
        → Holds P (run_tasks host platform describe health clean)
    unfolding run_tasks
    run_tasks-Kept health clean s v =
        >>=-Holds {B = Bool} P (tick host describe) _ (kept.ticked)
          (λ _ t u. cleaned-Kept clean t u) _ (refreshed-Kept health s v)

    stopped_or_run-Kept :
        (health : Option Health) (clean stopped : Bool)
        → Holds P (if stopped then pure true else run_tasks host platform describe health clean)
    stopped_or_run-Kept health clean true s v = v
    stopped_or_run-Kept health clean false s v = run_tasks-Kept health clean s v

    pub turn-Kept :
        (arrivals : List Arrival) (health : Option Health) (clean : Bool) (s : Scheduler W)
        → P s
        → P (turn host platform describe arrivals health clean s).1
    unfolding turn
    turn-Kept arrivals health clean =
        >>=-Holds {A = Bool} {B = Bool} P (serve_clients host platform describe 16 arrivals) _
          (serve_clients-Kept 16 arrivals) (stopped_or_run-Kept health clean)
