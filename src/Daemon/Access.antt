-- ===== src/Daemon/Access.antt =====
-- Who may do what: src/daemon.rs, `handle`, and src/auth.rs, `authorize`.
use xlurm.Scheduler.Submit.Effect.{submit-owner}
use xlurm.Scheduler.Submit.{submit}
use xlurm.Base.{
  ℕ, ◌≡◌, refl, sym, ap, ◌∙◌, ◌≢◌, ◌↔◌, ◌⊎◌, inl, inr, Bool, true, false, ◌||◌, Option, none, some,
  List, [], ◌∷◌, map, arith, nat_beq_iff, Bool-cases, nat_eq, ◌==◌, option_eq, text_eq, is_empty,
  filter, find?, All, ◌>>=◌, ◌>>◌, ensure-ok, >>=-ok, Result, ok, err, int_eq,
}
use xlurm.Model.{kind_eq, state_beq_iff, state_eq, Submission, Owner, Job, running}
use xlurm.Model.Errors.{
  Error, permission_denied, only_root_runs_for_others, only_administrator_devices,
  only_administrator_stops, jobs_are_running,
}
use xlurm.Model.Wire.{Request, Response}
use xlurm.Scheduler.Machine.{outside, get, Host, Scheduler}
use xlurm.Scheduler.Tick.{is_running}
use xlurm.Daemon.{authorize, change_devices, running_ids, check_stop, check_idle, handle, Platform}

-- The job that a request is about.
abbrev pub subject : Request → Option ℕ
subject (Request.get id) = some id
subject (Request.cancel id) = some id
subject (Request.log id offset) = some id
subject _ = none

-- The requests that only an administrator may make.
abbrev pub is_administrative : Request → Bool
is_administrative Request.stop = true
is_administrative Request.restart = true
is_administrative (Request.exclude ids) = true
is_administrative (Request.include ids) = true
is_administrative _ = false

admin_iff : (uid euid : ℕ) → ((uid == 0) || uid == euid) ≡ true → (uid ≡ 0) ⊎ (uid ≡ euid)
admin_iff uid euid e = elim (Bool-cases (uid == 0)) [
  | inl y ↦ inl ((nat_beq_iff uid 0).0 y)
  | inr n ↦ inr ((nat_beq_iff uid euid).0 (ground arith))
]

is_admin : (uid euid : ℕ) → (uid ≡ 0) ⊎ (uid ≡ euid) → ((uid == 0) || uid == euid) ≡ true
is_admin uid euid (inl e) = rw e refl
is_admin uid euid (inr e) = ground (arith, (nat_beq_iff uid euid).1 e)

owner_iff : (euid uid : ℕ) → ((euid == 0) || uid == euid) ≡ true → (euid ≡ 0) ⊎ (uid ≡ euid)
owner_iff euid uid e = elim (Bool-cases (euid == 0)) [
  | inl y ↦ inl ((nat_beq_iff euid 0).0 y)
  | inr n ↦ inr ((nat_beq_iff uid euid).0 (ground arith))
]

running_ids_iff :
    (jobs : List Job)
    → (is_empty (map (λ (j : Job). j.id) (filter is_running jobs)) ≡ true)
      ↔ All (λ (j : Job). j.state ≢ running) jobs
running_ids_iff [] = ((λ _. tt), (λ _. refl))
running_ids_iff (j ∷ jobs) = elim (Bool-cases (is_running j)) [
  | inl y ↦
      ((λ e. absurd (ground arith)), (λ h. absurd (h.0 ((state_beq_iff j.state running).0 y))))
  | inr n ↦ (
    (λ e. (
      (λ r. absurd (ground (arith, (state_beq_iff j.state running).1 r))),
      (running_ids_iff jobs).0 (ground arith),
    )),
    (λ h. ground (arith, (running_ids_iff jobs).1 h.1)),
  )
]

module _ {W : Type 0} where
  authorize-denied :
      (uid : ℕ) (owner : Owner) (s : Scheduler W)
      → uid ≢ 0
      → uid ≢ owner.uid
      → authorize uid owner s ≡ (err (permission_denied owner.name owner.uid), s)
  unfolding authorize
  authorize-denied uid owner s h k =
      let test : ((uid == 0) || uid == owner.uid) ≡ false =
        ground (arith, h, k, nat_beq_iff uid 0, nat_beq_iff uid owner.uid) in
      rw test refl

  module _ (host : Host W) (platform : Platform W) where
    get-found :
        (id : ℕ) (s : Scheduler W) (j : Job)
        → find? (λ (x : Job). x.id == id) s.store.jobs ≡ some j
        → get host id s ≡ (ok j, s)
    unfolding get
    get-found id s j e = rw e refl

    denied :
        {A : Type 0} (uid id : ℕ) (s : Scheduler W) (j : Job)
        (k : Job → Scheduler W → Result Error A × Scheduler W)
        → find? (λ (x : Job). x.id == id) s.store.jobs ≡ some j
        → uid ≢ 0
        → uid ≢ j.owner.uid
        → (do found ← get host id; authorize uid found.owner; k found) s
          ≡ (err (permission_denied j.owner.name j.owner.uid), s)
    denied uid id s j k f h o = rw (get-found id s j f, authorize-denied uid j.owner s h o) refl

    -- A user who is neither root nor the job's owner gets no look at a job or its log and cannot
    -- cancel it: the request fails, and nothing has been called or changed.
    pub handle-denied :
        (uid gid id : ℕ) (request : Request) (s : Scheduler W) (j : Job)
        → subject request ≡ some id
        → find? (λ (x : Job). x.id == id) s.store.jobs ≡ some j
        → uid ≢ 0
        → uid ≢ j.owner.uid
        → handle host platform uid gid request s
          ≡ (err (permission_denied j.owner.name j.owner.uid), s)
    unfolding handle
    handle-denied uid gid id (Request.get i) s j e f h o =
        let same : id ≡ i = cc in denied uid i s j _ (rw same at f) h o
    handle-denied uid gid id (Request.cancel i) s j e f h o =
        let same : id ≡ i = cc in denied uid i s j _ (rw same at f) h o
    handle-denied uid gid id (Request.log i offset) s j e f h o =
        let same : id ≡ i = cc in denied uid i s j _ (rw same at f) h o
    handle-denied uid gid id (Request.submit spec) s j e f h o = absurd (cc)
    handle-denied uid gid id Request.queue s j e f h o = absurd (cc)
    handle-denied uid gid id Request.info s j e f h o = absurd (cc)
    handle-denied uid gid id Request.stop s j e f h o = absurd (cc)
    handle-denied uid gid id Request.restart s j e f h o = absurd (cc)
    handle-denied uid gid id (Request.exclude ids) s j e f h o = absurd (cc)
    handle-denied uid gid id (Request.include ids) s j e f h o = absurd (cc)

    not_admin :
        (uid : ℕ)
        → uid ≢ 0
        → uid ≢ platform.geteuid
        → ((uid == 0) || uid == platform.geteuid) ≡ false
    not_admin uid h k = ground (arith, h, k, nat_beq_iff uid 0, nat_beq_iff uid platform.geteuid)

    abbrev pub IsRefused : Result Error Response × Scheduler W → Scheduler W → Type 0
    IsRefused r s = (x : Error) × (r ≡ (err x, s))

    -- A user who is neither root nor the daemon's own user can neither stop nor restart the daemon nor
    -- exclude or include devices: the request fails and changes nothing.
    pub handle-administrative :
        (uid gid : ℕ) (request : Request) (s : Scheduler W)
        → is_administrative request ≡ true
        → uid ≢ 0
        → uid ≢ platform.geteuid
        → IsRefused (handle host platform uid gid request s) s
    unfolding handle change_devices check_stop
    handle-administrative uid gid (Request.exclude ids) s e h k =
        (only_administrator_devices, rw (not_admin uid h k) refl)
    handle-administrative uid gid (Request.include ids) s e h k =
        (only_administrator_devices, rw (not_admin uid h k) refl)
    handle-administrative uid gid Request.stop s e h k =
        (only_administrator_stops, rw (not_admin uid h k) refl)
    handle-administrative uid gid Request.restart s e h k =
        (only_administrator_stops, rw (not_admin uid h k) refl)
    handle-administrative uid gid (Request.get i) s e h k = absurd (cc)
    handle-administrative uid gid (Request.cancel i) s e h k = absurd (cc)
    handle-administrative uid gid (Request.log i offset) s e h k = absurd (cc)
    handle-administrative uid gid (Request.submit spec) s e h k = absurd (cc)
    handle-administrative uid gid Request.queue s e h k = absurd (cc)
    handle-administrative uid gid Request.info s e h k = absurd (cc)

    -- The daemon agrees to restart exactly if an administrator asks and no job is running, and then
    -- too it has changed nothing.
    pub handle-restart :
        (uid gid : ℕ) (s : Scheduler W)
        → (handle host platform uid gid Request.restart s ≡ (ok Response.ok, s)) ↔ (
            ((uid ≡ 0) ⊎ (uid ≡ platform.geteuid))
            × All (λ (j : Job). j.state ≢ running) s.store.jobs)
    unfolding handle check_stop check_idle
    handle-restart uid gid s = (
      (λ h.
          let (admin, e1) =
            ensure-ok ((uid == 0) || uid == platform.geteuid) only_administrator_stops _ s
              (ap (λ r. r.0) h) in
          let (none_running, e2) =
            ensure-ok (is_empty (running_ids s)) (jobs_are_running (running_ids s)) _ s e1 in
          (admin_iff uid platform.geteuid admin, (running_ids_iff s.store.jobs).0 none_running)),
      (λ h. rw (is_admin uid platform.geteuid h.0, (running_ids_iff s.store.jobs).1 h.1) refl),
    )

    -- A job belongs to the account that the kernel names for the client, and a daemon that is not root
    -- takes jobs of its own user only.
    pub handle-owner :
        (uid gid : ℕ) (spec : Submission) (s : Scheduler W) (j : Job)
        → (handle host platform uid gid (Request.submit spec) s).0 ≡ ok (Response.job j)
        → ((platform.geteuid ≡ 0) ⊎ (uid ≡ platform.geteuid))
          × ((platform.account uid gid s.world).0 ≡ ok j.owner)
    unfolding handle
    handle-owner uid gid spec s j e =
        let (allowed, e1) =
          ensure-ok ((platform.geteuid == 0) || uid == platform.geteuid) only_root_runs_for_others _
            s e in
        let (owner, named, e2) = >>=-ok (outside (platform.account uid gid)) _ s e1 in
        let (k, taken, e3) =
          >>=-ok (submit host spec owner) _ (outside (platform.account uid gid) s).1 e2 in
        let same : k ≡ j = cc in
        (
          owner_iff platform.geteuid uid allowed,
          go owner named k same (submit-owner host spec owner _ k taken),
        )
      where
        go :
            (owner : Owner)
            → (outside (platform.account uid gid) s).0 ≡ ok owner
            → (k : Job) → k ≡ j
            → k.owner ≡ owner
            → (platform.account uid gid s.world).0 ≡ ok j.owner
        go owner named k same e = named ∙ ap ok (sym e ∙ ap (λ (x : Job). x.owner) same)
