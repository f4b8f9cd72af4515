-- ===== src/Daemon.antt =====
-- src/daemon.rs and `authorize` of src/auth.rs: requests of clients, and the daemon's loop.
-- The kernel's answers about a client and the system calls are parameters: `Platform`.
pub mod Access
pub mod Kept
pub mod Ledger
pub mod Turns
use xlurm.Base.{
  ℕ, zero, suc, ◌+◌, ◌*◌, Bool, true, false, not, ◌&&◌, ◌||◌, Option, none, some, List, [], ◌∷◌,
  map, if◌then◌else◌, nat_eq, ◌==◌, option_eq, Text, text, text_eq, length, is_empty, filter, ◌>>=◌,
  ◌>>◌, pure, ensure, gets, modify, Result, ok, err, int_eq,
}
use xlurm.Model.{kind_eq, state_eq, summary_of, Owner, Job, Status}
use xlurm.Model.Errors.{
  Error, permission_denied, only_root_runs_for_others, only_administrator_devices,
  only_administrator_stops, no_device_ids, jobs_are_running,
}
use xlurm.Model.Wire.{Request, Response}
use xlurm.Storage.{job_path}
use xlurm.Scheduler.Machine.{outside, get, Host, Scheduler}
use xlurm.Scheduler.Submit.{submit}
use xlurm.Scheduler.Exclude.{set_devices_excluded, info}
use xlurm.Scheduler.Tick.{is_running, cancel, tick}
use xlurm.Scheduler.Cleanup.{cleanup}

-- `File::open`, with `ErrorKind::NotFound` apart from the other errors.
pub data Opening : Type 0 where
  opened not_found : Opening
  not_opened : Error → Opening

pub record Platform (W : Type 0) : Type 0 where
  pub geteuid : ℕ
  -- `auth::account`, by `getpwuid_r`.
  pub account : (uid gid : ℕ) → W → Result Error Owner × W
  pub open_file : (path : Text) → W → Opening × W
  -- `seek`, then `take(limit).read_to_end`.
  pub read_at : (path : Text) (offset limit : ℕ) → W → Result Error (List ℕ) × W

-- What `Inventory::refresh` replaces.
pub record Health : Type 0 where
  pub status : List (Text × Status)
  pub monitoring_errors : List (Text × Text)

-- A client that `accept` may return: its identity by the kernel and its request, unless one of them
-- cannot be had.
pub data Arrival : Type 0 where
  client : (uid gid : ℕ) → Request → Arrival
  turned_away : Arrival
  accept_failed : Error → Arrival

abbrev pub is_stop : Request → Bool
is_stop Request.stop = true
is_stop Request.restart = true
is_stop _ = false

abbrev pub is_ok : Response → Bool
is_ok Response.ok = true
is_ok _ = false

module _ {W : Type 0} where
  -- `auth::authorize`
  unfoldable pub authorize : ℕ → Owner → Scheduler W → Result Error (Unit {0}) × Scheduler W
  authorize uid owner =
      ensure ((uid == 0) || uid == owner.uid) (permission_denied owner.name owner.uid)

  -- What both `Exclude` and `Include` do, under their common checks.
  unfoldable pub change_devices :
      ℕ → ℕ → List ℕ → Bool → Scheduler W → Result Error Response × Scheduler W
  unfolding set_devices_excluded
  change_devices euid uid ids excluded = do
    ensure ((uid == 0) || uid == euid) only_administrator_devices
    ensure (not (is_empty ids)) no_device_ids
    set_devices_excluded ids excluded
    pure Response.ok

  abbrev pub running_ids : Scheduler W → List ℕ
  running_ids s = map (λ (j : Job). j.id) (filter is_running s.store.jobs)

  unfoldable pub check_stop : ℕ → ℕ → Scheduler W → Result Error (Unit {0}) × Scheduler W
  check_stop euid uid = ensure ((uid == 0) || uid == euid) only_administrator_stops

  unfoldable pub check_idle : Scheduler W → Result Error (Unit {0}) × Scheduler W
  check_idle s = ensure (is_empty (running_ids s)) (jobs_are_running (running_ids s)) s

  module _ (host : Host W) (platform : Platform W) where
    open platform use {geteuid}

    -- The branch `Request::Log`, after its checks.
    unfoldable pub read_log : ℕ → ℕ → Scheduler W → Result Error Response × Scheduler W
    unfolding job_path
    read_log id offset s =
        let path = job_path host.home id (text "log") in
        let (opening, w) = platform.open_file path s.world in
        let (r, w') = platform.read_at path offset (64 * 1024) w in
        elim opening [
          | not_opened e ↦ (err e, record s { world = w })
          | not_found ↦ (ok (Response.log [] offset), record s { world = w })
          | opened ↦ elim r [
            | err e ↦ (err e, record s { world = w' })
            | ok bytes ↦ (ok (Response.log bytes (offset + length bytes)), record s { world = w' })
          ]
        ]

    -- `handle`
    unfoldable pub handle : ℕ → ℕ → Request → Scheduler W → Result Error Response × Scheduler W
    unfolding summary_of
    handle uid gid (Request.submit spec) = do
      ensure ((geteuid == 0) || uid == geteuid) only_root_runs_for_others
      owner ← outside (platform.account uid gid)
      j ← submit host spec owner
      pure (Response.job j)
    handle uid gid Request.queue = gets (λ s. Response.queue (map summary_of s.store.jobs))
    handle uid gid (Request.get id) = do
      j ← get host id
      authorize uid j.owner
      pure (Response.job j)
    handle uid gid (Request.cancel id) = do
      j ← get host id
      authorize uid j.owner
      cancel host id
      pure Response.ok
    handle uid gid (Request.log id offset) = do
      j ← get host id
      authorize uid j.owner
      read_log id offset
    handle uid gid Request.info = gets (λ s. Response.info (info s))
    handle uid gid (Request.exclude ids) = change_devices geteuid uid ids true
    handle uid gid (Request.include ids) = change_devices geteuid uid ids false
    handle uid gid Request.stop = do check_stop geteuid uid; pure Response.ok
    handle uid gid Request.restart = do check_stop geteuid uid; check_idle; pure Response.ok

    -- The response to a client: an error becomes its text.
    abbrev pub respond : (Error → Text) → Result Error Response → Response
    respond describe (ok r) = r
    respond describe (err e) = Response.error (describe e)

    -- The inner loop of `serve`, over what `accept` returns: at most `n` clients, and `true` when
    -- one has stopped the daemon.
    unfoldable pub serve_clients :
        (Error → Text) → ℕ → List Arrival → Scheduler W → Result Error Bool × Scheduler W
    unfolding handle
    serve_clients describe zero arrivals s = (ok false, s)
    serve_clients describe (suc n) [] s = (ok false, s)
    serve_clients describe (suc n) (accept_failed e ∷ arrivals) s = (err e, s)
    serve_clients describe (suc n) (turned_away ∷ arrivals) s = serve_clients describe n arrivals s
    serve_clients describe (suc n) (client uid gid request ∷ arrivals) s =
        let (r, s') = handle uid gid request s in
        let rest = serve_clients describe n arrivals s' in
        if is_stop request && is_ok (respond describe r) then (ok true, s') else rest

    -- The clean-up of a turn: an error is printed only.
    abbrev pub clean_up : Scheduler W → Scheduler W
    clean_up s = let (time, w) = host.now s.world in (cleanup host time (record s { world = w })).1

    abbrev pub refresh : Health → Scheduler W → Scheduler W
    refresh health s = record s {
      inventory = record {
        devices = s.inventory.devices;
        status = health.status;
        monitoring_errors = health.monitoring_errors;
      };
    }

    -- What a round does after its clients: a refresh may be due, with what it finds, and a clean-up
    -- may be due.
    unfoldable pub run_tasks :
        (Error → Text) → Option Health → Bool → Scheduler W → Result Error Bool × Scheduler W
    run_tasks describe health clean = do
      modify (elim health [ none ↦ λ s. s | some h ↦ refresh h ])
      tick host describe
      modify (λ s. if clean then clean_up s else s)
      pure false

    -- One round of the outer loop of `serve`; `true` if it has stopped.
    unfoldable pub turn :
        (Error → Text)
        → List Arrival
        → Option Health
        → Bool
        → Scheduler W
        → Result Error Bool × Scheduler W
    turn describe arrivals health clean = do
      stopped ← serve_clients describe 16 arrivals
      if stopped then pure true else run_tasks describe health clean
