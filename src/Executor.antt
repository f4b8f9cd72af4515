-- ===== src/Executor.antt =====
-- src/executor.rs: the executor that starts a worker process for each job, and the lists of visible
-- devices. Processes are a parameter: `Processes`.
pub mod Release
pub mod Payload
use xlurm.Base.{
  ℕ, zero, suc, Bool, true, Option, none, some, List, [], ◌∷◌, map, if◌then◌else◌, nat_eq, ◌==◌,
  ◌!=◌, option_eq, Text, text, text_eq, length, filter, any, contains, ◌>>=◌, ◌>>◌, pure, throw,
  modify, Result, ok, to_string, int_eq,
}
use xlurm.Model.{kind_eq, state_eq, Device, Outcome, Job, Kind, nvidia, metax, ppu, hcu}
use xlurm.Model.Errors.{Error, worker_running}
use xlurm.Storage.{job_path, write_json, read_json, try_lock, FileSystem, Json}
use xlurm.Scheduler.Machine.{Executor}
use xlurm.Scheduler.Tick.{failure}
use xlurm.Client.{join_commas}

pub record Processes (W : Type 0) : Type 0 where
  -- Opens the log for appending.
  pub open_log : (path : Text) → W → Result Error (Unit {0}) × W
  -- Spawns the worker of a job, which inherits the lock.
  pub spawn : (id : ℕ) → W → Result Error (Unit {0}) × W
  -- `true` if the worker has exited.
  pub try_wait : (id : ℕ) → W → Result Error Bool × W
  pub wait : (id : ℕ) → W → Result Error (Unit {0}) × W
  -- Closes the lock file at the path.
  pub unlock : (path : Text) → W → W

-- `ProcessExecutor`: the jobs whose workers are its children, and the outside world.
pub record Workers (W : Type 0) : Type 0 where
  pub children : List ℕ
  pub world : W

module _ {W : Type 0} where
  abbrev pub on_world :
      {A : Type 0} → (W → Result Error A × W) → Workers W → Result Error A × Workers W
  on_world call s = let (r, w) = call s.world in (r, record s { world = w })

  abbrev pub is_child : ℕ → Workers W → Bool
  is_child id s = contains s.children id

  abbrev pub disown : ℕ → Workers W → Workers W
  disown id s = record s { children = filter (λ c. c != id) s.children }

  module _ (fs : FileSystem W) (processes : Processes W) (job_json : Json Job)
      (outcome_json : Json Outcome) (flag_json : Json Bool) (now : W → ℕ × W) (home : Text) where
    abbrev pub lock_path : ℕ → Text
    lock_path id = job_path home id (text "lock")

    -- `try_lock`; `some` is the lock.
    abbrev pub lock_job : ℕ → Workers W → Result Error Bool × Workers W
    lock_job id = on_world (try_lock fs (lock_path id))

    -- A run that ends closes the lock.
    abbrev pub unlocking :
        {A : Type 0}
        → ℕ
        → (Workers W → Result Error A × Workers W)
        → Workers W
        → Result Error A × Workers W
    unlocking id m s =
        let (r, s') = m s in (r, record s' { world = processes.unlock (lock_path id) s'.world })

    -- `start`, once the lock is held.
    unfoldable pub start_locked : Job → Workers W → Result Error (Unit {0}) × Workers W
    unfolding write_json job_path
    start_locked job = do
      on_world (write_json fs job_json (job_path home job.id (text "json")) job)
      on_world (processes.open_log (job_path home job.id (text "log")))
      on_world (processes.spawn job.id)
      modify (λ s. record s { children = job.id ∷ s.children })

    unfoldable pub start : Job → Workers W → Result Error (Unit {0}) × Workers W
    unfolding start_locked try_lock
    start job = do
      locked ← lock_job job.id
      if locked then unlocking job.id (start_locked job) else throw worker_running

    -- A child that has exited is no child any more.
    unfoldable pub reap : ℕ → Workers W → Result Error (Unit {0}) × Workers W
    reap id s =
        if is_child id s
        then (do
          exited ← on_world (processes.try_wait id)
          if exited then modify (disown id) else pure tt)
            s
        else (ok tt, s)

    unfoldable pub wait_child : ℕ → Workers W → Result Error (Unit {0}) × Workers W
    wait_child id s =
        if is_child id s
        then (do modify (disown id); on_world (processes.wait id)) s
        else (ok tt, s)

    unfoldable pub read_result : ℕ → Workers W → Result Error (Option Outcome) × Workers W
    unfolding read_json job_path
    read_result id s =
        let path = job_path home id (text "result") in
        if fs.exists path s.world
        then (do outcome ← on_world (read_json fs outcome_json path); pure (some outcome)) s
        else let (time, w) = now s.world in
          (
            ok (some (failure (text "executor worker disappeared without an exit result") time)),
            record s { world = w },
          )

    unfoldable pub poll_locked : ℕ → Workers W → Result Error (Option Outcome) × Workers W
    unfolding wait_child read_result
    poll_locked id = do wait_child id; read_result id

    unfoldable pub poll : ℕ → Workers W → Result Error (Option Outcome) × Workers W
    unfolding reap poll_locked try_lock
    poll id = do
      reap id
      locked ← lock_job id
      if locked then unlocking id (poll_locked id) else pure none

    unfoldable pub cancel : ℕ → Workers W → Result Error (Unit {0}) × Workers W
    unfolding write_json job_path
    cancel id = on_world (write_json fs flag_json (job_path home id (text "cancel")) true)

    -- `impl Executor for ProcessExecutor`
    abbrev pub process_executor : Executor (Workers W)
    process_executor = record { start = start; poll = poll; cancel = cancel }

-- `values.join(",")`, or `-1` for none.
abbrev pub listed : List Text → Text
listed [] = text "-1"
listed (v ∷ vs) = join_commas (v ∷ vs)

abbrev pub of_kind : Kind → List Device → List Device
of_kind kind devices = filter (λ d. d.kind == kind) devices

unfoldable pub visible : Job → Kind → Text
unfolding join_commas
visible job kind = listed (map (λ (d : Device). d.visible) (of_kind kind job.devices))

unfoldable pub visible_ids : Job → Kind → Text
unfolding join_commas to_string
visible_ids job kind = listed (map (λ (d : Device). to_string d.id) (of_kind kind job.devices))

-- `from, …, from + n - 1`
unfoldable pub range : ℕ → ℕ → List ℕ
range from zero = []
range from (suc n) = from ∷ range (suc from) n

unfoldable pub hcu_runtime_ids : Job → Text
unfolding join_commas to_string range
hcu_runtime_ids job = listed (map to_string (range 0 (length (of_kind hcu job.devices))))

abbrev pub has_kind : Kind → Job → Bool
has_kind kind job = any (λ (d : Device). d.kind == kind) job.devices

unfoldable pub visible_for_cuda : Job → Text
unfolding visible visible_ids hcu_runtime_ids
visible_for_cuda job =
    if has_kind metax job
    then visible_ids job metax
    else if has_kind ppu job
    then visible job ppu
    else if has_kind hcu job
    then hcu_runtime_ids job
    else visible job nvidia
