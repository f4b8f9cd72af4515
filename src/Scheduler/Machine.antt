-- ===== src/Scheduler/Machine.antt =====
-- src/scheduler.rs, the struct and what its methods call outside of it: the trait `Executor` of
-- src/executor.rs, the clock, the file system and serde_json.
use xlurm.Base.{
  ℕ, Option, List, [], ltb, if◌then◌else◌, nat_eq, ◌==◌, option_eq, Text, text_eq, find?, ◌>>=◌,
  ◌>>◌, pure, ensure, context, gets, Result, ok, int_eq,
}
use xlurm.Model.{kind_eq, state_eq, empty_store, Device, Outcome, Job, Store, Status}
use xlurm.Model.Errors.{Error, max_running_zero, job_not_found}
use xlurm.Storage.{state_path, write_json, read_json, FileSystem, Json}

-- `trait Executor`
pub record Executor (W : Type 0) : Type 0 where
  pub start : Job → W → Result Error (Unit {0}) × W
  pub poll : ℕ → W → Result Error (Option Outcome) × W
  pub cancel : ℕ → W → Result Error (Unit {0}) × W

pub record Host (W : Type 0) : Type 0 where
  pub fs : FileSystem W
  pub executor : Executor W
  pub store_json : Json Store
  pub home : Text
  pub now : W → ℕ × W

-- `Inventory`, less the handles of its drivers. A map is a list of pairs, the newest first.
pub record Inventory : Type 0 where
  pub devices : List Device
  pub status : List (Text × Status)
  pub monitoring_errors : List (Text × Text)

-- `Scheduler`. `world` is what `Host` acts on.
pub record Scheduler (W : Type 0) : Type 0 where
  pub store : Store
  pub inventory : Inventory
  pub max_running : ℕ
  pub excluded_devices : List Text
  pub world : W

module _ {W : Type 0} where
  abbrev pub with_jobs : Scheduler W → List Job → Scheduler W
  with_jobs s jobs = record s { store = record { next_id = s.store.next_id; jobs = jobs } }

  -- A call of the outside world.
  abbrev pub outside :
      {A : Type 0} → (W → Result Error A × W) → Scheduler W → Result Error A × Scheduler W
  outside call s = let (r, w) = call s.world in (r, record s { world = w })

  module _ (host : Host W) where
    unfoldable pub save : Scheduler W → Result Error (Unit {0}) × Scheduler W
    save s = outside (write_json host.fs host.store_json (state_path host.home) s.store) s

    -- `now()`
    abbrev pub clock : Scheduler W → Result Error ℕ × Scheduler W
    clock = outside (λ w. let (time, w') = host.now w in (ok time, w'))

    -- `Scheduler::new`
    unfoldable pub new : Inventory → ℕ → W → Result Error (Scheduler W) × W
    new inventory max_running = do
      ensure (ltb 0 max_running) max_running_zero
      there ← gets (host.fs.exists (state_path host.home))
      store ←
          if there
          then read_json host.fs host.store_json (state_path host.home)
          else pure empty_store
      gets (λ w. record {
        store = store;
        inventory = inventory;
        max_running = max_running;
        excluded_devices = [];
        world = w;
      })

    -- `Scheduler::get`
    unfoldable pub get : ℕ → Scheduler W → Result Error Job × Scheduler W
    get id s = context (find? (λ (j : Job). j.id == id) s.store.jobs) job_not_found s
