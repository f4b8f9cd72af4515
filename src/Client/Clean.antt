-- ===== src/Client/Clean.antt =====
-- src/cli.rs, `clean`: the logs of a daemon that is stopped are removed.
pub mod Removed
use xlurm.Base.{
  ℕ, suc, ◌^◌, Bool, true, false, none, some, List, [], ◌∷◌, map, if◌then◌else◌, nat_eq, ◌==◌,
  option_eq, Text, text, text_eq, is_empty, filter, ◌>>=◌, ◌>>◌, pure, ensure, Result, ok, err,
  parse, int_eq,
}
use xlurm.Model.{kind_eq, state_eq, empty_store, Job, Store, running}
use xlurm.Model.Errors.{Error, daemon_running, cannot_clean_while_running}
use xlurm.Storage.{
  join, state_path, jobs_path, read_json, try_lock, FileSystem, Json, removed, missing, refused,
  Entry, named, unnamed, unreadable,
}
use xlurm.Storage.Trusted.{initialize, Directories}
use xlurm.Scheduler.Cleanup.{split_once}

-- `N.log`, for a number `N` of 64 bits.
unfoldable pub is_job_log : Text → Bool
unfolding split_once parse
is_job_log name = elim (split_once b'.' name) [
  | none ↦ false
  | some (id, extension) ↦ elim (parse (2 ^ 64) id) [
    | none ↦ false
    | some n ↦ extension == text "log"
  ]
]

abbrev pub ids_of_running : Store → List ℕ
ids_of_running store = map (λ (j : Job). j.id) (filter (λ (j : Job). j.state == running) store.jobs)

module _ {W : Type 0} (fs : FileSystem W) (directories : Directories W) (store_json : Json Store)
    (home : Text) where
  -- A file that may be missing already; `true` if it has been removed.
  unfoldable pub remove_if_there : Text → W → Result Error Bool × W
  remove_if_there path w =
      let (r, w') = fs.remove_file path w in
      elim r [ removed ↦ (ok true, w') | missing ↦ (ok false, w') | refused e ↦ (err e, w') ]

  -- The loop over the entries of the directory of jobs: how many logs have been removed.
  unfoldable pub remove_logs : List Entry → W → Result Error ℕ × W
  unfolding is_job_log remove_if_there join jobs_path
  remove_logs [] w = (ok 0, w)
  remove_logs (unreadable e ∷ entries) w = (err e, w)
  remove_logs (unnamed ∷ entries) w = remove_logs entries w
  remove_logs (named name ∷ entries) w =
      let others = remove_logs entries w in
      let one = (do
        gone ← remove_if_there (join (jobs_path home) name)
        rest ← remove_logs entries
        pure (if gone then suc rest else rest)) in
      if is_job_log name then one w else others

  -- The queue of the daemon that has been stopped, if there is one.
  unfoldable pub stored_queue : W → Result Error Store × W
  unfolding state_path
  stored_queue w =
      let read = read_json fs store_json (state_path home) w in
      if fs.exists (state_path home) w then read else (ok empty_store, w)

  -- The numbers of logs that have been removed: those of jobs, and whether the daemon's is one.
  unfoldable pub clean : W → Result Error (ℕ × Bool) × W
  unfolding remove_logs stored_queue remove_if_there initialize join jobs_path
  clean = do
    initialize directories home
    locked ← try_lock fs (join home (text "daemon.lock"))
    ensure locked daemon_running
    store ← stored_queue
    ensure (is_empty (ids_of_running store)) (cannot_clean_while_running (ids_of_running store))
    entries ← fs.read_dir (jobs_path home)
    logs ← remove_logs entries
    daemon_log ← remove_if_there (join home (text "daemon.log"))
    pure (logs, daemon_log)

  abbrev pub initialized : W → W
  initialized w = (initialize directories home w).1

  abbrev pub locked_by : W → W
  locked_by w = (try_lock fs (join home (text "daemon.lock")) (initialized w)).1
