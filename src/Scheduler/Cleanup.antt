-- ===== src/Scheduler/Cleanup.antt =====
-- src/scheduler.rs, `cleanup`: jobs that ended long ago are forgotten, their files first.
pub mod Retained
pub mod Garbage
use xlurm.Base.{
  ℕ, ◌-◌, ◌*◌, ◌^◌, Bool, true, false, not, ◌&&◌, ◌||◌, Option, none, some, List, [], ◌∷◌, map, leb,
  if◌then◌else◌, nat_eq, ◌==◌, option_eq, Text, text, text_eq, is_empty, filter, contains, ◌>>=◌,
  ◌>>◌, modify, Result, ok, err, parse, int_eq,
}
use xlurm.Model.{kind_eq, state_eq, terminal, Job, Store}
use xlurm.Model.Errors.{Error}
use xlurm.Storage.{
  join, state_path, jobs_path, write_json, removed, missing, refused, Entry, named, unnamed,
  unreadable,
}
use xlurm.Scheduler.Machine.{outside, Host, Scheduler}

-- `HISTORY_RETENTION_SECS`
abbrev pub history_retention_secs : ℕ
history_retention_secs = 7 * 24 * 60 * 60

-- `saturating_sub` is the subtraction of natural numbers.
unfoldable pub is_expired : ℕ → Job → Bool
is_expired timestamp j = terminal j.state && elim j.result [
  | none ↦ false
  | some o ↦ leb history_retention_secs (timestamp - o.finished_at)
]

unfoldable pub expired_ids : ℕ → List Job → List ℕ
unfolding is_expired
expired_ids timestamp jobs = map (λ (j : Job). j.id) (filter (is_expired timestamp) jobs)

-- `str::split_once('.')`
unfoldable pub split_once : ℕ → Text → Option (Text × Text)
split_once c [] = none
split_once c (x ∷ xs) =
    if x == c
    then some ([], xs)
    else elim (split_once c xs) [ none ↦ none | some (a, b) ↦ some (x ∷ a, b) ]

-- `str::strip_prefix`
unfoldable pub strip_prefix : Text → Text → Option Text
strip_prefix [] xs = some xs
strip_prefix (p ∷ ps) [] = none
strip_prefix (p ∷ ps) (x ∷ xs) = if p == x then strip_prefix ps xs else none

abbrev pub job_extensions : List Text
job_extensions = text "json" ∷ text "log" ∷ text "lock" ∷ text "result" ∷ text "cancel" ∷ []

is_temporary : Text → Bool
unfolding strip_prefix parse
is_temporary extension = elim (strip_prefix (text "tmp.") extension) [
  | none ↦ false
  | some pid ↦ elim (parse (2 ^ 32) pid) [ none ↦ false | some n ↦ true ]
]

unfoldable pub is_job_file : Text → Bool
unfolding is_temporary
is_job_file extension = contains job_extensions extension || is_temporary extension

-- The job that a file of the `jobs` directory belongs to, and its extension.
unfoldable pub file_job : Text → Option (ℕ × Text)
unfolding split_once parse
file_job name = elim (split_once b'.' name) [
  | none ↦ none
  | some (id, extension) ↦ elim (parse (2 ^ 64) id) [ none ↦ none | some n ↦ some (n, extension) ]
]

-- Whether `cleanup` deletes the file.
unfoldable pub is_garbage : List ℕ → Text → Bool
unfolding file_job is_job_file
is_garbage expired name = elim (file_job name) [
  | none ↦ false
  | some (id, extension) ↦ contains expired id && is_job_file extension
]

abbrev pub retained : List ℕ → Store → Store
retained expired store = record {
  next_id = store.next_id;
  jobs = filter (λ j. not (contains expired j.id)) store.jobs;
}

module _ {W : Type 0} (host : Host W) where
  open host use {fs}

  -- A file that is gone already is no error.
  unfoldable pub delete : Text → W → Result Error (Unit {0}) × W
  delete name w =
      let (r, w') = fs.remove_file (join (jobs_path host.home) name) w in
      elim r [ removed ↦ (ok tt, w') | missing ↦ (ok tt, w') | refused e ↦ (err e, w') ]

  unfoldable pub delete_files : List ℕ → List Entry → W → Result Error (Unit {0}) × W
  unfolding delete
  delete_files expired [] w = (ok tt, w)
  delete_files expired (unreadable e ∷ entries) w = (err e, w)
  delete_files expired (unnamed ∷ entries) w = delete_files expired entries w
  delete_files expired (named name ∷ entries) w =
      let (r, w') = if is_garbage expired name then delete name w else (ok tt, w) in
      elim r [ err e ↦ (err e, w') | ok _ ↦ delete_files expired entries w' ]

  -- The files go first, then the new queue is saved, and only then is it the scheduler's.
  unfoldable pub forget : List ℕ → Scheduler W → Result Error (Unit {0}) × Scheduler W
  forget expired s =
      outside
        (do
          entries ← fs.read_dir (jobs_path host.home)
          delete_files expired entries
          write_json fs host.store_json (state_path host.home) (retained expired s.store))
        s

  unfoldable pub cleanup : ℕ → Scheduler W → Result Error (Unit {0}) × Scheduler W
  unfolding expired_ids forget
  cleanup timestamp s =
      let expired = expired_ids timestamp s.store.jobs in
      if is_empty expired
      then (ok tt, s)
      else (do forget expired; modify (λ t. record t { store = retained expired t.store })) s
