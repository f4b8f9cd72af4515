-- ===== src/Client.antt =====
-- src/cli.rs: what a client submits, and what `xqueue` shows. The parsing of arguments, the
-- environment and the working directory are given.
pub mod Agreement
pub mod Clean
pub mod Follow
pub mod Shown
pub mod Table
use xlurm.Base.{
  ℕ, ◌-◌, ◌/◌, ◌%◌, Bool, true, false, not, ◌||◌, Option, none, some, List, [], ◌∷◌, ◌++◌, map, ltb,
  if◌then◌else◌, nat_eq, ◌==◌, ◌!=◌, option_eq, Text, text, text_eq, length, is_empty, take, filter,
  all, distinct_len, ◌>>=◌, ◌>>◌, pure, ensure, Result, to_string, int_eq,
}
use xlurm.Model.{
  kind_eq, kind_label, state_eq, terminal, Device, Submission, JobSummary, Kind, pending, running,
}
use xlurm.Model.Errors.{
  Error, duplicate_excluded_ids, time_limit_zero, count_mismatch, duplicate_device_ids,
  exclusion_with_exact_ids,
}
use xlurm.Scheduler.Tick.{sort_by}

-- `Resources`, as far as `submission` reads it.
pub record Resources : Type 0 where
  pub name : Option Text
  pub gpus : Option ℕ
  pub device_ids : List ℕ
  pub exclude_device_ids : List ℕ
  pub device : Option Kind
  pub time_limit : Option ℕ

abbrev pub is_or_none : ℕ → Option ℕ → Bool
is_or_none n none = true
is_or_none n (some m) = m == n

abbrev pub first_word : List Text → Text
first_word [] = text "batch"
first_word (w ∷ ws) = w

abbrev pub or_else : {A : Type 0} → Option A → A → A
or_else none a = a
or_else (some b) a = b

abbrev pub is_none : {A : Type 0} → Option A → Bool
is_none none = true
is_none (some a) = false

abbrev pub count_of : Resources → Option (List ℕ) → ℕ
count_of resources none = or_else resources.gpus 1
count_of resources (some ids) = length ids

abbrev pub submission_of :
    Resources → List Text → Option Text → Text → List (Text × Text) → Option (List ℕ) → Submission
submission_of resources command script cwd env device_ids = record {
  command = command;
  cwd = cwd;
  env = env;
  name = or_else resources.name (first_word command);
  count = count_of resources device_ids;
  device_ids = device_ids;
  exclude_device_ids = resources.exclude_device_ids;
  kind = resources.device;
  time_limit = resources.time_limit;
  script = script;
}

module _ {S : Type 0} where
  -- The exact IDs, if some are given.
  unfoldable pub exact_ids : Resources → S → Result Error (Option (List ℕ)) × S
  exact_ids resources = if is_empty resources.device_ids then pure none else do
    ensure (distinct_len resources.device_ids == length resources.device_ids) duplicate_device_ids
    ensure (is_or_none (length resources.device_ids) resources.gpus) count_mismatch
    pure (some resources.device_ids)

  -- `submission`; `current_dir` may fail.
  unfoldable pub submission :
      (S → Result Error Text × S)
      → List (Text × Text)
      → Resources
      → List Text
      → Option Text
      → S
      → Result Error Submission × S
  submission current_dir env resources command script = do
    ensure (resources.time_limit != some 0) time_limit_zero
    ensure (distinct_len resources.exclude_device_ids == length resources.exclude_device_ids)
        duplicate_excluded_ids
    device_ids ← exact_ids resources
    ensure (is_none device_ids || is_empty resources.exclude_device_ids) exclusion_with_exact_ids
    cwd ← current_dir
    pure (submission_of resources command script cwd env device_ids)

abbrev pub default_queue_limit : ℕ
default_queue_limit = 100

-- A stable sort puts the running jobs first.
abbrev pub shown_before : JobSummary → JobSummary → Bool
shown_before a b = a.state == running || b.state != running

unfoldable pub reverse : List JobSummary → List JobSummary
reverse [] = []
reverse (j ∷ js) = reverse js ++ j ∷ []

unfoldable pub newest : List JobSummary → Bool → List JobSummary
unfolding reverse
newest jobs all =
    reverse (take default_queue_limit (filter (λ j. all || not (terminal j.state)) (reverse jobs)))

unfoldable pub visible_queue_jobs : List JobSummary → Bool → List JobSummary
unfolding newest sort_by
visible_queue_jobs jobs all =
    if all then newest jobs all else sort_by shown_before (newest jobs all)

-- `saturating_sub` is the subtraction of natural numbers.
unfoldable pub job_times : ℕ → Option ℕ → Option ℕ → ℕ → ℕ × Option ℕ
job_times submitted_at none finished_at timestamp =
    (or_else finished_at timestamp - submitted_at, none)
job_times submitted_at (some started_at) finished_at timestamp =
    (started_at - submitted_at, some (or_else finished_at timestamp - started_at))

-- `{:02}`
abbrev pub two_digits : ℕ → Text
two_digits n = if ltb n 10 then b'0' ∷ to_string n else to_string n

unfoldable pub format_duration : ℕ → Text
unfolding to_string
format_duration seconds =
    let days = seconds / 86400 in
    let hours = seconds % 86400 / 3600 in
    let minutes = seconds % 3600 / 60 in
    let clock =
      two_digits hours ++ b':' ∷ (two_digits minutes ++ b':' ∷ two_digits (seconds % 60)) in
    if ltb 0 days then to_string days ++ b'-' ∷ clock else clock

-- `v.join(",")`
unfoldable pub join_commas : List Text → Text
join_commas [] = []
join_commas (t ∷ []) = t
join_commas (t ∷ u ∷ ts) = t ++ b',' ∷ join_commas (u ∷ ts)

-- An ID joins the first group of its kind, or a new last one.
unfoldable pub add_to_group : Device → List (Kind × List ℕ) → List (Kind × List ℕ)
add_to_group d [] = (d.kind, d.id ∷ []) ∷ []
add_to_group d ((kind, ids) ∷ groups) =
    if kind == d.kind
    then (kind, ids ++ d.id ∷ []) ∷ groups
    else (kind, ids) ∷ add_to_group d groups

unfoldable pub group_devices : List Device → List (Kind × List ℕ) → List (Kind × List ℕ)
unfolding add_to_group
group_devices [] groups = groups
group_devices (d ∷ ds) groups = group_devices ds (add_to_group d groups)

abbrev pub bracketed : List ℕ → Text
bracketed ids = text ":[" ++ join_commas (map to_string ids) ++ text "]"

unfoldable pub device_names : List Device → Text
unfolding group_devices join_commas
device_names devices =
    if is_empty devices
    then text "-"
    else join_commas
        (map (λ (kind, ids). kind_label kind ++ bracketed ids) (group_devices devices []))

abbrev pub kind_or_auto : Option Kind → Text
kind_or_auto none = text "auto"
kind_or_auto (some kind) = kind_label kind

unfoldable pub queue_device_names : JobSummary → Text
unfolding device_names
queue_device_names job =
    if not (is_empty job.devices) || job.state != pending
    then device_names job.devices
    else if job.count == 0
    then text "cpu"
    else elim job.device_ids [
      | some ids ↦ kind_or_auto job.kind ++ bracketed ids
      | none ↦ kind_or_auto job.kind ++ b':' ∷ to_string job.count
    ]
