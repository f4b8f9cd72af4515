-- ===== src/Samples/Hosts.antt =====
-- The theorems on devices, clients and workers applied to the sample machine.
use xlurm.Scheduler.Machine.{Inventory}
use xlurm.Base.{
  ℕ, ◌≡◌, refl, Bool, true, false, none, some, List, [], ◌∷◌, map, nat_eq, list_beq, option_eq,
  Text, text, text_eq, is_empty, All, Pairwise, Result, ok, err, to_string, int_eq,
}
use xlurm.Model.{
  kind_eq, kind_label, key, state_eq, terminal, summary_of, Submission, Outcome, Job, running,
  timed_out,
}
use xlurm.Model.Errors.{Error, system}
use xlurm.Storage.{join, jobs_path, file_name, job_path, try_lock, Json}
use xlurm.Scheduler.Tick.{failure}
use xlurm.Scheduler.Allocate.Devices.{IsKeyed}
use xlurm.Executor.{reap, wait_child, read_result, poll_locked, poll, Workers}
use xlurm.Executor.Release.{poll-locked}
use xlurm.Client.{submission_of, visible_queue_jobs, Resources}
use xlurm.Client.Shown.{visible_queue_jobs-active}
use xlurm.Device.{all_new, validate}
use xlurm.Device.Valid.{validate-IsKeyed}
use xlurm.Device.Discover.{discover, discover-automatic, Vendors, automatic}
use xlurm.Executor.Payload.{
  reason, terminated, watch, signals, payload_outcome, watch-IsReport, signals-left_alone, Exit,
  IsReport, Observation, exited, alive,
}
use xlurm.Samples.{
  Files, disk_fs, no_files, two_gpus, sample, describe_none, unknown_monitors, two_ids,
  idle_processes,
}

accepted : validate two_gpus ≡ ok two_gpus
unfolding validate all_new key kind_label list_beq
accepted = refl

validate-IsKeyed_example : (two_gpus ≡ two_gpus) × (is_empty two_gpus ≡ false) × IsKeyed two_gpus
validate-IsKeyed_example = validate-IsKeyed two_gpus two_gpus accepted

visible_queue_jobs-active_example :
    All
      (λ j. terminal j.state ≡ false)
      (visible_queue_jobs (map summary_of sample.store.jobs) false)
    × Pairwise
        (λ a b. b.state ≡ running → a.state ≡ running)
        (visible_queue_jobs (map summary_of sample.store.jobs) false)
visible_queue_jobs-active_example = visible_queue_jobs-active (map summary_of sample.store.jobs)

abbrev here : Files → Result Error Text × Files
here w = (ok (text "/home/alice"), w)

-- The machine of the sample has only GPUs of the IDs 0 and 1.
abbrev far_resources : Resources
far_resources = record two_ids { device_ids = 7 ∷ 8 ∷ [] }

abbrev far_submission : Submission
far_submission =
    submission_of far_resources (text "train" ∷ []) none (text "/home/alice") [] (some (7 ∷ 8 ∷ []))

abbrev job_json_of_sample : Json Job
job_json_of_sample = record { to_json = λ j. to_string j.id; from_json = λ t. none }

abbrev outcome_json_of_sample : Json Outcome
outcome_json_of_sample = record { to_json = λ o. []; from_json = λ t. none }

abbrev flag_json_of_sample : Json Bool
flag_json_of_sample = record { to_json = λ b. text "true"; from_json = λ t. some true }

abbrev clock_of_sample : Files → ℕ × Files
clock_of_sample w = (1000000, w)

abbrev one_worker : Workers Files
one_worker = record { children = 1 ∷ []; world = no_files }

abbrev disappeared : Outcome
disappeared = failure (text "executor worker disappeared without an exit result") 1000000

ended :
    (poll disk_fs idle_processes job_json_of_sample outcome_json_of_sample flag_json_of_sample
      clock_of_sample
      (text "/xlurm")
      1
      one_worker).0
    ≡ ok (some disappeared)
unfolding poll reap poll_locked wait_child read_result try_lock list_beq job_path jobs_path
    file_name join
ended = refl

poll-locked_example :
    (try_lock disk_fs
      (job_path (text "/xlurm") 1 (text "lock"))
      (reap disk_fs idle_processes job_json_of_sample outcome_json_of_sample flag_json_of_sample
        clock_of_sample
        (text "/xlurm")
        1
        one_worker).1.world).0
    ≡ ok true
poll-locked_example =
    poll-locked disk_fs idle_processes job_json_of_sample outcome_json_of_sample flag_json_of_sample
      clock_of_sample (text "/xlurm") 1 one_worker disappeared ended

abbrev no_vendors : Vendors Files
no_vendors = record {
  query_gpus = λ w. (ok (text "0, GPU-aa, A100\n"), w);
  load = λ kind w. (err (system (text "no library")), w);
  monitors = λ loaded. unknown_monitors;
}

discover-automatic_example :
    (inventory : Inventory) × ((discover no_vendors describe_none automatic no_files).0
      ≡ ok inventory)
discover-automatic_example = discover-automatic no_vendors describe_none no_files

abbrev killed : Exit
killed = record { code = none; signal = some 15 }

-- Two rounds before the payload is found to be over: its limit is met in the second.
abbrev rounds : List Observation
rounds = alive false 1 false ∷ alive false 5 false ∷ exited killed ∷ []

timed : watch (some 5) none rounds ≡ some (killed, some timed_out)
unfolding watch terminated reason
timed = refl

watch-IsReport_example : IsReport (some 5) (payload_outcome killed (some timed_out) 100)
watch-IsReport_example = watch-IsReport (some 5) rounds killed (some timed_out) 100 timed

signals-left_alone_example : signals none none rounds ≡ []
signals-left_alone_example = signals-left_alone rounds (refl, (refl, (tt, tt)))
