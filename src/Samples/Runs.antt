-- ===== src/Samples/Runs.antt =====
-- The theorems applied to the sample machine.
use xlurm.Scheduler.Machine.{save}
use xlurm.Base.{
  ℕ, ◌≤◌, ◌<◌, max, ◌≡◌, refl, ◌≢◌, ◌↔◌, ◌⊎◌, true, ◌&&◌, none, some, List, [], ◌∷◌, arith, nat_eq,
  list_beq, option_eq, text, text_eq, take, contains, All, Pairwise, ok, err, int_eq,
}
use xlurm.Model.{kind_eq, kind_label, key, state_eq, empty_store, Job, Kind, running}
use xlurm.Model.Errors.{permission_denied}
use xlurm.Model.Wire.{Request, Response}
use xlurm.Storage.{file_name, temporary, write_json}
use xlurm.Storage.Atomic.{IsReplaced, write_json-IsReplaced}
use xlurm.Scheduler.Submit.{
  checked_add, new_job, resolve, check_possible, number, check_request, admit, enqueue, submit,
}
use xlurm.Scheduler.Submit.Effect.{submit-Submitted, Submitted}
use xlurm.Scheduler.Tick.{pending_order, tick}
use xlurm.Scheduler.Tick.Cases.{Each}
use xlurm.Scheduler.Tick.Order.Complete.{pending_order-exact}
use xlurm.Scheduler.Tick.Order.{IsPendingAt, InOrder, pending_order-InOrder}
use xlurm.Scheduler.Tick.Capacity.{running_count, tick-within_limit}
use xlurm.Scheduler.Tick.Grants.{tick-Follows, Follows}
use xlurm.Scheduler.Cleanup.{is_job_file, is_garbage, cleanup}
use xlurm.Scheduler.Cleanup.Retained.{cleanup-CleanedUp, cleanup-Inv, CleanedUp}
use xlurm.Scheduler.Cleanup.Garbage.{is_garbage-file_name}
use xlurm.Scheduler.Allocate.{accepts, is_free, allocate_from, allocate}
use xlurm.Scheduler.Allocate.Devices.{IsKeyed, allocate-IsAllocation, IsAllocation}
use xlurm.Scheduler.Allocate.Complete.{
  allocate-IsKeyed, TooFew, allocate-eq-none_iff, allocate-within,
}
use xlurm.Scheduler.Exclusive.{Inv}
use xlurm.Scheduler.Exclusive.Ticks.{tick-Inv}
use xlurm.Daemon.{handle, turn, Arrival, client, turned_away}
use xlurm.Daemon.Access.{
  handle-denied, IsRefused, handle-administrative, handle-restart, handle-owner,
}
use xlurm.Daemon.Turns.{handle-Inv, turn-Inv, turn-bounded}
use xlurm.Samples.{
  disk_fs, store_json_of_sample, sample_host, no_files, gpu, alice, wants, first_job, two_gpus,
  sample, two_gpus-IsKeyed, sample-Inv, describe_none, sample_platform, disk,
}

tick-Inv_example : Inv (tick sample_host describe_none sample).1
tick-Inv_example = tick-Inv sample_host describe_none sample sample-Inv

abbrev arrivals : List Arrival
arrivals =
    client 1000 1000 (Request.submit (wants 1))
    ∷ turned_away
    ∷ client 1000 1000 (Request.cancel 2)
    ∷ []

turn-Inv_example : Inv (turn sample_host sample_platform describe_none arrivals none true sample).1
turn-Inv_example =
    turn-Inv sample_host sample_platform describe_none arrivals none true sample sample-Inv

turn-bounded_example :
    turn sample_host sample_platform describe_none arrivals none true sample
    ≡ turn sample_host sample_platform describe_none (take 16 arrivals) none true sample
turn-bounded_example =
    turn-bounded sample_host sample_platform describe_none arrivals none true sample

tick-Follows_example :
    Each (Follows sample) sample.store.jobs (tick sample_host describe_none sample).1.store.jobs
tick-Follows_example = tick-Follows sample sample_host describe_none

tick-within_limit_example :
    running_count (tick sample_host describe_none sample).1.store.jobs ≤ max 2 1
tick-within_limit_example = tick-within_limit sample_host describe_none sample

submit-Submitted_example :
    Submitted sample_host
      (wants 2)
      alice
      sample
      (submit sample_host (wants 2) alice sample).0
      (submit sample_host (wants 2) alice sample).1
submit-Submitted_example = submit-Submitted sample_host (wants 2) alice sample

handle-Inv_example : Inv (handle sample_host sample_platform 1000 1000 (Request.cancel 1) sample).1
handle-Inv_example =
    handle-Inv sample_host sample_platform 1000 1000 (Request.cancel 1) sample sample-Inv

handle-denied_example :
    handle sample_host sample_platform 1001 1001 (Request.cancel 1) sample
    ≡ (err (permission_denied (text "alice") 1000), sample)
handle-denied_example =
    handle-denied sample_host sample_platform 1001 1001 1 (Request.cancel 1) sample first_job refl
      refl (λ e. absurd (omega arith)) (λ e. absurd (omega arith))

handle-administrative_example :
    IsRefused sample_host sample_platform
      (handle sample_host sample_platform 1000 1000 (Request.exclude (1 ∷ [])) sample)
      sample
handle-administrative_example =
    handle-administrative sample_host sample_platform 1000 1000 (Request.exclude (1 ∷ [])) sample
      refl (λ e. absurd (omega arith)) (λ e. absurd (omega arith))

abbrev root : ℕ
root = 0

handle-restart_example :
    (handle sample_host sample_platform 0 0 Request.restart sample ≡ (ok Response.ok, sample)) ↔ (
      ((root ≡ 0) ⊎ (root ≡ sample_platform.geteuid))
      × All (λ (j : Job). j.state ≢ running) sample.store.jobs)
handle-restart_example = handle-restart sample_host sample_platform 0 0 sample

abbrev third_job : Job
third_job = new_job 3 alice (wants 2) 1000000

submitted :
    (handle sample_host sample_platform 1000 1000 (Request.submit (wants 2)) sample).0
    ≡ ok (Response.job third_job)
unfolding handle submit admit check_request resolve check_possible number checked_add enqueue save
    write_json temporary allocate allocate_from is_free accepts key kind_label list_beq
submitted = refl

handle-owner_example :
    ((sample_platform.geteuid ≡ 0) ⊎ (1000 ≡ sample_platform.geteuid))
    × ((sample_platform.account 1000 1000 no_files).0 ≡ ok alice)
handle-owner_example =
    handle-owner sample_host sample_platform 1000 1000 (wants 2) sample third_job submitted

allocation : allocate (wants 1) two_gpus (text "nv:a" ∷ []) ≡ some (gpu 1 (text "b") ∷ [])
unfolding allocate allocate_from is_free accepts key kind_label list_beq
allocation = refl

allocate-IsAllocation_example :
    IsAllocation (wants 1) two_gpus (text "nv:a" ∷ []) (gpu 1 (text "b") ∷ [])
allocate-IsAllocation_example =
    allocate-IsAllocation (wants 1) two_gpus (text "nv:a" ∷ []) (gpu 1 (text "b") ∷ []) allocation

allocate-IsKeyed_example : IsKeyed (gpu 1 (text "b") ∷ [])
allocate-IsKeyed_example =
    allocate-IsKeyed (wants 1) two_gpus (text "nv:a" ∷ []) (gpu 1 (text "b") ∷ []) two_gpus-IsKeyed
      tt allocation

allocate-eq-none_iff_example :
    (allocate (wants 3) two_gpus [] ≡ none)
    ↔ ((0 < 3) × ((k : Kind) → TooFew (wants 3) two_gpus [] k))
allocate-eq-none_iff_example = allocate-eq-none_iff (wants 3) two_gpus [] refl

refused : allocate (wants 2) two_gpus (text "nv:a" ∷ []) ≡ none
unfolding allocate allocate_from is_free accepts key kind_label list_beq
refused = refl

allocate-within_example : allocate (wants 2) two_gpus (text "nv:b" ∷ text "nv:a" ∷ []) ≡ none
allocate-within_example =
    allocate-within (wants 2) two_gpus (text "nv:a" ∷ []) (text "nv:b" ∷ text "nv:a" ∷ [])
      (λ t e. ground arith) refused

cleanup-CleanedUp_example : CleanedUp 1000000 sample (cleanup sample_host 1000000 sample)
cleanup-CleanedUp_example = cleanup-CleanedUp sample_host 1000000 sample sample-Inv.numbered

cleanup-Inv_example : Inv (cleanup sample_host 1000000 sample).1
cleanup-Inv_example = cleanup-Inv sample_host 1000000 sample sample-Inv

abbrev no_jobs : List ℕ
no_jobs = 0 ∷ []

is_garbage-file_name_example :
    is_garbage no_jobs (file_name 12 (text "log"))
    ≡ (contains no_jobs 12 && is_job_file (text "log"))
is_garbage-file_name_example = is_garbage-file_name no_jobs 12 (text "log") (omega arith)

pending_order-InOrder_example :
    Pairwise (InOrder sample.store.jobs) (pending_order sample.store.jobs)
pending_order-InOrder_example = pending_order-InOrder sample.store.jobs

pending_order-exact_example :
    ((i : ℕ)
      → (contains (pending_order sample.store.jobs) i ≡ true) ↔ IsPendingAt sample.store.jobs i)
    × Pairwise (λ a b. a ≢ b) (pending_order sample.store.jobs)
pending_order-exact_example = pending_order-exact sample.store.jobs

write_json-IsReplaced_example :
    IsReplaced disk_fs disk store_json_of_sample
      (text "/xlurm/state.json")
      empty_store
      no_files
      (write_json disk_fs store_json_of_sample (text "/xlurm/state.json") empty_store no_files)
write_json-IsReplaced_example =
    write_json-IsReplaced disk_fs disk store_json_of_sample (text "/xlurm/state.json") empty_store
      no_files
