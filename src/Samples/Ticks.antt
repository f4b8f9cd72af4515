-- ===== src/Samples/Ticks.antt =====
-- The theorems on what a tick leaves waiting and on runs of the daemon, applied to a small queue.
use xlurm.Base.{
  ◌<◌, ◌≡◌, refl, true, none, some, List, [], ◌∷◌, arith, nat_eq, list_beq, option_eq, text_eq,
  get_elem?, All, ok, int_eq,
}
use xlurm.Model.{kind_eq, kind_label, key, state_eq, Job}
use xlurm.Scheduler.Machine.{Scheduler}
use xlurm.Scheduler.Allocate.{allocate}
use xlurm.Scheduler.Submit.{new_job}
use xlurm.Scheduler.Exclude.{lookup}
use xlurm.Scheduler.Tick.{reserved_keys, tick}
use xlurm.Scheduler.Tick.Capacity.{running_count}
use xlurm.Scheduler.Tick.Served.{tick-conserves}
use xlurm.Model.Wire.{Request}
use xlurm.Scheduler.Exclusive.{Inv}
use xlurm.Daemon.{handle, turn, Arrival, client}
use xlurm.Daemon.Ledger.Traced.{Traced}
use xlurm.Daemon.Ledger.Runs.{Reaches-Traced, handles, turns, at_start, and_then_step}
use xlurm.Samples.{
  Files, sample_host, alice, wants, first_job, sample, sample-Inv, describe_none, sample_platform,
}

-- The second job wants both devices, one of which the first job has.
abbrev waiting_job : Job
waiting_job = new_job 2 alice (wants 2) 30

abbrev short_of_devices : Scheduler Files
short_of_devices = record sample {
  store = record { next_id = 3; jobs = first_job ∷ waiting_job ∷ [] };
}

left_waiting : tick sample_host describe_none short_of_devices ≡ (ok tt, short_of_devices)
unfolding tick key kind_label list_beq allocate lookup
left_waiting = refl

room_left :
    running_count (tick sample_host describe_none short_of_devices).1.store.jobs
    < (tick sample_host describe_none short_of_devices).1.max_running
room_left = rw left_waiting (omega arith)

still_there :
    get_elem? (tick sample_host describe_none short_of_devices).1.store.jobs 1 ≡ some waiting_job
still_there = rw left_waiting refl

tick-conserves_example :
    allocate
      (wants 2)
      (tick sample_host describe_none short_of_devices).1.inventory.devices
      (reserved_keys (tick sample_host describe_none short_of_devices).1)
    ≡ none
tick-conserves_example =
    tick-conserves sample_host describe_none short_of_devices 1 waiting_job (rw left_waiting refl)
      room_left still_there refl

-- A request of a client, and then a round that begins with two more.
abbrev handled : Scheduler Files
handled = (handle sample_host sample_platform 1000 1000 (Request.submit (wants 1)) sample).1

abbrev two_clients : List Arrival
two_clients = client 1000 1000 (Request.submit (wants 1)) ∷ client 1000 1000 (Request.cancel 2) ∷ []

abbrev after_round : Scheduler Files
after_round = (turn sample_host sample_platform describe_none two_clients none true handled).1

Reaches-Traced_example : All (Traced sample) after_round.store.jobs × Inv after_round
Reaches-Traced_example =
    Reaches-Traced sample_host sample_platform describe_none sample after_round sample-Inv (
      and_then_step handled after_round
        (and_then_step sample handled at_start (handles 1000 1000 (Request.submit (wants 1))))
        (turns two_clients none true))
