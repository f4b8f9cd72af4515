-- ===== src/Samples.antt =====
-- A small machine and queue, and the theorems at work on them.
pub mod Runs
pub mod Hosts
pub mod Drivers
pub mod Wires
pub mod Ticks
pub mod Cleaning
pub mod Tables
use xlurm.Executor.{start, poll, visible, Processes}
use xlurm.Client.{Resources}
use xlurm.Device.Refresh.{Monitors}
use xlurm.Daemon.{Platform, not_found}
use xlurm.Storage.Atomic.{Disk}
use xlurm.Base.{
  ℕ, ◌≡◌, refl, ap, ◌∙◌, ◌≢◌, inl, inr, true, false, Option, none, some, List, [], ◌∷◌, ◌++◌, arith,
  if◌then◌else◌, Bool-cases, nat_eq, ◌==◌, list_beq, list_beq_iff, beq_refl, option_eq, Text, text,
  text_eq, ok, err, to_string, int_eq,
}
use xlurm.Model.{
  kind_eq, kind_label, key, state_eq, empty_store, Device, Submission, Owner, Job, Store, nvidia,
  hcu, running, completed, idle,
}
use xlurm.Model.Errors.{Error, system}
use xlurm.Storage.{FileSystem, Json, removed}
use xlurm.Scheduler.Machine.{Host, Inventory, Scheduler}
use xlurm.Scheduler.Submit.{is_some, new_job}
use xlurm.Scheduler.Tick.{cancel}
use xlurm.Scheduler.Allocate.Devices.{IsKeyed}
use xlurm.Scheduler.Exclusive.{Inv}

-- A disk: the content of each file.
abbrev pub Files : Type 0
Files = Text → Option Text

abbrev pub update : Text → Option Text → Files → Files
update p content files q = if p == q then content else files q

abbrev pub plus : Option Text → Text → Option Text
plus none c = none
plus (some old) c = some (old ++ c)

abbrev pub or_empty : Option Text → Text
or_empty none = []
or_empty (some content) = content

abbrev pub disk_fs : FileSystem Files
disk_fs = record {
  open_or_create = λ p w. (ok tt, update p (some (or_empty (w p))) w);
  create = λ p w. (ok tt, update p (some []) w);
  write_all = λ p c w. (ok tt, update p (plus (w p) c) w);
  sync_all = λ p w. (ok tt, w);
  rename = λ p q w. (ok tt, update q (w p) (update p none w));
  sync_parent = λ p w. (ok tt, w);
  read = λ p w. (elim (w p) [ none ↦ err (system (text "no such file")) | some c ↦ ok c ], w);
  remove_file = λ p w. (removed, update p none w);
  read_dir = λ p w. (ok [], w);
  exists = λ p w. is_some (w p);
  is_dir = λ p w. true;
  flock = λ p w. (ok true, w);
  process_id = 7;
}

abbrev pub store_json_of_sample : Json Store
store_json_of_sample = record {
  to_json = λ st. to_string st.next_id;
  from_json = λ c. some empty_store;
}

abbrev pub sample_host : Host Files
sample_host = record {
  fs = disk_fs;
  executor = record {
    start = λ j w. (ok tt, w);
    poll = λ id w. (ok none, w);
    cancel = λ id w. (ok tt, w);
  };
  store_json = store_json_of_sample;
  home = text "/xlurm";
  now = λ w. (1000000, w);
}

abbrev pub no_files : Files
no_files p = none

abbrev pub gpu : ℕ → Text → Device
gpu id visible = record {
  kind = nvidia;
  id = id;
  name = text "GPU";
  visible = visible;
  npu = none;
  chip = none;
}

abbrev pub alice : Owner
alice = record { uid = 1000; gid = 1000; name = text "alice" }

abbrev pub wants : ℕ → Submission
wants n = record {
  command = text "train" ∷ [];
  cwd = text "/home/alice";
  env = [];
  name = text "train";
  count = n;
  device_ids = none;
  exclude_device_ids = [];
  kind = none;
  time_limit = none;
  script = none;
}

abbrev pub first_job : Job
first_job = record {
  id = 1;
  owner = alice;
  spec = wants 1;
  state = running;
  devices = gpu 0 (text "a") ∷ [];
  submitted_at = 10;
  started_at = some 20;
  result = none;
}

abbrev pub second_job : Job
second_job = new_job 2 alice (wants 1) 30

-- Ended long ago.
abbrev pub old_job : Job
old_job = record {
  id = 0;
  owner = alice;
  spec = wants 1;
  state = completed;
  devices = gpu 1 (text "b") ∷ [];
  submitted_at = 1;
  started_at = some 2;
  result = some (record { state = completed; exit_code = 0; finished_at = 3; error = none });
}

abbrev pub two_gpus : List Device
two_gpus = gpu 0 (text "a") ∷ gpu 1 (text "b") ∷ []

-- The status of both devices is idle.
abbrev pub sample_inventory : Inventory
sample_inventory = record {
  devices = two_gpus;
  status = (text "nv:a", idle) ∷ (text "nv:b", idle) ∷ [];
  monitoring_errors = [];
}

abbrev pub sample : Scheduler Files
sample = record {
  store = record { next_id = 2; jobs = old_job ∷ first_job ∷ second_job ∷ [] };
  inventory = sample_inventory;
  max_running = 2;
  excluded_devices = [];
  world = no_files;
}

differ : (xs ys : Text) → (xs == ys) ≡ false → xs ≢ ys
differ xs ys n e = absurd (ground (arith, n, (list_beq_iff xs ys).1 e))

keys_differ : key (gpu 0 (text "a")) ≢ key (gpu 1 (text "b"))
unfolding key kind_label list_beq
keys_differ = differ _ _ refl

pub two_gpus-IsKeyed : IsKeyed two_gpus
two_gpus-IsKeyed = ((keys_differ, tt), (tt, tt))

pub sample-Inv : Inv sample
sample-Inv = record {
  inventory_keyed = two_gpus-IsKeyed;
  exclusive = record {
    apart = (
      ((λ e _. absurd (cc)), ((λ e _. absurd (cc)), tt)),
      (((λ _ e. absurd (cc)), tt), (tt, tt)),
    );
    keyed = ((tt, tt), ((tt, tt), (tt, tt)));
  };
  numbered = record {
    increasing = ((omega arith, (omega arith, tt)), ((omega arith, tt), (tt, tt)));
    bounded = (omega arith, (omega arith, (omega arith, tt)));
  };
  distinct_ids = (tt, (tt, (tt, tt)));
}

abbrev pub describe_none : Error → Text
describe_none e = []

abbrev pub sample_platform : Platform Files
sample_platform = record {
  geteuid = 0;
  account = λ uid gid w. (ok (record { uid = uid; gid = gid; name = text "alice" }), w);
  open_file = λ p w. (not_found, w);
  read_at = λ p offset limit w. (ok [], w);
}

update-other : (p q : Text) (content : Option Text) (w : Files) → p ≢ q → update p content w q ≡ w q
update-other p q content w h = elim (Bool-cases (p == q)) [
  | inl y ↦ absurd (h ((list_beq_iff p q).0 y))
  | inr n ↦ rw n refl
]

update-same : (p : Text) (content : Option Text) (w : Files) → update p content w p ≡ content
update-same p content w = rw (beq_refl p) refl

pub disk : Disk disk_fs
disk = record {
  content = λ w p. w p;
  create_other = λ p q w h. update-other p q (some []) w h;
  write_other = λ p c q w h. update-other p q (plus (w p) c) w h;
  create_new = λ p w e. update-same p (some []) w;
  write_more = λ p c old w e h. update-same p (plus (w p) c) w ∙ ap (λ o. plus o c) h;
  sync_same = λ p q w. refl;
  parent_same = λ p q w. refl;
  rename_moves = λ p q w e. update-same q (w p) (update p none w);
  rename_fails = λ p q w e h. absurd (cc);
}

abbrev pub unknown_monitors : Monitors Files
unknown_monitors = record {
  nvidia_smi = λ w. (err (system (text "no nvidia-smi")), w);
  hcu_smi = none;
  hcu_healthcheck = λ w. (err (system (text "no hcu tool")), w);
  dcmi = none;
  mtml = none;
  mxsml = none;
  hgml = none;
}

abbrev pub two_ids : Resources
two_ids = record {
  name = none;
  gpus = some 2;
  device_ids = 1 ∷ 0 ∷ [];
  exclude_device_ids = [];
  device = none;
  time_limit = some 60;
}

-- No worker is alive, and no result is there.
abbrev pub idle_processes : Processes Files
idle_processes = record {
  open_log = λ p w. (ok tt, w);
  spawn = λ id w. (ok tt, w);
  try_wait = λ id w. (ok true, w);
  wait = λ id w. (ok tt, w);
  unlock = λ p w. w;
}
