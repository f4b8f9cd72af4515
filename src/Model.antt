-- ===== src/Model.antt =====
-- src/model.rs: the data that the scheduler, its clients and its workers share.
-- A path is its text, an environment is a list of pairs, and numbers are natural numbers below the
-- bound of their Rust type. Error values (`anyhow::Error`) are named by their message.
pub mod Errors
pub mod Wire
use xlurm.Base.{
  ℕ, ◌≡◌, ◌↔◌, Bool, true, false, Option, none, some, List, [], ◌∷◌, ◌++◌, arith, nat_eq, option_eq,
  Text, text, text_eq, PartialEq, int_eq,
}
pub use Errors.{Error}

pub data Kind : Type 0 where
  nvidia ascend mthreads metax ppu hcu : Kind

-- `Kind::PRIORITY`
abbrev pub priority : List Kind
priority = nvidia ∷ ascend ∷ mthreads ∷ metax ∷ ppu ∷ hcu ∷ []

abbrev pub kind_beq : Kind → Kind → Bool
kind_beq nvidia nvidia = true
kind_beq ascend ascend = true
kind_beq mthreads mthreads = true
kind_beq metax metax = true
kind_beq ppu ppu = true
kind_beq hcu hcu = true
kind_beq _ _ = false

pub kind_beq_iff : (a b : Kind) → (kind_beq a b ≡ true) ↔ (a ≡ b)
kind_beq_iff a b = ground arith

instance abbrev pub kind_eq : PartialEq Kind
kind_eq = record { eq = kind_beq; eq_iff = kind_beq_iff }

-- `impl Display for Kind`
unfoldable pub kind_label : Kind → Text
kind_label nvidia = text "nv"
kind_label ascend = text "asc"
kind_label mthreads = text "mtt"
kind_label metax = text "mx"
kind_label ppu = text "ppu"
kind_label hcu = text "hcu"

pub record Device : Type 0 where
  pub kind : Kind
  pub id : ℕ
  pub name : Text
  pub visible : Text
  pub npu : Option ℕ
  pub chip : Option ℕ

-- `Device::key`
unfoldable pub key : Device → Text
unfolding kind_label
key d = kind_label d.kind ++ text ":" ++ d.visible

pub record Submission : Type 0 where
  pub command : List Text
  pub cwd : Text
  pub env : List (Text × Text)
  pub name : Text
  pub count : ℕ
  pub device_ids : Option (List ℕ)
  pub exclude_device_ids : List ℕ
  pub kind : Option Kind
  pub time_limit : Option ℕ
  pub script : Option Text

pub record Owner : Type 0 where
  pub uid : ℕ
  pub gid : ℕ
  pub name : Text

pub data State : Type 0 where
  pending running completed failed cancelled timed_out : State

abbrev pub state_beq : State → State → Bool
state_beq pending pending = true
state_beq running running = true
state_beq completed completed = true
state_beq failed failed = true
state_beq cancelled cancelled = true
state_beq timed_out timed_out = true
state_beq _ _ = false

pub state_beq_iff : (a b : State) → (state_beq a b ≡ true) ↔ (a ≡ b)
state_beq_iff a b = ground arith

instance abbrev pub state_eq : PartialEq State
state_eq = record { eq = state_beq; eq_iff = state_beq_iff }

-- `State::terminal`
abbrev pub terminal : State → Bool
terminal pending = false
terminal running = false
terminal _ = true

pub record Outcome : Type 0 where
  pub state : State
  pub exit_code : ℕ
  pub finished_at : ℕ
  pub error : Option Text

pub record Job : Type 0 where
  pub id : ℕ
  pub owner : Owner
  pub spec : Submission
  pub state : State
  pub devices : List Device
  pub submitted_at : ℕ
  pub started_at : Option ℕ
  pub result : Option Outcome

pub record JobSummary : Type 0 where
  pub id : ℕ
  pub owner : Owner
  pub name : Text
  pub state : State
  pub count : ℕ
  pub device_ids : Option (List ℕ)
  pub kind : Option Kind
  pub devices : List Device
  pub submitted_at : ℕ
  pub started_at : Option ℕ
  pub finished_at : Option ℕ

finished_at_of : Option Outcome → Option ℕ
finished_at_of none = none
finished_at_of (some o) = some o.finished_at

-- `impl From<&Job> for JobSummary`
unfoldable pub summary_of : Job → JobSummary
unfolding finished_at_of
summary_of job = record {
  id = job.id;
  owner = job.owner;
  name = job.spec.name;
  state = job.state;
  count = job.spec.count;
  device_ids = job.spec.device_ids;
  kind = job.spec.kind;
  devices = job.devices;
  submitted_at = job.submitted_at;
  started_at = job.started_at;
  finished_at = finished_at_of job.result;
}

pub record Store : Type 0 where
  pub next_id : ℕ
  pub jobs : List Job

-- `Store::default()`
abbrev pub empty_store : Store
empty_store = record { next_id = 0; jobs = [] }

-- The status words of src/device/mod.rs and of `Scheduler::info`.
pub data Status : Type 0 where
  idle busy unknown unhealthy allocated disabled : Status

pub record DeviceView : Type 0 where
  pub device : Device
  pub job : Option ℕ
  pub status : Status
  pub monitoring_error : Option Text
