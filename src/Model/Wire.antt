-- ===== src/Model/Wire.antt =====
-- src/model.rs, `Request` and `Response`: what clients and the daemon send each other.
use xlurm.Base.{ℕ, List, nat_eq, option_eq, Text, text_eq, int_eq}
use xlurm.Model.{kind_eq, state_eq, Submission, Job, JobSummary, DeviceView}

pub data Request : Type 0 where
  submit : Submission → Request
  queue : Request
  get : ℕ → Request
  cancel : ℕ → Request
  log : (id offset : ℕ) → Request
  info stop restart : Request
  exclude include : List ℕ → Request

pub data Response : Type 0 where
  job : Job → Response
  queue : List JobSummary → Response
  log : (bytes : List ℕ) (offset : ℕ) → Response
  info : List DeviceView → Response
  ok : Response
  error : Text → Response
