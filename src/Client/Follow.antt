-- ===== src/Client/Follow.antt =====
-- src/cli.rs, follow, print_log_chunk and queue --log: a job's log is printed as it grows.
pub mod Drained
use xlurm.Scheduler.Submit.{is_some}
use xlurm.Base.{
  ℕ, zero, suc, Bool, true, false, not, ◌&&◌, ◌||◌, Option, none, some, List, if◌then◌else◌, nat_eq,
  ◌==◌, option_eq, Text, text_eq, is_empty, ◌>>=◌, ◌>>◌, pure, throw, Result, ok, err, int_eq,
}
use xlurm.Model.{kind_eq, state_eq, terminal, Outcome, Job, pending}
use xlurm.Model.Errors.{Error, unexpected_response}
use xlurm.Model.Wire.{Request, Response}

-- What the client reports on the standard error output.
pub data Notice : Type 0 where
  waiting_for_resources task_started : (id : ℕ) → Notice
  job_error : (error : Text) → Notice

-- What a client needs of the daemon, the terminal and the clock. `waited` says whether a second has
-- passed since the client began to wait.
pub record Terminal (W : Type 0) : Type 0 where
  pub request : Request → W → Result Error Response × W
  pub write_all : List ℕ → W → Result Error (Unit {0}) × W
  pub eprintln : Notice → W → W
  pub interrupted : W → Bool × W
  pub waited : W → Bool × W
  pub sleep : W → W

-- The variables of `follow`.
pub record Following : Type 0 where
  pub offset : ℕ
  pub cancelled : Bool
  pub waiting_reported : Bool
  pub started_reported : Bool

abbrev pub follow_from_start : Following
follow_from_start = record {
  offset = 0;
  cancelled = false;
  waiting_reported = false;
  started_reported = false;
}

module _ {W : Type 0} (terminal : Terminal W) where
  open terminal use {request, write_all, eprintln, interrupted, waited, sleep}

  abbrev expect_log : Response → W → Result Error (List ℕ × ℕ) × W
  expect_log (Response.log bytes next) = pure (bytes, next)
  expect_log response = throw unexpected_response

  abbrev expect_job : Response → W → Result Error Job × W
  expect_job (Response.job j) = pure j
  expect_job response = throw unexpected_response

  -- The new offset, and whether bytes have come.
  unfoldable pub print_log_chunk : ℕ → ℕ → W → Result Error (ℕ × Bool) × W
  print_log_chunk id offset = do
    response ← request (Request.log id offset)
    log ← expect_log response
    write_all log.0
    pure (log.1, not (is_empty log.0))

  -- At most `n` pieces of the log: the loop of `follow`, where `n` is 16, and that of `queue --log`,
  -- which has no bound. The Boolean says whether the log has come to its end.
  unfoldable pub print_log : ℕ → ℕ → ℕ → W → Result Error (ℕ × Bool) × W
  unfolding print_log_chunk
  print_log zero id offset w = (ok (offset, false), w)
  print_log (suc n) id offset w =
      let (r, w') = print_log_chunk id offset w in
      elim r [
        | err e ↦ (err e, w')
        | ok (next, more) ↦
            let rest = print_log n id next w' in if more then rest else (ok (next, true), w')
      ]

  say : Bool → Notice → W → Result Error (Unit {0}) × W
  say true notice w = (ok tt, eprintln notice w)
  say false notice w = (ok tt, w)

  ask : (W → Bool × W) → W → Result Error Bool × W
  ask question w = let (b, w') = question w in (ok b, w')

  cancel_if : Bool → ℕ → Bool → W → Result Error Bool × W
  cancel_if true id cancelled = request (Request.cancel id) >> pure true
  cancel_if false id cancelled = pure cancelled

  -- `crate::interrupted() && !cancelled`: whether the job is cancelled after this.
  pass_on_interrupt : ℕ → Bool → W → Result Error Bool × W
  unfolding ask cancel_if
  pass_on_interrupt id cancelled = do
    stop ← ask interrupted
    cancel_if (stop && not cancelled) id cancelled

  say_error : Option Text → W → Result Error (Unit {0}) × W
  say_error none w = (ok tt, w)
  say_error (some e) w = (ok tt, eprintln (job_error e) w)

  finish : Option Outcome → Bool → W → Result Error (Option ℕ) × W
  unfolding say_error
  finish (some result) true = say_error result.error >> pure (some result.exit_code)
  finish result drained = pure none

  -- What is reported in a round.
  abbrev is_waiting : Following → Job → Bool → Bool
  is_waiting f j late = (j.state == pending) && not f.waiting_reported && late

  abbrev is_started : Following → Job → Bool
  is_started f j = not f.started_reported && is_some j.started_at

  -- A round of the loop of `follow`: the exit code, if the job has ended and its log is printed.
  unfoldable pub follow_round : ℕ → Following → W → Result Error (Option ℕ × Following) × W
  unfolding pass_on_interrupt say print_log finish
  follow_round id f = do
    cancelled ← pass_on_interrupt id f.cancelled
    response ← request (Request.get id)
    j ← expect_job response
    late ← ask waited
    say (is_waiting f j late) (waiting_for_resources id)
    say (is_started f j) (task_started id)
    log ← print_log 16 id f.offset
    code ← finish j.result log.1
    pure (
      code,
      record {
        offset = log.0;
        cancelled = cancelled;
        waiting_reported = f.waiting_reported || is_waiting f j late;
        started_reported = f.started_reported || is_started f j;
      },
    )

  -- `follow`, for a number of rounds; `none` where the job has not ended in them.
  unfoldable pub follow : ℕ → ℕ → Following → W → Result Error (Option ℕ) × W
  unfolding follow_round
  follow zero id f w = (ok none, w)
  follow (suc n) id f w =
      let (r, w') = follow_round id f w in
      elim r [
        | err e ↦ (err e, w')
        | ok (some code, f') ↦ (ok (some code), w')
        | ok (none, f') ↦ let rest = follow n id f' (sleep w') in rest
      ]
