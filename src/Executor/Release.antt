-- ===== src/Executor/Release.antt =====
-- src/executor.rs, `poll`: when the devices of a job may be given away again.
use xlurm.Base.{
  ℕ, ◌≡◌, refl, ap, ◌∙◌, Bool, true, false, none, some, if◌then◌else◌, nat_eq, option_eq, Text,
  text, text_eq, pure, >>=-ok, ok, int_eq,
}
use xlurm.Model.{kind_eq, state_eq, Outcome, Job}
use xlurm.Storage.{job_path, try_lock, FileSystem, Json}
use xlurm.Executor.{lock_job, unlocking, reap, poll_locked, poll, Processes, Workers}

module _ {W : Type 0} (fs : FileSystem W) (processes : Processes W) (job_json : Json Job)
    (outcome_json : Json Outcome) (flag_json : Json Bool) (now : W → ℕ × W) (home : Text) where
  locked_only :
      (id : ℕ) (locked : Bool) (s : Workers W) (o : Outcome)
      → ((if locked
            then unlocking fs processes job_json outcome_json flag_json now home id
                (poll_locked fs processes job_json outcome_json flag_json now home id)
            else pure none)
          s).0
        ≡ ok (some o)
      → locked ≡ true
  locked_only id true s o e = refl
  locked_only id false s o e = absurd (cc)

  -- `poll` reports that a job has ended only when it has got the job's lock, which its worker holds as
  -- long as it lives: until then the job keeps its devices, even if its result is there.
  pub poll-locked :
      (id : ℕ) (s : Workers W) (o : Outcome)
      → (poll fs processes job_json outcome_json flag_json now home id s).0 ≡ ok (some o)
      → (try_lock fs
          (job_path home id (text "lock"))
          (reap fs processes job_json outcome_json flag_json now home id s).1.world).0
        ≡ ok true
  unfolding poll
  poll-locked id s o e =
      let (u, reaped, e1) =
        >>=-ok (reap fs processes job_json outcome_json flag_json now home id) _ s e in
      let (locked, answer, e2) =
        >>=-ok (lock_job fs processes job_json outcome_json flag_json now home id) _
          (reap fs processes job_json outcome_json flag_json now home id s).1 e1 in
      answer ∙ ap ok (locked_only id locked _ o e2)
