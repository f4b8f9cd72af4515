-- ===== src/Executor/Payload.antt =====
-- src/executor.rs, `execute`: what a worker runs, and how it watches it. The identity, the fork and the
-- clock are given: a round of the loop is an observation.
use xlurm.Base.{
  ℕ, ◌+◌, ◌≡◌, refl, ◌⊎◌, inl, inr, Bool, true, false, ◌&&◌, Option, none, some, List, [], ◌∷◌,
  ◌++◌, leb, if◌then◌else◌, Bool-cases, nat_eq, ◌==◌, ◌!=◌, option_beq_iff, option_eq, Text, text,
  text_eq, filter, All, to_string, int_eq,
}
use xlurm.Model.{
  kind_eq, state_eq, terminal, Submission, Outcome, Job, ascend, mthreads, metax, hcu, State,
  completed, failed, cancelled, timed_out,
}
use xlurm.Scheduler.Submit.{is_some}
use xlurm.Executor.{cancel, visible, visible_ids, hcu_runtime_ids, has_kind, visible_for_cuda}

-- The program and its arguments.
unfoldable pub payload_argv : Submission → List Text
payload_argv spec = elim spec.script [
  | none ↦ spec.command
  | some script ↦ text "bash" ∷ text "-c" ∷ script ∷ spec.name ∷ spec.command
]

-- The variables that are set over the submitted ones, the later ones first.
unfoldable pub payload_env : Job → Text → List (Text × Text)
unfolding visible visible_ids visible_for_cuda hcu_runtime_ids to_string
payload_env job user =
    (if has_kind ascend job then (text "ASCEND_DEVICE_ID", text "0") ∷ [] else [])
    ++ ((text "ROCR_VISIBLE_DEVICES", visible_ids job hcu)
        ∷ (text "HIP_VISIBLE_DEVICES", hcu_runtime_ids job)
        ∷ (text "MACA_VISIBLE_DEVICES", visible_ids job metax)
        ∷ (text "MTHREADS_VISIBLE_DEVICES", visible job mthreads)
        ∷ (text "MUSA_VISIBLE_DEVICES", visible_ids job mthreads)
        ∷ (text "ASCEND_RT_VISIBLE_DEVICES", visible job ascend)
        ∷ (text "CUDA_VISIBLE_DEVICES", visible_for_cuda job)
        ∷ (text "XLURM_SUBMIT_DIR", job.spec.cwd)
        ∷ (text "XLURM_JOB_ID", to_string job.id)
        ∷ (text "LOGNAME", user)
        ∷ (text "USER", user)
        ∷ filter (λ (name, value). name != text "ASCEND_DEVICE_ID") job.spec.env)

-- `ExitStatus`: the exit code, or the signal that ended the process.
pub record Exit : Type 0 where
  pub code : Option ℕ
  pub signal : Option ℕ

-- What a round of the loop sees: the end of the payload, or that it is alive, whether it is to be
-- cancelled, the seconds since its start, and whether a second has passed since its termination.
pub data Observation : Type 0 where
  exited : Exit → Observation
  alive : (cancel : Bool) (elapsed : ℕ) (overdue : Bool) → Observation

pub data Signal : Type 0 where
  sigterm sigkill : Signal

unfoldable pub reason : Option ℕ → Bool → ℕ → Option State
reason limit true elapsed = some cancelled
reason none false elapsed = none
reason (some limit) false elapsed = if leb limit elapsed then some timed_out else none

-- The first reason to end the payload stays.
unfoldable pub terminated : Option ℕ → Option State → Bool → ℕ → Option State
unfolding reason
terminated limit none cancel elapsed = reason limit cancel elapsed
terminated limit (some state) cancel elapsed = some state

-- The loop, up to the end of the payload, if that is observed.
unfoldable pub watch : Option ℕ → Option State → List Observation → Option (Exit × Option State)
unfolding terminated
watch limit termination [] = none
watch limit termination (exited exit ∷ rest) = some (exit, termination)
watch limit termination (alive cancel elapsed overdue ∷ rest) =
    watch limit (terminated limit termination cancel elapsed) rest

-- The signals of one round.
unfoldable pub round_signals : Option State → Option State → Bool → List Signal
round_signals before after overdue =
    (if is_some before then [] else if is_some after then sigterm ∷ [] else [])
    ++ (if is_some after && overdue then sigkill ∷ [] else [])

-- The signals of the loop. What is left of the process group afterwards is killed in any case.
unfoldable pub signals : Option ℕ → Option State → List Observation → List Signal
unfolding terminated round_signals
signals limit termination [] = []
signals limit termination (exited exit ∷ rest) = []
signals limit termination (alive cancel elapsed overdue ∷ rest) =
    let next = terminated limit termination cancel elapsed in
    round_signals termination next overdue ++ signals limit next rest

abbrev pub or_zero : Option ℕ → ℕ
or_zero none = 0
or_zero (some n) = n

unfoldable pub final_state : Exit → Option State → State
final_state exit (some state) = state
final_state exit none = if exit.code == some 0 then completed else failed

unfoldable pub final_code : Exit → State → ℕ
final_code exit state = elim state [
  | cancelled ↦ 130
  | timed_out ↦ 124
  | _ ↦ elim exit.code [ some code ↦ code | none ↦ 128 + or_zero exit.signal ]
]

unfoldable pub payload_outcome : Exit → Option State → ℕ → Outcome
unfolding final_state final_code
payload_outcome exit termination time = record {
  state = final_state exit termination;
  exit_code = final_code exit (final_state exit termination);
  finished_at = time;
  error = none;
}

-- The reasons that `watch` gives.
abbrev IsReason : Option ℕ → Option State → Type 0
IsReason limit termination =
    (termination ≡ none)
    ⊎ ((termination ≡ some cancelled) ⊎ ((termination ≡ some timed_out) × (is_some limit ≡ true)))

terminated-IsReason :
    (limit : Option ℕ) (termination : Option State) (cancel : Bool) (elapsed : ℕ)
    → IsReason limit termination
    → IsReason limit (terminated limit termination cancel elapsed)
unfolding terminated reason
terminated-IsReason limit (some state) cancel elapsed h = h
terminated-IsReason limit none true elapsed h = inr (inl refl)
terminated-IsReason none none false elapsed h = inl refl
terminated-IsReason (some limit) none false elapsed h = elim (Bool-cases (leb limit elapsed)) [
  | inl y ↦ rw y (inr (inr (refl, refl)))
  | inr n ↦ rw n (inl refl)
]

watch-IsReason :
    (limit : Option ℕ) (termination : Option State) (rest : List Observation) (exit : Exit)
    (last : Option State)
    → IsReason limit termination
    → watch limit termination rest ≡ some (exit, last)
    → IsReason limit last
unfolding watch
watch-IsReason limit termination [] exit last h e = absurd (cc)
watch-IsReason limit termination (exited x ∷ rest) exit last h e =
    let same : termination ≡ last = cc in rw same at h
watch-IsReason limit termination (alive cancel elapsed overdue ∷ rest) exit last h e =
    watch-IsReason limit (terminated limit termination cancel elapsed) rest exit last
      (terminated-IsReason limit termination cancel elapsed h) e

-- What the watched payload is reported as.
pub record IsReport (limit : Option ℕ) (o : Outcome) : Type 0 where
  pub ended : terminal o.state ≡ true
  pub cancelled_code : o.state ≡ cancelled → o.exit_code ≡ 130
  pub time_out_code : o.state ≡ timed_out → (o.exit_code ≡ 124) × (is_some limit ≡ true)
  pub completed_code : o.state ≡ completed → o.exit_code ≡ 0

natural_end :
    (limit : Option ℕ) (exit : Exit) (time : ℕ) → IsReport limit (payload_outcome exit none time)
unfolding payload_outcome final_state final_code
natural_end limit exit time = elim (Bool-cases (exit.code == some 0)) [
  | inl y ↦ rw y (record {
    ended = refl;
    cancelled_code = λ r. absurd (cc);
    time_out_code = λ r. absurd (cc);
    completed_code = λ _. rw ((option_beq_iff exit.code (some 0)).0 y) refl;
  })
  | inr n ↦ rw n (record {
    ended = refl;
    cancelled_code = λ r. absurd (cc);
    time_out_code = λ r. absurd (cc);
    completed_code = λ r. absurd (cc);
  })
]

reported :
    (limit : Option ℕ) (exit : Exit) (last : Option State) (time : ℕ)
    → IsReason limit last
    → IsReport limit (payload_outcome exit last time)
unfolding payload_outcome final_state final_code
reported limit exit last time (inl n) = rw n (natural_end limit exit time)
reported limit exit last time (inr (inl c)) = rw c (record {
  ended = refl;
  cancelled_code = λ _. refl;
  time_out_code = λ r. absurd (cc);
  completed_code = λ r. absurd (cc);
})
reported limit exit last time (inr (inr (t, limited))) = rw t (record {
  ended = refl;
  cancelled_code = λ r. absurd (cc);
  time_out_code = λ _. (refl, limited);
  completed_code = λ r. absurd (cc);
})

-- However the payload ends, its outcome is one that ends the job: with code 130 if it was cancelled,
-- 124 if it ran out of time, which needs a limit, and 0 if it completed.
pub watch-IsReport :
    (limit : Option ℕ) (rest : List Observation) (exit : Exit) (last : Option State) (time : ℕ)
    → watch limit none rest ≡ some (exit, last)
    → IsReport limit (payload_outcome exit last time)
watch-IsReport limit rest exit last time e =
    reported limit exit last time (watch-IsReason limit none rest exit last (inl refl) e)

-- Rounds in which nobody asks for the end of the payload.
abbrev pub IsLeftAlone : Observation → Type 0
IsLeftAlone (exited exit) = Unit
IsLeftAlone (alive cancel elapsed overdue) = cancel ≡ false

-- A payload without a time limit that nobody cancels is sent no signal while it runs.
pub signals-left_alone :
    (rest : List Observation) → All IsLeftAlone rest → signals none none rest ≡ []
unfolding signals terminated reason round_signals
signals-left_alone [] h = refl
signals-left_alone (exited exit ∷ rest) h = refl
signals-left_alone (alive cancel elapsed overdue ∷ rest) h = rw (h.0) (signals-left_alone rest h.1)
