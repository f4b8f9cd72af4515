-- ===== src/Daemon/Ledger/Runs.antt =====
-- src/daemon.rs, `serve`: runs of the daemon, as sequences of its steps.
use xlurm.Base.{ℕ, Bool, Option, List, nat_eq, option_eq, Text, text_eq, All, int_eq}
use xlurm.Model.{kind_eq, state_eq}
use xlurm.Model.Errors.{Error}
use xlurm.Model.Wire.{Request}
use xlurm.Scheduler.Machine.{Host, Scheduler}
use xlurm.Scheduler.Exclusive.{Inv}
use xlurm.Daemon.{handle, turn, Platform, Health, Arrival}
use xlurm.Daemon.Kept.{handle-Kept, turn-Kept, KeptBy}
use xlurm.Daemon.Ledger.Traced.{Traced, Ledger-start, Ledger-KeptBy, Ledger}

module _ {W : Type 0} (host : Host W) (platform : Platform W) (describe : Error → Text) where
  infix 20 ◌⟶◌
  -- A step of the daemon: the request of a client is handled, or a round of its loop is run. It may
  -- end with an error.
  pub data ◌⟶◌ (t : Scheduler W) : Scheduler W → Type 0 where
    handles : (uid gid : ℕ) (request : Request) → t ⟶ (handle host platform uid gid request t).1
    turns :
        (arrivals : List Arrival) (health : Option Health) (clean : Bool)
        → t ⟶ (turn host platform describe arrivals health clean t).1

  -- Any number of steps.
  pub data Reaches (s : Scheduler W) : Scheduler W → Type 0 where
    at_start : Reaches s s
    and_then_step : (t u : Scheduler W) → Reaches s t → t ⟶ u → Reaches s u

  -- What each operation keeps, every step keeps.
  step-Kept :
      (P : Scheduler W → Type 0)
      → KeptBy host platform describe P
      → (t u : Scheduler W) → t ⟶ u
      → P t
      → P u
  step-Kept P kept t _ (handles uid gid request) p =
      handle-Kept host platform describe P kept uid gid request t p
  step-Kept P kept t _ (turns arrivals health clean) p =
      turn-Kept host platform describe P kept arrivals health clean t p

  Reaches-Kept :
      (P : Scheduler W → Type 0)
      → KeptBy host platform describe P
      → (s t : Scheduler W) → Reaches s t
      → P s
      → P t
  Reaches-Kept P kept s _ at_start p = p
  Reaches-Kept P kept s _ (and_then_step t u before step) p =
      step-Kept P kept t u step (Reaches-Kept P kept s t before p)

  -- In any run of the daemon, through any requests and rounds, with whatever errors: each job of the
  -- queue has a number above all that were given out before the run, or is a job of the queue at its
  -- start, with the same number, request and owner, and unchanged if it had ended by then. And the
  -- invariant of the queue holds throughout, if it holds at the start.
  pub Reaches-Traced :
      (s t : Scheduler W) → Inv s → Reaches s t → All (Traced s) t.store.jobs × Inv t
  Reaches-Traced s t v run =
      let l =
        Reaches-Kept (Ledger s) (Ledger-KeptBy s host platform describe) s t run
          (Ledger-start s v) in
      (l.traced, l.inv)
