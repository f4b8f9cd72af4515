-- ===== src/Daemon/Ledger.antt =====
-- src/daemon.rs, `serve`: what becomes of the jobs of the queue in a run of the daemon.
pub mod Traced
pub mod Runs
use xlurm.Base.{
  ℕ, ◌≡◌, refl, ◌∙◌, true, some, arith, nat_eq, option_eq, Text, text_eq, get_elem?, set, count_if,
  int_eq,
}
use xlurm.Model.{kind_eq, state_eq, terminal, Job, pending}
use xlurm.Model.Errors.{Error}
use xlurm.Scheduler.Machine.{Host, Scheduler}
use xlurm.Scheduler.Tick.{
  finish, is_running, pending_order, started, replace_job, reserved_keys, collect, start_pending,
  tick,
}
use xlurm.Scheduler.Tick.Cases.{
  Each, Each-trans, Each-set, poll_jobs-Polled, Polled, untouched, collected,
}
use xlurm.Scheduler.Tick.Loop.{start_jobs_ind, tick_ind, Rule}
use xlurm.Scheduler.Tick.Order.{pending_order-pending, pending_order-distinct}
use xlurm.Scheduler.Exclusive.Requests.{Each-imp}

-- A later record of a job: it is the same request, and a job that has ended does not change.
pub record IsLater (j k : Job) : Type 0 where
  pub same_id : k.id ≡ j.id
  pub same_spec : k.spec ≡ j.spec
  pub same_owner : k.owner ≡ j.owner
  pub ended : terminal j.state ≡ true → k ≡ j

pub IsLater-refl : (j : Job) → IsLater j j
IsLater-refl j = record { same_id = refl; same_spec = refl; same_owner = refl; ended = λ _. refl }

pub IsLater-trans : (i j k : Job) → IsLater i j → IsLater j k → IsLater i k
IsLater-trans i j k p q = record {
  same_id = q.same_id ∙ p.same_id;
  same_spec = q.same_spec ∙ p.same_spec;
  same_owner = q.same_owner ∙ p.same_owner;
  ended = λ e. q.ended (rw (p.ended e) e) ∙ p.ended e;
}

pub pending-IsLater :
    (j k : Job)
    → j.state ≡ pending
    → k.id ≡ j.id
    → k.spec ≡ j.spec
    → k.owner ≡ j.owner
    → IsLater j k
pending-IsLater j k waits e f g = record {
  same_id = e;
  same_spec = f;
  same_owner = g;
  ended = λ t. absurd (ground (arith, t, waits));
}

Polled-IsLater : (j k : Job) → Polled j k → IsLater j k
Polled-IsLater j k (untouched e) = rw e (IsLater-refl j)
Polled-IsLater j k (collected o r e) = rw e (record {
  same_id = refl;
  same_spec = refl;
  same_owner = refl;
  ended = λ t. absurd (ground (arith, t, r));
})

module _ {W : Type 0} (host : Host W) (describe : Error → Text) (s : Scheduler W) where
  -- The queue is the old one, with later records.
  pub record Aged (t : Scheduler W) : Type 0 where
    pub same_next : t.store.next_id ≡ s.store.next_id
    pub later : Each IsLater s.store.jobs t.store.jobs

  replaced-Aged :
      (t : Scheduler W) (i : ℕ) (j k : Job) (w : W)
      → Aged t
      → get_elem? t.store.jobs i ≡ some j
      → IsLater j k
      → Aged (record (replace_job i k t) { world = w })
  replaced-Aged t i j k w p at later = record {
    same_next = p.same_next;
    later =
        Each-trans IsLater IsLater-trans s.store.jobs t.store.jobs (set t.store.jobs i k) p.later
          (Each-set IsLater IsLater-refl t.store.jobs i j k at later);
  }

  Aged-Rule : Rule host describe (λ reserved n t. Aged t)
  Aged-Rule = record {
    ran = λ i j devices reserved n t p room at waits granted time w.
        replaced-Aged t i j (started devices time j) w p at
          (pending-IsLater j (started devices time j) waits refl refl refl);
    failed_start = λ i j devices reserved n t p at waits granted time o w is_failed.
        replaced-Aged t i j (finish o (started devices time j)) w p at
          (pending-IsLater j (finish o (started devices time j)) waits refl refl refl);
  }

  start_pending-Aged : (t : Scheduler W) → Aged t → Aged (start_pending host describe t).1
  unfolding start_pending
  start_pending-Aged t p =
      let (reserved, n, c) =
        start_jobs_ind host describe (λ reserved n t. Aged t) Aged-Rule (pending_order t.store.jobs)
          (reserved_keys t) (count_if is_running t.store.jobs) t
          (pending_order-pending t.store.jobs) (pending_order-distinct t.store.jobs) p in
      c

  collect-Aged : Aged (collect host s).1
  unfolding collect
  collect-Aged = record {
    same_next = refl;
    later =
        Each-imp Polled IsLater s.store.jobs _ Polled-IsLater
          (poll_jobs-Polled host s.store.jobs s.world);
  }

  -- A tick, whatever fails in it, only brings later records of the same jobs.
  pub tick-Aged : Aged (tick host describe s).1
  tick-Aged =
      tick_ind host describe Aged s (λ t w q. record { same_next = q.same_next; later = q.later })
        collect-Aged start_pending-Aged
