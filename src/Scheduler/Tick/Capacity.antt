-- ===== src/Scheduler/Tick/Capacity.antt =====
-- `tick` keeps to the limit on running jobs.
use xlurm.Scheduler.Tick.Order.{pending_order-pending, pending_order-distinct}
use xlurm.Base.{
  ℕ, zero, suc, ◌≤◌, max, ◌≡◌, refl, false, List, [], ◌∷◌, arith, nat_eq, option_eq, Text, text_eq,
  set, count_if, int_eq,
}
use xlurm.Model.{kind_eq, state_beq_iff, state_eq, Job, running}
use xlurm.Model.Errors.{Error}
use xlurm.Scheduler.Machine.{Host, Scheduler}
use xlurm.Scheduler.Tick.{
  finish, is_running, pending_order, started, reserved_keys, collect, start_pending, tick,
}
use xlurm.Scheduler.Tick.Cases.{Each, poll_jobs-Polled, Polled, untouched, collected}
use xlurm.Scheduler.Tick.Loop.{start_jobs_ind, tick_ind, Rule}

abbrev pub running_count : List Job → ℕ
running_count jobs = count_if is_running jobs

count-set_le :
    (jobs : List Job) (i : ℕ) (k : Job) → running_count (set jobs i k) ≤ suc (running_count jobs)
count-set_le [] i k = omega arith
count-set_le (x ∷ jobs) zero k = ground arith
count-set_le (x ∷ jobs) (suc i) k = ground (arith, count-set_le jobs i k)

count-set_stopped :
    (jobs : List Job) (i : ℕ) (k : Job)
    → is_running k ≡ false
    → running_count (set jobs i k) ≤ running_count jobs
count-set_stopped [] i k e = omega arith
count-set_stopped (x ∷ jobs) zero k e = ground arith
count-set_stopped (x ∷ jobs) (suc i) k e = ground (arith, count-set_stopped jobs i k e)

Polled-count : (jobs ks : List Job) → Each Polled jobs ks → running_count ks ≤ running_count jobs
Polled-count [] [] h = omega arith
Polled-count [] (k ∷ ks) h = absurd h
Polled-count (j ∷ jobs) [] h = absurd h
Polled-count (j ∷ jobs) (k ∷ ks) (untouched e, h) = rw e (ground (arith, Polled-count jobs ks h))
Polled-count (j ∷ jobs) (k ∷ ks) (collected o r e, h) =
    ground (arith, Polled-count jobs ks h, (state_beq_iff j.state running).1 r)

module _ {W : Type 0} (host : Host W) (describe : Error → Text) (s : Scheduler W) where
  -- Of the loop: the counter is not below the number of running jobs.
  record Counted (reserved : List Text) (n : ℕ) (t : Scheduler W) : Type 0 where
    same_limit : t.max_running ≡ s.max_running
    counted : running_count t.store.jobs ≤ n
    limited : n ≤ max s.max_running (running_count s.store.jobs)

  Counted-Rule : Rule host describe Counted
  Counted-Rule = record {
    ran = λ i j devices reserved n t p room at pend granted time w. record {
      same_limit = p.same_limit;
      counted = ground (arith, p.counted, count-set_le t.store.jobs i (started devices time j));
      limited = omega (arith, room, p.same_limit);
    };
    failed_start = λ i j devices reserved n t p at pend granted time o w is_failed. record {
      same_limit = p.same_limit;
      counted = ground (
        arith,
        p.counted,
        is_failed,
        count-set_stopped t.store.jobs i (finish o (started devices time j)),
      );
      limited = p.limited;
    };
  }

  -- Of the parts of `tick`, errors included.
  record Limited (t : Scheduler W) : Type 0 where
    unchanged_limit : t.max_running ≡ s.max_running
    in_limit : running_count t.store.jobs ≤ max s.max_running (running_count s.store.jobs)

  start_pending-Limited : (t : Scheduler W) → Limited t → Limited (start_pending host describe t).1
  unfolding start_pending
  start_pending-Limited t p =
      let (reserved, n, c) =
        start_jobs_ind host describe Counted Counted-Rule (pending_order t.store.jobs)
          (reserved_keys t) (running_count t.store.jobs) t (pending_order-pending t.store.jobs)
          (pending_order-distinct t.store.jobs)
          (record {
            same_limit = p.unchanged_limit;
            counted = omega arith;
            limited = p.in_limit;
          }) in
      record { unchanged_limit = c.same_limit; in_limit = omega (arith, c.counted, c.limited) }

  collect-Limited : Limited (collect host s).1
  unfolding collect
  collect-Limited = record {
    unchanged_limit = refl;
    in_limit =
        omega (arith, Polled-count s.store.jobs _ (poll_jobs-Polled host s.store.jobs s.world));
  }

  -- After a tick, also one that an error stops, no more jobs are running than the limit allows,
  -- unless more were running already: then no more than those.
  pub tick-within_limit :
      running_count (tick host describe s).1.store.jobs
      ≤ max s.max_running (running_count s.store.jobs)
  tick-within_limit =
      let p : Limited (tick host describe s).1 =
        tick_ind host describe Limited s
          (λ t w q. record { unchanged_limit = q.unchanged_limit; in_limit = q.in_limit })
          collect-Limited start_pending-Limited in
      p.in_limit
