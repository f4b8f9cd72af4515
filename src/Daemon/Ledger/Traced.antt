-- ===== src/Daemon/Ledger/Traced.antt =====
-- src/daemon.rs, `serve`: each operation of the daemon leaves jobs that can be traced back.
use xlurm.Scheduler.Exclusive.Requests.{Each-imp}
use xlurm.Scheduler.Exclusive.Steps.{
  update_job-Each, cancel_cases, set_devices_excluded-eq, Cancelled, as_before, withdrawn,
}
use xlurm.Daemon.Turns.{Inv-KeptBy}
use xlurm.Scheduler.Cleanup.{is_expired}
use xlurm.Daemon.Kept.{KeptBy}
use xlurm.Scheduler.Cleanup.Retained.{cleanup-CleanedUp, CleanedUp, forgotten, not_cleaned}
use xlurm.Scheduler.Submit.Effect.{submit-Submitted, Submitted, accepted, unsaved, refused}
use xlurm.Daemon.{Platform}
use xlurm.Base.{
  ℕ, suc, ◌≤◌, ◌<◌, ◌≡◌, refl, ◌⊎◌, inl, inr, not, some, List, [], ◌∷◌, arith, nat_eq, option_eq,
  Text, text_eq, get_elem?, All, All-filter, All-append, Result, int_eq,
}
use xlurm.Model.{kind_eq, state_eq, Submission, Owner, Job, Error}
use xlurm.Scheduler.Machine.{with_jobs, Host, Scheduler}
use xlurm.Scheduler.Tick.{cancelled_at, finish, update_job, cancel}
use xlurm.Scheduler.Tick.Cases.{Each}
use xlurm.Scheduler.Exclusive.{Inv}
use xlurm.Daemon.Ledger.{IsLater-refl, IsLater-trans, pending-IsLater, tick-Aged, IsLater}

Cancelled-IsLater : (j k : Job) → Cancelled j k → IsLater j k
Cancelled-IsLater j k (as_before e) = rw e (IsLater-refl j)
Cancelled-IsLater j k (withdrawn time waits e) =
    rw e (pending-IsLater j (finish (cancelled_at time) j) waits refl refl refl)

All-positions :
    {A : Type 0} (P : A → Type 0) (xs : List A)
    → ((i : ℕ) (a : A) → get_elem? xs i ≡ some a → P a)
    → All P xs
All-positions P [] h = tt
All-positions P (x ∷ xs) h = (h 0 x refl, All-positions P xs (λ i a at. h (suc i) a at))

module _ {W : Type 0} (s : Scheduler W) where
  -- A job is newer than the queue `s`, or a later record of one of its jobs.
  pub Traced : Job → Type 0
  Traced k =
      (s.store.next_id < k.id)
      ⊎ ((i : ℕ) × (j : Job) × (get_elem? s.store.jobs i ≡ some j) × IsLater j k)

  Traced-IsLater : (j k : Job) → Traced j → IsLater j k → Traced k
  unfolding Traced
  Traced-IsLater j k (inl above) later = inl (rw later.same_id above)
  Traced-IsLater j k (inr (i, o, at, p)) later = inr (i, o, at, IsLater-trans o j k p later)

  pub record Ledger (t : Scheduler W) : Type 0 where
    pub inv : Inv t
    pub next : s.store.next_id ≤ t.store.next_id
    pub traced : All Traced t.store.jobs

  All-later : (js ks : List Job) → All Traced js → Each IsLater js ks → All Traced ks
  All-later [] [] h e = tt
  All-later [] (k ∷ ks) h e = absurd e
  All-later (j ∷ js) [] h e = absurd e
  All-later (j ∷ js) (k ∷ ks) (h, hs) (e, es) = (Traced-IsLater j k h e, All-later js ks hs es)

  pub Ledger-start : Inv s → Ledger s
  unfolding Traced
  Ledger-start v = record {
    inv = v;
    next = omega arith;
    traced = All-positions Traced s.store.jobs (λ i j at. inr (i, j, at, IsLater-refl j));
  }

  Ledger-jobs :
      (t : Scheduler W) (w : W) (jobs : List Job)
      → Ledger t
      → Inv (record (with_jobs t jobs) { world = w })
      → Each IsLater t.store.jobs jobs
      → Ledger (record (with_jobs t jobs) { world = w })
  Ledger-jobs t w jobs l v later = record {
    inv = v;
    next = l.next;
    traced = All-later t.store.jobs jobs l.traced later;
  }

  module _ (host : Host W) (platform : Platform W) (describe : Error → Text) where
    abbrev inv_kept : KeptBy host platform describe Inv
    inv_kept = Inv-KeptBy host platform describe

    Submitted-Ledger :
        (spec : Submission) (owner : Owner) (t : Scheduler W) (r : Result Error Job)
        (t' : Scheduler W)
        → Submitted host spec owner t r t'
        → Inv t'
        → Ledger t
        → Ledger t'
    unfolding Traced
    Submitted-Ledger given owner t _ _ (accepted spec id time w a) v l = record {
      inv = v;
      next = omega (arith, a.next, l.next);
      traced = All-append Traced t.store.jobs _ l.traced (inl (omega (arith, a.next, l.next)), tt);
    }
    Submitted-Ledger given owner t _ _ (unsaved spec id e w a) v l = record {
      inv = v;
      next = omega (arith, a.next, l.next);
      traced = l.traced;
    }
    Submitted-Ledger given owner t _ _ (refused e h) v l = l

    CleanedUp-Ledger :
        (time : ℕ) (t : Scheduler W) (r : Result Error (Unit {0}) × Scheduler W)
        → CleanedUp time t r
        → Inv r.1
        → Ledger t
        → Ledger r.1
    CleanedUp-Ledger time t _ (forgotten w) v l = record {
      inv = v;
      next = l.next;
      traced = All-filter Traced (λ j. not (is_expired time j)) t.store.jobs l.traced;
    }
    CleanedUp-Ledger time t _ (not_cleaned e w) v l = record {
      inv = v;
      next = l.next;
      traced = l.traced;
    }

    cancel-Ledger : (id : ℕ) (t : Scheduler W) → Ledger t → Ledger (cancel host id t).1
    cancel-Ledger id t l =
        let v : Inv (cancel host id t).1 = inv_kept.cancelled id t l.inv in
        cancel_cases host id t (λ u. Inv u → Ledger u)
          (λ w v. record { inv = v; next = l.next; traced = l.traced })
          (λ j time w e waits v.
            let jobs = update_job id (finish (cancelled_at time)) t.store.jobs in
            Ledger-jobs t w jobs l v (
              Each-imp Cancelled IsLater t.store.jobs jobs Cancelled-IsLater
                (update_job-Each id time t.store.jobs j e waits)))
          v

    pub Ledger-KeptBy : KeptBy host platform describe Ledger
    Ledger-KeptBy = record {
      moved = λ t w l. record { inv = inv_kept.moved t w l.inv; next = l.next; traced = l.traced };
      refreshed = λ health t l. record {
        inv = inv_kept.refreshed health t l.inv;
        next = l.next;
        traced = l.traced;
      };
      submitted = λ spec owner t l.
          Submitted-Ledger spec owner t _ _ (submit-Submitted host spec owner t)
            (inv_kept.submitted spec owner t l.inv) l;
      cancelled = cancel-Ledger;
      excluded = λ ids b t l. rw (set_devices_excluded-eq ids b t) (record {
        inv = rw (set_devices_excluded-eq ids b t) at (inv_kept.excluded ids b t l.inv);
        next = l.next;
        traced = l.traced;
      });
      ticked = λ t l.
          let aged = tick-Aged host describe t in
          record {
            inv = inv_kept.ticked t l.inv;
            next = rw aged.same_next l.next;
            traced = All-later t.store.jobs _ l.traced aged.later;
          };
      cleaned = λ time t l.
          CleanedUp-Ledger time t _ (cleanup-CleanedUp host time t l.inv.numbered)
            (inv_kept.cleaned time t l.inv) l;
    }
