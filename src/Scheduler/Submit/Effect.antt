-- ===== src/Scheduler/Submit/Effect.antt =====
-- What `submit` does to the queue: one pending job more under a new number, or nothing.
use xlurm.Base.{
  ℕ, ◌≤◌, ◌<◌, ◌≡◌, refl, sym, ap, inl, inr, none, some, List, [], ◌∷◌, ◌++◌, arith, nat_eq,
  option_eq, text_eq, All-append, All-intro, All-imp, Pairwise-snoc, Result-cases, Result, ok, err,
  int_eq,
}
use xlurm.Model.{kind_eq, state_eq, Submission, Owner, Job}
use xlurm.Model.Errors.{Error}
use xlurm.Scheduler.Machine.{save, clock, Host, Scheduler}
use xlurm.Scheduler.Allocate.Complete.{HasDistinctIds}
use xlurm.Scheduler.Allocate.Devices.{IsKeyed}
use xlurm.Scheduler.Submit.{new_job, pop, push_job, admit, enqueue, submit}
use xlurm.Scheduler.Submit.Admit.{admit-Admitted, admit-Keeps, Admitted, automatic, exact}
use xlurm.Scheduler.Tick.Cases.{save-eq}
use xlurm.Scheduler.Exclusive.{Apart, Inv}

pop-append {ℓ} : {A : Type ℓ} (xs : List A) (y : A) → pop (xs ++ y ∷ []) ≡ xs
unfolding pop
pop-append [] y = refl
pop-append (x ∷ []) y = refl
pop-append (x ∷ z ∷ xs) y = ap (◌∷◌ x) (pop-append (z ∷ xs) y)

-- After a submission: the new queue, or the old one. A number is used up even if saving fails.
pub data Submitted {W : Type 0} (host : Host W) (given : Submission) (owner : Owner)
    (s : Scheduler W) : Result Error Job → Scheduler W → Type 0 where
  accepted :
      (spec : Submission) (id time : ℕ) (w : W)
      → Admitted host given spec id s
      → Submitted host given owner s
          (ok (new_job id owner spec time))
          (record (push_job (new_job id owner spec time) s) { world = w })
  unsaved :
      (spec : Submission) (id : ℕ) (e : Error) (w : W)
      → Admitted host given spec id s
      → Submitted host given owner s
          (err e)
          (record s { store = record { next_id = id; jobs = s.store.jobs }; world = w })
  refused : (e : Error) → (admit host given s).0 ≡ err e → Submitted host given owner s (err e) s

module _ {W : Type 0} (host : Host W) (given : Submission) (owner : Owner) where
  module _ (j : Job) (s : Scheduler W) where
    abbrev tried : Result Error (Unit {0}) × Scheduler W
    tried = save host (push_job j s)

    enqueue-ok :
        tried.0 ≡ ok tt → enqueue host j s ≡ (ok j, record (push_job j s) { world = tried.1.world })
    unfolding enqueue
    enqueue-ok e = ground (arith, save-eq host (push_job j s))

    enqueue-err :
        (x : Error)
        → tried.0 ≡ err x
        → enqueue host j s ≡ (
          err x,
          record s {
            store = record { next_id = j.id; jobs = s.store.jobs };
            world = tried.1.world;
          },
        )
    unfolding enqueue
    enqueue-err x e = ground (arith, save-eq host (push_job j s), pop-append s.store.jobs j)

  abbrev at_clock : Scheduler W → Scheduler W
  at_clock s = (clock host s).1

  submit-refused :
      (s : Scheduler W) (e : Error)
      → (admit host given s).0 ≡ err e
      → submit host given owner s ≡ (err e, s)
  unfolding submit
  submit-refused s e h = ground (arith, admit-Keeps host given s)

  submit-admitted :
      (s : Scheduler W) (spec : Submission) (id : ℕ)
      → (admit host given s).0 ≡ ok (spec, id)
      → submit host given owner s
        ≡ enqueue host (new_job id owner spec (host.now s.world).0) (at_clock s)
  unfolding submit
  submit-admitted s spec id h = rw (h, submit, admit-Keeps host given s) refl

  -- A submission ends in one of three ways: all checks pass and the new job, with the next number, is
  -- the last of the queue; the checks pass, the queue cannot be saved, and only the number is used
  -- up; or a check fails, and nothing has changed.
  pub submit-Submitted :
      (s : Scheduler W)
      → Submitted host given owner s (submit host given owner s).0 (submit host given owner s).1
  submit-Submitted s = elim (Result-cases (admit host given s).0) [
    | inr (e, h) ↦ rw (submit-refused s e h) (refused e h)
    | inl ((spec, id), h) ↦
        let j = new_job id owner spec (host.now s.world).0 in
        let admitted = admit-Admitted host given spec id s h in
        rw (submit-admitted s spec id h) (elim (Result-cases (tried j (at_clock s)).0) [
          | inl (_, g) ↦
              rw (enqueue-ok j (at_clock s) g) (accepted spec id (host.now s.world).0 _ admitted)
          | inr (e, g) ↦ rw (enqueue-err j (at_clock s) e g) (unsaved spec id e _ admitted)
        ])
  ]

module _ {W : Type 0} (host : Host W) (given : Submission) (owner : Owner) where
  Admitted-HasDistinctIds :
      (spec : Submission) (id : ℕ) (s : Scheduler W)
      → Admitted host given spec id s
      → HasDistinctIds spec
  Admitted-HasDistinctIds spec id s a = elim a.resolved [
    | automatic none_given same ↦ let e : spec.device_ids ≡ none = ground arith in rw e tt
    | exact ids ids_given r ↦
        let e : spec.device_ids ≡ some ids = ground (arith, r.settled) in rw e r.distinct
  ]

  Submitted-Inv :
      (s : Scheduler W) {r : Result Error Job} {s' : Scheduler W}
      → Submitted host given owner s r s'
      → Inv s
      → Inv s'
  Submitted-Inv s (accepted spec id time w a) v =
      let j = new_job id owner spec time in
      record {
        inventory_keyed = v.inventory_keyed;
        exclusive = record {
          apart =
              Pairwise-snoc Apart s.store.jobs j v.exclusive.apart
                (All-intro (λ x. Apart x j) (λ x rx rj. absurd (cc)) s.store.jobs);
          keyed =
              All-append (λ (x : Job). IsKeyed x.devices) s.store.jobs (j ∷ []) v.exclusive.keyed
                (tt, tt);
        };
        numbered = record {
          increasing =
              Pairwise-snoc (λ (x y : Job). x.id < y.id) s.store.jobs j v.numbered.increasing
                (All-imp _ (λ (x : Job). x.id < id) s.store.jobs (λ x le. omega (arith, a.next))
                  v.numbered.bounded);
          bounded =
              All-append (λ (x : Job). x.id ≤ id) s.store.jobs (j ∷ [])
                (All-imp _ (λ (x : Job). x.id ≤ id) s.store.jobs (λ x le. omega (arith, a.next))
                  v.numbered.bounded)
                (omega arith, tt);
        };
        distinct_ids =
            All-append (λ (x : Job). HasDistinctIds x.spec) s.store.jobs (j ∷ []) v.distinct_ids
              (Admitted-HasDistinctIds spec id s a, tt);
      }
  Submitted-Inv s (unsaved spec id e w a) v = record {
    inventory_keyed = v.inventory_keyed;
    exclusive = v.exclusive;
    numbered = record {
      increasing = v.numbered.increasing;
      bounded =
          All-imp _ (λ (x : Job). x.id ≤ id) s.store.jobs (λ x le. omega (arith, a.next))
            v.numbered.bounded;
    };
    distinct_ids = v.distinct_ids;
  }
  Submitted-Inv s (refused e h) v = v

  Submitted-owner :
      (s : Scheduler W) (r : Result Error Job) (s' : Scheduler W) (j : Job)
      → Submitted host given owner s r s'
      → r ≡ ok j
      → j.owner ≡ owner
  Submitted-owner s _ _ j (accepted spec id time w a) e =
      let same : new_job id owner spec time ≡ j = cc in ap (λ (x : Job). x.owner) (sym same)
  Submitted-owner s _ _ j (unsaved spec id x w a) e = absurd (cc)
  Submitted-owner s _ _ j (refused x h) e = absurd (cc)

  pub submit-owner :
      (s : Scheduler W) (j : Job) → (submit host given owner s).0 ≡ ok j → j.owner ≡ owner
  submit-owner s j e = Submitted-owner s _ _ j (submit-Submitted host given owner s) e

  -- The invariant survives every submission, granted, refused or not saved.
  pub submit-Inv : (s : Scheduler W) → Inv s → Inv (submit host given owner s).1
  submit-Inv s v = Submitted-Inv s (submit-Submitted host given owner s) v
