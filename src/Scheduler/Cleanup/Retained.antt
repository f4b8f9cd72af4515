-- ===== src/Scheduler/Cleanup/Retained.antt =====
-- `cleanup` forgets exactly the jobs that have expired, or nothing at all.
use xlurm.Scheduler.Exclusive.{Apart, IsNumbered, Inv}
use xlurm.Scheduler.Machine.{Host, Scheduler}
use xlurm.Base.{
  ℕ, ◌≤◌, ◌<◌, ◌≡◌, refl, sym, subst, inl, inr, Bool, true, false, not, List, [], ◌∷◌, map, arith,
  if◌then◌else◌, nat_beq_iff, Bool-cases, nat_eq, beq_refl, option_eq, text_eq, is_empty, filter,
  contains, All, Pairwise, All-filter, Pairwise-filter, Result-cases, ◌>>◌, modify, Result, ok, err,
  int_eq,
}
use xlurm.Model.{kind_eq, state_eq, Job, Store, Error}
use xlurm.Scheduler.Exclusive.Ticks.{Inv-world}
use xlurm.Scheduler.Allocate.Devices.{IsKeyed}
use xlurm.Scheduler.Allocate.Complete.{HasDistinctIds}
use xlurm.Scheduler.Cleanup.{is_expired, expired_ids, retained, forget, cleanup}

expired_ids-cons :
    (timestamp : ℕ) (j : Job) (jobs : List Job)
    → expired_ids timestamp (j ∷ jobs) ≡ (
        if is_expired timestamp j
        then j.id ∷ expired_ids timestamp jobs
        else expired_ids timestamp jobs)
unfolding expired_ids
expired_ids-cons timestamp j jobs = ground arith

-- A number below all others is not among the expired ones.
expired_ids-below :
    (timestamp : ℕ) (n : ℕ) (jobs : List Job)
    → All (λ (j : Job). n < j.id) jobs
    → contains (expired_ids timestamp jobs) n ≡ false
unfolding expired_ids
expired_ids-below timestamp n [] h = refl
expired_ids-below timestamp n (j ∷ jobs) h =
    let rest = expired_ids-below timestamp n jobs h.1 in
    ground (arith, rest, h.0, nat_beq_iff j.id n)

expired_ids-tail :
    (timestamp : ℕ) (j : Job) (jobs rest : List Job)
    → All (λ (k : Job). j.id < k.id) rest
    → All (λ (k : Job). contains (expired_ids timestamp jobs) k.id ≡ is_expired timestamp k) rest
    → All
        (λ (k : Job). contains (expired_ids timestamp (j ∷ jobs)) k.id ≡ is_expired timestamp k)
        rest
unfolding expired_ids
expired_ids-tail timestamp j jobs [] lt h = tt
expired_ids-tail timestamp j jobs (k ∷ rest) lt h = (
  ground (arith, h.0, lt.0, nat_beq_iff j.id k.id),
  expired_ids-tail timestamp j jobs rest lt.1 h.1,
)

expired_ids-head :
    (timestamp : ℕ) (j : Job) (jobs : List Job)
    → All (λ (k : Job). j.id < k.id) jobs
    → contains (expired_ids timestamp (j ∷ jobs)) j.id ≡ is_expired timestamp j
unfolding expired_ids
expired_ids-head timestamp j jobs h =
    let rest = expired_ids-below timestamp j.id jobs h in ground (arith, rest, beq_refl j.id)

-- A job of the list is expired exactly if its number is among the expired ones.
pub expired_ids-contains :
    (timestamp : ℕ) (jobs : List Job)
    → Pairwise (λ (a b : Job). a.id < b.id) jobs
    → All (λ (j : Job). contains (expired_ids timestamp jobs) j.id ≡ is_expired timestamp j) jobs
expired_ids-contains timestamp [] v = tt
expired_ids-contains timestamp (j ∷ jobs) v = (
  expired_ids-head timestamp j jobs v.0,
  expired_ids-tail timestamp j jobs jobs v.0 (expired_ids-contains timestamp jobs v.1),
)

filter-same :
    {A : Type 0} (p q : A → Bool) (xs : List A)
    → All (λ x. p x ≡ q x) xs
    → filter (λ x. not (p x)) xs ≡ filter (λ x. not (q x)) xs
filter-same p q [] h = refl
filter-same p q (x ∷ xs) h = rw (h.0, filter-same p q xs h.1) refl

filter-none :
    {A : Type 0} (p : A → Bool) (xs : List A)
    → is_empty (filter p xs) ≡ true
    → filter (λ x. not (p x)) xs ≡ xs
filter-none p [] h = refl
filter-none p (x ∷ xs) h = ground (arith, filter-none p xs)

retained-jobs :
    (timestamp : ℕ) (st : Store)
    → IsNumbered st
    → retained (expired_ids timestamp st.jobs) st
      ≡ record { next_id = st.next_id; jobs = filter (λ j. not (is_expired timestamp j)) st.jobs }
retained-jobs timestamp st v =
    rw
      (filter-same (λ (j : Job). contains (expired_ids timestamp st.jobs) j.id)
        (is_expired timestamp) st.jobs (expired_ids-contains timestamp st.jobs v.increasing))
      refl

is_empty-map : (js : List Job) → is_empty (map (λ (j : Job). j.id) js) ≡ true → is_empty js ≡ true
is_empty-map [] e = refl
is_empty-map (j ∷ js) e = e

nothing_expired :
    (timestamp : ℕ) (jobs : List Job)
    → is_empty (expired_ids timestamp jobs) ≡ true
    → filter (λ j. not (is_expired timestamp j)) jobs ≡ jobs
unfolding expired_ids
nothing_expired timestamp jobs h =
    filter-none (is_expired timestamp) jobs (is_empty-map (filter (is_expired timestamp) jobs) h)

-- The queue after a clean-up.
abbrev pub kept : ℕ → Store → Store
kept timestamp st = record {
  next_id = st.next_id;
  jobs = filter (λ j. not (is_expired timestamp j)) st.jobs;
}

-- What a clean-up does to the scheduler: all of it or, with an error, nothing.
pub data CleanedUp {W : Type 0} (timestamp : ℕ) (s : Scheduler W)
    : Result Error (Unit {0}) × Scheduler W → Type 0 where
  forgotten :
      (w : W)
      → CleanedUp timestamp s (ok tt, record s { store = kept timestamp s.store; world = w })
  not_cleaned : (e : Error) (w : W) → CleanedUp timestamp s (err e, record s { world = w })

module _ {W : Type 0} (host : Host W) where
  forget-eq :
      (ids : List ℕ) (s : Scheduler W)
      → (forget host ids s).1 ≡ record s { world = (forget host ids s).1.world }
  unfolding forget
  forget-eq ids s = refl

  cleanup-eq :
      (timestamp : ℕ) (s : Scheduler W)
      → is_empty (expired_ids timestamp s.store.jobs) ≡ false
      → cleanup host timestamp s ≡ (
          let ids = expired_ids timestamp s.store.jobs in
          (do forget host ids; modify (λ t. record t { store = retained ids t.store })) s)
  unfolding cleanup
  cleanup-eq timestamp s e = rw e refl

  cleanup-nothing :
      (timestamp : ℕ) (s : Scheduler W)
      → is_empty (expired_ids timestamp s.store.jobs) ≡ true
      → cleanup host timestamp s
        ≡ (ok tt, record s { store = kept timestamp s.store; world = s.world })
  unfolding cleanup
  cleanup-nothing timestamp s e = rw (e, nothing_expired timestamp s.store.jobs e) refl

  cleanup-forgets :
      (timestamp : ℕ) (s : Scheduler W)
      → IsNumbered s.store
      → is_empty (expired_ids timestamp s.store.jobs) ≡ false
      → (forget host (expired_ids timestamp s.store.jobs) s).0 ≡ ok tt
      → cleanup host timestamp s ≡ (
        ok tt,
        record s {
          store = kept timestamp s.store;
          world = (forget host (expired_ids timestamp s.store.jobs) s).1.world;
        },
      )
  cleanup-forgets timestamp s v e h =
      rw
        (
          cleanup-eq timestamp s e,
          h,
          forget-eq (expired_ids timestamp s.store.jobs) s,
          retained-jobs timestamp s.store v,
        )
        refl

  cleanup-fails :
      (timestamp : ℕ) (s : Scheduler W) (x : Error)
      → is_empty (expired_ids timestamp s.store.jobs) ≡ false
      → (forget host (expired_ids timestamp s.store.jobs) s).0 ≡ err x
      → cleanup host timestamp s
        ≡ (err x, record s { world = (forget host (expired_ids timestamp s.store.jobs) s).1.world })
  cleanup-fails timestamp s x e h =
      rw (cleanup-eq timestamp s e, h, forget-eq (expired_ids timestamp s.store.jobs) s) refl

  -- Where a clean-up of a queue with growing job numbers succeeds, the queue has lost exactly the
  -- jobs that ended at least seven days ago. Where it fails, the queue is as before.
  pub cleanup-CleanedUp :
      (timestamp : ℕ) (s : Scheduler W)
      → IsNumbered s.store
      → CleanedUp timestamp s (cleanup host timestamp s)
  cleanup-CleanedUp timestamp s v =
      elim (Bool-cases (is_empty (expired_ids timestamp s.store.jobs))) [
        | inl e ↦
            subst (CleanedUp timestamp s) (sym (cleanup-nothing timestamp s e)) (forgotten s.world)
        | inr e ↦ elim (Result-cases (forget host (expired_ids timestamp s.store.jobs) s).0) [
          | inl (tt, h) ↦
              subst (CleanedUp timestamp s) (sym (cleanup-forgets timestamp s v e h)) (forgotten _)
          | inr (x, h) ↦
              subst (CleanedUp timestamp s) (sym (cleanup-fails timestamp s x e h))
                (not_cleaned x _)
        ]
      ]

  kept-Inv :
      (timestamp : ℕ) (s : Scheduler W) (w : W)
      → Inv s
      → Inv (record s { store = kept timestamp s.store; world = w })
  kept-Inv timestamp s w v =
      let q : Job → Bool = λ j. not (is_expired timestamp j) in
      record {
        inventory_keyed = v.inventory_keyed;
        exclusive = record {
          apart = Pairwise-filter Apart q s.store.jobs v.exclusive.apart;
          keyed = All-filter (λ (j : Job). IsKeyed j.devices) q s.store.jobs v.exclusive.keyed;
        };
        numbered = record {
          increasing =
              Pairwise-filter (λ (a b : Job). a.id < b.id) q s.store.jobs v.numbered.increasing;
          bounded =
              All-filter (λ (j : Job). j.id ≤ s.store.next_id) q s.store.jobs v.numbered.bounded;
        };
        distinct_ids =
            All-filter (λ (j : Job). HasDistinctIds j.spec) q s.store.jobs v.distinct_ids;
      }

  CleanedUp-Inv :
      (timestamp : ℕ) (s : Scheduler W) (r : Result Error (Unit {0}) × Scheduler W)
      → CleanedUp timestamp s r
      → Inv s
      → Inv r.1
  CleanedUp-Inv timestamp s _ (forgotten w) v = kept-Inv timestamp s w v
  CleanedUp-Inv timestamp s _ (not_cleaned e w) v = Inv-world s w v

  -- A clean-up keeps the invariant.
  pub cleanup-Inv : (timestamp : ℕ) (s : Scheduler W) → Inv s → Inv (cleanup host timestamp s).1
  cleanup-Inv timestamp s v =
      CleanedUp-Inv timestamp s (cleanup host timestamp s)
        (cleanup-CleanedUp timestamp s v.numbered) v
