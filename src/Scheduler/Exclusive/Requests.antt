-- ===== src/Scheduler/Exclusive/Requests.antt =====
-- What a job keeps through every step, and what follows for the whole queue.
use xlurm.Base.{
  ◌≤◌, ◌<◌, ◌≡◌, refl, List, [], ◌∷◌, arith, nat_eq, option_eq, text_eq, All, Pairwise, int_eq,
}
use xlurm.Model.{kind_eq, state_eq, Job, Store}
use xlurm.Scheduler.Allocate.Complete.{HasDistinctIds}
use xlurm.Scheduler.Tick.Cases.{Each, Polled, untouched, collected}
use xlurm.Scheduler.Exclusive.{IsNumbered, Weaker}

-- What stays of a job, whatever happens to it.
pub record SameRequest (j k : Job) : Type 0 where
  pub same_id : k.id ≡ j.id
  pub same_spec : k.spec ≡ j.spec
  pub same_owner : k.owner ≡ j.owner

module _ {ℓ} {A : Type ℓ} (S : A → A → Type 0) where
  pub Each-All :
      (P : A → Type 0)
      → ((a b : A) → S a b → P a → P b)
      → (xs ys : List A) → Each S xs ys
      → All P xs
      → All P ys
  Each-All P h [] [] e p = tt
  Each-All P h [] (y ∷ ys) e p = absurd e
  Each-All P h (x ∷ xs) [] e p = absurd e
  Each-All P h (x ∷ xs) (y ∷ ys) e p = (h x y e.0 p.0, Each-All P h xs ys e.1 p.1)

  pub Each-Pairwise :
      (R : A → A → Type 0)
      → ((a b c d : A) → S a c → S b d → R a b → R c d)
      → (xs ys : List A) → Each S xs ys
      → Pairwise R xs
      → Pairwise R ys
  Each-Pairwise R h [] [] e p = tt
  Each-Pairwise R h [] (y ∷ ys) e p = absurd e
  Each-Pairwise R h (x ∷ xs) [] e p = absurd e
  Each-Pairwise R h (x ∷ xs) (y ∷ ys) e p = (against xs ys e.1 p.0, Each-Pairwise R h xs ys e.1 p.1)
    where
      against : (bs ds : List A) → Each S bs ds → All (R x) bs → All (R y) ds
      against [] [] f q = tt
      against [] (d ∷ ds) f q = absurd f
      against (b ∷ bs) [] f q = absurd f
      against (b ∷ bs) (d ∷ ds) f q = (h x b y d e.0 f.0 q.0, against bs ds f.1 q.1)

pub Each-imp {ℓ} :
    {A : Type ℓ} (R S : A → A → Type 0) (xs ys : List A)
    → ((a b : A) → R a b → S a b)
    → Each R xs ys
    → Each S xs ys
Each-imp R S [] [] h e = tt
Each-imp R S [] (y ∷ ys) h e = absurd e
Each-imp R S (x ∷ xs) [] h e = absurd e
Each-imp R S (x ∷ xs) (y ∷ ys) h e = (h x y e.0, Each-imp R S xs ys h e.1)

pub Polled-Weaker : (j k : Job) → Polled j k → Weaker j k
Polled-Weaker j k (untouched e) = rw e (record { same_devices = refl; was_running = λ h. h })
Polled-Weaker j k (collected o r e) = rw e (record { same_devices = refl; was_running = λ h. r })

pub Polled-SameRequest : (j k : Job) → Polled j k → SameRequest j k
Polled-SameRequest j k (untouched e) =
    rw e (record { same_id = refl; same_spec = refl; same_owner = refl })
Polled-SameRequest j k (collected o r e) =
    rw e (record { same_id = refl; same_spec = refl; same_owner = refl })

-- Jobs that keep their requests stay numbered, and keep distinct IDs.
pub SameRequest-IsNumbered :
    (st : Store) (jobs : List Job)
    → Each SameRequest st.jobs jobs
    → IsNumbered st
    → IsNumbered (record { next_id = st.next_id; jobs = jobs })
SameRequest-IsNumbered st jobs e v = record {
  increasing =
      Each-Pairwise SameRequest (λ (a b : Job). a.id < b.id) (λ a b c d p q lt. ground arith)
        st.jobs jobs e v.increasing;
  bounded =
      Each-All SameRequest (λ (j : Job). j.id ≤ st.next_id) (λ a b p le. ground arith) st.jobs jobs
        e v.bounded;
}

pub SameRequest-distinct :
    (xs ys : List Job)
    → Each SameRequest xs ys
    → All (λ (j : Job). HasDistinctIds j.spec) xs
    → All (λ (j : Job). HasDistinctIds j.spec) ys
SameRequest-distinct =
    Each-All SameRequest (λ (j : Job). HasDistinctIds j.spec) (λ a b p h. rw p.same_spec h)
