-- ===== src/Scheduler/Tick/Order/Complete.antt =====
-- src/scheduler.rs, `tick`: the positions of all pending jobs are in the order.
use xlurm.Base.{
  ℕ, zero, suc, ◌+◌, ◌≡◌, subst, ◌≢◌, ◌↔◌, inl, inr, Bool, true, some, List, [], ◌∷◌, arith,
  nat_beq_iff, Bool-cases, nat_eq, ◌==◌, beq_refl, option_eq, text_eq, get_elem?, contains, All,
  Pairwise, int_eq,
}
use xlurm.Model.{kind_eq, state_eq, Job, pending}
use xlurm.Scheduler.Tick.{
  is_pending, pending_from, insert_sorted, sort_by, larger_first, pending_order,
}
use xlurm.Scheduler.Tick.Order.{IsPendingAt, pending_order-pending, pending_order-distinct}

module _ (before : ℕ → ℕ → Bool) (P : ℕ → Type 0) where
  insert_sorted-All_back :
      (x : ℕ) (ys : List ℕ) → All P (insert_sorted before x ys) → P x × All P ys
  unfolding insert_sorted
  insert_sorted-All_back x [] h = h
  insert_sorted-All_back x (y ∷ ys) h = elim (Bool-cases (before x y)) [
    | inl e ↦ rw e at h
    | inr n ↦
        let h' : P y × All P (insert_sorted before x ys) = rw n at h in
        let (p, rest) = insert_sorted-All_back x ys h'.1 in (p, (h'.0, rest))
  ]

  sort_by-All_back : (xs : List ℕ) → All P (sort_by before xs) → All P xs
  unfolding sort_by
  sort_by-All_back [] h = tt
  sort_by-All_back (x ∷ xs) h =
      let (p, rest) = insert_sorted-All_back x (sort_by before xs) h in
      (p, sort_by-All_back xs rest)

pending_from-complete :
    (P : ℕ → Type 0) (n : ℕ) (jobs : List Job) (i : ℕ) (j : Job)
    → All P (pending_from n jobs)
    → get_elem? jobs i ≡ some j
    → j.state ≡ pending
    → P (n + i)
unfolding pending_from
pending_from-complete P n [] i j h at waits = absurd (cc)
pending_from-complete P n (x ∷ jobs) zero j h at waits =
    let here : is_pending x ≡ true = ground (arith, at, waits) in
    let h' : P n × All P (pending_from (suc n) jobs) = rw here at h in
    let same : n ≡ n + 0 = omega arith in subst P same h'.0
pending_from-complete P n (x ∷ jobs) (suc i) j h at waits =
    let same : suc n + i ≡ n + suc i = omega arith in
    elim (Bool-cases (is_pending x)) [
      | inl y ↦
          let h' : P n × All P (pending_from (suc n) jobs) = rw y at h in
          subst P same (pending_from-complete P (suc n) jobs i j h'.1 at waits)
      | inr f ↦
          let h' : All P (pending_from (suc n) jobs) = rw f at h in
          subst P same (pending_from-complete P (suc n) jobs i j h' at waits)
    ]

-- The position of a pending job is in the order.
pub pending_order-complete :
    (P : ℕ → Type 0) (jobs : List Job) (i : ℕ) (j : Job)
    → All P (pending_order jobs)
    → get_elem? jobs i ≡ some j
    → j.state ≡ pending
    → P i
unfolding pending_order
pending_order-complete P jobs i j h at waits =
    let same : 0 + i ≡ i = omega arith in
    subst P same (
      pending_from-complete P 0 jobs i j
        (sort_by-All_back (larger_first jobs) P (pending_from 0 jobs) h) at waits)

contains-All : (P : ℕ → Type 0) (xs : List ℕ) (i : ℕ) → All P xs → contains xs i ≡ true → P i
contains-All P [] i h e = absurd (cc)
contains-All P (x ∷ xs) i h e = elim (Bool-cases (x == i)) [
  | inl y ↦ subst P ((nat_beq_iff x i).0 y) h.0
  | inr n ↦ contains-All P xs i h.1 (ground (arith, n, e))
]

All-contains :
    (xs ys : List ℕ)
    → ((i : ℕ) → contains ys i ≡ true → contains xs i ≡ true)
    → All (λ i. contains xs i ≡ true) ys
All-contains xs [] h = tt
All-contains xs (y ∷ ys) h =
    (h y (ground (arith, beq_refl y)), All-contains xs ys (λ i e. h i (ground (arith, e))))

-- The positions in the order are those of the pending jobs of the queue, all of them and no others,
-- and no position stands in it twice.
pub pending_order-exact :
    (jobs : List Job)
    → ((i : ℕ) → (contains (pending_order jobs) i ≡ true) ↔ IsPendingAt jobs i)
      × Pairwise (λ a b. a ≢ b) (pending_order jobs)
pending_order-exact jobs = (
  (λ i. (
    contains-All (IsPendingAt jobs) (pending_order jobs) i (pending_order-pending jobs),
    (λ (j, at, waits).
        pending_order-complete (λ k. contains (pending_order jobs) k ≡ true) jobs i j
          (All-contains (pending_order jobs) (pending_order jobs) (λ k e. e)) at waits),
  )),
  pending_order-distinct jobs,
)
