-- ===== src/Scheduler/Tick/Order.antt =====
-- The positions that `tick` goes through: pending jobs, each once, those with more devices first and
-- earlier submissions first among equals.
pub mod Complete
use mathlib.Core.List.{Perm}
use mathlib.Core.List.Perm
use xlurm.Base.{
  ℕ, suc, ◌+◌, ◌≤◌, ◌<◌, ◌≡◌, refl, ap, ◌≢◌, inl, inr, Bool, true, false, some, List, [], ◌∷◌,
  arith, Bool-cases, nat_eq, option_eq, text_eq, get_elem?, All, Pairwise, All-imp, Pairwise-imp,
  int_eq,
}
use xlurm.Model.{kind_eq, state_beq_iff, state_eq, Job, pending}
use xlurm.Scheduler.Tick.{
  is_pending, pending_from, insert_sorted, sort_by, count_at, larger_first, pending_order,
}

abbrev pub IsPendingAt : List Job → ℕ → Type 0
IsPendingAt jobs i = (j : Job) × (get_elem? jobs i ≡ some j) × (j.state ≡ pending)

-- The list counts from `n`.
abbrev IsPendingFrom : ℕ → List Job → ℕ → Type 0
IsPendingFrom n jobs i = (k : ℕ) × (i ≡ n + k) × IsPendingAt jobs k

later :
    (n : ℕ) (j : Job) (jobs : List Job) (i : ℕ)
    → IsPendingFrom (suc n) jobs i
    → IsPendingFrom n (j ∷ jobs) i
later n j jobs i (k, e, at) = (suc k, omega arith, at)

pending_from-pending : (n : ℕ) (jobs : List Job) → All (IsPendingFrom n jobs) (pending_from n jobs)
unfolding pending_from
pending_from-pending n [] = tt
pending_from-pending n (j ∷ jobs) =
    let rest : All (IsPendingFrom n (j ∷ jobs)) (pending_from (suc n) jobs) =
      All-imp _ _ _ (later n j jobs) (pending_from-pending (suc n) jobs) in
    elim (Bool-cases (is_pending j)) [
      | inl y ↦ rw y ((0, omega arith, (j, refl, (state_beq_iff j.state pending).0 y)), rest)
      | inr n ↦ rw n rest
    ]

-- An order of two positions that `tick` keeps: more devices first, then by submission.
abbrev pub InOrder : List Job → ℕ → ℕ → Type 0
InOrder jobs a b = (count_at jobs b ≤ count_at jobs a) × (count_at jobs a ≡ count_at jobs b → a < b)

pending_from-increasing :
    (n : ℕ) (jobs : List Job)
    → All (λ i. n ≤ i) (pending_from n jobs) × Pairwise (λ a b. a < b) (pending_from n jobs)
unfolding pending_from
pending_from-increasing n [] = (tt, tt)
pending_from-increasing n (j ∷ jobs) =
    let (above, increasing) = pending_from-increasing (suc n) jobs in
    let weaker : All (λ i. n ≤ i) (pending_from (suc n) jobs) =
      All-imp (λ i. suc n ≤ i) (λ i. n ≤ i) _ (λ i h. omega arith) above in
    elim (Bool-cases (is_pending j)) [
      | inl y ↦ rw y ((omega arith, weaker), (above, increasing))
      | inr n ↦ rw n (weaker, increasing)
    ]

module _ {ℓ} {A : Type ℓ} (before : A → A → Bool) where
  pub insert_sorted-perm : (x : A) (ys : List A) → Perm (insert_sorted before x ys) (x ∷ ys)
  unfolding insert_sorted
  insert_sorted-perm x [] = Perm.rfl
  insert_sorted-perm x (y ∷ ys) = elim (Bool-cases (before x y)) [
    | inl e ↦ rw e Perm.rfl
    | inr e ↦ rw e (Perm.trans (Perm.cons y (insert_sorted-perm x ys)) (Perm.swap x y ys))
  ]

  -- A sort keeps every element.
  pub sort_by-perm : (xs : List A) → Perm (sort_by before xs) xs
  unfolding sort_by
  sort_by-perm [] = Perm.rfl
  sort_by-perm (x ∷ xs) =
      Perm.trans (insert_sorted-perm x (sort_by before xs)) (Perm.cons x (sort_by-perm xs))

  module _ {κ} (P : A → Type κ) where
    insert_sorted-All : (x : A) (ys : List A) → P x → All P ys → All P (insert_sorted before x ys)
    unfolding insert_sorted
    insert_sorted-All x [] p h = (p, tt)
    insert_sorted-All x (y ∷ ys) p h = elim (Bool-cases (before x y)) [
      | inl e ↦ rw e (p, h)
      | inr e ↦ rw e (h.0, insert_sorted-All x ys p h.1)
    ]

    pub sort_by-All : (xs : List A) → All P xs → All P (sort_by before xs)
    unfolding sort_by
    sort_by-All [] h = tt
    sort_by-All (x ∷ xs) h = insert_sorted-All x (sort_by before xs) h.0 (sort_by-All xs h.1)

  module _ {κ} (R Earlier : A → A → Type κ)
      (keep : (x y : A) → Earlier x y → before x y ≡ true → R x y)
      (swap : (x y : A) → Earlier x y → before x y ≡ false → R y x)
      (chain : (x y z : A) → before x y ≡ true → R x y → R y z → Earlier x z → R x z) where
    onward :
        (x y : A)
        → before x y ≡ true
        → R x y
        → (zs : List A) → All (Earlier x) zs
        → All (R y) zs
        → All (R x) zs
    onward x y e r [] a b = tt
    onward x y e r (z ∷ zs) a b = (chain x y z e r b.0 a.0, onward x y e r zs a.1 b.1)

    insert_sorted-Pairwise :
        (x : A) (ys : List A)
        → All (Earlier x) ys
        → Pairwise R ys
        → Pairwise R (insert_sorted before x ys)
    unfolding insert_sorted
    insert_sorted-Pairwise x [] h r = (tt, tt)
    insert_sorted-Pairwise x (y ∷ ys) h r = elim (Bool-cases (before x y)) [
      | inl e ↦ rw e ((keep x y h.0 e, onward x y e (keep x y h.0 e) ys h.1 r.0), r)
      | inr e ↦
          rw e
            (insert_sorted-All (R y) x ys (swap x y h.0 e) r.0, insert_sorted-Pairwise x ys h.1 r.1)
    ]

    -- The result is ordered, also between elements that the test does not tell apart.
    pub sort_by-Pairwise : (xs : List A) → Pairwise Earlier xs → Pairwise R (sort_by before xs)
    unfolding sort_by
    sort_by-Pairwise [] h = tt
    sort_by-Pairwise (x ∷ xs) h =
        insert_sorted-Pairwise x (sort_by before xs) (sort_by-All (Earlier x) xs h.0)
          (sort_by-Pairwise xs h.1)

module _ (jobs : List Job) where
  pub pending_order-pending : All (IsPendingAt jobs) (pending_order jobs)
  unfolding pending_order
  pending_order-pending =
      sort_by-All (larger_first jobs) (IsPendingAt jobs) (pending_from 0 jobs)
        (All-imp (IsPendingFrom 0 jobs) (IsPendingAt jobs) _ unshift (pending_from-pending 0 jobs))
    where
      unshift : (i : ℕ) → IsPendingFrom 0 jobs i → IsPendingAt jobs i
      unshift i (k, e, at) = let same : i ≡ k = omega arith in rw same at

  -- Pending jobs are tried by falling number of devices, and in the order of the queue where that is
  -- the same.
  pub pending_order-InOrder : Pairwise (InOrder jobs) (pending_order jobs)
  unfolding pending_order
  pending_order-InOrder =
      sort_by-Pairwise (larger_first jobs) (InOrder jobs) (λ a b. a < b) keep swap chain
        (pending_from 0 jobs) (pending_from-increasing 0 jobs).1
    where
      keep : (a b : ℕ) → a < b → larger_first jobs a b ≡ true → InOrder jobs a b
      keep a b lt e = ground arith

      swap : (a b : ℕ) → a < b → larger_first jobs a b ≡ false → InOrder jobs b a
      swap a b lt e = ground arith

      chain :
          (a b c : ℕ)
          → larger_first jobs a b ≡ true
          → InOrder jobs a b
          → InOrder jobs b c
          → a < c
          → InOrder jobs a c
      chain a b c e p q lt = ground arith

  pub pending_order-distinct : Pairwise (λ a b. a ≢ b) (pending_order jobs)
  pending_order-distinct =
      Pairwise-imp (InOrder jobs) (λ a b. a ≢ b) (pending_order jobs)
        (λ a b o same. absurd (ground (arith, ap (count_at jobs) same))) pending_order-InOrder
