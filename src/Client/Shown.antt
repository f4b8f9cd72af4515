-- ===== src/Client/Shown.antt =====
-- src/cli.rs, `visible_queue_jobs`: which jobs `xqueue` lists, and in which order.
use xlurm.Base.{
  ℕ, zero, suc, ◌≤◌, ◌≡◌, refl, Bool, true, false, not, ◌||◌, List, [], ◌∷◌, arith, nat_eq,
  option_eq, text_eq, length, take, filter, all, length-append, All, Pairwise, All-take, All-append,
  All-intro, All-imp, filter-holds, int_eq,
}
use xlurm.Model.{kind_eq, state_beq_iff, state_eq, terminal, JobSummary, running}
use xlurm.Scheduler.Tick.Order.{sort_by-All, sort_by-Pairwise}
use xlurm.Client.{default_queue_limit, shown_before, reverse, newest, visible_queue_jobs}

module _ {κ} (P : JobSummary → Type κ) where
  reverse-All : (js : List JobSummary) → All P js → All P (reverse js)
  unfolding reverse
  reverse-All [] h = tt
  reverse-All (j ∷ js) h = All-append P (reverse js) (j ∷ []) (reverse-All js h.1) (h.0, tt)

reverse-length : (js : List JobSummary) → length (reverse js) ≡ length js
unfolding reverse
reverse-length [] = refl
reverse-length (j ∷ js) = omega (arith, length-append (reverse js) (j ∷ []), reverse-length js)

length-take_le : (n : ℕ) (js : List JobSummary) → length (take n js) ≤ n
length-take_le zero js = omega arith
length-take_le (suc n) [] = omega arith
length-take_le (suc n) (j ∷ js) = ground (arith, length-take_le n js)

newest-active : (jobs : List JobSummary) → All (λ j. terminal j.state ≡ false) (newest jobs false)
unfolding newest
newest-active jobs =
    reverse-All (λ j. terminal j.state ≡ false) _
      (All-take (λ j. terminal j.state ≡ false) default_queue_limit _
        (All-imp (λ j. not (terminal j.state) ≡ true) (λ j. terminal j.state ≡ false) _
          (λ j e. ground arith)
          (filter-holds (λ (j : JobSummary). not (terminal j.state)) (reverse jobs))))

newest-length : (jobs : List JobSummary) (all : Bool) → length (newest jobs all) ≤ 100
unfolding newest
newest-length jobs all =
    let kept = filter (λ (j : JobSummary). all || not (terminal j.state)) (reverse jobs) in
    omega (arith, reverse-length (take default_queue_limit kept), length-take_le 100 kept)

any_pair : (js : List JobSummary) → Pairwise (λ _ _. Unit {0}) js
any_pair [] = tt
any_pair (j ∷ js) = (All-intro (λ _. Unit {0}) (λ _. tt) js, any_pair js)

-- Without `--all`, only jobs that have not ended are listed, and the running ones stand first.
pub visible_queue_jobs-active :
    (jobs : List JobSummary)
    → All (λ j. terminal j.state ≡ false) (visible_queue_jobs jobs false)
      × Pairwise (λ a b. b.state ≡ running → a.state ≡ running) (visible_queue_jobs jobs false)
unfolding visible_queue_jobs
visible_queue_jobs-active jobs = (
  sort_by-All shown_before (λ j. terminal j.state ≡ false) (newest jobs false) (newest-active jobs),
  sort_by-Pairwise shown_before (λ a b. b.state ≡ running → a.state ≡ running) (λ _ _. Unit {0})
      (λ x y _ e r.
        (state_beq_iff x.state running).0 (ground (arith, (state_beq_iff y.state running).1 r)))
      (λ x y _ e r. (state_beq_iff y.state running).0 (ground arith)) (λ x y z e p q _ r. p (q r))
      (newest jobs false) (any_pair (newest jobs false)),
)
