-- ===== src/Scheduler/Cleanup/Garbage.antt =====
-- Which files of the `jobs` directory a clean-up deletes.
use xlurm.Storage.{file_name}
use xlurm.Base.{
  ℕ, ◌^◌, ◌≤◌, ◌<◌, ◌≡◌, refl, false, ◌&&◌, some, List, [], ◌∷◌, ◌++◌, arith, nat_eq, ◌==◌,
  beq_refl, option_eq, Text, text_eq, contains, All, All-imp, to_string, parse-to_string,
  to_string-digits, int_eq,
}
use xlurm.Scheduler.Cleanup.{split_once, is_job_file, file_job, is_garbage}

split_once-append :
    (c : ℕ) (xs ys : Text)
    → All (λ x. (x == c) ≡ false) xs
    → split_once c (xs ++ c ∷ ys) ≡ some (xs, ys)
unfolding split_once
split_once-append c [] ys h = rw (beq_refl c) refl
split_once-append c (x ∷ xs) ys h = rw (h.0, split_once-append c xs ys h.1) refl

no_dot : (xs : Text) → All (λ c. b'0' ≤ c) xs → All (λ x. (x == b'.') ≡ false) xs
no_dot xs = All-imp (λ c. b'0' ≤ c) (λ x. (x == b'.') ≡ false) xs (λ c h. ground arith)

file_job-file_name :
    (id : ℕ) (extension : Text)
    → id < 2 ^ 64
    → file_job (file_name id extension) ≡ some (id, extension)
unfolding file_job file_name
file_job-file_name id extension h =
    let split =
      split_once-append b'.' (to_string id) extension
        (no_dot (to_string id) (to_string-digits id)) in
    rw (split, file_job) (rw (parse-to_string (2 ^ 64) id h) refl)

-- Of the files of a job, whose number is a `u64`, `cleanup` deletes those with an extension of its
-- own, if the job is among the expired ones. No other job's file is ever taken for one of them.
pub is_garbage-file_name :
    (expired : List ℕ) (id : ℕ) (extension : Text)
    → id < 2 ^ 64
    → is_garbage expired (file_name id extension) ≡ (contains expired id && is_job_file extension)
unfolding is_garbage
is_garbage-file_name expired id extension h =
    rw (file_job-file_name id extension h, is_garbage) refl
