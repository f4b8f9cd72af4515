-- ===== src/Client/Clean/Removed.antt =====
-- src/cli.rs, `clean`: which files are removed, and when.
use xlurm.Base.{
  ℕ, ◌^◌, ◌≡◌, refl, sym, ap, ◌∙◌, subst, ◌≢◌, ◌⊎◌, inl, inr, true, not, ◌&&◌, some, List, [], ◌∷◌,
  ◌++◌, map, arith, nat_beq_iff, Bool-cases, Option-cases, nat_eq, ◌==◌, list_beq_iff, option_eq,
  Text, text, text_eq, is_empty, filter, All, >>=-lands, ensure-lands, ok, parse, int_eq,
}
use xlurm.Model.{kind_eq, state_beq_iff, state_eq, Job, Store, running}
use xlurm.Model.Errors.{
  Error, not_a_directory_of_the_daemon, writable_by_other_users, invalid_jobs_directory_owner,
  daemon_running, cannot_clean_while_running,
}
use xlurm.Storage.{
  join, state_path, jobs_path, read_json, try_lock, FileSystem, Json, Removal, removed, missing,
  refused, Entry, named, unnamed, unreadable,
}
use xlurm.Storage.Trusted.Own.{metadata-world, check_ancestor-world}
use xlurm.Storage.Trusted.{
  others_write, metadata, check_ancestor, check_ancestors, root_checks, initialize, Directories,
}
use xlurm.Scheduler.Cleanup.{split_once}
use xlurm.Client.Clean.{
  is_job_log, ids_of_running, remove_if_there, remove_logs, stored_queue, clean, initialized,
  locked_by,
}

split_once-parts : (c : ℕ) (t a b : Text) → split_once c t ≡ some (a, b) → t ≡ a ++ c ∷ b
unfolding split_once
split_once-parts c [] a b e = absurd (cc)
split_once-parts c (x ∷ t) a b e = elim (Bool-cases (x == c)) [
  | inl y ↦
      let equal : some ([], t) ≡ some (a, b) = rw y at e in
      let same : x ≡ c = (nat_beq_iff x c).0 y in cc
  | inr n ↦ elim (Option-cases (split_once c t)) [
    | inl m ↦ absurd (ground (arith, rw (n, m) at e))
    | inr ((a', b'), m) ↦
        let equal : some (x ∷ a', b') ≡ some (a, b) = rw (n, m) at e in
        let rest = split_once-parts c t a' b' m in cc
  ]
]

-- The log of a job, by the number in its name, or the daemon's own.
unfoldable pub IsLog : Text → Text → Type 0
IsLog home path =
    (path ≡ join home (text "daemon.log"))
    ⊎ ((stem : Text) × (id : ℕ) × (parse (2 ^ 64) stem ≡ some id)
        × (path ≡ join (jobs_path home) (stem ++ text ".log")))

is_job_log-IsLog :
    (home name : Text) → is_job_log name ≡ true → IsLog home (join (jobs_path home) name)
unfolding is_job_log IsLog
is_job_log-IsLog home name e = elim (Option-cases (split_once b'.' name)) [
  | inl n ↦ absurd (ground (arith, rw (n, is_job_log) at e))
  | inr ((stem, extension), s) ↦ elim (Option-cases (parse (2 ^ 64) stem)) [
    | inl n ↦ absurd (ground (arith, rw (s, n, is_job_log) at e))
    | inr (id, p) ↦
        let ends : (extension == text "log") ≡ true = rw (s, p, is_job_log) at e in
        let same : extension ≡ text "log" = (list_beq_iff extension (text "log")).0 ends in
        inr (
          stem,
          id,
          p,
          ap (join (jobs_path home))
              (split_once-parts b'.' name stem extension s ∙ ap (λ x. stem ++ b'.' ∷ x) same),
        )
  ]
]

none-running :
    (jobs : List Job)
    → is_empty (map (λ (j : Job). j.id) (filter (λ (j : Job). j.state == running) jobs)) ≡ true
    → All (λ j. j.state ≢ running) jobs
none-running [] e = tt
none-running (j ∷ jobs) e = elim (Bool-cases (j.state == running)) [
  | inl y ↦ absurd (ground (arith, rw y at e))
  | inr n ↦ (
    (λ h. absurd (ground (arith, n, (state_beq_iff j.state running).1 h))),
    none-running jobs (rw n at e),
  )
]

module _ {W : Type 0} (fs : FileSystem W) (directories : Directories W) (store_json : Json Store)
    (home : Text) where
  Removal-cases : (r : Removal) → (r ≡ removed) ⊎ ((r ≡ missing) ⊎ ((e : Error) × (r ≡ refused e)))
  Removal-cases removed = inl refl
  Removal-cases missing = inr (inl refl)
  Removal-cases (refused e) = inr (inr (e, refl))

  remove_if_there-world :
      (path : Text) (v : W)
      → (remove_if_there fs directories store_json home path v).1 ≡ (fs.remove_file path v).1
  unfolding remove_if_there
  remove_if_there-world path v = elim (Removal-cases (fs.remove_file path v).0) [
    | inl h ↦ rw (h, remove_if_there) refl
    | inr (inl h) ↦ rw (h, remove_if_there) refl
    | inr (inr (e, h)) ↦ rw (h, remove_if_there) refl
  ]

  -- `clean`, from the state `w`, may remove a file: it is a log, the lock of the daemon has been taken,
  -- and no job runs in the queue that has been read.
  unfoldable pub MayRemove : W → Text → Type 0
  MayRemove w path =
      IsLog home path
      × ((try_lock fs (join home (text "daemon.lock"))
            (initialized fs directories store_json home w)).0
          ≡ ok true)
      × ((store : Store) × ((stored_queue fs directories store_json home
              (locked_by fs directories store_json home w)).0
            ≡ ok store)
          × All (λ j. j.state ≢ running) store.jobs)

  -- A property of the world that the calls keep, all but the removal of files.
  pub record KeptElsewhere (P : W → Type 0) : Type 0 where
    pub lstat : (path : Text) (w : W) → P w → P (directories.symlink_metadata path w).1
    pub mkdir : (path : Text) (w : W) → P w → P (directories.create_dir_all path w).1
    pub chmod :
        (path : Text) (mode : ℕ) (w : W) → P w → P (directories.set_permissions path mode w).1
    pub opens : (w : W) → P w → P (fs.open_or_create (join home (text "daemon.lock")) w).1
    pub locks : (w : W) → P w → P (fs.flock (join home (text "daemon.lock")) w).1
    pub reads : (w : W) → P w → P (fs.read (state_path home) w).1
    pub lists : (w : W) → P w → P (fs.read_dir (jobs_path home) w).1

  module _ (P : W → Type 0) (kept : KeptElsewhere P) where
    metadata-kept : (path : Text) (w : W) → P w → P (metadata directories path w).1
    metadata-kept path w h = rw (sym (metadata-world directories path w)) at (kept.lstat path w h)

    check_ancestor-kept : (path : Text) (w : W) → P w → P (check_ancestor directories path w).1
    check_ancestor-kept path w h =
        rw (sym (check_ancestor-world directories path w)) at (kept.lstat path w h)

    check_ancestors-kept :
        (paths : List Text) (w : W) → P w → P (check_ancestors directories paths w).1
    unfolding check_ancestors
    check_ancestors-kept [] w h = h
    check_ancestors-kept (path ∷ paths) w h =
        >>=-lands P (check_ancestor directories path) _ w (check_ancestor-kept path w h)
          (λ a e g. check_ancestors-kept paths _ g)

    root_checks-kept : (w : W) → P w → P (root_checks directories home w).1
    unfolding root_checks
    root_checks-kept w h = elim (Bool-cases (directories.geteuid == 0)) [
      | inl y ↦ rw y (check_ancestors-kept (directories.ancestors home) w h)
      | inr n ↦ rw n h
    ]

    initialize-kept : (w : W) → P w → P (initialize directories home w).1
    unfolding initialize
    initialize-kept w h =
        >>=-lands P (root_checks directories home) _ w (root_checks-kept w h) λ _ _ h0.
          >>=-lands P (directories.create_dir_all home) _ _ (kept.mkdir home _ h0) λ _ _ h1.
            >>=-lands P (metadata directories home) _ _ (metadata-kept home _ h1) λ meta _ h2.
              ensure-lands P (meta.is_dir && meta.uid == directories.geteuid)
                not_a_directory_of_the_daemon _ _ h2
                λ _.
                  ensure-lands P (not (others_write meta.mode)) writable_by_other_users _ _ h2 λ _.
                    >>=-lands P (directories.set_permissions home 493) _ _
                      (kept.chmod home 493 _ h2)
                      λ _ _ h3.
                        >>=-lands P (directories.create_dir_all (jobs_path home)) _ _
                          (kept.mkdir (jobs_path home) _ h3)
                          λ _ _ h4.
                            >>=-lands P (metadata directories (jobs_path home)) _ _
                              (metadata-kept (jobs_path home) _ h4)
                              λ jobs _ h5.
                                ensure-lands P (jobs.is_dir && jobs.uid == directories.geteuid)
                                  invalid_jobs_directory_owner _ _ h5
                                  λ _. kept.chmod (jobs_path home) 448 _ h5

    try_lock-kept : (w : W) → P w → P (try_lock fs (join home (text "daemon.lock")) w).1
    unfolding try_lock
    try_lock-kept w h =
        >>=-lands P (fs.open_or_create (join home (text "daemon.lock"))) _ w (kept.opens w h)
          λ _ _ g. kept.locks _ g

    stored_queue-kept : (w : W) → P w → P (stored_queue fs directories store_json home w).1
    unfolding stored_queue read_json
    stored_queue-kept w h = elim (Bool-cases (fs.exists (state_path home) w)) [
      | inr n ↦ rw n h
      | inl y ↦ rw y (
          >>=-lands P (fs.read (state_path home)) _ w (kept.reads w h) (λ content _ g.
            elim (Option-cases (store_json.from_json content)) [
              | inl m ↦ rw m g
              | inr (store, m) ↦ rw m g
            ]))
    ]

    module _
        (removal : (path : Text)
          → IsLog home path
          → (v : W) → P v
          → P (fs.remove_file path v).1) where
      remove_if_there-kept :
          (path : Text) (v : W)
          → IsLog home path
          → P v
          → P (remove_if_there fs directories store_json home path v).1
      remove_if_there-kept path v log h =
          subst P (sym (remove_if_there-world path v)) (removal path log v h)

      remove_logs-kept :
          (entries : List Entry) (v : W)
          → P v
          → P (remove_logs fs directories store_json home entries v).1
      unfolding remove_logs
      remove_logs-kept [] v h = h
      remove_logs-kept (unreadable e ∷ entries) v h = h
      remove_logs-kept (unnamed ∷ entries) v h = remove_logs-kept entries v h
      remove_logs-kept (named name ∷ entries) v h = elim (Bool-cases (is_job_log name)) [
        | inr n ↦ rw n (remove_logs-kept entries v h)
        | inl y ↦ rw y (
            >>=-lands P
              (remove_if_there fs directories store_json home (join (jobs_path home) name)) _ v
              (remove_if_there-kept (join (jobs_path home) name) v (is_job_log-IsLog home name y) h)
              (λ gone _ g.
                >>=-lands P (remove_logs fs directories store_json home entries) _ _
                  (remove_logs-kept entries _ g) (λ rest _ k. k)))
      ]

    -- Whatever `clean` does, errors included, it removes no file but the logs of jobs and the daemon's
    -- own, and these only when it has taken the daemon's lock and read a queue in which no job runs: a
    -- property of the world that its other calls keep, and that such removals keep, holds afterwards.
    pub clean-kept :
        (w : W)
        → ((path : Text) → MayRemove w path → (v : W) → P v → P (fs.remove_file path v).1)
        → P w
        → P (clean fs directories store_json home w).1
    unfolding clean MayRemove IsLog
    clean-kept w removal h =
        >>=-lands P (initialize directories home) _ w (initialize-kept w h) λ _ _ h0.
          >>=-lands P (try_lock fs (join home (text "daemon.lock"))) _ _ (try_lock-kept _ h0)
            λ taken locked h1. ensure-lands P taken daemon_running _ _ h1 λ ours.
              >>=-lands P (stored_queue fs directories store_json home) _ _ (stored_queue-kept _ h1)
                λ store read h2.
                  ensure-lands P (is_empty (ids_of_running store))
                    (cannot_clean_while_running (ids_of_running store)) _ _ h2
                    λ free.
                      let may = λ (path : Text) (log : IsLog home path).
                        removal path
                          (log, locked ∙ ap ok ours, (store, read, none-running store.jobs free)) in
                      >>=-lands P (fs.read_dir (jobs_path home)) _ _ (kept.lists _ h2)
                        λ entries _ h3.
                          >>=-lands P (remove_logs fs directories store_json home entries) _ _
                            (remove_logs-kept may entries _ h3)
                            λ logs _ h4.
                              >>=-lands P
                                (remove_if_there fs directories store_json home
                                  (join home (text "daemon.log")))
                                _ _
                                (remove_if_there-kept may (join home (text "daemon.log")) _
                                  (inl refl) h4)
                                λ _ _ h5. h5
