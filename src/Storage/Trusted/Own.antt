-- ===== src/Storage/Trusted/Own.antt =====
-- src/storage.rs, `initialize`: whose the directories are in which the daemon keeps its state.
use xlurm.Base.{
  ℕ, ◌≡◌, refl, sym, ap, ◌∙◌, subst, ◌⊎◌, inl, inr, Bool, true, false, not, ◌&&◌, List, [], ◌∷◌,
  arith, Bool-cases, nat_eq, ◌==◌, option_eq, Text, text_eq, All, All-imp, ensure, ensure-ok,
  >>=-ok, >>=-settled, ensure-settled, ok, int_eq,
}
use xlurm.Model.{kind_eq, state_eq}
use xlurm.Model.Errors.{
  Error, untrusted_ancestor, not_a_directory_of_the_daemon, writable_by_other_users,
  invalid_jobs_directory_owner,
}
use xlurm.Storage.{jobs_path}
use xlurm.Storage.Trusted.{
  others_write, is_trusted, metadata, check_ancestor, check_ancestors, root_checks, initialize,
  Metadata, Directories, Lookup, found, absent, stat_failed,
}

Lookup-cases :
    (r : Lookup)
    → ((meta : Metadata) × (r ≡ found meta)) ⊎ ((r ≡ absent) ⊎ ((e : Error) × (r ≡ stat_failed e)))
Lookup-cases (found meta) = inl (meta, refl)
Lookup-cases absent = inr (inl refl)
Lookup-cases (stat_failed e) = inr (inr (e, refl))

module _ {W : Type 0} (directories : Directories W) where
  open directories use {geteuid, ancestors, symlink_metadata, create_dir_all, set_permissions}

  -- What is at a path.
  abbrev pub at : W → Text → Lookup
  at w path = (symlink_metadata path w).0

  -- What the calls do on a machine on which nobody else changes the directories meanwhile. Only the
  -- parts of `Metadata` count.
  pub record Quiet (home : Text) : Type 0 where
    -- `lstat` changes nothing.
    pub lstat_keeps : (p q : Text) (w : W) → at (symlink_metadata p w).1 q ≡ at w q
    -- A new directory leaves what is there as it is.
    pub mkdir_keeps :
        (p q : Text) (w : W) (meta : Metadata)
        → at w q ≡ found meta
        → at (create_dir_all p w).1 q ≡ found meta
    -- `chmod` on a directory sets its mode, and changes no other path of the two.
    pub chmod_sets :
        (p : Text) (mode : ℕ) (w : W) (meta : Metadata)
        → at w p ≡ found meta
        → meta.is_dir ≡ true
        → (set_permissions p mode w).0 ≡ ok tt
        → at (set_permissions p mode w).1 p ≡ found (record meta { mode = mode })
    pub chmod_keeps :
        (mode : ℕ) (w : W) (meta : Metadata)
        → at w (jobs_path home) ≡ found meta
        → meta.is_dir ≡ true
        → at (set_permissions (jobs_path home) mode w).1 home ≡ at w home

  -- A path was not there, or was a trusted directory.
  abbrev pub PassedOver : W → Text → Type 0
  PassedOver w path =
      (at w path ≡ absent)
      ⊎ ((meta : Metadata) × (at w path ≡ found meta) × (is_trusted meta ≡ true))

  -- A directory of the daemon's own account, of a mode.
  abbrev pub OwnDirectory : W → Text → ℕ → Type 0
  OwnDirectory w path mode =
      (meta : Metadata) × (at w path ≡ found meta)
      × (meta.is_dir ≡ true)
      × (meta.uid ≡ geteuid)
      × (meta.mode ≡ mode)

  -- `initialize` from the state `begun` to the state `ended`.
  pub record IsOwn (home : Text) (begun ended : W) : Type 0 where
    pub passed : geteuid ≡ 0 → All (PassedOver begun) (ancestors home)
    -- Nobody else could write into the state directory when it had been created.
    pub closed :
        (meta : Metadata) × (at (create_dir_all home (root_checks directories home begun).1).1 home
          ≡ found meta)
        × (others_write meta.mode ≡ false)
    pub own_home : OwnDirectory ended home 493
    pub own_jobs : OwnDirectory ended (jobs_path home) 448

  ensured :
      (t : Bool) (path : Text) (w : W) → (ensure t (untrusted_ancestor path) w).0 ≡ ok tt → t ≡ true
  ensured true path w e = refl
  ensured false path w e = absurd (cc)

  both :
      (meta : Metadata)
      → (meta.is_dir && meta.uid == geteuid) ≡ true
      → (meta.is_dir ≡ true) × (meta.uid ≡ geteuid)
  both meta e = (ground arith, ground arith)

  metadata-at :
      (path : Text) (w : W) (meta : Metadata)
      → (metadata directories path w).0 ≡ ok meta
      → at w path ≡ found meta
  unfolding metadata
  metadata-at path w meta e = elim (Lookup-cases (symlink_metadata path w).0) [
    | inl (m, h) ↦ h ∙ ap found (ground (arith, h, e))
    | inr (inl h) ↦ absurd (ground (arith, h, e))
    | inr (inr (x, h)) ↦ absurd (ground (arith, h, e))
  ]

  pub metadata-world :
      (path : Text) (w : W) → (metadata directories path w).1 ≡ (symlink_metadata path w).1
  unfolding metadata
  metadata-world path w = elim (Lookup-cases (symlink_metadata path w).0) [
    | inl (m, h) ↦ rw (h, metadata) refl
    | inr (inl h) ↦ rw (h, metadata) refl
    | inr (inr (x, h)) ↦ rw (h, metadata) refl
  ]

  check_ancestor-PassedOver :
      (path : Text) (w : W) → (check_ancestor directories path w).0 ≡ ok tt → PassedOver w path
  unfolding check_ancestor
  check_ancestor-PassedOver path w e = elim (Lookup-cases (symlink_metadata path w).0) [
    | inl (m, h) ↦ inr (m, h, ensured (is_trusted m) path _ (rw (h, check_ancestor) at e))
    | inr (inl h) ↦ inl h
    | inr (inr (x, h)) ↦ absurd (ground (arith, h, e))
  ]

  pub check_ancestor-world :
      (path : Text) (w : W) → (check_ancestor directories path w).1 ≡ (symlink_metadata path w).1
  unfolding check_ancestor
  check_ancestor-world path w = elim (Lookup-cases (symlink_metadata path w).0) [
    | inl (m, h) ↦ elim (Bool-cases (is_trusted m)) [
      | inl y ↦ rw (h, y, check_ancestor) refl
      | inr n ↦ rw (h, n, check_ancestor) refl
    ]
    | inr (inl h) ↦ rw (h, check_ancestor) refl
    | inr (inr (x, h)) ↦ rw (h, check_ancestor) refl
  ]

  module _ (home : Text) (quiet : Quiet home) where
    check_ancestors-PassedOver :
        (paths : List Text) (w : W)
        → (check_ancestors directories paths w).0 ≡ ok tt
        → All (PassedOver w) paths
    unfolding check_ancestors
    check_ancestors-PassedOver [] w e = tt
    check_ancestors-PassedOver (path ∷ paths) w e =
        let (u, h, e1) = >>=-ok (check_ancestor directories path) _ w e in
        (
          check_ancestor-PassedOver path w h,
          All-imp (PassedOver (check_ancestor directories path w).1) (PassedOver w) paths
              (λ p seen.
                subst
                  (λ l.
                    (l ≡ absent)
                    ⊎ ((meta : Metadata) × (l ≡ found meta) × (is_trusted meta ≡ true)))
                  (ap (λ v. at v p) (check_ancestor-world path w) ∙ quiet.lstat_keeps path p w)
                  seen)
              (check_ancestors-PassedOver paths _ e1),
        )

    metadata-keeps : (p q : Text) (w : W) → at (metadata directories p w).1 q ≡ at w q
    metadata-keeps p q w = ap (λ v. at v q) (metadata-world p w) ∙ quiet.lstat_keeps p q w

    root_checks-PassedOver :
        (w : W)
        → (root_checks directories home w).0 ≡ ok tt
        → geteuid ≡ 0
        → All (PassedOver w) (ancestors home)
    unfolding root_checks
    root_checks-PassedOver w e root =
        let is_root : (geteuid == 0) ≡ true = ground (arith, root) in
        check_ancestors-PassedOver (ancestors home) w (rw is_root at e)

    -- Where the state directory is accepted, and nobody else changes directories meanwhile, it and the
    -- directory of jobs are afterwards directories of the daemon's own account, the first of mode
    -- 0755, the other of mode 0700; nobody else could write into the state directory before its mode was
    -- set; and, for a daemon of root, each of its ancestors was not there at the start, or was a
    -- directory of root in which nobody else can replace what is there.
    pub initialize-IsOwn :
        (w : W)
        → (initialize directories home w).0 ≡ ok tt
        → IsOwn home w (initialize directories home w).1
    unfolding initialize
    initialize-IsOwn w e =
        let (u0, h0, e0) = >>=-ok (root_checks directories home) _ w e in
        let w0 = (root_checks directories home w).1 in
        let (u1, h1, e1) = >>=-ok (create_dir_all home) _ w0 e0 in
        let w1 = (create_dir_all home w0).1 in
        let (meta, h2, e2) = >>=-ok (metadata directories home) _ w1 e1 in
        let w2 = (metadata directories home w1).1 in
        let (ours, e3) =
          ensure-ok (meta.is_dir && meta.uid == geteuid) not_a_directory_of_the_daemon _ w2 e2 in
        let (shut, e4) = ensure-ok (not (others_write meta.mode)) writable_by_other_users _ w2 e3 in
        let (u5, h5, e5) = >>=-ok (set_permissions home 493) _ w2 e4 in
        let w5 = (set_permissions home 493 w2).1 in
        let (u6, h6, e6) = >>=-ok (create_dir_all (jobs_path home)) _ w5 e5 in
        let w6 = (create_dir_all (jobs_path home) w5).1 in
        let (jobs, h7, e7) = >>=-ok (metadata directories (jobs_path home)) _ w6 e6 in
        let w7 = (metadata directories (jobs_path home) w6).1 in
        let (jobs_ours, e8) =
          ensure-ok (jobs.is_dir && jobs.uid == geteuid) invalid_jobs_directory_owner _ w7 e7 in
        let home_now : at w2 home ≡ found meta =
          metadata-keeps home home w1 ∙ metadata-at home w1 meta h2 in
        let home_set =
          metadata-keeps (jobs_path home) home w6
          ∙ quiet.mkdir_keeps (jobs_path home) home w5 _
              (quiet.chmod_sets home 493 w2 meta home_now (both meta ours).0 h5) in
        let jobs_now : at w7 (jobs_path home) ≡ found jobs =
          metadata-keeps (jobs_path home) (jobs_path home) w6
          ∙ metadata-at (jobs_path home) w6 jobs h7 in
        let ended : initialize directories home w ≡ set_permissions (jobs_path home) 448 w7 =
          >>=-settled (root_checks directories home) _ w h0
          ∙ >>=-settled (create_dir_all home) _ w0 h1
          ∙ >>=-settled (metadata directories home) _ w1 h2
          ∙ ensure-settled _ not_a_directory_of_the_daemon _ w2 ours
          ∙ ensure-settled _ writable_by_other_users _ w2 shut
          ∙ >>=-settled (set_permissions home 493) _ w2 h5
          ∙ >>=-settled (create_dir_all (jobs_path home)) _ w5 h6
          ∙ >>=-settled (metadata directories (jobs_path home)) _ w6 h7
          ∙ ensure-settled _ invalid_jobs_directory_owner _ w7 jobs_ours in
        subst (λ r. IsOwn home w r.1) (sym ended)
          (record {
            passed = root_checks-PassedOver w h0;
            closed = (meta, metadata-at home w1 meta h2, ground (arith, shut));
            own_home = (
              record meta { mode = 493 },
              quiet.chmod_keeps 448 w7 jobs jobs_now (both jobs jobs_ours).0 ∙ home_set,
              (both meta ours).0,
              (both meta ours).1,
              refl,
            );
            own_jobs = (
              record jobs { mode = 448 },
              quiet.chmod_sets (jobs_path home) 448 w7 jobs jobs_now (both jobs jobs_ours).0 e8,
              (both jobs jobs_ours).0,
              (both jobs jobs_ours).1,
              refl,
            );
          })
