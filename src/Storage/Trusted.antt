-- ===== src/Storage/Trusted.antt =====
-- src/storage.rs, `initialize`: the directories of the state.
pub mod Own
use xlurm.Base.{
  ℕ, ◌/◌, ◌%◌, Bool, not, ◌&&◌, ◌||◌, List, [], ◌∷◌, if◌then◌else◌, nat_eq, ◌==◌, option_eq, Text,
  text, text_eq, ◌>>=◌, ◌>>◌, pure, ensure, Result, ok, err, int_eq,
}
use xlurm.Model.Errors.{
  Error, untrusted_ancestor, not_a_directory_of_the_daemon, writable_by_other_users,
  invalid_jobs_directory_owner, system,
}
use xlurm.Storage.{jobs_path}

pub record Metadata : Type 0 where
  pub is_dir : Bool
  pub uid : ℕ
  pub mode : ℕ

-- `fs::symlink_metadata`, with `ErrorKind::NotFound` apart from the other errors.
pub data Lookup : Type 0 where
  found : Metadata → Lookup
  absent : Lookup
  stat_failed : Error → Lookup

-- The calls on directories. `ancestors` are those of a path without the path itself.
pub record Directories (W : Type 0) : Type 0 where
  pub geteuid : ℕ
  pub ancestors : (path : Text) → List Text
  pub symlink_metadata : (path : Text) → W → Lookup × W
  pub create_dir_all : (path : Text) → W → Result Error (Unit {0}) × W
  pub set_permissions : (path : Text) (mode : ℕ) → W → Result Error (Unit {0}) × W

-- `mode & 0o022 != 0`: the group or others may write.
abbrev pub others_write : ℕ → Bool
others_write mode = ((mode / 16) % 2 == 1) || ((mode / 2) % 2 == 1)

-- `mode & S_ISVTX != 0`
abbrev pub is_sticky : ℕ → Bool
is_sticky mode = (mode / 512) % 2 == 1

-- A directory of root in which nobody else can replace what is there.
abbrev pub is_trusted : Metadata → Bool
is_trusted meta =
    meta.is_dir && (meta.uid == 0) && (not (others_write meta.mode) || is_sticky meta.mode)

module _ {W : Type 0} (directories : Directories W) where
  open directories use {geteuid, ancestors, symlink_metadata, create_dir_all, set_permissions}

  -- `fs::symlink_metadata(path)?`
  unfoldable pub metadata : Text → W → Result Error Metadata × W
  metadata path w =
      let (r, w') = symlink_metadata path w in
      elim r [
        | found meta ↦ (ok meta, w')
        | absent ↦ (err (system (text "not found")), w')
        | stat_failed e ↦ (err e, w')
      ]

  -- An ancestor that is not there yet is passed over.
  unfoldable pub check_ancestor : Text → W → Result Error (Unit {0}) × W
  check_ancestor path w =
      let (r, w') = symlink_metadata path w in
      elim r [
        | found meta ↦ ensure (is_trusted meta) (untrusted_ancestor path) w'
        | absent ↦ (ok tt, w')
        | stat_failed e ↦ (err e, w')
      ]

  unfoldable pub check_ancestors : List Text → W → Result Error (Unit {0}) × W
  unfolding check_ancestor
  check_ancestors [] = pure tt
  check_ancestors (path ∷ paths) = do check_ancestor path; check_ancestors paths

  -- Only a daemon of root looks at the ancestors.
  unfoldable pub root_checks : Text → W → Result Error (Unit {0}) × W
  unfolding check_ancestors
  root_checks home = if geteuid == 0 then check_ancestors (ancestors home) else pure tt

  unfoldable pub initialize : Text → W → Result Error (Unit {0}) × W
  unfolding root_checks metadata jobs_path
  initialize home = do
    root_checks home
    create_dir_all home
    meta ← metadata home
    ensure (meta.is_dir && meta.uid == geteuid) not_a_directory_of_the_daemon
    ensure (not (others_write meta.mode)) writable_by_other_users
    set_permissions home 493
    create_dir_all (jobs_path home)
    jobs ← metadata (jobs_path home)
    ensure (jobs.is_dir && jobs.uid == geteuid) invalid_jobs_directory_owner
    set_permissions (jobs_path home) 448
