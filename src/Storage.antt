-- ===== src/Storage.antt =====
-- src/storage.rs: where the files are, and how a JSON file is replaced.
-- The operating system and serde_json are not part of the repository: `FileSystem` and `Json` list the
-- calls that the program makes, over a type `W` of states of the outside world.
pub mod Atomic
pub mod Trusted
use xlurm.Base.{
  ℕ, Bool, not, ◌&&◌, Option, none, some, List, [], ◌∷◌, ◌++◌, if◌then◌else◌, nat_eq, ◌==◌,
  option_eq, Text, text, text_eq, contains, ◌>>=◌, ◌>>◌, context, Result, to_string, int_eq,
}
use xlurm.Model.Errors.{system}
use xlurm.Model.{kind_eq, state_eq, Error}

-- `fs::remove_file`, with `ErrorKind::NotFound` apart from the other errors.
pub data Removal : Type 0 where
  removed missing : Removal
  refused : Error → Removal

-- An entry of `fs::read_dir`: its name, if that is UTF-8.
pub data Entry : Type 0 where
  named : Text → Entry
  unnamed : Entry
  unreadable : Error → Entry

pub record FileSystem (W : Type 0) : Type 0 where
  -- Opens a file of mode 0600 for reading and writing, new or as it is.
  pub open_or_create : (path : Text) → W → Result Error (Unit {0}) × W
  -- Opens a file of mode 0600, new or emptied.
  pub create : (path : Text) → W → Result Error (Unit {0}) × W
  -- Adds to the end of an open file.
  pub write_all : (path content : Text) → W → Result Error (Unit {0}) × W
  pub sync_all : (path : Text) → W → Result Error (Unit {0}) × W
  pub rename : (from to : Text) → W → Result Error (Unit {0}) × W
  -- Opens the parent directory and syncs it.
  pub sync_parent : (path : Text) → W → Result Error (Unit {0}) × W
  pub read : (path : Text) → W → Result Error Text × W
  pub remove_file : (path : Text) → W → Removal × W
  pub read_dir : (path : Text) → W → Result Error (List Entry) × W
  pub exists : (path : Text) → W → Bool
  pub is_dir : (path : Text) → W → Bool
  -- The lock is taken, or another process has it.
  pub flock : (path : Text) → W → Result Error Bool × W
  pub process_id : ℕ

-- serde_json for one type.
pub record Json (A : Type 0) : Type 0 where
  pub to_json : A → Text
  pub from_json : Text → Option A

-- `Path::join` with a relative name.
unfoldable pub join : Text → Text → Text
join path name = path ++ b'/' ∷ name

-- `Paths::socket` and the other files of the state directory.
unfoldable pub socket_path : Text → Text
unfolding join
socket_path home = join home (text "xlurm.sock")

unfoldable pub state_path : Text → Text
unfolding join
state_path home = join home (text "state.json")

unfoldable pub jobs_path : Text → Text
unfolding join
jobs_path home = join home (text "jobs")

unfoldable pub file_name : ℕ → Text → Text
unfolding to_string
file_name id extension = to_string id ++ b'.' ∷ extension

-- `Paths::job`
unfoldable pub job_path : Text → ℕ → Text → Text
unfolding join jobs_path file_name
job_path home id extension = join (jobs_path home) (file_name id extension)

-- The text before the last dot of the last component.
unfoldable pub strip_extension : Text → Option Text
strip_extension [] = none
strip_extension (c ∷ cs) = elim (strip_extension cs) [
  | some stem ↦ some (c ∷ stem)
  | none ↦ if c == b'.' && not (contains cs b'/') then some [] else none
]

-- `Path::with_extension`
unfoldable pub with_extension : Text → Text → Text
unfolding strip_extension
with_extension path extension = elim (strip_extension path) [
  | none ↦ path ++ b'.' ∷ extension
  | some stem ↦ stem ++ b'.' ∷ extension
]

module _ {W : Type 0} (fs : FileSystem W) where
  -- The name of the temporary file.
  unfoldable pub temporary : Text → Text
  unfolding with_extension to_string
  temporary path = with_extension path (text "tmp." ++ to_string fs.process_id)

  unfoldable pub write_json : {A : Type 0} → Json A → Text → A → W → Result Error (Unit {0}) × W
  write_json json path value = do
    fs.create (temporary path)
    fs.write_all (temporary path) (json.to_json value)
    fs.write_all (temporary path) (text "\n")
    fs.sync_all (temporary path)
    fs.rename (temporary path) path
    fs.sync_parent path

  unfoldable pub read_json : {A : Type 0} → Json A → Text → W → Result Error A × W
  read_json json path = do
    content ← fs.read path
    context (json.from_json content) (system (text "invalid JSON"))

  -- `some` is the lock.
  unfoldable pub try_lock : Text → W → Result Error Bool × W
  try_lock path = do fs.open_or_create path; fs.flock path
