-- ===== src/Driver/Loading.antt =====
-- src/device/*.rs, `load`: a driver's library is opened, its functions looked up, and it is started.
use xlurm.Base.{
  Bool, not, ◌||◌, Option, none, some, List, [], ◌∷◌, if◌then◌else◌, nat_eq, option_eq, Text, text,
  text_eq, contains, ◌>>=◌, ◌>>◌, pure, ensure, Result, ok, err, int_eq,
}
use xlurm.Model.Errors.{Error, nul_in_path, missing_symbol, cannot_load, null_library_handle}
use xlurm.Driver.{Foreign, check, option_or}

-- The loader of libraries, whose `L` is a library that is open. `getenv` gives no text for a variable
-- that is not Unicode. `start` is a library's first call: its code, and whether it has given the
-- handle that it must.
pub record Loader (L W : Type 0) : Type 0 where
  pub getenv : Text → Option (Option Text)
  pub dlopen : Text → W → Option L × W
  pub dlsym : L → Text → W → Bool × W
  pub dlerror : W → Option Text × W
  pub start : L → (function : Text) → Foreign Bool W

-- `std::env::var(…).ok()`
abbrev pub joined : Option (Option Text) → Option Text
joined none = none
joined (some t) = t

-- What a driver's `load` looks for.
pub record Wanted : Type 0 where
  pub variable : Text
  pub path : Text
  pub paths : List Text
  pub functions : List Text
  -- The function that starts the library, and whether it must give a handle.
  pub first : Text
  pub gives_handle : Bool

module _ {L W : Type 0} (loader : Loader L W) where
  unfoldable pub loader_error : W → Text × W
  loader_error w = let (e, w') = loader.dlerror w in (option_or (text "unknown loader error") e, w')

  -- `Library::open`
  unfoldable pub open_library : Text → W → Result Error L × W
  unfolding loader_error
  open_library path w =
      let (opened, w') = loader.dlopen path w in
      let (message, w'') = loader_error w' in
      if contains path 0
      then (err nul_in_path, w)
      else elim opened [ none ↦ (err (cannot_load message), w'') | some library ↦ (ok library, w') ]

  -- `Library::symbol`
  unfoldable pub symbol : L → Text → W → Result Error (Unit {0}) × W
  unfolding loader_error
  symbol library name w =
      let (found, w') = loader.dlsym library name w in
      let (message, w'') = loader_error w' in
      if found then (ok tt, w') else (err (missing_symbol message), w'')

  unfoldable pub symbols : L → List Text → W → Result Error (Unit {0}) × W
  unfolding symbol
  symbols library [] = pure tt
  symbols library (name ∷ names) = do symbol library name; symbols library names

  -- A chain of `or_else`: the error is the last one's.
  abbrev pub or_else :
      {A : Type 0} → (W → Result Error A × W) → (W → Result Error A × W) → W → Result Error A × W
  or_else first second w = let (r, w') = first w in elim r [ ok a ↦ (ok a, w') | err e ↦ second w' ]

  unfoldable pub open_first : Text → List Text → W → Result Error L × W
  unfolding open_library
  open_first path [] = open_library path
  open_first path (next ∷ paths) = or_else (open_library path) (open_first next paths)

  -- The path that a variable names, or the first path that can be opened.
  unfoldable pub open_chosen : Wanted → W → Result Error L × W
  unfolding open_first
  open_chosen wanted = elim (joined (loader.getenv wanted.variable)) [
    | some chosen ↦ open_library chosen
    | none ↦ open_first wanted.path wanted.paths
  ]

  -- `load` of a driver
  unfoldable pub load : Wanted → W → Result Error L × W
  unfolding open_chosen symbols
  load wanted = do
    library ← open_chosen wanted
    symbols library wanted.functions
    handle ← check (loader.start library wanted.first) wanted.first
    ensure (not wanted.gives_handle || handle) null_library_handle
    pure library

  -- `.ok()` of a call that may fail
  abbrev pub optional : {A : Type 0} → (W → Result Error A × W) → W → Result Error (Option A) × W
  optional call w = let (r, w') = call w in (ok (elim r [ ok a ↦ some a | err e ↦ none ]), w')
