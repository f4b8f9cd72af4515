-- ===== src/Driver.antt =====
-- src/device/ascend.rs, hcu.rs, metax.rs, mthreads.rs and ppu.rs: what the bindings of the vendors'
-- drivers have in common. The drivers' libraries and the loader of libraries are parameters.
pub mod Loading
pub mod Reading
pub mod Found
pub mod Metax
pub mod Ppu
pub mod Mthreads
pub mod Hcu
pub mod Ascend
pub mod Calls
use xlurm.Device.{is_whitespace}
use xlurm.Base.{
  ℕ, zero, suc, Bool, not, ◌&&◌, Option, none, some, List, [], ◌∷◌, leb, if◌then◌else◌, nat_eq,
  ◌==◌, option_eq, Text, text_eq, is_empty, any, ◌>>=◌, ◌>>◌, pure, ensure, context, Result, ok,
  err, int_eq, ℤ, pos,
}
use xlurm.Model.{kind_eq, state_eq}
use xlurm.Model.Errors.{Error, empty_response, unterminated_response, invalid_utf8, driver_failed}

-- A foreign function: its return code, and what it has written through its pointers.
abbrev pub Foreign : Type 0 → Type 0 → Type 0
Foreign A W = W → (ℤ × A) × W

-- The bytes of a buffer before its first zero, if it has one: `CStr::from_bytes_until_nul`.
unfoldable pub until_nul : List ℕ → Option (List ℕ)
until_nul [] = none
until_nul (b ∷ bs) =
    let rest = until_nul bs in
    if b == 0 then some [] else elim rest [ none ↦ none | some cs ↦ some (b ∷ cs) ]

-- The numbers `start .. start + count`
unfoldable pub range : ℕ → ℕ → List ℕ
range start zero = []
range start (suc count) = start ∷ range (suc start) count

-- `(1..=64).contains(&count)`
abbrev pub is_device_count : ℕ → Bool
is_device_count count = leb 1 count && leb count 64

-- The answer to a call whose code has been looked at.
abbrev pub answered : {A : Type 0} → Text → ℤ → A → Result Error A
answered operation code a = if code == pos 0 then ok a else err (driver_failed operation code)

-- `contains(char::is_whitespace)`
abbrev pub has_space : Text → Bool
has_space t = any is_whitespace t

module _ {W : Type 0} where
  -- A foreign call under `check(…)?`.
  abbrev pub check : {A : Type 0} → Foreign A W → Text → W → Result Error A × W
  check call operation w = let ((code, a), w') = call w in (answered operation code a, w')

  -- A loop that pushes one value for each element, and ends at an error.
  unfoldable pub push_each :
      {A B : Type 0} → (A → W → Result Error B × W) → List A → W → Result Error (List B) × W
  push_each f [] = pure []
  push_each f (a ∷ rest) = do b ← f a; bs ← push_each f rest; pure (b ∷ bs)

  -- The function `text` of three drivers, with a buffer of 128 bytes; `utf8` is `str::from_utf8`.
  unfoldable pub read_text :
      {H : Type 0}
      → (List ℕ → Option Text)
      → (H → Foreign (List ℕ) W)
      → Text
      → H
      → W
      → Result Error Text × W
  unfolding until_nul
  read_text utf8 function operation handle = do
    bytes ← check (function handle) operation
    cs ← context (until_nul bytes) unterminated_response
    t ← context (utf8 cs) invalid_utf8
    ensure (not (is_empty t)) empty_response
    pure t

  abbrev pub unwrap_or : {A : Type 0} → A → Result Error A × W → A × W
  unwrap_or a (ok b, w) = (b, w)
  unwrap_or a (err e, w) = (a, w)

abbrev pub option_or : {A : Type 0} → A → Option A → A
option_or a none = a
option_or a (some b) = b
