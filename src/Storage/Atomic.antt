-- ===== src/Storage/Atomic.antt =====
-- src/storage.rs, `write_json`: a reader of the file finds the old or the new content, never a part.
use xlurm.Model.{kind_eq, state_eq, Error}
use mathlib.Core.List.{append_assoc}
use xlurm.Base.{
  ℕ, ◌≤◌, ◌≡◌, refl, sym, ap, ◌∙◌, ◌≢◌, ◌⊎◌, inl, inr, false, Option, none, some, [], ◌∷◌, ◌++◌,
  arith, Option-cases, nat_eq, option_eq, Text, text, text_eq, length, length-append, contains, All,
  Result-cases, ◌>>◌, Result, ok, err, to_string, to_string-digits, int_eq,
}
use xlurm.Storage.{strip_extension, with_extension, temporary, write_json, FileSystem, Json}

digits-no_slash : (ds : Text) → All (λ c. b'0' ≤ c) ds → contains ds b'/' ≡ false
digits-no_slash [] h = refl
digits-no_slash (d ∷ ds) h = ground (arith, digits-no_slash ds h.1, h.0)

strip_extension-digits : (ds : Text) → All (λ c. b'0' ≤ c) ds → strip_extension ds ≡ none
unfolding strip_extension
strip_extension-digits [] h = refl
strip_extension-digits (d ∷ ds) h = rw (strip_extension-digits ds h.1) (ground (arith, h.0))

strip_extension-append :
    (xs ds : Text) → All (λ c. b'0' ≤ c) ds → strip_extension (xs ++ b'.' ∷ ds) ≡ some xs
unfolding strip_extension
strip_extension-append [] ds h = rw (strip_extension-digits ds h, digits-no_slash ds h) refl
strip_extension-append (x ∷ xs) ds h = rw (strip_extension-append xs ds h) refl

append-longer : (xs ys : Text) (y : ℕ) → xs ++ y ∷ ys ≢ xs
append-longer xs ys y e = absurd (let n = ap length e in omega (arith, length-append xs (y ∷ ys)))

stem-ne :
    (stem path digits : Text)
    → All (λ c. b'0' ≤ c) digits
    → strip_extension path ≡ some stem
    → stem ++ b'.' ∷ (text "tmp." ++ digits) ≢ path
stem-ne stem path digits h n e =
    let two = strip_extension-append (stem ++ text ".tmp") digits h in
    let same : strip_extension path ≡ some (stem ++ text ".tmp") =
      rw (append_assoc stem (text ".tmp") (b'.' ∷ digits), e) at two in
    append-longer stem (text "tmp") b'.' (ground (arith, same, n))

module _ {W : Type 0} (fs : FileSystem W) (path : Text) where
  temporary-none :
      strip_extension path ≡ none
      → temporary fs path ≡ path ++ b'.' ∷ (text "tmp." ++ to_string fs.process_id)
  unfolding temporary with_extension
  temporary-none e = ground arith

  temporary-some :
      (stem : Text)
      → strip_extension path ≡ some stem
      → temporary fs path ≡ stem ++ b'.' ∷ (text "tmp." ++ to_string fs.process_id)
  unfolding temporary with_extension
  temporary-some stem e = ground arith

  -- The temporary file is never the file itself.
  pub temporary-ne : temporary fs path ≢ path
  temporary-ne e = elim (Option-cases (strip_extension path)) [
    | inl n ↦
        append-longer path (text "tmp." ++ to_string fs.process_id) b'.'
          (sym (temporary-none n) ∙ e)
    | inr (stem, n) ↦
        stem-ne stem path (to_string fs.process_id) (to_string-digits fs.process_id) n
          (sym (temporary-some stem n) ∙ e)
  ]

-- What the operating system guarantees: `content` is what a reader of a path finds, and a rename
-- that fails has no effect.
pub record Disk {W : Type 0} (fs : FileSystem W) : Type 0 where
  pub content : W → Text → Option Text
  pub create_other : (p q : Text) (w : W) → p ≢ q → content (fs.create p w).1 q ≡ content w q
  pub write_other : (p c q : Text) (w : W) → p ≢ q → content (fs.write_all p c w).1 q ≡ content w q
  pub create_new :
      (p : Text) (w : W) → (fs.create p w).0 ≡ ok tt → content (fs.create p w).1 p ≡ some []
  pub write_more :
      (p c old : Text) (w : W)
      → (fs.write_all p c w).0 ≡ ok tt
      → content w p ≡ some old
      → content (fs.write_all p c w).1 p ≡ some (old ++ c)
  pub sync_same : (p q : Text) (w : W) → content (fs.sync_all p w).1 q ≡ content w q
  pub parent_same : (p q : Text) (w : W) → content (fs.sync_parent p w).1 q ≡ content w q
  pub rename_moves :
      (p q : Text) (w : W)
      → (fs.rename p q w).0 ≡ ok tt
      → content (fs.rename p q w).1 q ≡ content w p
  pub rename_fails :
      (p q : Text) (w : W) (e : Error)
      → (fs.rename p q w).0 ≡ err e
      → content (fs.rename p q w).1 q ≡ content w q

module _ {W : Type 0} (fs : FileSystem W) (disk : Disk fs) {A : Type 0} (json : Json A)
    (path : Text) (value : A) where
  open disk use {content}

  abbrev pub encoded : Text
  encoded = json.to_json value ++ text "\n"

  -- Where `write_json` fails, the file has its old content or all of the new one; where it succeeds,
  -- it has the new one.
  abbrev pub IsReplaced : W → Result Error (Unit {0}) × W → Type 0
  IsReplaced w (ok _, w') = content w' path ≡ some encoded
  IsReplaced w (err _, w') = (content w' path ≡ content w path) ⊎ (content w' path ≡ some encoded)

  -- After the rename.
  last_sync : (w w' : W) → content w' path ≡ some encoded → IsReplaced w (fs.sync_parent path w')
  last_sync w w' h =
      go (fs.sync_parent path w').0 (fs.sync_parent path w').1 (disk.parent_same path path w' ∙ h)
    where
      go :
          (r : Result Error (Unit {0})) (v : W)
          → content v path ≡ some encoded
          → IsReplaced w (r, v)
      go (ok tt) v e = e
      go (err x) v e = inr e

  last_rename :
      (w w' : W)
      → content w' path ≡ content w path
      → content w' (temporary fs path) ≡ some encoded
      → IsReplaced w ((do fs.rename (temporary fs path) path; fs.sync_parent path) w')
  last_rename w w' same h = elim (Result-cases (fs.rename (temporary fs path) path w').0) [
    | inl (tt, r) ↦ rw r (last_sync w _ (disk.rename_moves (temporary fs path) path w' r ∙ h))
    | inr (x, r) ↦ rw r (inl (disk.rename_fails (temporary fs path) path w' x r ∙ same))
  ]

  -- Before the rename.
  step :
      (m k : W → Result Error (Unit {0}) × W) (w w' : W)
      → content w' path ≡ content w path
      → content (m w').1 path ≡ content w' path
      → ((m w').0 ≡ ok tt → content (m w').1 path ≡ content w path → IsReplaced w (k (m w').1))
      → IsReplaced w ((do m; k) w')
  step m k w w' same kept then = elim (Result-cases (m w').0) [
    | inl (tt, r) ↦ rw r (then r (kept ∙ same))
    | inr (x, r) ↦ rw r (inl (kept ∙ same))
  ]

  -- On a disk with the guarantees of `Disk`: where `write_json` succeeds, the file holds all of the new value. Where it fails at whatever step, the
  -- file holds its old content or all of the new value.
  pub write_json-IsReplaced : (w : W) → IsReplaced w (write_json fs json path value w)
  unfolding write_json
  write_json-IsReplaced w =
      let t = temporary fs path in
      let other = temporary-ne fs path in
      let w1 = (fs.create t w).1 in
      let w2 = (fs.write_all t (json.to_json value) w1).1 in
      let w3 = (fs.write_all t (text "\n") w2).1 in
      step (fs.create t) _ w w refl (disk.create_other t path w other) (λ e1 s1.
        step (fs.write_all t (json.to_json value)) _ w w1 s1 (disk.write_other t _ path w1 other)
          (λ e2 s2.
            step (fs.write_all t (text "\n")) _ w w2 s2 (disk.write_other t _ path w2 other)
              (λ e3 s3. step (fs.sync_all t) _ w w3 s3 (disk.sync_same t path w3) (λ e4 s4.
                last_rename w _ s4 (
                  disk.sync_same t t w3
                  ∙ disk.write_more t _ (json.to_json value) w2 e3
                      (disk.write_more t _ [] w1 e2 (disk.create_new t w e1)))))))
