-- ===== src/Driver/Reading.antt =====
-- src/device/*.rs, `text`: what a driver has written when its text is accepted.
use xlurm.Base.{
  ℕ, ◌≡◌, refl, ap, ◌∙◌, subst, Bool, true, false, not, Option, some, List, arith, nat_eq,
  option_eq, Text, text_eq, is_empty, ◌>>=◌, ◌>>◌, pure, ensure, context, >>=-ok, Keeps, >>=-Keeps,
  Keeps-ok, >>=-Keeps-world, Result, ok, int_eq, ℤ, pos,
}
use xlurm.Model.Errors.{Error, empty_response, unterminated_response, invalid_utf8}
use xlurm.Driver.{Foreign, until_nul, read_text}
use xlurm.Driver.Calls.{context-Keeps, context-ok, check-ok, check-world}

-- A call has succeeded, and its buffer begins with the text and a zero.
abbrev pub Reads : (List ℕ → Option Text) → ℤ × List ℕ → Text → Type 0
Reads utf8 r t =
    (bytes : List ℕ) × (cs : List ℕ) × (r ≡ (pos 0, bytes))
    × (until_nul bytes ≡ some cs)
    × (utf8 cs ≡ some t)

-- A check that is followed by its value.
pub ensure-pure :
    {A W : Type 0} (b : Bool) (e : Error) (a : A) (w : W) {c : A}
    → ((ensure b e >> pure a) w).0 ≡ ok c
    → (b ≡ true) × (a ≡ c)
ensure-pure true e a w h = (refl, ground (arith, h))
ensure-pure false e a w h = absurd (cc)

pub ensure-pure-Keeps :
    {A W : Type 0} (b : Bool) (e : Error) (a : A) → Keeps {S = W} (ensure b e >> pure a)
ensure-pure-Keeps true e a w = refl
ensure-pure-Keeps false e a w = refl

module _ {H W : Type 0} (utf8 : List ℕ → Option Text) (function : H → Foreign (List ℕ) W)
    (operation : Text) (handle : H) where
  finish : List ℕ → W → Result Error Text × W
  finish bytes = do
    cs ← context (until_nul bytes) unterminated_response
    t ← context (utf8 cs) invalid_utf8
    ensure (not (is_empty t)) empty_response
    pure t

  finish-Keeps : (bytes : List ℕ) → Keeps (finish bytes)
  unfolding finish
  finish-Keeps bytes =
      >>=-Keeps (context (until_nul bytes) unterminated_response) _
        (context-Keeps (until_nul bytes) unterminated_response)
        (λ cs.
          >>=-Keeps (context (utf8 cs) invalid_utf8) _ (context-Keeps (utf8 cs) invalid_utf8)
            (λ t. ensure-pure-Keeps (not (is_empty t)) empty_response t))

  pub read_text-world :
      (w : W) → (read_text utf8 function operation handle w).1 ≡ (function handle w).1
  unfolding read_text finish
  read_text-world w = check-world (function handle) operation finish w finish-Keeps

  pub read_text-Reads :
      (w : W) (t : Text)
      → (read_text utf8 function operation handle w).0 ≡ ok t
      → Reads utf8 (function handle w).0 t
  unfolding read_text
  read_text-Reads w t e =
      let (bytes, called, e1) = check-ok (function handle) operation _ w e in
      let w' = (function handle w).1 in
      let (cs, c, e2) =
        Keeps-ok (context (until_nul bytes) unterminated_response) _ w'
          (context-Keeps (until_nul bytes) unterminated_response) e1 in
      let (u, d, e3) =
        Keeps-ok (context (utf8 cs) invalid_utf8) _ w' (context-Keeps (utf8 cs) invalid_utf8) e2 in
      (
        bytes,
        cs,
        called,
        context-ok (until_nul bytes) unterminated_response w' c,
        context-ok (utf8 cs) invalid_utf8 w' d ∙ ap some (ensure-pure _ _ u w' e3).1,
      )

  -- A text that must pass a test, as a unique identifier.
  pub tested-Reads :
      (p : Text → Bool) (e : Error) (w : W) (t : Text)
      → ((read_text utf8 function operation handle >>= λ u. ensure (p u) e >> pure u) w).0 ≡ ok t
      → Reads utf8 (function handle w).0 t
  tested-Reads p e w t h =
      let (u, read, e1) = >>=-ok (read_text utf8 function operation handle) _ w h in
      subst (λ x. Reads utf8 (function handle w).0 x) (ensure-pure _ _ u _ e1).1
        (read_text-Reads w u read)

  pub tested-world :
      (p : Text → Bool) (e : Error) (w : W)
      → ((read_text utf8 function operation handle >>= λ u. ensure (p u) e >> pure u) w).1
        ≡ (function handle w).1
  tested-world p e w =
      >>=-Keeps-world (read_text utf8 function operation handle) _ w
        (λ u. ensure-pure-Keeps (p u) e u)
      ∙ read_text-world w
