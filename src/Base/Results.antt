-- ===== src/Base/Results.antt =====
-- Fallible code over a state: `&mut self` methods that return `Result`. The state outlives an error.
use mathlib.Core.Path.{ap, ◌≡◌, refl, ◌∙◌}
use mathlib.Core.Logic.{◌⊎◌, inl, inr}
use mathlib.Core.Bool.{Bool, true, false}
use mathlib.Core.Option.{Option, none, some}

-- `E` is the type of errors and `S` that of states.
pub data Result (E A : Type 0) : Type 0 where
  ok : A → Result E A
  err : E → Result E A

pub Result-cases :
    {E A : Type 0} (r : Result E A) → ((a : A) × (r ≡ ok a)) ⊎ ((e : E) × (r ≡ err e))
Result-cases (ok a) = inl (a, refl)
Result-cases (err e) = inr (e, refl)

module _ {E : Type 0} where
  abbrev pub and_then :
      {A B S : Type 0} → Result E A → (A → S → Result E B × S) → S → Result E B × S
  and_then (ok a) f s = f a s
  and_then (err e) f s = (err e, s)

  infixl 5 ◌>>=◌ ◌>>◌
  abbrev pub ◌>>=◌ :
      {A B S : Type 0} → (S → Result E A × S) → (A → S → Result E B × S) → S → Result E B × S
  ◌>>=◌ m f s = let (r, s') = m s in and_then r f s'

  abbrev pub ◌>>◌ :
      {A B S : Type 0} → (S → Result E A × S) → (S → Result E B × S) → S → Result E B × S
  m >> k = m >>= λ _. k

  abbrev pub pure : {A S : Type 0} → A → S → Result E A × S
  pure a s = (ok a, s)

  abbrev pub throw : {A S : Type 0} → E → S → Result E A × S
  throw e s = (err e, s)

  -- `ensure!(test, error)`
  abbrev pub ensure : {S : Type 0} → Bool → E → S → Result E (Unit {0}) × S
  ensure true e s = (ok tt, s)
  ensure false e s = (err e, s)

  -- `option.context(error)?`
  abbrev pub context : {A S : Type 0} → Option A → E → S → Result E A × S
  context none e s = (err e, s)
  context (some a) e s = (ok a, s)

  -- A value that is computed from the state.
  abbrev pub gets : {A S : Type 0} → (S → A) → S → Result E A × S
  gets f s = (ok (f s), s)

  abbrev pub modify : {S : Type 0} → (S → S) → S → Result E (Unit {0}) × S
  modify f s = (ok tt, f s)

  -- What a run that succeeds has passed.
  pub ensure-ok :
      {B S : Type 0} (t : Bool) (e : E) (k : S → Result E B × S) (s : S) {b : B}
      → ((ensure t e >> k) s).0 ≡ ok b
      → (t ≡ true) × ((k s).0 ≡ ok b)
  ensure-ok true e k s h = (refl, h)
  ensure-ok false e k s h = absurd (cc)

  pub >>=-ok :
      {A B S : Type 0} (m : S → Result E A × S) (f : A → S → Result E B × S) (s : S) {b : B}
      → ((m >>= f) s).0 ≡ ok b
      → (a : A) × ((m s).0 ≡ ok a) × ((f a (m s).1).0 ≡ ok b)
  >>=-ok {A = A} {S = S} m f s {b} h = go (m s).0 (m s).1 refl h
    where
      go :
          (r : Result E A) (s' : S)
          → (m s).0 ≡ r
          → (and_then r f s').0 ≡ ok b
          → (a : A) × ((m s).0 ≡ ok a) × ((f a s').0 ≡ ok b)
      go (ok a) s' e g = (a, e, g)
      go (err x) s' e g = absurd (cc)

  -- What is left of a run after a step that succeeds.
  pub >>=-settled :
      {A B S : Type 0} (m : S → Result E A × S) (f : A → S → Result E B × S) (s : S) {a : A}
      → (m s).0 ≡ ok a
      → (m >>= f) s ≡ f a (m s).1
  >>=-settled m f s e = rw e refl

  pub ensure-settled :
      {B S : Type 0} (t : Bool) (e : E) (k : S → Result E B × S) (s : S)
      → t ≡ true
      → (ensure t e >> k) s ≡ k s
  ensure-settled t e k s h = rw h refl

  err-same : {A : Type 0} {a b : E} → ◌≡◌ {A = Result E A} (err a) (err b) → a ≡ b
  err-same e = cc

  pub ensure-error :
      {S : Type 0} (t : Bool) (x : E) (s : S) {e : E} → (ensure t x s).0 ≡ err e → x ≡ e
  ensure-error true x s h = absurd (cc)
  ensure-error false x s h = err-same h

  pub context-error :
      {A S : Type 0} (o : Option A) (x : E) (s : S) {e : E} → (context o x s).0 ≡ err e → x ≡ e
  context-error none x s h = err-same h
  context-error (some a) x s h = absurd (cc)

  -- An error comes from one of the steps.
  pub >>=-err :
      {A B S : Type 0} (m : S → Result E A × S) (f : A → S → Result E B × S) (s : S) {e : E}
      → ((m >>= f) s).0 ≡ err e
      → ((m s).0 ≡ err e) ⊎ ((a : A) × ((m s).0 ≡ ok a) × ((f a (m s).1).0 ≡ err e))
  >>=-err {A = A} {S = S} m f s {e} h = go (m s).0 (m s).1 refl h
    where
      go :
          (r : Result E A) (s' : S)
          → (m s).0 ≡ r
          → (and_then r f s').0 ≡ err e
          → ((m s).0 ≡ err e) ⊎ ((a : A) × ((m s).0 ≡ ok a) × ((f a s').0 ≡ err e))
      go (ok a) s' x g = inr (a, x, g)
      go (err y) s' x g = inl (x ∙ ap err (err-same g))

  pub ensure-err :
      {B S : Type 0} (t : Bool) (x : E) (k : S → Result E B × S) (s : S) {e : E}
      → ((ensure t x >> k) s).0 ≡ err e
      → ((t ≡ false) × (x ≡ e)) ⊎ ((t ≡ true) × ((k s).0 ≡ err e))
  ensure-err true x k s h = inr (refl, h)
  ensure-err false x k s h = inl (refl, err-same h)

  -- What holds after two steps, however they end.
  pub >>=-lands :
      {A B S : Type 0} (P : S → Type 0) (m : S → Result E A × S) (f : A → S → Result E B × S)
      (s : S)
      → P (m s).1
      → ((a : A) → (m s).0 ≡ ok a → P (m s).1 → P (f a (m s).1).1)
      → P ((m >>= f) s).1
  >>=-lands P m f s h k = elim (Result-cases (m s).0) [
    | inl (a, e) ↦ rw e (k a e h)
    | inr (x, e) ↦ rw e h
  ]

  pub ensure-lands :
      {B S : Type 0} (P : S → Type 0) (t : Bool) (e : E) (k : S → Result E B × S) (s : S)
      → P s
      → (t ≡ true → P (k s).1)
      → P ((ensure t e >> k) s).1
  ensure-lands P true e k s h g = g refl
  ensure-lands P false e k s h g = h

  -- Code that leaves the state alone.
  abbrev pub Keeps : {A S : Type 0} → (S → Result E A × S) → Type 0
  Keeps {S = S} m = (s : S) → (m s).1 ≡ s

  pub >>=-Keeps :
      {A B S : Type 0} (m : S → Result E A × S) (f : A → S → Result E B × S)
      → Keeps m
      → ((a : A) → Keeps (f a))
      → Keeps (m >>= f)
  >>=-Keeps {A = A} {S = S} m f keep_m keep_f s = go (m s).0 (m s).1 (keep_m s)
    where
      go : (r : Result E A) (s' : S) → s' ≡ s → (and_then r f s').1 ≡ s
      go (ok a) s' e = keep_f a s' ∙ e
      go (err x) s' e = e

  pub Keeps-ok :
      {A B S : Type 0} (m : S → Result E A × S) (f : A → S → Result E B × S) (s : S) {b : B}
      → Keeps m
      → ((m >>= f) s).0 ≡ ok b
      → (a : A) × ((m s).0 ≡ ok a) × ((f a s).0 ≡ ok b)
  Keeps-ok m f s keep h = let (a, e, g) = >>=-ok m f s h in (a, e, rw (keep s) at g)

  -- What follows may leave the state alone.
  pub >>=-Keeps-world :
      {A B S : Type 0} (m : S → Result E A × S) (f : A → S → Result E B × S) (s : S)
      → ((a : A) → Keeps (f a))
      → ((m >>= f) s).1 ≡ (m s).1
  >>=-Keeps-world m f s keep = elim (Result-cases (m s).0) [
    | inl (a, e) ↦ rw e (keep a (m s).1)
    | inr (x, e) ↦ rw e refl
  ]
