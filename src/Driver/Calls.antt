-- ===== src/Driver/Calls.antt =====
-- src/device/*.rs: what a chain of foreign calls has passed when it succeeds.
use xlurm.Base.{
  ℕ, ◌≡◌, refl, ap, subst, inl, inr, Bool, true, false, Option, none, some, arith, if◌then◌else◌,
  Bool-cases, nat_eq, ◌==◌, option_eq, Text, text_eq, ◌>>=◌, ensure, context, >>=-ok, Keeps,
  >>=-Keeps-world, Result, ok, err, int_beq_iff, int_eq, ℤ, pos,
}
use xlurm.Model.{kind_eq, state_eq, Status, idle, unknown}
use xlurm.Model.Errors.{Error}
use xlurm.Driver.{Foreign, answered, check, unwrap_or}

answered-ok :
    {A : Type 0} (operation : Text) (r : ℤ × A) (a : A)
    → answered operation r.0 r.1 ≡ ok a
    → r ≡ (pos 0, a)
answered-ok operation (code, b) a e = elim (Bool-cases (code == pos 0)) [
  | inl y ↦ ground (arith, (int_beq_iff code (pos 0)).0 y)
  | inr n ↦ absurd (ground arith)
]

pub ensure-Keeps : {W : Type 0} (b : Bool) (e : Error) → Keeps {S = W} (ensure b e)
ensure-Keeps true e s = refl
ensure-Keeps false e s = refl

pub context-Keeps : {A W : Type 0} (o : Option A) (e : Error) → Keeps {S = W} (context o e)
context-Keeps none e s = refl
context-Keeps (some a) e s = refl

pub context-ok :
    {A W : Type 0} (o : Option A) (e : Error) (w : W) {a : A}
    → (context o e w).0 ≡ ok a
    → o ≡ some a
context-ok none e w h = absurd (cc)
context-ok (some a) e w h = ap some (ground (arith, h))

module _ {A B W : Type 0} (call : Foreign A W) (operation : Text) where
  -- A call that is followed by more has succeeded with what it gives on.
  pub check-ok :
      (f : A → W → Result Error B × W) (w : W) {b : B}
      → ((check call operation >>= f) w).0 ≡ ok b
      → (a : A) × ((call w).0 ≡ (pos 0, a)) × ((f a (call w).1).0 ≡ ok b)
  check-ok f w e =
      let (a, h, g) = >>=-ok (check call operation) f w e in
      (a, answered-ok operation (call w).0 a h, g)

  -- What follows a call may leave the state alone.
  pub check-world :
      (f : A → W → Result Error B × W) (w : W)
      → ((a : A) → Keeps (f a))
      → ((check call operation >>= f) w).1 ≡ (call w).1
  check-world f w keep = >>=-Keeps-world (check call operation) f w keep

-- The opening of a device, whose handle must not be null.
module _ {H W : Type 0} (call : Foreign (Option H) W) (operation : Text) (e : Error) where
  pub opening-ok :
      (w : W) (handle : H)
      → ((check call operation >>= λ o. context o e) w).0 ≡ ok handle
      → (call w).0 ≡ (pos 0, some handle)
  opening-ok w handle h =
      let (found, called, e1) = check-ok call operation _ w h in
      subst (λ o. (call w).0 ≡ (pos 0, o)) (context-ok found e (call w).1 e1) called

  pub opening-world : (w : W) → ((check call operation >>= λ o. context o e) w).1 ≡ (call w).1
  opening-world w = check-world call operation _ w (λ o. context-Keeps o e)

-- A status that a number of processes gives.
pub used-idle : (n : ℕ) → (if n == 0 then idle else Status.busy) ≡ idle → n ≡ 0
used-idle n e = elim (Bool-cases (n == 0)) [ inl y ↦ ground arith | inr k ↦ absurd (ground arith) ]

pub unwrap_or-idle :
    {W : Type 0} (r : Result Error Status × W) → (unwrap_or unknown r).0 ≡ idle → r.0 ≡ ok idle
unwrap_or-idle (ok st, w) e = ap ok e
unwrap_or-idle (err x, w) e = absurd (cc)
