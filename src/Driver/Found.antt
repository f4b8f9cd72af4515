-- ===== src/Driver/Found.antt =====
-- src/device/*.rs, `discover`: what holds of the devices that a driver's discovery accepts.
use xlurm.Base.{
  ℕ, zero, suc, ◌≤◌, ◌≡◌, refl, ap, subst, false, List, [], ◌∷◌, map, arith, nat_eq, option_eq,
  text_eq, length, is_empty, All, ◌>>=◌, >>=-ok, Result, ok, int_eq,
}
use xlurm.Model.{kind_eq, state_eq, Device, Kind}
use xlurm.Model.Errors.{Error}
use xlurm.Scheduler.Allocate.Devices.{IsKeyed}
use xlurm.Device.{validate}
use xlurm.Device.Valid.{validate-IsKeyed}
use xlurm.Driver.{range, push_each}

-- There are at least one device and at most 64, all of the kind, with different keys.
pub record Found (kind : Kind) (devices : List Device) : Type 0 where
  pub some_device : 1 ≤ length devices
  pub bounded : length devices ≤ 64
  pub one_kind : All (λ (d : Device). d.kind ≡ kind) devices
  pub keyed : IsKeyed devices

filled-length : (ds : List Device) → is_empty ds ≡ false → 1 ≤ length ds
filled-length [] e = absurd (cc)
filled-length (d ∷ ds) e = ground arith

pub length-range : (start n : ℕ) → length (range start n) ≡ n
unfolding range
length-range start zero = refl
length-range start (suc n) = ap suc (length-range (suc start) n)

pub length-map : {A B : Type 0} (f : A → B) (xs : List A) → length (map f xs) ≡ length xs
length-map f [] = refl
length-map f (x ∷ xs) = ap suc (length-map f xs)

module _ {A B W : Type 0} (f : A → W → Result Error B × W) where
  push_each-ok :
      (a : A) (rest : List A) (w : W) (bs : List B)
      → (push_each f (a ∷ rest) w).0 ≡ ok bs
      → (b : B) × (cs : List B) × ((f a w).0 ≡ ok b)
        × ((push_each f rest (f a w).1).0 ≡ ok cs)
        × (b ∷ cs ≡ bs)
  unfolding push_each
  push_each-ok a rest w bs e =
      let (b, h, e1) = >>=-ok (f a) _ w e in
      let (cs, k, e2) = >>=-ok (push_each f rest) _ (f a w).1 e1 in
      (b, cs, h, k, ground (arith, e2))

  -- The loop has pushed one value for each element.
  pub length-push_each :
      (xs : List A) (w : W) (bs : List B) → (push_each f xs w).0 ≡ ok bs → length bs ≡ length xs
  unfolding push_each
  length-push_each [] w bs e = ground arith
  length-push_each (a ∷ rest) w bs e =
      let (b, cs, h, k, same) = push_each-ok a rest w bs e in
      subst (λ l. length l ≡ suc (length rest)) same (ap suc (length-push_each rest (f a w).1 cs k))

  -- Every value has come from the body.
  pub push_each-All :
      (P : B → Type 0) (xs : List A) (w : W) (bs : List B)
      → ((a : A) (v : W) (b : B) → (f a v).0 ≡ ok b → P b)
      → (push_each f xs w).0 ≡ ok bs
      → All P bs
  unfolding push_each
  push_each-All P [] w bs good e = let same : [] ≡ bs = ground (arith, e) in subst (All P) same tt
  push_each-All P (a ∷ rest) w bs good e =
      let (b, cs, h, k, same) = push_each-ok a rest w bs e in
      subst (All P) same (good a w b h, push_each-All P rest (f a w).1 cs good k)

-- A discovery that has looked at each device of a list of at most 64, and has brought the devices in
-- some order.
module _ {A W : Type 0} (kind : Kind) (f : A → W → Result Error Device × W)
    (good : (a : A) (w : W) (d : Device) → (f a w).0 ≡ ok d → d.kind ≡ kind)
    (order : List Device → List Device)
    (length-order : (ds : List Device) → length (order ds) ≡ length ds)
    (order-All : (ds : List Device)
      → All (λ (d : Device). d.kind ≡ kind) ds
      → All (λ (d : Device). d.kind ≡ kind) (order ds)) where
  pub listing-Found :
      (xs : List A) (w : W) (devices : List Device)
      → length xs ≤ 64
      → ((push_each f xs >>= λ ds v. (validate (order ds), v)) w).0 ≡ ok devices
      → Found kind devices
  listing-Found xs w devices few e =
      let (ds, pushed, accepted) = >>=-ok (push_each f xs) _ w e in
      let (same, filled, keyed) = validate-IsKeyed (order ds) devices accepted in
      let pushed_length = length-push_each f xs w ds pushed in
      record {
        some_device = rw same (filled-length (order ds) filled);
        bounded = rw (same, length-order ds, pushed_length) few;
        one_kind =
            rw same
              (order-All ds (push_each-All f (λ (d : Device). d.kind ≡ kind) xs w ds good pushed));
        keyed = keyed;
      }
