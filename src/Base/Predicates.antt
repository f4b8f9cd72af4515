-- ===== src/Base/Predicates.antt =====
-- Predicates on every element and on every pair of elements of a list.
use Prim.Native.Nat.{ℕ, zero, suc, ◌≤◌}
use mathlib.Core.Path.{◌≡◌, refl}
use mathlib.Core.Logic.{◌↔◌, inl, inr}
use mathlib.Core.Bool.{Bool, true, false}
use mathlib.Core.List.{List, [], ◌∷◌, ◌++◌, map}
use mathlib.Core.Option.{some}
use native.Mathlib.Omega.{arith}
use xlurm.Base.Tests.{Bool-cases}
use xlurm.Base.Equality.{nat_eq, option_eq, text_eq, PartialEq}
use xlurm.Base.Lists.{length, get_elem?, set, take, filter, find?, any, all, contains, distinct_len}

abbrev pub All {ℓ κ} : {A : Type ℓ} → (A → Type κ) → List A → Type κ
All P [] = Unit
All P (x ∷ xs) = P x × All P xs

abbrev pub Pairwise {ℓ κ} : {A : Type ℓ} → (A → A → Type κ) → List A → Type κ
Pairwise R [] = Unit
Pairwise R (x ∷ xs) = All (R x) xs × Pairwise R xs

module _ {ℓ κ} {A : Type ℓ} (P : A → Type κ) where
  pub All-filter : (p : A → Bool) (xs : List A) → All P xs → All P (filter p xs)
  All-filter p [] h = tt
  All-filter p (x ∷ xs) h = elim (Bool-cases (p x)) [
    | inl e ↦ rw e (h.0, All-filter p xs h.1)
    | inr e ↦ rw e (All-filter p xs h.1)
  ]

  pub All-take : (n : ℕ) (xs : List A) → All P xs → All P (take n xs)
  All-take zero xs h = tt
  All-take (suc n) [] h = tt
  All-take (suc n) (x ∷ xs) h = (h.0, All-take n xs h.1)

  pub All-append : (xs ys : List A) → All P xs → All P ys → All P (xs ++ ys)
  All-append [] ys hx hy = hy
  All-append (x ∷ xs) ys hx hy = (hx.0, All-append xs ys hx.1 hy)

  pub All-set : (xs : List A) (i : ℕ) (v : A) → All P xs → P v → All P (set xs i v)
  All-set [] i v h p = tt
  All-set (x ∷ xs) zero v h p = (p, h.1)
  All-set (x ∷ xs) (suc i) v h p = (h.0, All-set xs i v h.1 p)

  pub All-get_elem? : (xs : List A) (i : ℕ) (a : A) → All P xs → get_elem? xs i ≡ some a → P a
  All-get_elem? [] i a h e = cc
  All-get_elem? (x ∷ xs) zero a h e = let q : x ≡ a = cc in rw q at (h.0)
  All-get_elem? (x ∷ xs) (suc i) a h e = All-get_elem? xs i a h.1 e

  pub All-find? : (p : A → Bool) (xs : List A) (a : A) → All P xs → find? p xs ≡ some a → P a
  All-find? p [] a h e = cc
  All-find? p (x ∷ xs) a h e = elim (Bool-cases (p x)) [
    | inl y ↦ let q : x ≡ a = ground arith in rw q at (h.0)
    | inr n ↦ All-find? p xs a h.1 (ground arith)
  ]

  pub All-map_to {μ} :
      {B : Type μ} (f : B → A) (xs : List B) → All (λ x. P (f x)) xs → All P (map f xs)
  All-map_to f [] h = tt
  All-map_to f (x ∷ xs) h = (h.0, All-map_to f xs h.1)

  pub All-intro : ((a : A) → P a) → (xs : List A) → All P xs
  All-intro h [] = tt
  All-intro h (x ∷ xs) = (h x, All-intro h xs)

module _ {ℓ κ μ} {A : Type ℓ} (P : A → Type κ) (Q : A → Type μ) where
  pub All-imp : (xs : List A) → ((a : A) → P a → Q a) → All P xs → All Q xs
  All-imp [] f h = tt
  All-imp (x ∷ xs) f h = (f x h.0, All-imp xs f h.1)

  pub All-imp2 {ν} :
      (R : A → Type ν) (xs : List A) → ((a : A) → P a → Q a → R a) → All P xs → All Q xs → All R xs
  All-imp2 R [] f h k = tt
  All-imp2 R (x ∷ xs) f h k = (f x h.0 k.0, All-imp2 R xs f h.1 k.1)

module _ {ℓ κ μ} {A : Type ℓ} (R : A → A → Type κ) (S : A → A → Type μ) where
  pub Pairwise-imp : (xs : List A) → ((a b : A) → R a b → S a b) → Pairwise R xs → Pairwise S xs
  Pairwise-imp [] f h = tt
  Pairwise-imp (x ∷ xs) f h = (All-imp (R x) (S x) xs (f x) h.0, Pairwise-imp xs f h.1)

module _ {ℓ} {A : Type ℓ} (p : A → Bool) where
  pub filter-holds : (xs : List A) → All (λ x. p x ≡ true) (filter p xs)
  filter-holds [] = tt
  filter-holds (x ∷ xs) = elim (Bool-cases (p x)) [
    | inl e ↦ rw e (e, filter-holds xs)
    | inr e ↦ rw e (filter-holds xs)
  ]

  pub find?-holds : (xs : List A) (a : A) → find? p xs ≡ some a → p a ≡ true
  find?-holds [] a e = cc
  find?-holds (x ∷ xs) a e = ground (arith, find?-holds xs a)

  pub any-eq-false : (xs : List A) → any p xs ≡ false → All (λ x. p x ≡ false) xs
  any-eq-false [] e = tt
  any-eq-false (x ∷ xs) e = (ground arith, any-eq-false xs (ground arith))

  pub all_iff : (xs : List A) → (all p xs ≡ true) ↔ All (λ x. p x ≡ true) xs
  all_iff [] = ((λ _. tt), (λ _. refl))
  all_iff (x ∷ xs) = (
    (λ e. (ground arith, (all_iff xs).0 (ground arith))),
    (λ h. ground (arith, (all_iff xs).1 h.1)),
  )

module _ {ℓ κ} {A : Type ℓ} (R : A → A → Type κ) where
  pub Pairwise-filter : (p : A → Bool) (xs : List A) → Pairwise R xs → Pairwise R (filter p xs)
  Pairwise-filter p [] h = tt
  Pairwise-filter p (x ∷ xs) h = elim (Bool-cases (p x)) [
    | inl e ↦ rw e (All-filter (R x) p xs h.0, Pairwise-filter p xs h.1)
    | inr e ↦ rw e (Pairwise-filter p xs h.1)
  ]

  pub Pairwise-take : (n : ℕ) (xs : List A) → Pairwise R xs → Pairwise R (take n xs)
  Pairwise-take zero xs h = tt
  Pairwise-take (suc n) [] h = tt
  Pairwise-take (suc n) (x ∷ xs) h = (All-take (R x) n xs h.0, Pairwise-take n xs h.1)

  -- A new last element that fits all others.
  pub Pairwise-snoc :
      (xs : List A) (y : A) → Pairwise R xs → All (λ x. R x y) xs → Pairwise R (xs ++ y ∷ [])
  Pairwise-snoc [] y h k = (tt, tt)
  Pairwise-snoc (x ∷ xs) y h k =
      (All-append (R x) xs (y ∷ []) h.0 (k.0, tt), Pairwise-snoc xs y h.1 k.1)

  pub Pairwise-append :
      (xs ys : List A)
      → Pairwise R xs
      → Pairwise R ys
      → All (λ x. All (R x) ys) xs
      → Pairwise R (xs ++ ys)
  Pairwise-append [] ys h k c = k
  Pairwise-append (x ∷ xs) ys h k c =
      (All-append (R x) xs ys h.0 c.0, Pairwise-append xs ys h.1 k c.1)

  -- A new element in place of another that fits all others.
  pub Pairwise-set :
      (xs : List A) (i : ℕ) (v : A)
      → ((a b : A) → R a b → R b a)
      → Pairwise R xs
      → All (λ x. R x v) xs
      → Pairwise R (set xs i v)
  Pairwise-set [] i v symm h k = tt
  Pairwise-set (x ∷ xs) zero v symm h k =
      (All-imp (λ y. R y v) (R v) xs (λ y r. symm y v r) k.1, h.1)
  Pairwise-set (x ∷ xs) (suc i) v symm h k =
      (All-set (R x) xs i v h.0 k.0, Pairwise-set xs i v symm h.1 k.1)

module _ {ℓ} {A : Type ℓ} ⦃e : PartialEq A⦄ where
  -- No element twice.
  abbrev pub Distinct : List A → Type 0
  Distinct [] = Unit
  Distinct (x ∷ xs) = (contains xs x ≡ false) × Distinct xs

  -- No element in both.
  abbrev pub Disjoint : List A → List A → Type 0
  Disjoint xs ys = All (λ x. contains ys x ≡ false) xs

  pub distinct_len-le : (xs : List A) → distinct_len xs ≤ length xs
  distinct_len-le [] = omega arith
  distinct_len-le (x ∷ xs) = ground (arith, distinct_len-le xs)

  -- The source's test for duplicates.
  pub distinct_len_iff : (xs : List A) → (distinct_len xs ≡ length xs) ↔ Distinct xs
  distinct_len_iff [] = ((λ _. tt), (λ _. refl))
  distinct_len_iff (x ∷ xs) = elim (Bool-cases (contains xs x)) [
    | inl c ↦ ((λ h. absurd (ground (arith, distinct_len-le xs))), (λ h. absurd (ground arith)))
    | inr c ↦ (
      (λ h. (c, (distinct_len_iff xs).0 (ground arith))),
      (λ h. ground (arith, (distinct_len_iff xs).1 h.1)),
    )
  ]
