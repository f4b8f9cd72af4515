-- ===== src/Scheduler/Allocate/Sound.antt =====
-- What `allocate` returns: devices of the inventory, of one kind, none reserved and none twice.
use mathlib.Core.List.{Mem, mem-cons_self, mem-cons_of_mem}
use xlurm.Base.{
  ℕ, zero, suc, ◌≤◌, ◌<◌, ◌≡◌, refl, ap, inl, inr, true, some, List, [], ◌∷◌, ◌++◌, arith,
  Bool-cases, nat_eq, ◌==◌, option_eq, Text, text_eq, length, take, filter, All, All-imp, int_eq,
}
use xlurm.Model.{kind_eq, state_eq, Device, Submission, Kind}
use xlurm.Scheduler.Allocate.{accepts, is_free, allocate_from}

pub All-mem {ℓ} : {A : Type ℓ} (xs : List A) → All (λ x. Mem x xs) xs
All-mem [] = tt
All-mem (x ∷ xs) = (
  mem-cons_self,
  All-imp (λ y. Mem y xs) (λ y. Mem y (x ∷ xs)) xs (λ y m. mem-cons_of_mem x m) (All-mem xs),
)

pub length-take_iff {ℓ} :
    {A : Type ℓ} (n : ℕ) (xs : List A)
    → ((length (take n xs) == n) ≡ true → n ≤ length xs)
      × (n ≤ length xs → (length (take n xs) == n) ≡ true)
length-take_iff zero xs = ground arith
length-take_iff (suc n) [] = ground arith
length-take_iff (suc n) (x ∷ xs) = ground (arith, length-take_iff n xs)

-- What the loop over the kinds chose: a kind that it accepts, with enough free devices, after kinds
-- that it does not accept or that have too few.
pub record Choice (kinds : List Kind) (spec : Submission) (devices : List Device)
    (reserved : List Text) (ds : List Device) : Type 0 where
  pub chosen : Kind
  pub before : List Kind
  pub after : List Kind
  pub split : kinds ≡ before ++ chosen ∷ after
  pub accepted : accepts spec.kind chosen ≡ true
  pub taken : ds ≡ take spec.count (filter (is_free spec reserved chosen) devices)
  pub enough : length ds ≡ spec.count
  pub skipped :
      All
        (λ k.
          accepts spec.kind k ≡ true
          → length (filter (is_free spec reserved k) devices) < spec.count)
        before

module _ (spec : Submission) (devices : List Device) (reserved : List Text) where
  abbrev pool : Kind → List Device
  pool k = filter (is_free spec reserved k) devices

  Choice-cons :
      (k : Kind) (kinds : List Kind) (ds : List Device)
      → (accepts spec.kind k ≡ true → length (pool k) < spec.count)
      → Choice kinds spec devices reserved ds
      → Choice (k ∷ kinds) spec devices reserved ds
  Choice-cons k kinds ds few c = record {
    chosen = c.chosen;
    before = k ∷ c.before;
    after = c.after;
    split = ap (◌∷◌ k) c.split;
    accepted = c.accepted;
    taken = c.taken;
    enough = c.enough;
    skipped = (few, c.skipped);
  }

  pub allocate_from-Choice :
      (kinds : List Kind) (ds : List Device)
      → allocate_from kinds spec devices reserved ≡ some ds
      → Choice kinds spec devices reserved ds
  unfolding allocate_from
  allocate_from-Choice [] ds e = absurd (cc)
  allocate_from-Choice (k ∷ kinds) ds e = elim (Bool-cases (accepts spec.kind k)) [
    | inr refused ↦ Choice-cons k kinds ds (λ a. cc) (allocate_from-Choice kinds ds (ground arith))
    | inl accepted ↦ elim (Bool-cases (length (take spec.count (pool k)) == spec.count)) [
      | inl enough ↦ record {
        chosen = k;
        before = [];
        after = kinds;
        split = refl;
        accepted = accepted;
        taken = ground arith;
        enough = ground arith;
        skipped = tt;
      }
      | inr few ↦
          Choice-cons k kinds ds (λ _. ground (arith, (length-take_iff spec.count (pool k)).1))
            (allocate_from-Choice kinds ds (ground arith))
    ]
  ]
