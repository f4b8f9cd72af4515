-- ===== src/Scheduler/Allocate/Devices.antt =====
-- Every device that `allocate` returns is one of the inventory, unreserved, and returned once.
use mathlib.Core.List.{Mem}
use xlurm.Base.{
  ℕ, ◌≡◌, refl, sym, ap, ◌∙◌, ◌≢◌, inl, inr, Bool, true, false, Option, none, some, List, [], ◌∷◌,
  map, arith, Bool-cases, Option-cases, nat_eq, ◌==◌, option_eq, Text, text_eq, length, take,
  filter, find?, try_map, length-try_map, contains, All, Pairwise, All-filter, All-take, All-find?,
  All-intro, All-imp, filter-holds, find?-holds, int_eq,
}
use xlurm.Model.{priority, kind_beq_iff, kind_eq, key, state_eq, Device, Submission, Kind, nvidia}
use xlurm.Scheduler.Allocate.{
  accepts, is_named, has_all_ids, matching_kinds, pick, allocate_exact, is_free, allocate,
}
use xlurm.Scheduler.Allocate.Sound.{All-mem, allocate_from-Choice, Choice}

-- No two devices share a key.
abbrev pub IsKeyed : List Device → Type 0
IsKeyed = Pairwise (λ a b. key a ≢ key b)

pub pick-eq-some :
    (kind : Kind) (devices : List Device) (reserved : List Text) (id : ℕ) (d : Device)
    → pick kind devices reserved id ≡ some d
    → (find? (is_named kind id) devices ≡ some d) × (contains reserved (key d) ≡ false)
unfolding pick
pick-eq-some kind devices reserved id d e = ground arith

pub is_named_iff :
    (kind : Kind) (id : ℕ) (d : Device) → is_named kind id d ≡ true → (d.kind ≡ kind) × (d.id ≡ id)
unfolding is_named
is_named_iff kind id d e = ground (arith, kind_beq_iff d.kind kind)

module _ {ℓ κ μ ν} {A : Type ℓ} {B : Type κ} (f : A → Option B) (Q : A → Type ν)
    (P : B → Type μ) where
  pub try_map-All_of :
      (xs : List A) (ys : List B)
      → ((x : A) (y : B) → Q x → f x ≡ some y → P y)
      → All Q xs
      → try_map f xs ≡ some ys
      → All P ys
  try_map-All_of [] [] h q e = tt
  try_map-All_of [] (y ∷ ys) h q e = absurd (cc)
  try_map-All_of (x ∷ xs) [] h q e = tt
  try_map-All_of (x ∷ xs) (y ∷ ys) h q e =
      (h x y q.0 (ground arith), try_map-All_of xs ys h q.1 (ground arith))

try_map-All {ℓ κ μ} :
    {A : Type ℓ} {B : Type κ} (f : A → Option B) (P : B → Type μ) (xs : List A) (ys : List B)
    → ((x : A) (y : B) → f x ≡ some y → P y)
    → try_map f xs ≡ some ys
    → All P ys
try_map-All f P xs ys h e =
    try_map-All_of f (λ _. Unit {0}) P xs ys (λ x y _. h x y) (All-intro _ (λ _. tt) xs) e

pub find?-unique :
    (p q : Device → Bool) (ds : List Device) (a b : Device)
    → IsKeyed ds
    → find? p ds ≡ some a
    → find? q ds ≡ some b
    → key a ≡ key b
    → a ≡ b
find?-unique p q [] a b keyed ea eb same = cc
find?-unique p q (d ∷ ds) a b keyed ea eb same = elim (Bool-cases (p d)) [
  | inl pd ↦ elim (Bool-cases (q d)) [
    | inl qd ↦ ground arith
    | inr qd ↦
        let d_is_a : d ≡ a = ground arith in
        absurd (All-find? (λ x. key d ≢ key x) q ds b keyed.0 (ground arith) (ap key d_is_a ∙ same))
  ]
  | inr pd ↦ elim (Bool-cases (q d)) [
    | inl qd ↦
        let d_is_b : d ≡ b = ground arith in
        absurd
          (All-find? (λ x. key d ≢ key x) p ds a keyed.0 (ground arith) (ap key d_is_b ∙ sym same))
    | inr qd ↦ find?-unique p q ds a b keyed.1 (ground arith) (ground arith) same
  ]
]

-- What `allocate_exact` returns for the kind that it looks at.
allocate_exact-eq-some :
    (ids : List ℕ) (kinds : List Kind) (devices : List Device) (reserved : List Text)
    (ds : List Device)
    → allocate_exact ids kinds devices reserved ≡ some ds
    → (kind : Kind) × (rest : List Kind) × (kinds ≡ kind ∷ rest)
      × (try_map (pick kind devices reserved) ids ≡ some ds)
      × (length ds ≡ length ids)
unfolding allocate_exact
allocate_exact-eq-some ids [] devices reserved ds e = absurd (cc)
allocate_exact-eq-some ids (kind ∷ rest) devices reserved ds e =
    (kind, rest, refl, ground arith, ground arith)

-- How `allocate` came to its answer.
pub data Answer (spec : Submission) (devices : List Device) (reserved : List Text)
    (ds : List Device) : Type 0 where
  exact :
      (ids : List ℕ) (kind : Kind) (rest : List Kind)
      → spec.device_ids ≡ some ids
      → matching_kinds spec devices ≡ kind ∷ rest
      → try_map (pick kind devices reserved) ids ≡ some ds
      → Answer spec devices reserved ds
  nothing : spec.device_ids ≡ none → spec.count ≡ 0 → ds ≡ [] → Answer spec devices reserved ds
  automatic :
      spec.device_ids ≡ none
      → Choice priority spec devices reserved ds
      → Answer spec devices reserved ds

pub allocate-Answer :
    (spec : Submission) (devices : List Device) (reserved : List Text) (ds : List Device)
    → allocate spec devices reserved ≡ some ds
    → Answer spec devices reserved ds
unfolding allocate
allocate-Answer spec devices reserved ds e = elim (Option-cases spec.device_ids) [
  | inr (ids, given) ↦
      let (kind, rest, first, picked, same) =
        allocate_exact-eq-some ids (matching_kinds spec devices) devices reserved ds
          (ground arith) in
      exact ids kind rest given first picked
  | inl given ↦ elim (Bool-cases (spec.count == 0)) [
    | inl none_wanted ↦ nothing given (ground arith) (ground arith)
    | inr more ↦
        automatic given (allocate_from-Choice spec devices reserved priority ds (ground arith))
  ]
]

-- What the caller asked for: its exact IDs, or a number of devices.
abbrev pub requested : Submission → ℕ
requested spec = elim spec.device_ids [ none ↦ spec.count | some ids ↦ length ids ]

abbrev pub MeetsIds : Option (List ℕ) → List ℕ → List Device → Type 0
MeetsIds none excluded ds = All (λ d. contains excluded d.id ≡ false) ds
MeetsIds (some ids) excluded ds = map (λ (d : Device). d.id) ds ≡ ids

pub record IsAllocation (spec : Submission) (devices : List Device) (reserved : List Text)
    (ds : List Device) : Type 0 where
  pub from_inventory : All (λ d. Mem d devices) ds
  pub unreserved : All (λ d. contains reserved (key d) ≡ false) ds
  pub accepted : All (λ d. accepts spec.kind d.kind ≡ true) ds
  pub one_kind : (k : Kind) × All (λ d. d.kind ≡ k) ds
  pub counted : length ds ≡ requested spec
  pub meets_ids : MeetsIds spec.device_ids spec.exclude_device_ids ds

module _ {ℓ κ} {A : Type ℓ} {B : Type κ} (f : A → Option B) (g : B → A) where
  map-try_map :
      (xs : List A) (ys : List B)
      → ((x : A) (y : B) → f x ≡ some y → g y ≡ x)
      → try_map f xs ≡ some ys
      → map g ys ≡ xs
  map-try_map [] [] h e = refl
  map-try_map [] (y ∷ ys) h e = cc
  map-try_map (x ∷ xs) [] h e = ground arith
  map-try_map (x ∷ xs) (y ∷ ys) h e = cc (h x y (ground arith), map-try_map xs ys h (ground arith))

matching_kinds-accepts :
    (spec : Submission) (devices : List Device)
    → All (λ k. accepts spec.kind k ≡ true) (matching_kinds spec devices)
unfolding matching_kinds
matching_kinds-accepts spec devices =
    All-filter _ (has_all_ids spec.device_ids devices) _ (filter-holds (accepts spec.kind) priority)

module _ (spec : Submission) (devices : List Device) (reserved : List Text) where
  nothing-IsAllocation :
      (ds : List Device)
      → spec.device_ids ≡ none
      → spec.count ≡ 0
      → ds ≡ []
      → IsAllocation spec devices reserved ds
  nothing-IsAllocation ds auto none_wanted empty = rw empty (record {
    from_inventory = tt;
    unreserved = tt;
    accepted = tt;
    one_kind = (nvidia, tt);
    counted = rw auto (sym none_wanted);
    meets_ids = rw auto tt;
  })

  is_free_iff :
      (k : Kind) (d : Device)
      → is_free spec reserved k d ≡ true
      → (d.kind ≡ k)
        × (contains reserved (key d) ≡ false)
        × (contains spec.exclude_device_ids d.id ≡ false)
  unfolding is_free
  is_free_iff k d e = ground (arith, kind_beq_iff d.kind k)

  taken-All {ℓ} :
      (P : Device → Type ℓ) (k : Kind)
      → ((d : Device) → is_free spec reserved k d ≡ true → P d)
      → All P (take spec.count (filter (is_free spec reserved k) devices))
  taken-All P k h =
      All-take P spec.count (filter (is_free spec reserved k) devices)
        (All-imp _ P _ h (filter-holds (is_free spec reserved k) devices))

  Choice-IsAllocation :
      (ds : List Device)
      → spec.device_ids ≡ none
      → Choice priority spec devices reserved ds
      → IsAllocation spec devices reserved ds
  Choice-IsAllocation ds auto c = record {
    from_inventory =
        rw c.taken (All-take _ spec.count _ (All-filter _ free devices (All-mem devices)));
    unreserved = rw c.taken (taken-All _ c.chosen (λ d e. (is_free_iff c.chosen d e).1));
    accepted = rw c.taken (
        taken-All (λ d. accepts spec.kind d.kind ≡ true) c.chosen
          (λ d e. rw ((is_free_iff c.chosen d e).0) c.accepted));
    one_kind = (c.chosen, rw c.taken (taken-All _ c.chosen (λ d e. (is_free_iff c.chosen d e).0)));
    counted = rw auto c.enough;
    meets_ids = rw auto (rw c.taken (taken-All _ c.chosen (λ d e. (is_free_iff c.chosen d e).2)));
  }
    where
      free : Device → Bool
      free = is_free spec reserved c.chosen

  exact-IsAllocation :
      (ids : List ℕ) (kind : Kind) (rest : List Kind) (ds : List Device)
      → spec.device_ids ≡ some ids
      → matching_kinds spec devices ≡ kind ∷ rest
      → try_map (pick kind devices reserved) ids ≡ some ds
      → IsAllocation spec devices reserved ds
  exact-IsAllocation ids kind rest ds given first picked = record {
    from_inventory =
        try_map-All _ _ ids ds
          (λ id d e. All-find? _ _ devices d (All-mem devices) (found id d e).0) picked;
    unreserved = try_map-All _ _ ids ds (λ id d e. (found id d e).1) picked;
    accepted =
        try_map-All _ (λ d. accepts spec.kind d.kind ≡ true) ids ds
          (λ id d e. rw ((named id d e).0) kind_accepted) picked;
    one_kind = (kind, try_map-All _ _ ids ds (λ id d e. (named id d e).0) picked);
    counted = rw given (length-try_map _ ids ds picked);
    meets_ids = rw given (map-try_map _ (λ d. d.id) ids ds (λ id d e. (named id d e).1) picked);
  }
    where
      found :
          (id : ℕ) (d : Device)
          → pick kind devices reserved id ≡ some d
          → (find? (is_named kind id) devices ≡ some d) × (contains reserved (key d) ≡ false)
      found id d e = pick-eq-some kind devices reserved id d e

      named :
          (id : ℕ) (d : Device)
          → pick kind devices reserved id ≡ some d
          → (d.kind ≡ kind) × (d.id ≡ id)
      named id d e =
          is_named_iff kind id d (find?-holds (is_named kind id) devices d (found id d e).0)

      kind_accepted : accepts spec.kind kind ≡ true
      kind_accepted =
          let all_accepted : All (λ k. accepts spec.kind k ≡ true) (matching_kinds spec devices) =
            matching_kinds-accepts spec devices in
          (rw first at all_accepted).0

  -- What `allocate` returns is a valid allocation, however the devices were requested.
  pub allocate-IsAllocation :
      (ds : List Device)
      → allocate spec devices reserved ≡ some ds
      → IsAllocation spec devices reserved ds
  allocate-IsAllocation ds e = elim (allocate-Answer spec devices reserved ds e) [
    | exact ids kind rest given first picked ↦
        exact-IsAllocation ids kind rest ds given first picked
    | nothing auto none_wanted empty ↦ nothing-IsAllocation ds auto none_wanted empty
    | automatic auto c ↦ Choice-IsAllocation ds auto c
  ]
