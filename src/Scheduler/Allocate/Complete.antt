-- ===== src/Scheduler/Allocate/Complete.antt =====
-- When `allocate` refuses: exactly when no accepted kind has enough free devices, and then it refuses
-- whenever more is reserved.
use xlurm.Base.{
  ℕ, ◌≤◌, ◌<◌, ◌≡◌, ap, ◌≢◌, ◌↔◌, inl, inr, Bool, true, false, none, some, List, [], ◌∷◌, arith,
  Option-cases, nat_eq, ◌==◌, option_eq, Text, text_eq, length, filter, try_map, length-try_map,
  contains, All, find?-holds, any-eq-false, Pairwise-filter, Pairwise-take, Distinct, int_eq,
}
use xlurm.Model.{
  priority, kind_eq, key, state_eq, Device, Submission, Kind, nvidia, ascend, mthreads, metax, ppu,
  hcu,
}
use xlurm.Scheduler.Allocate.{
  accepts, is_named, matching_kinds, pick, allocate_exact, is_free, allocate_from, allocate,
}
use xlurm.Scheduler.Allocate.Sound.{length-take_iff}
use xlurm.Scheduler.Allocate.Devices.{
  IsKeyed, pick-eq-some, is_named_iff, try_map-All_of, find?-unique, allocate-Answer, exact,
  nothing, automatic,
}

-- Each device is given out once.
abbrev pub HasDistinctIds : Submission → Type 0
HasDistinctIds spec = elim spec.device_ids [ none ↦ Unit {0} | some ids ↦ Distinct ids ]

picks-IsKeyed :
    (kind : Kind) (devices : List Device) (reserved : List Text) (ids : List ℕ) (ds : List Device)
    → IsKeyed devices
    → Distinct ids
    → try_map (pick kind devices reserved) ids ≡ some ds
    → IsKeyed ds
picks-IsKeyed kind devices reserved [] [] keyed h e = tt
picks-IsKeyed kind devices reserved [] (d ∷ ds) keyed h e = absurd (cc)
picks-IsKeyed kind devices reserved (i ∷ ids) [] keyed h e = tt
picks-IsKeyed kind devices reserved (i ∷ ids) (d ∷ ds) keyed h e = (
  try_map-All_of (pick kind devices reserved) (λ j. (j == i) ≡ false) (λ b. key d ≢ key b) ids ds
      (λ j b other eb same.
        let (found_d, _) = pick-eq-some kind devices reserved i d (ground arith) in
        let (found_b, _) = pick-eq-some kind devices reserved j b eb in
        let one : d ≡ b =
          find?-unique (is_named kind i) (is_named kind j) devices d b keyed found_d found_b same in
        let id_d = (is_named_iff kind i d (find?-holds (is_named kind i) devices d found_d)).1 in
        let id_b = (is_named_iff kind j b (find?-holds (is_named kind j) devices b found_b)).1 in
        ground (arith, ap (λ (x : Device). x.id) one))
      (any-eq-false (λ j. j == i) ids h.0) (ground arith),
  picks-IsKeyed kind devices reserved ids ds keyed h.1 (ground arith),
)

-- The devices of a job have different keys.
pub allocate-IsKeyed :
    (spec : Submission) (devices : List Device) (reserved : List Text) (ds : List Device)
    → IsKeyed devices
    → HasDistinctIds spec
    → allocate spec devices reserved ≡ some ds
    → IsKeyed ds
allocate-IsKeyed spec devices reserved ds keyed h e =
    elim (allocate-Answer spec devices reserved ds e) [
      | exact ids kind rest given first picked ↦
          picks-IsKeyed kind devices reserved ids ds keyed (rw given at h) picked
      | nothing auto none_wanted empty ↦ rw empty tt
      | automatic auto c ↦ rw c.taken (
          Pairwise-take _ spec.count _
            (Pairwise-filter _ (is_free spec reserved c.chosen) devices keyed))
    ]

length-filter_mono {ℓ} :
    {A : Type ℓ} (p q : A → Bool) (xs : List A)
    → ((x : A) → p x ≡ true → q x ≡ true)
    → length (filter p xs) ≤ length (filter q xs)
length-filter_mono p q [] h = omega arith
length-filter_mono p q (x ∷ xs) h = ground (arith, h x, length-filter_mono p q xs h)

-- Every key of the first set is in the second.
abbrev pub Within : List Text → List Text → Type 0
Within xs ys = (t : Text) → contains xs t ≡ true → contains ys t ≡ true

-- `count` of them are not free.
abbrev pub TooFew : Submission → List Device → List Text → Kind → Type 0
TooFew spec devices reserved k =
    accepts spec.kind k ≡ true → length (filter (is_free spec reserved k) devices) < spec.count

module _ (spec : Submission) (devices : List Device) (reserved : List Text) where
  allocate_from-eq-none :
      (kinds : List Kind)
      → allocate_from kinds spec devices reserved ≡ none
      → All (TooFew spec devices reserved) kinds
  unfolding allocate_from
  allocate_from-eq-none [] e = tt
  allocate_from-eq-none (k ∷ kinds) e = (
    (λ a. ground (arith, length-take_iff spec.count (filter (is_free spec reserved k) devices))),
    allocate_from-eq-none kinds (ground arith),
  )

  every_kind : (P : Kind → Type 0) → All P priority → (k : Kind) → P k
  every_kind P h nvidia = h.0
  every_kind P h ascend = h.1.0
  every_kind P h mthreads = h.1.1.0
  every_kind P h metax = h.1.1.1.0
  every_kind P h ppu = h.1.1.1.1.0
  every_kind P h hcu = h.1.1.1.1.1.0

  allocate-refuses :
      spec.device_ids ≡ none
      → ((k : Kind) → TooFew spec devices reserved k)
      → 0 < spec.count
      → (ds : List Device) → allocate spec devices reserved ≢ some ds
  allocate-refuses auto few positive ds e = elim (allocate-Answer spec devices reserved ds e) [
    | exact ids kind rest given first picked ↦ cc
    | nothing _ none_wanted empty ↦ omega arith
    | automatic _ c ↦ absurd (
        ground (
          arith,
          ap length c.taken,
          c.enough,
          length-take_iff spec.count (filter (is_free spec reserved c.chosen) devices),
          few c.chosen c.accepted,
        ))
  ]

  -- With no exact IDs a request is refused exactly when every kind that it accepts has fewer free
  -- devices than it wants.
  pub allocate-eq-none_iff :
      spec.device_ids ≡ none
      → (allocate spec devices reserved ≡ none)
        ↔ ((0 < spec.count) × ((k : Kind) → TooFew spec devices reserved k))
  unfolding allocate
  allocate-eq-none_iff auto = (
    (λ e. (ground arith, every_kind _ (allocate_from-eq-none priority (ground arith)))),
    (λ (positive, few). elim (Option-cases (allocate spec devices reserved)) [
      | inl e ↦ e
      | inr (ds, e) ↦ absurd (allocate-refuses auto few positive ds e)
    ]),
  )

module _ (spec : Submission) (devices : List Device) (few more : List Text)
    (within : Within few more) where
  pick-within :
      (kind : Kind) (id : ℕ) (d : Device)
      → pick kind devices more id ≡ some d
      → pick kind devices few id ≡ some d
  unfolding pick
  pick-within kind id d e = ground (arith, within (key d))

  picks-within :
      (kind : Kind) (ids : List ℕ) (ds : List Device)
      → try_map (pick kind devices more) ids ≡ some ds
      → try_map (pick kind devices few) ids ≡ some ds
  picks-within kind [] ds e = e
  picks-within kind (i ∷ ids) [] e = absurd (ground arith)
  picks-within kind (i ∷ ids) (d ∷ ds) e =
      ground (arith, pick-within kind i d, picks-within kind ids ds)

  is_free-within :
      (k : Kind) (d : Device) → is_free spec more k d ≡ true → is_free spec few k d ≡ true
  unfolding is_free
  is_free-within k d e = ground (arith, within (key d))

  exact_granted :
      (ids : List ℕ) (kind : Kind) (rest : List Kind) (ds : List Device)
      → spec.device_ids ≡ some ids
      → matching_kinds spec devices ≡ kind ∷ rest
      → try_map (pick kind devices few) ids ≡ some ds
      → length ds ≡ length ids
      → allocate spec devices few ≡ some ds
  unfolding allocate allocate_exact
  exact_granted ids kind rest ds given first picked same =
      rw (given, allocate, first, allocate_exact, picked) (ground arith)

  allocate-exact-within :
      (ids : List ℕ) (ds : List Device)
      → spec.device_ids ≡ some ids
      → allocate spec devices more ≡ some ds
      → allocate spec devices few ≢ none
  allocate-exact-within ids ds given e e' = elim (allocate-Answer spec devices more ds e) [
    | exact js kind rest given' first picked ↦ cc (
        exact_granted js kind rest ds given' first (picks-within kind js ds picked)
          (length-try_map (pick kind devices more) js ds picked))
    | nothing auto _ _ ↦ cc
    | automatic auto _ ↦ cc
  ]

  -- What is refused stays refused when more devices are reserved.
  pub allocate-within : allocate spec devices few ≡ none → allocate spec devices more ≡ none
  allocate-within e = elim (Option-cases spec.device_ids) [
    | inl auto ↦
        let (positive, short) = (allocate-eq-none_iff spec devices few auto).0 e in
        (allocate-eq-none_iff spec devices more auto).1 (
          positive,
          λ k a. ground (
            arith,
            short k a,
            length-filter_mono (is_free spec more k) (is_free spec few k) devices
                (is_free-within k),
          ),
        )
    | inr (ids, given) ↦ elim (Option-cases (allocate spec devices more)) [
      | inl refused ↦ refused
      | inr (ds, granted) ↦ absurd (allocate-exact-within ids ds given granted e)
    ]
  ]
