-- ===== src/Scheduler/Submit/Admit.antt =====
-- Which requests `submit` admits, and what it then knows of them.
use xlurm.Base.{
  ℕ, ◌+◌, ◌^◌, ◌<◌, ◌≡◌, refl, ◌≢◌, inl, inr, true, false, not, ◌||◌, none, some, List, [], ◌∷◌,
  arith, Option-cases, nat_eq, option_eq, text_eq, length, is_empty, all, distinct_len, Distinct,
  distinct_len_iff, Keeps, >>=-Keeps, Keeps-ok, ok, int_eq,
}
use xlurm.Model.{kind_eq, state_eq, Device, Submission, Kind}
use xlurm.Scheduler.Machine.{Host, Scheduler}
use xlurm.Scheduler.Allocate.{matching_kinds, allocate}
use xlurm.Scheduler.Submit.{
  is_some, is_enabled_or_other, one_kind, check_exact, find_kind, check_enabled, resolve_exact,
  resolve, check_possible, number, check_request, admit,
}

-- A request with exact IDs that passed the checks: the IDs differ, exactly one kind has them all, and
-- none of its devices with these IDs is disabled.
pub record ExactRequest {W : Type 0} (ids : List ℕ) (given spec : Submission) (s : Scheduler W)
    : Type 0 where
  pub some_id : is_empty ids ≡ false
  pub same_count : given.count ≡ length ids
  pub distinct : Distinct ids
  pub no_exclusions : is_empty given.exclude_device_ids ≡ true
  pub kind : Kind
  pub only_kind : matching_kinds given s.inventory.devices ≡ kind ∷ []
  pub enabled : all (is_enabled_or_other kind ids s.excluded_devices) s.inventory.devices ≡ true
  pub settled : spec ≡ record given { kind = some kind }

-- Both halves of a check: the state stays, and success means that the test held.
module _ {W : Type 0} where
  check_exact-state :
      (ids : List ℕ) (given : Submission) (s : Scheduler W) → (check_exact ids given s).1 ≡ s
  unfolding check_exact
  check_exact-state ids given s = ground arith

  check_exact-ok :
      (ids : List ℕ) (given : Submission) (s : Scheduler W)
      → (check_exact ids given s).0 ≡ ok tt
      → (is_empty ids ≡ false)
        × (given.count ≡ length ids)
        × (distinct_len ids ≡ length ids)
        × (is_empty given.exclude_device_ids ≡ true)
  unfolding check_exact
  check_exact-ok ids given s e = ground arith

  one_kind-ok :
      (kinds : List Kind) (s : Scheduler W)
      → ((one_kind kinds s).1 ≡ s) × ((k : Kind) → (one_kind kinds s).0 ≡ ok k → kinds ≡ k ∷ [])
  unfolding one_kind
  one_kind-ok [] s = (refl, (λ k e. absurd (cc)))
  one_kind-ok (a ∷ []) s = (refl, (λ k e. ground arith))
  one_kind-ok (a ∷ b ∷ rest) s = (refl, (λ k e. absurd (cc)))

  check_enabled-ok :
      (kind : Kind) (ids : List ℕ) (s : Scheduler W)
      → ((check_enabled kind ids s).1 ≡ s)
        × ((check_enabled kind ids s).0 ≡ ok tt
            → all (is_enabled_or_other kind ids s.excluded_devices) s.inventory.devices ≡ true)
  unfolding check_enabled
  check_enabled-ok kind ids s = ground arith

  find_kind-ok :
      (given : Submission) (s : Scheduler W)
      → ((find_kind given s).1 ≡ s)
        × ((k : Kind)
            → (find_kind given s).0 ≡ ok k
            → matching_kinds given s.inventory.devices ≡ k ∷ [])
  unfolding find_kind
  find_kind-ok given s = one_kind-ok (matching_kinds given s.inventory.devices) s

  resolve_exact-ok :
      (ids : List ℕ) (given spec : Submission) (s : Scheduler W)
      → (resolve_exact ids given s).0 ≡ ok spec
      → ExactRequest ids given spec s
  unfolding resolve_exact
  resolve_exact-ok ids given spec s e =
      let (_, e₁, e₂) = Keeps-ok (check_exact ids given) _ s (check_exact-state ids given) e in
      let (k, e₃, e₄) = Keeps-ok (find_kind given) _ s (λ t. (find_kind-ok given t).0) e₂ in
      let (_, e₅, e₆) = Keeps-ok (check_enabled k ids) _ s (λ t. (check_enabled-ok k ids t).0) e₄ in
      let (present, counted, differ, alone) = check_exact-ok ids given s e₁ in
      record {
        some_id = present;
        same_count = counted;
        distinct = (distinct_len_iff ids).0 differ;
        no_exclusions = alone;
        kind = k;
        only_kind = (find_kind-ok given s).1 k e₃;
        enabled = (check_enabled-ok k ids s).1 e₅;
        settled = cc;
      }

  resolve_exact-state :
      (ids : List ℕ) (given : Submission) → Keeps (resolve_exact {W = W} ids given)
  unfolding resolve_exact
  resolve_exact-state ids given =
      >>=-Keeps (check_exact ids given) _ (check_exact-state ids given) (λ _.
        >>=-Keeps (find_kind given) _ (λ t. (find_kind-ok given t).0)
          (λ k.
            >>=-Keeps (check_enabled k ids) _ (λ t. (check_enabled-ok k ids t).0) (λ _ t. refl)))

  resolve-state : (given : Submission) → Keeps (resolve {W = W} given)
  unfolding resolve
  resolve-state given s = elim (Option-cases given.device_ids) [
    | inl e ↦ rw (e, resolve) refl
    | inr (ids, e) ↦ rw (e, resolve) (resolve_exact-state ids given s)
  ]

-- How the request that is stored comes from the one that was sent.
pub data Resolved {W : Type 0} (given spec : Submission) (s : Scheduler W) : Type 0 where
  automatic : given.device_ids ≡ none → spec ≡ given → Resolved given spec s
  exact :
      (ids : List ℕ)
      → given.device_ids ≡ some ids
      → ExactRequest ids given spec s
      → Resolved given spec s

pub record Admitted {W : Type 0} (host : Host W) (given spec : Submission) (id : ℕ)
    (s : Scheduler W) : Type 0 where
  pub runnable : (is_some given.script || not (is_empty given.command)) ≡ true
  pub directory : host.fs.is_dir given.cwd s.world ≡ true
  pub limited : given.time_limit ≢ some 0
  pub exclusions_differ : Distinct given.exclude_device_ids
  pub resolved : Resolved given spec s
  pub possible :
      (ds : List Device) × (allocate spec s.inventory.devices s.excluded_devices ≡ some ds)
  pub next : id ≡ s.store.next_id + 1
  pub in_range : id < 2 ^ 64

module _ {W : Type 0} where
  resolve-ok :
      (given spec : Submission) (s : Scheduler W)
      → (resolve given s).0 ≡ ok spec
      → Resolved given spec s
  unfolding resolve
  resolve-ok given spec s e = elim (Option-cases given.device_ids) [
    | inl none_given ↦ automatic none_given (ground arith)
    | inr (ids, ids_given) ↦
        exact ids ids_given (resolve_exact-ok ids given spec s (rw (ids_given, resolve) at e))
  ]

  check_possible-ok :
      (spec : Submission) (s : Scheduler W)
      → ((check_possible spec s).1 ≡ s)
        × ((check_possible spec s).0 ≡ ok tt
            → (ds : List Device) × (allocate spec s.inventory.devices s.excluded_devices ≡ some ds))
  unfolding check_possible
  check_possible-ok spec s =
      elim (Option-cases (allocate spec s.inventory.devices s.excluded_devices)) [
        | inl e ↦ (ground arith, λ h. absurd (ground arith))
        | inr (ds, e) ↦ (ground arith, λ h. (ds, e))
      ]

  number-ok :
      (s : Scheduler W)
      → ((number s).1 ≡ s)
        × ((id : ℕ) → (number s).0 ≡ ok id → (id ≡ s.store.next_id + 1) × (id < 2 ^ 64))
  unfolding number
  number-ok s = (ground arith, λ id e. ground arith)

  module _ (host : Host W) where
    check_request-ok :
        (given : Submission) (s : Scheduler W)
        → ((check_request host given s).1 ≡ s)
          × ((check_request host given s).0 ≡ ok tt
              → ((is_some given.script || not (is_empty given.command)) ≡ true)
                × (host.fs.is_dir given.cwd s.world ≡ true)
                × (given.time_limit ≢ some 0)
                × (distinct_len given.exclude_device_ids ≡ length given.exclude_device_ids))
    unfolding check_request
    check_request-ok given s = (ground arith, λ e. ground arith)

    pub admit-Admitted :
        (given spec : Submission) (id : ℕ) (s : Scheduler W)
        → (admit host given s).0 ≡ ok (spec, id)
        → Admitted host given spec id s
    unfolding admit
    admit-Admitted given spec id s e =
        let (_, e₁, e₂) =
          Keeps-ok (check_request host given) _ s (λ t. (check_request-ok given t).0) e in
        let (spec', e₃, e₄) = Keeps-ok (resolve given) _ s (resolve-state given) e₂ in
        let (_, e₅, e₆) =
          Keeps-ok (check_possible spec') _ s (λ t. (check_possible-ok spec' t).0) e₄ in
        let (id', e₇, e₈) = Keeps-ok number _ s (λ t. (number-ok t).0) e₆ in
        let (runs, there, limit, differ) = (check_request-ok given s).1 e₁ in
        let same_spec : spec' ≡ spec = cc in
        let same_id : id' ≡ id = cc in
        record {
          runnable = runs;
          directory = there;
          limited = limit;
          exclusions_differ = (distinct_len_iff given.exclude_device_ids).0 differ;
          resolved = rw same_spec at (resolve-ok given spec' s e₃);
          possible = rw same_spec at ((check_possible-ok spec' s).1 e₅);
          next = rw same_id at (((number-ok s).1 id' e₇).0);
          in_range = rw same_id at (((number-ok s).1 id' e₇).1);
        }

    pub admit-Keeps : (given : Submission) → Keeps (admit host given)
    unfolding admit
    admit-Keeps given =
        >>=-Keeps (check_request host given) _ (λ t. (check_request-ok given t).0)
          (λ _. >>=-Keeps (resolve given) _ (resolve-state given) (λ spec.
            >>=-Keeps (check_possible spec) _ (λ t. (check_possible-ok spec t).0)
              (λ _. >>=-Keeps number _ (λ t. (number-ok t).0) (λ id t. refl))))
