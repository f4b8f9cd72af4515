-- ===== src/Scheduler/Allocate.antt =====
-- src/scheduler.rs, `allocate` and `matching_kinds`: which devices a job gets. A set of reserved keys
-- is a list of them, of which only membership matters.
pub mod Sound
pub mod Devices
pub mod Complete
use xlurm.Base.{
  ℕ, Bool, true, false, not, ◌&&◌, Option, none, some, List, [], ◌∷◌, if◌then◌else◌, nat_eq, ◌==◌,
  option_eq, Text, text_eq, length, take, filter, find?, any, all, try_map, contains, int_eq,
}
use xlurm.Model.{priority, kind_eq, key, state_eq, Device, Submission, Kind}

-- `wanted.is_none_or(|wanted| wanted == kind)`
unfoldable pub accepts : Option Kind → Kind → Bool
accepts none kind = true
accepts (some wanted) kind = wanted == kind

unfoldable pub is_named : Kind → ℕ → Device → Bool
is_named kind id device = (device.kind == kind) && (device.id == id)

unfoldable pub has_all_ids : Option (List ℕ) → List Device → Kind → Bool
unfolding is_named
has_all_ids none devices kind = false
has_all_ids (some ids) devices kind = all (λ id. any (is_named kind id) devices) ids

unfoldable pub matching_kinds : Submission → List Device → List Kind
unfolding accepts has_all_ids
matching_kinds spec devices =
    filter (has_all_ids spec.device_ids devices) (filter (accepts spec.kind) priority)

-- One exact ID: the device of the kind with that ID, unless it is reserved.
unfoldable pub pick : Kind → List Device → List Text → ℕ → Option Device
unfolding is_named
pick kind devices reserved id = elim (find? (is_named kind id) devices) [
  | none ↦ none
  | some device ↦ if contains reserved (key device) then none else some device
]

unfoldable pub allocate_exact : List ℕ → List Kind → List Device → List Text → Option (List Device)
unfolding pick
allocate_exact ids [] devices reserved = none
allocate_exact ids (kind ∷ kinds) devices reserved =
    elim (try_map (pick kind devices reserved) ids) [
      | none ↦ none
      | some selected ↦ if length selected == length ids then some selected else none
    ]

unfoldable pub is_free : Submission → List Text → Kind → Device → Bool
is_free spec reserved kind d =
    (d.kind == kind)
    && not (contains reserved (key d))
    && not (contains spec.exclude_device_ids d.id)

-- The `for` loop over the kinds.
unfoldable pub allocate_from :
    List Kind → Submission → List Device → List Text → Option (List Device)
unfolding is_free accepts
allocate_from [] spec devices reserved = none
allocate_from (kind ∷ kinds) spec devices reserved =
    let rest = allocate_from kinds spec devices reserved in
    let selected = take spec.count (filter (is_free spec reserved kind) devices) in
    if not (accepts spec.kind kind)
    then rest
    else if length selected == spec.count
    then some selected
    else rest

unfoldable pub allocate : Submission → List Device → List Text → Option (List Device)
unfolding allocate_exact matching_kinds allocate_from
allocate spec devices reserved = elim spec.device_ids [
  | some ids ↦ allocate_exact ids (matching_kinds spec devices) devices reserved
  | none ↦ if spec.count == 0 then some [] else allocate_from priority spec devices reserved
]
