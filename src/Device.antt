-- ===== src/Device.antt =====
-- src/device/mod.rs: the inventory of devices, and the watch on their health.
-- The vendors' drivers and command line tools are a parameter: `Monitors`.
pub mod Entries
pub mod Valid
pub mod Refresh
pub mod Discover
pub mod Drivers
pub mod Loaded
use xlurm.Base.{
  ℕ, ◌+◌, ◌^◌, Bool, true, false, not, ◌&&◌, ◌||◌, Option, none, some, List, [], ◌∷◌, map, leb,
  if◌then◌else◌, nat_eq, ◌==◌, option_eq, Text, text, text_eq, is_empty, filter, contains, Result,
  ok, err, parse, int_eq,
}
use xlurm.Model.{kind_eq, key, state_eq, Device, nvidia}
use xlurm.Model.Errors.{Error, no_devices, duplicate_devices, invalid_inventory, invalid_number}
use xlurm.Scheduler.Cleanup.{split_once, strip_prefix}

-- `char::is_whitespace`
unfoldable pub is_whitespace : ℕ → Bool
is_whitespace c =
    (leb 9 c && leb c 13)
    || c == 32
    || c == 133
    || c == 160
    || c == 5760
    || (leb 8192 c && leb c 8202)
    || c == 8232
    || c == 8233
    || c == 8239
    || c == 8287
    || c == 12288

trim_start : Text → Text
unfolding is_whitespace
trim_start [] = []
trim_start (c ∷ cs) = if is_whitespace c then trim_start cs else c ∷ cs

-- `str::trim_end_matches`, for a test on characters.
trim_end_by : (ℕ → Bool) → Text → Text
trim_end_by p [] = []
trim_end_by p (c ∷ cs) =
    let rest = trim_end_by p cs in if is_empty rest && p c then [] else c ∷ rest

-- `str::trim`
unfoldable pub trim : Text → Text
unfolding trim_start trim_end_by
trim t = trim_end_by is_whitespace (trim_start t)

push_front : ℕ → List Text → List Text
push_front c [] = (c ∷ []) ∷ []
push_front c (l ∷ ls) = (c ∷ l) ∷ ls

starts_line : Text → Bool
starts_line [] = false
starts_line (c ∷ cs) = c == 10

-- `str::lines`: a line ends with `\n` or `\r\n`.
unfoldable pub lines : Text → List Text
unfolding push_front starts_line
lines [] = []
lines (c ∷ cs) =
    let rest = lines cs in
    if c == 10 then [] ∷ rest else if c == 13 && starts_line cs then rest else push_front c rest

-- `str::starts_with`
unfoldable pub starts_with : Text → Text → Bool
unfolding strip_prefix
starts_with p t = elim (strip_prefix p t) [ none ↦ false | some rest ↦ true ]

-- The text after the last colon: `rsplit(':').next()`.
unfoldable pub after_last : ℕ → Text → Text
after_last c [] = []
after_last c (x ∷ xs) =
    let rest = after_last c xs in if contains xs c then rest else if x == c then xs else x ∷ xs

ascii_lower : ℕ → ℕ
ascii_lower c = if leb b'A' c && leb c b'Z' then c + 32 else c

eq_ignore_ascii_case : Text → Text → Bool
unfolding ascii_lower
eq_ignore_ascii_case a b = map ascii_lower a == map ascii_lower b

-- One line of the health check: no entry, no answer at all, or a card and whether it is healthy.
pub data HealthLine : Type 0 where
  skipped malformed : HealthLine
  card : (id : ℕ) (healthy : Bool) → HealthLine

unfoldable pub health_line : Text → HealthLine
unfolding split_once strip_prefix trim trim_end_by parse after_last eq_ignore_ascii_case
health_line line = elim (split_once b':' (trim line)) [
  | none ↦ skipped
  | some (head, status) ↦ elim (strip_prefix (text "HCU[") (trim head)) [
    | none ↦ skipped
    | some id ↦ elim (parse (2 ^ 32) (trim_end_by (λ c. c == b']') id)) [
      | none ↦ malformed
      | some n ↦
          let word = trim (after_last b':' status) in
          if is_empty word then malformed else card n (eq_ignore_ascii_case word (text "healthy"))
    ]
  ]
]

-- The map from cards to their health is a list, the newest first.
health_lines : List Text → List (ℕ × Bool) → Option (List (ℕ × Bool))
unfolding health_line
health_lines [] health = some health
health_lines (l ∷ ls) health = elim (health_line l) [
  | skipped ↦ health_lines ls health
  | malformed ↦ none
  | card n healthy ↦ health_lines ls ((n, healthy) ∷ health)
]

-- `hcu_health_status`
unfoldable pub hcu_health_status : Text → Option (List (ℕ × Bool))
unfolding lines health_lines
hcu_health_status t = elim (health_lines (lines t) []) [
  | none ↦ none
  | some health ↦ if is_empty health then none else some health
]

unfoldable pub card_health : ℕ → List (ℕ × Bool) → Option Bool
card_health n [] = none
card_health n ((i, healthy) ∷ health) = if i == n then some healthy else card_health n health

-- The loop of `validate`, over the keys that it has met.
unfoldable pub all_new : List Text → List Device → Bool
all_new keys [] = true
all_new keys (d ∷ ds) = not (contains keys (key d)) && all_new (key d ∷ keys) ds

unfoldable pub validate : List Device → Result Error (List Device)
unfolding all_new
validate devices =
    if is_empty devices
    then err no_devices
    else if all_new [] devices
    then ok devices
    else err duplicate_devices

-- `splitn(3, ',')`
unfoldable pub three_fields : Text → Option (Text × Text × Text)
unfolding split_once
three_fields line = elim (split_once b',' line) [
  | none ↦ none
  | some (a, rest) ↦ elim (split_once b',' rest) [ none ↦ none | some (b, c) ↦ some (a, b, c) ]
]

unfoldable pub nvidia_line : Text → Result Error Device
unfolding three_fields trim starts_with parse
nvidia_line line = elim (three_fields line) [
  | none ↦ err invalid_inventory
  | some (a, b, c) ↦
      if not (starts_with (text "GPU-") (trim b))
      then err invalid_inventory
      else elim (parse (2 ^ 32) (trim a)) [
        | none ↦ err invalid_number
        | some id ↦ ok (record {
          kind = nvidia;
          id = id;
          name = trim c;
          visible = trim b;
          npu = none;
          chip = none;
        })
      ]
]

unfoldable pub nvidia_lines : List Text → Result Error (List Device)
unfolding nvidia_line
nvidia_lines [] = ok []
nvidia_lines (l ∷ ls) = elim (nvidia_line l) [
  | err e ↦ err e
  | ok d ↦ elim (nvidia_lines ls) [ err e ↦ err e | ok ds ↦ ok (d ∷ ds) ]
]

unfoldable pub parse_nvidia : Text → Result Error (List Device)
unfolding nvidia_lines lines trim
parse_nvidia t = elim (nvidia_lines (filter (λ l. not (is_empty (trim l))) (lines t))) [
  | err e ↦ err e
  | ok devices ↦ validate devices
]
