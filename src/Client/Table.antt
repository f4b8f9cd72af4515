-- ===== src/Client/Table.antt =====
-- src/cli.rs, `format_timestamp` and `format_queue_table`: the table that `xqueue` prints. A
-- text's elements are its characters here. The calendar of the C library and the escapes of
-- `escape_debug` are given.
use xlurm.Base.{
  ℕ, zero, suc, ◌+◌, ◌-◌, ◌*◌, ◌^◌, Bool, true, Option, none, some, List, [], ◌∷◌, ◌++◌, map, ltb,
  if◌then◌else◌, nat_eq, option_eq, Text, text, text_eq, length, is_empty, to_string, int_eq, ℤ,
  pos, negsuc,
}
use xlurm.Model.{
  kind_eq, state_eq, JobSummary, State, pending, running, completed, failed, cancelled, timed_out,
}
use xlurm.Client.{job_times, format_duration, queue_device_names}
pub mod Aligned

-- `libc::tm`, as far as it is read. A year of 2 ^ 31 or above, which the addition of 1900 could
-- reach, is not cut off.
pub record Tm : Type 0 where
  pub tm_year : ℤ
  pub tm_mon : ℕ
  pub tm_mday : ℕ
  pub tm_hour : ℕ
  pub tm_min : ℕ
  pub tm_sec : ℕ

abbrev pub plus : ℤ → ℕ → ℤ
plus (pos a) n = pos (a + n)
plus (negsuc a) n = if ltb a n then pos (n - suc a) else negsuc (a - n)

-- `seconds as time_t`: from 64 bits without a sign to 64 bits with one.
abbrev pub as_signed : ℕ → ℤ
as_signed n = if ltb n (2 ^ 63) then pos n else negsuc (2 ^ 64 - suc n)

unfoldable pub repeat : ℕ → ℕ → Text
repeat zero c = []
repeat (suc n) c = c ∷ repeat n c

-- `{:04}` and the like
abbrev pub zero_padded : ℕ → Text → Text
zero_padded width digits = repeat (width - length digits) b'0' ++ digits

abbrev pub padded_int : ℕ → ℤ → Text
padded_int width (pos n) = zero_padded width (to_string n)
padded_int width (negsuc n) = b'-' ∷ zero_padded (width - 1) (to_string (suc n))

-- `{:<width$}`
abbrev pub pad : ℕ → Text → Text
pad width cell = cell ++ repeat (width - length cell) b' '

abbrev pub state_name : State → Text
state_name pending = text "PENDING"
state_name running = text "RUNNING"
state_name completed = text "COMPLETED"
state_name failed = text "FAILED"
state_name cancelled = text "CANCELLED"
state_name timed_out = text "TIMEDOUT"

-- A row: the cells of the columns that have a width, and the last column.
abbrev pub Row : Type 0
Row = List Text × Text

abbrev pub header : Row
header = (
  text "JOB"
      ∷ text "USER"
      ∷ text "STATE"
      ∷ text "DEVICES"
      ∷ text "STARTED (UTC+8)"
      ∷ text "WAIT"
      ∷ text "RUN"
      ∷ [],
  text "NAME",
)

-- The widest cell of each column.
unfoldable pub widen : List Text → List ℕ → List ℕ
widen [] widths = widths
widen (cell ∷ cells) [] = []
widen (cell ∷ cells) (w ∷ widths) =
    let rest = widen cells widths in (if ltb w (length cell) then length cell else w) ∷ rest

unfoldable pub column_widths : List Row → List ℕ
unfolding widen
column_widths [] = map length header.0
column_widths (row ∷ rows) = widen row.0 (column_widths rows)

unfoldable pub format_row : List ℕ → List Text → Text → Text
format_row (w ∷ widths) (cell ∷ cells) name = pad w cell ++ b' ' ∷ format_row widths cells name
format_row [] cells name = name ++ b'\n' ∷ []
format_row (w ∷ widths) [] name = name ++ b'\n' ∷ []

unfoldable pub concat : List Text → Text
concat [] = []
concat (t ∷ ts) = t ++ concat ts

abbrev pub int_text : ℤ → Text
int_text n = padded_int 0 n

abbrev pub date : Bool → Tm → Text
date show_year time =
    let day =
      zero_padded 2 (to_string (time.tm_mon + 1))
      ++ b'-' ∷ zero_padded 2 (to_string time.tm_mday) in
    if show_year then padded_int 4 (plus time.tm_year 1900) ++ b'-' ∷ day else day

module _ (gmtime : ℤ → Option Tm) where
  unfoldable pub format_timestamp : ℕ → ℕ → Text → Bool → Text
  unfolding to_string repeat
  format_timestamp timestamp offset_seconds timezone show_year =
      let sum = timestamp + offset_seconds in
      let seconds = as_signed (if ltb sum (2 ^ 64) then sum else 2 ^ 64 - 1) in
      elim (gmtime seconds) [
        | none ↦ int_text seconds ++ text " Unix"
        | some time ↦
            date show_year time
            ++ b' '
              ∷ (zero_padded 2 (to_string time.tm_hour)
                  ++ b':'
                    ∷ (zero_padded 2 (to_string time.tm_min)
                        ++ b':'
                          ∷ (zero_padded 2 (to_string time.tm_sec)
                              ++ (if is_empty timezone then [] else b' ' ∷ timezone))))
      ]

  unfoldable pub format_started_at : Option ℕ → Text
  unfolding format_timestamp
  format_started_at none = text "-"
  format_started_at (some started_at) =
      format_timestamp started_at (8 * 60 * 60) (text "UTC+8") true

  abbrev pub started_cell : Bool → Option ℕ → Text
  started_cell show_year none = text "-"
  started_cell show_year (some started_at) = format_timestamp started_at (8 * 60 * 60) [] show_year

abbrev pub run_cell : Option ℕ → Text
run_cell none = text "-"
run_cell (some seconds) = format_duration seconds

module _ (gmtime : ℤ → Option Tm) (escape_debug : Text → Text) where
  unfoldable pub row_of : ℕ → Bool → JobSummary → Row
  unfolding format_timestamp format_duration queue_device_names job_times to_string
  row_of timestamp show_year job =
      let (wait_time, run_time) =
        job_times job.submitted_at job.started_at job.finished_at timestamp in
      (
        to_string job.id
            ∷ job.owner.name
            ∷ state_name job.state
            ∷ queue_device_names job
            ∷ started_cell gmtime show_year job.started_at
            ∷ format_duration wait_time
            ∷ run_cell run_time
            ∷ [],
        escape_debug job.name,
      )

  unfoldable pub format_queue_table : List JobSummary → ℕ → Bool → Text
  unfolding row_of column_widths format_row concat
  format_queue_table jobs timestamp show_year =
      let rows = map (row_of timestamp show_year) jobs in
      let widths = column_widths rows in
      concat (map (λ (row : Row). format_row widths row.0 row.1) (header ∷ rows))
