-- ===== src/Samples/Tables.antt =====
-- The theorem on the table of jobs, applied to the sample's queue.
use xlurm.Base.{
  ℕ, ◌-◌, ◌/◌, ◌%◌, ◌^◌, ◌≡◌, refl, true, false, Option, none, some, List, [], ◌∷◌, map, nat_eq,
  option_eq, Text, text, text_eq, int_eq, ℤ, pos, negsuc,
}
use xlurm.Model.{kind_eq, kind_label, state_eq, summary_of}
use xlurm.Client.Table.{
  header, concat, format_timestamp, format_started_at, row_of, format_queue_table, Tm,
}
use xlurm.Client.Table.Aligned.{LineByLine, format_queue_table-Columns}
use xlurm.Samples.{first_job, sample}

-- A calendar that knows the first day only.
abbrev first_day : ℤ → Option Tm
first_day (pos n) = some (record {
  tm_year = pos 70;
  tm_mon = 0;
  tm_mday = 1;
  tm_hour = n / 3600;
  tm_min = n / 60 % 60;
  tm_sec = n % 60;
})
first_day (negsuc n) = none

never_started : format_started_at first_day none ≡ text "-"
unfolding format_started_at
never_started = refl

started_at_once : format_started_at first_day (some 0) ≡ text "1970-01-01 08:00:00 UTC+8"
unfolding format_started_at
started_at_once = refl

before_the_calendar : format_timestamp first_day (2 ^ 64 - 1) 1 (text "UTC") true ≡ text "-1 Unix"
unfolding format_timestamp
before_the_calendar = refl

first_row : row_of first_day (λ t. t) 100 false (summary_of first_job) ≡ (
  text "1"
      ∷ text "alice"
      ∷ text "RUNNING"
      ∷ text "nv:[0]"
      ∷ text "01-01 08:00:20"
      ∷ text "00:00:10"
      ∷ text "00:01:20"
      ∷ [],
  text "train",
)
unfolding row_of summary_of kind_label
first_row = refl

format_queue_table-Columns_example :
    (widths : List ℕ) × (lines : List Text) × (format_queue_table first_day
        (λ t. t)
        (map summary_of sample.store.jobs)
        100
        false
      ≡ concat lines)
    × LineByLine widths
        (header ∷ map (row_of first_day (λ t. t) 100 false) (map summary_of sample.store.jobs))
        lines
format_queue_table-Columns_example =
    format_queue_table-Columns first_day (λ t. t) (map summary_of sample.store.jobs) 100 false
