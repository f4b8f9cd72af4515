-- ===== src/Client/Table/Aligned.antt =====
-- src/cli.rs, `format_queue_table`: the columns of the table.
use xlurm.Base.{
  ℕ, zero, suc, ◌-◌, ◌≤◌, ◌≡◌, refl, sym, ap, ◌∙◌, subst, Bool, Option, List, [], ◌∷◌, ◌++◌, map,
  arith, nat_eq, option_eq, Text, text_eq, length, take, drop, length-append, All, All-imp, int_eq,
  ℤ,
}
use xlurm.Client.Table.{
  repeat, pad, Row, header, widen, column_widths, format_row, concat, row_of, format_queue_table,
  Tm,
}
use xlurm.Model.{kind_eq, state_eq, JobSummary}

-- In a line, cell for cell: the cell stands at the start of its column and ends before the next
-- one; the name and the end of the line follow the last column.
unfoldable pub Columns : List ℕ → List Text → Text → Text → Type 0
Columns [] [] name line = line ≡ name ++ b'\n' ∷ []
Columns [] (cell ∷ cells) name line = ⊥
Columns (w ∷ widths) [] name line = ⊥
Columns (w ∷ widths) (cell ∷ cells) name line =
    (length cell ≤ w)
    × (take (length cell) line ≡ cell)
    × Columns widths cells name (drop (suc w) line)

Fits : List ℕ → List Text → Type 0
Fits [] [] = Unit
Fits [] (cell ∷ cells) = ⊥
Fits (w ∷ widths) [] = ⊥
Fits (w ∷ widths) (cell ∷ cells) = (length cell ≤ w) × Fits widths cells

take-append : (t u v : Text) → take (length t) ((t ++ u) ++ v) ≡ t
take-append [] u v = refl
take-append (c ∷ t) u v = ap (λ s. c ∷ s) (take-append t u v)

drop-append : (t : Text) (c : ℕ) (u : Text) → drop (suc (length t)) (t ++ c ∷ u) ≡ u
drop-append [] c u = refl
drop-append (d ∷ t) c u = drop-append t c u

length-repeat : (n c : ℕ) → length (repeat n c) ≡ n
unfolding repeat
length-repeat zero c = refl
length-repeat (suc n) c = ap suc (length-repeat n c)

length-pad : (w : ℕ) (cell : Text) → length cell ≤ w → length (pad w cell) ≡ w
length-pad w cell h = omega (
  arith,
  length-append cell (repeat (w - length cell) b' '),
  length-repeat (w - length cell) b' ',
)

-- A padded cell is left behind with the blank after it.
drop-pad :
    (w : ℕ) (cell rest : Text) → length cell ≤ w → drop (suc w) (pad w cell ++ b' ' ∷ rest) ≡ rest
drop-pad w cell rest h =
    subst (λ n. drop (suc n) (pad w cell ++ b' ' ∷ rest) ≡ rest) (length-pad w cell h)
      (drop-append (pad w cell) b' ' rest)

format_row-Columns :
    (widths : List ℕ) (cells : List Text) (name : Text)
    → Fits widths cells
    → Columns widths cells name (format_row widths cells name)
unfolding Fits Columns format_row
format_row-Columns [] [] name h = refl
format_row-Columns [] (cell ∷ cells) name h = elim h [ ]
format_row-Columns (w ∷ widths) [] name h = elim h [ ]
format_row-Columns (w ∷ widths) (cell ∷ cells) name h =
    let rest = format_row widths cells name in
    (
      h.0,
      take-append cell (repeat (w - length cell) b' ') (b' ' ∷ rest),
      subst (Columns widths cells name) (sym (drop-pad w cell rest h.0))
          (format_row-Columns widths cells name h.1),
    )

length-widen :
    (cells : List Text) (widths : List ℕ)
    → length cells ≡ length widths
    → length (widen cells widths) ≡ length widths
unfolding widen
length-widen [] widths e = refl
length-widen (cell ∷ cells) [] e = refl
length-widen (cell ∷ cells) (w ∷ widths) e = omega (arith, length-widen cells widths (omega arith))

widen-Fits :
    (cells : List Text) (widths : List ℕ)
    → length cells ≡ length widths
    → Fits (widen cells widths) cells
unfolding widen Fits
widen-Fits [] [] e = tt
widen-Fits [] (w ∷ widths) e = absurd (omega arith)
widen-Fits (cell ∷ cells) [] e = absurd (omega arith)
widen-Fits (cell ∷ cells) (w ∷ widths) e = (ground arith, widen-Fits cells widths (omega arith))

widen-keeps :
    (cells others : List Text) (widths : List ℕ)
    → length cells ≡ length widths
    → Fits widths others
    → Fits (widen cells widths) others
unfolding widen Fits
widen-keeps [] others widths e h = h
widen-keeps (cell ∷ cells) others [] e h = absurd (omega arith)
widen-keeps (cell ∷ cells) [] (w ∷ widths) e h = elim h [ ]
widen-keeps (cell ∷ cells) (other ∷ others) (w ∷ widths) e h =
    (ground (arith, h.0), widen-keeps cells others widths (omega arith) h.1)

length-column_widths :
    (rows : List Row) → All (λ r. length r.0 ≡ 7) rows → length (column_widths rows) ≡ 7
unfolding column_widths
length-column_widths [] h = refl
length-column_widths (row ∷ rows) h =
    let e = length-column_widths rows h.1 in
    length-widen row.0 (column_widths rows) (h.0 ∙ sym e) ∙ e

self-Fits : (cells : List Text) → Fits (map length cells) cells
unfolding Fits
self-Fits [] = tt
self-Fits (cell ∷ cells) = (omega arith, self-Fits cells)

column_widths-Fits :
    (rows : List Row)
    → All (λ r. length r.0 ≡ 7) rows
    → All (λ r. Fits (column_widths rows) r.0) (header ∷ rows)
unfolding column_widths Fits
column_widths-Fits [] h = (self-Fits header.0, tt)
column_widths-Fits (row ∷ rows) h =
    let e : length row.0 ≡ length (column_widths rows) =
      h.0 ∙ sym (length-column_widths rows h.1) in
    let before = column_widths-Fits rows h.1 in
    let keeps = λ (r : Row). widen-keeps row.0 r.0 (column_widths rows) e in
    (
      keeps header before.0,
      (
        widen-Fits row.0 (column_widths rows) e,
        All-imp (λ r. Fits (column_widths rows) r.0)
            (λ r. Fits (widen row.0 (column_widths rows)) r.0) rows keeps before.1,
      ),
    )

-- The lines belong to the rows, one for each, and each has its cells in the columns.
unfoldable pub LineByLine : List ℕ → List Row → List Text → Type 0
LineByLine widths [] [] = Unit
LineByLine widths [] (line ∷ lines) = ⊥
LineByLine widths (row ∷ rows) [] = ⊥
LineByLine widths (row ∷ rows) (line ∷ lines) =
    Columns widths row.0 row.1 line × LineByLine widths rows lines

rows-Columns :
    (widths : List ℕ) (rows : List Row)
    → All (λ r. Fits widths r.0) rows
    → LineByLine widths rows (map (λ (r : Row). format_row widths r.0 r.1) rows)
unfolding LineByLine
rows-Columns widths [] h = tt
rows-Columns widths (row ∷ rows) h =
    (format_row-Columns widths row.0 row.1 h.0, rows-Columns widths rows h.1)

module _ (gmtime : ℤ → Option Tm) (escape_debug : Text → Text) where
  rows-seven :
      (jobs : List JobSummary) (timestamp : ℕ) (show_year : Bool)
      → All (λ r. length r.0 ≡ 7) (map (row_of gmtime escape_debug timestamp show_year) jobs)
  unfolding row_of
  rows-seven [] timestamp show_year = tt
  rows-seven (job ∷ jobs) timestamp show_year = (refl, rows-seven jobs timestamp show_year)

  -- The table is one line for its header and one for each job, in their order, and there are
  -- widths of the columns with which in all these lines each cell stands at the start of its
  -- column and ends before the next one, and the name follows the last column.
  pub format_queue_table-Columns :
      (jobs : List JobSummary) (timestamp : ℕ) (show_year : Bool)
      → (widths : List ℕ) × (lines : List Text) × (format_queue_table gmtime escape_debug jobs
            timestamp show_year
          ≡ concat lines)
        × LineByLine widths
            (header ∷ map (row_of gmtime escape_debug timestamp show_year) jobs)
            lines
  unfolding format_queue_table
  format_queue_table-Columns jobs timestamp show_year =
      let rows = map (row_of gmtime escape_debug timestamp show_year) jobs in
      let widths = column_widths rows in
      (
        widths,
        map (λ (r : Row). format_row widths r.0 r.1) (header ∷ rows),
        refl,
        rows-Columns widths (header ∷ rows)
            (column_widths-Fits rows (rows-seven jobs timestamp show_year)),
      )
