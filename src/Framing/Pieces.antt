-- ===== src/Framing/Pieces.antt =====
-- src/daemon.rs, receive: what it makes of a message does not depend on how the bytes are cut.
use mathlib.Core.List.{append_assoc}
use xlurm.Base.{
  ℕ, ◌+◌, ◌≤◌, ◌≡◌, refl, sym, ap, ◌∙◌, inl, inr, Bool, true, false, not, some, List, [], ◌∷◌, ◌++◌,
  arith, leb, if◌then◌else◌, Bool-cases, nat_eq, ◌==◌, option_eq, text_eq, length, is_empty,
  length-append, All, Result, ok, err, int_eq,
}
use xlurm.Model.Errors.{Error, connection_closed, message_too_long}
use xlurm.Framing.{
  newline, send, line_of, receive_line, parsed, receive, Codec, Arriving, piece, interrupted,
  broken,
}

-- No piece is empty, and the connection does not break.
abbrev pub Flows : List Arriving → Type 0
Flows [] = Unit
Flows (piece c ∷ rest) = (is_empty c ≡ false) × Flows rest
Flows (interrupted ∷ rest) = Flows rest
Flows (broken e ∷ rest) = true ≡ false

-- The bytes that arrive.
abbrev pub carried : List Arriving → List ℕ
carried [] = []
carried (piece c ∷ rest) = c ++ carried rest
carried (interrupted ∷ rest) = carried rest
carried (broken e ∷ rest) = []

-- A line that has been read, or not, within the limit.
abbrev pub within : ℕ → List ℕ × Bool → Result Error (List ℕ)
within limit (line, found) =
    if not (leb (length line) limit)
    then err message_too_long
    else if found
    then ok line
    else err connection_closed

-- `receive` on the whole stream at once.
abbrev pub receive_whole : ℕ → List ℕ → Result Error (List ℕ)
receive_whole limit stream = within limit (line_of stream)

line_of-found : (c rest : List ℕ) → (line_of c).1 ≡ true → line_of (c ++ rest) ≡ line_of c
unfolding line_of
line_of-found [] rest e = absurd (cc)
line_of-found (b ∷ bs) rest e = elim (Bool-cases (b == newline)) [
  | inl y ↦ rw y refl
  | inr n ↦ rw (n, line_of-found bs rest (rw n at e)) refl
]

line_of-open :
    (c rest : List ℕ)
    → (line_of c).1 ≡ false
    → ((line_of c).0 ≡ c) × (line_of (c ++ rest) ≡ (c ++ (line_of rest).0, (line_of rest).1))
unfolding line_of
line_of-open [] rest e = (refl, refl)
line_of-open (b ∷ bs) rest e = elim (Bool-cases (b == newline)) [
  | inl y ↦ absurd (ground (arith, e, y))
  | inr n ↦
      let (same, more) = line_of-open bs rest (rw n at e) in (rw (n, same) refl, rw (n, more) refl)
]

piece-step :
    (limit : ℕ) (bytes c : List ℕ) (rest : List Arriving)
    → is_empty c ≡ false
    → receive_line limit bytes (piece c ∷ rest) ≡ (
        if not (leb (length bytes + length (line_of c).0) limit)
        then err message_too_long
        else if (line_of c).1
        then ok (bytes ++ (line_of c).0)
        else receive_line limit (bytes ++ (line_of c).0) rest)
unfolding receive_line
piece-step limit bytes c rest e = rw (e, receive_line) refl

within-long :
    (limit : ℕ) (line : List ℕ) (found : Bool)
    → leb (length line) limit ≡ false
    → within limit (line, found) ≡ err message_too_long
within-long limit line found e = rw e refl

receive_line-within :
    (limit : ℕ) (bytes : List ℕ) (arriving : List Arriving)
    → Flows arriving
    → length bytes ≤ limit
    → receive_line limit bytes arriving
      ≡ within limit (bytes ++ (line_of (carried arriving)).0, (line_of (carried arriving)).1)
unfolding receive_line
receive_line-within limit bytes [] flows few = sym (ground (arith, length-append bytes [], few))
receive_line-within limit bytes (interrupted ∷ rest) flows few =
    receive_line-within limit bytes rest flows few
receive_line-within limit bytes (broken e ∷ rest) flows few = absurd (cc)
receive_line-within limit bytes (piece c ∷ rest) (filled, flows) few =
    elim (Bool-cases (line_of c).1) [
      | inl y ↦
          rw
            (
              piece-step limit bytes c rest filled,
              line_of-found c (carried rest) y,
              y,
              length-append bytes (line_of c).0,
            )
            refl
      | inr n ↦
          let (same, more) = line_of-open c (carried rest) n in
          elim (Bool-cases (leb (length bytes + length c) limit)) [
            | inl t ↦
                rw (piece-step limit bytes c rest filled, n, same, more, t)
                  (receive_line-within limit (bytes ++ c) rest flows
                      (ground (arith, length-append bytes c, t))
                    ∙ ap (λ l. within limit (l, (line_of (carried rest)).1))
                        (append_assoc bytes c (line_of (carried rest)).0))
            | inr f ↦
                let tail = (line_of (carried rest)).0 in
                rw (piece-step limit bytes c rest filled, n, same, more, f)
                  (sym (
                    within-long limit (bytes ++ (c ++ tail)) (line_of (carried rest)).1
                      (ground (arith, f, length-append bytes (c ++ tail), length-append c tail))))
          ]
    ]

-- What is received depends on the bytes alone, and not on the pieces in which they arrive nor on
-- interruptions, where no piece is empty and the connection does not break: it is the first line
-- of them, if it is complete and within the limit.
pub receive_line-whole :
    (limit : ℕ) (arriving : List Arriving)
    → Flows arriving
    → receive_line limit [] arriving ≡ receive_whole limit (carried arriving)
receive_line-whole limit arriving flows = receive_line-within limit [] arriving flows (ground arith)

-- No byte of a message is a newline: `serde_json` writes compact JSON.
abbrev pub IsLine : List ℕ → Type 0
IsLine bytes = All (λ b. (b == newline) ≡ false) bytes

line_of-message :
    (bytes rest : List ℕ)
    → IsLine bytes
    → line_of (bytes ++ (newline ∷ []) ++ rest) ≡ (bytes ++ (newline ∷ []), true)
unfolding line_of
line_of-message [] rest h = refl
line_of-message (b ∷ bs) rest (n, h) = rw (n, line_of-message bs rest h) refl

parsed-ok :
    {A : Type 0} (codec : Codec A) (bytes : List ℕ) (a : A)
    → codec.from_slice bytes ≡ some a
    → parsed codec (ok bytes) ≡ ok a
unfolding parsed
parsed-ok codec bytes a e = rw (e, parsed) refl

-- A message that has been sent is received as it was, however its bytes are cut and whatever follows
-- them, where the codec reads back what it writes, writes no newline, and the message is within the
-- limit.
pub receive-send :
    {A : Type 0} (codec : Codec A) (value : A) (limit : ℕ) (arriving : List Arriving)
    (rest : List ℕ)
    → Flows arriving
    → carried arriving ≡ send codec value ++ rest
    → IsLine (codec.to_writer value)
    → length (send codec value) ≤ limit
    → codec.from_slice (send codec value) ≡ some value
    → receive codec limit arriving ≡ ok value
unfolding receive send
receive-send codec value limit arriving rest flows sent line few back =
    let whole : receive_whole limit (send codec value ++ rest) ≡ ok (send codec value) =
      rw (line_of-message (codec.to_writer value) rest line) (ground (arith, few)) in
    rw (receive_line-whole limit arriving flows, sent, whole)
      (parsed-ok codec (send codec value) value back)
