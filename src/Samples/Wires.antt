-- ===== src/Samples/Wires.antt =====
-- The theorems on messages and logs applied to small ones.
use xlurm.Base.{
  ℕ, ◌+◌, ◌*◌, ◌≤◌, ◌≡◌, refl, true, false, none, some, List, [], ◌∷◌, ◌++◌, arith, if◌then◌else◌,
  nat_eq, ◌==◌, list_beq, option_eq, text, text_eq, length, take, drop, Result, ok, err, to_string,
  int_eq,
}
use xlurm.Model.Errors.{Error, unexpected_response}
use xlurm.Model.Wire.{Request, Response}
use xlurm.Framing.{send, receive_line, receive, request, Codec, Arriving, piece, interrupted}
use xlurm.Framing.Pieces.{receive_whole, receive_line-whole, IsLine, receive-send}
use xlurm.Client.Follow.{print_log, Terminal}
use xlurm.Client.Follow.Drained.{print_log-Drained, Serves}

-- A number is its decimal digits.
abbrev digits : Codec ℕ
digits = record {
  to_writer = to_string;
  from_slice = λ bytes. if bytes == text "42\n" then some 42 else none;
}

-- A message in three pieces, the last of which goes on behind it, with an interruption.
abbrev in_pieces : List Arriving
in_pieces = piece (text "4") ∷ interrupted ∷ piece (text "2") ∷ piece (text "\n7\n") ∷ []

receive_line-whole_example : receive_line 64 [] in_pieces ≡ receive_whole 64 (text "42\n7\n")
receive_line-whole_example = receive_line-whole 64 in_pieces (refl, (refl, (refl, tt)))

sent_42 : text "42\n7\n" ≡ send digits 42 ++ text "7\n"
unfolding send to_string
sent_42 = refl

digits-IsLine : IsLine (digits.to_writer 42)
unfolding to_string
digits-IsLine = (refl, (refl, tt))

short_42 : length (send digits 42) ≤ 64
unfolding send to_string
short_42 = omega arith

back_42 : digits.from_slice (send digits 42) ≡ some 42
unfolding send to_string list_beq
back_42 = refl

receive-send_example : receive digits 64 in_pieces ≡ ok 42
receive-send_example =
    receive-send digits 42 64 in_pieces (text "7\n") (refl, (refl, (refl, tt))) sent_42
      digits-IsLine short_42 back_42

-- A log of three bytes, and a terminal whose state is what has been written to it.
abbrev short_log : List ℕ
short_log = text "ok\n"

abbrev answer : Request → Result Error Response
answer (Request.log id offset) = ok (
    Response.log (take (64 * 1024) (drop offset short_log))
      (offset + length (take (64 * 1024) (drop offset short_log))))
answer request = err unexpected_response

abbrev paper : Terminal (List ℕ)
paper = record {
  request = λ r w. (answer r, w);
  write_all = λ bytes w. (ok tt, w ++ bytes);
  eprintln = λ notice w. w;
  interrupted = λ w. (false, w);
  waited = λ w. (false, w);
  sleep = λ w. w;
}

paper-Serves : Serves paper 1 short_log
paper-Serves = record {
  printed = λ w. w;
  answers = λ offset w. (refl, refl);
  prints = λ bytes w. (refl, refl);
}

print_log-Drained_example :
    (next : ℕ) × ((print_log paper 4 1 0 []).0 ≡ ok (next, true))
    × ((print_log paper 4 1 0 []).1 ≡ short_log)
unfolding print_log paper-Serves
print_log-Drained_example = print_log-Drained paper 1 short_log paper-Serves 4 0 [] (omega arith)
