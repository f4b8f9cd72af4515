-- ===== src/Framing.antt =====
-- src/daemon.rs, request, send and receive: a message is a line of JSON, which arrives in pieces.
pub mod Pieces
use xlurm.Base.{
  ℕ, ◌+◌, ◌*◌, Bool, true, false, not, Option, none, some, List, [], ◌∷◌, ◌++◌, leb, if◌then◌else◌,
  nat_eq, ◌==◌, option_eq, text_eq, length, is_empty, ◌>>=◌, ◌>>◌, pure, throw, ensure, Result, ok,
  err, int_eq,
}
use xlurm.Model.Errors.{
  Error, connection_closed, message_too_long, malformed_message, not_the_owner, rejected,
}
use xlurm.Model.Wire.{Request, Response}

-- `serde_json` on one type of messages, in bytes.
pub record Codec (A : Type 0) : Type 0 where
  pub to_writer : A → List ℕ
  pub from_slice : List ℕ → Option A

-- What `fill_buf` returns, time and again; after the last of a list it returns an empty piece.
pub data Arriving : Type 0 where
  piece : List ℕ → Arriving
  interrupted : Arriving
  broken : Error → Arriving

abbrev pub newline : ℕ
newline = 10

-- `send`: the bytes that are written.
unfoldable pub send : {A : Type 0} → Codec A → A → List ℕ
send codec value = codec.to_writer value ++ (newline ∷ [])

-- The bytes through the first newline, or all, and whether there is a newline.
unfoldable pub line_of : List ℕ → List ℕ × Bool
line_of [] = ([], false)
line_of (b ∷ bs) =
    let (line, found) = line_of bs in if b == newline then (b ∷ [], true) else (b ∷ line, found)

-- The loop of `receive`, over the bytes so far.
unfoldable pub receive_line : ℕ → List ℕ → List Arriving → Result Error (List ℕ)
unfolding line_of
receive_line limit bytes [] = err connection_closed
receive_line limit bytes (interrupted ∷ rest) = receive_line limit bytes rest
receive_line limit bytes (broken e ∷ rest) = err e
receive_line limit bytes (piece c ∷ rest) =
    let (line, found) = line_of c in
    let more = receive_line limit (bytes ++ line) rest in
    if is_empty c
    then err connection_closed
    else if not (leb (length bytes + length line) limit)
    then err message_too_long
    else if found
    then ok (bytes ++ line)
    else more

unfoldable pub parsed : {A : Type 0} → Codec A → Result Error (List ℕ) → Result Error A
parsed codec (err e) = err e
parsed codec (ok bytes) = elim (codec.from_slice bytes) [
  | none ↦ err malformed_message
  | some a ↦ ok a
]

unfoldable pub receive : {A : Type 0} → Codec A → ℕ → List Arriving → Result Error A
unfolding receive_line parsed
receive codec limit arriving = parsed codec (receive_line limit [] arriving)

-- A connection to the daemon's socket. `server` is the identity of the process at its other end,
-- `owner` that of the owner of the state directory.
pub record Connection (W : Type 0) : Type 0 where
  pub connect : W → Result Error (Unit {0}) × W
  pub server : W → Result Error ℕ × W
  pub owner : W → Result Error ℕ × W
  pub set_timeouts : W → Result Error (Unit {0}) × W
  pub write : List ℕ → W → Result Error (Unit {0}) × W
  pub incoming : W → List Arriving × W

module _ {W : Type 0} (connection : Connection W) (requests : Codec Request)
    (responses : Codec Response) where
  receive_response : W → Result Error Response × W
  unfolding receive
  receive_response w =
      let (arriving, w') = connection.incoming w in
      (receive responses (64 * 1024 * 1024) arriving, w')

  -- A response that is an error becomes the error of the caller.
  accept_response : Response → W → Result Error Response × W
  accept_response (Response.error message) = throw (rejected message)
  accept_response response = pure response

  unfoldable pub request : Request → W → Result Error Response × W
  unfolding send receive_response accept_response
  request message = do
    connection.connect
    server ← connection.server
    owner ← connection.owner
    ensure (server == owner) not_the_owner
    connection.set_timeouts
    connection.write (send requests message)
    response ← receive_response
    accept_response response
