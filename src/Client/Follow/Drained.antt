-- ===== src/Client/Follow/Drained.antt =====
-- src/cli.rs, print_log_chunk in its loops: the whole log is printed.
use mathlib.Core.List.{append_assoc}
use xlurm.Base.{
  ℕ, zero, suc, ◌+◌, ◌*◌, ◌≤◌, ◌<◌, ◌≡◌, refl, sym, ap, ◌∙◌, inl, inr, true, false, not, List, [],
  ◌∷◌, ◌++◌, arith, Bool-cases, nat_eq, option_eq, text_eq, length, is_empty, take, drop,
  length-append, take-append-drop, drop-length-take, drop-drop, ok, int_eq,
}
use xlurm.Model.Wire.{Request, Response}
use xlurm.Client.Follow.{print_log_chunk, print_log, Terminal}

-- A daemon that serves a log which does not grow, as its `read_log` does, and a terminal that can be
-- written to.
pub record Serves {W : Type 0} (terminal : Terminal W) (id : ℕ) (log : List ℕ) : Type 0 where
  -- What has been written to the terminal.
  pub printed : W → List ℕ
  pub answers :
      (offset : ℕ) (w : W)
      → ((terminal.request (Request.log id offset) w).0
          ≡ ok (
              Response.log
                (take (64 * 1024) (drop offset log))
                (offset + length (take (64 * 1024) (drop offset log)))))
        × (printed (terminal.request (Request.log id offset) w).1 ≡ printed w)
  pub prints :
      (bytes : List ℕ) (w : W)
      → ((terminal.write_all bytes w).0 ≡ ok tt)
        × (printed (terminal.write_all bytes w).1 ≡ printed w ++ bytes)

take-empty : (n : ℕ) (xs : List ℕ) → is_empty (take (suc n) xs) ≡ true → xs ≡ []
take-empty n [] e = refl
take-empty n (x ∷ xs) e = absurd (cc)

filled-length : (xs : List ℕ) → is_empty xs ≡ false → 1 ≤ length xs
filled-length [] e = absurd (cc)
filled-length (x ∷ xs) e = ground arith

module _ {W : Type 0} (terminal : Terminal W) (id : ℕ) (log : List ℕ)
    (serves : Serves terminal id log) where
  piece_at : ℕ → List ℕ
  piece_at offset = take (64 * 1024) (drop offset log)

  -- A piece is printed, and the offset moves behind it.
  print_log_chunk-prints :
      (offset : ℕ) (w : W)
      → ((print_log_chunk terminal id offset w).0
          ≡ ok (offset + length (piece_at offset), not (is_empty (piece_at offset))))
        × (serves.printed (print_log_chunk terminal id offset w).1
            ≡ serves.printed w ++ piece_at offset)
  unfolding print_log_chunk piece_at
  print_log_chunk-prints offset w =
      let (answer, same) = serves.answers offset w in
      let w' = (terminal.request (Request.log id offset) w).1 in
      let (written, more) = serves.prints (piece_at offset) w' in
      (rw (answer, written) refl, rw (answer, written) (more ∙ ap (λ p. p ++ piece_at offset) same))

  print_log-more :
      (n offset next : ℕ) (w : W)
      → (print_log_chunk terminal id offset w).0 ≡ ok (next, true)
      → print_log terminal (suc n) id offset w
        ≡ print_log terminal n id next (print_log_chunk terminal id offset w).1
  unfolding print_log
  print_log-more n offset next w e = rw (e, print_log) refl

  print_log-end :
      (n offset next : ℕ) (w : W)
      → (print_log_chunk terminal id offset w).0 ≡ ok (next, false)
      → print_log terminal (suc n) id offset w
        ≡ (ok (next, true), (print_log_chunk terminal id offset w).1)
  unfolding print_log
  print_log-end n offset next w e = rw (e, print_log) refl

  -- The log is printed from the offset to its end, and the end is noticed.
  abbrev Drained : ℕ → ℕ → W → Type 0
  Drained n offset w =
      (next : ℕ) × ((print_log terminal n id offset w).0 ≡ ok (next, true))
      × (serves.printed (print_log terminal n id offset w).1 ≡ serves.printed w ++ drop offset log)

  drop-piece :
      (offset : ℕ)
      → drop (offset + length (piece_at offset)) log ≡ drop (64 * 1024) (drop offset log)
  unfolding piece_at
  drop-piece offset =
      sym (drop-drop offset (length (piece_at offset)) log)
      ∙ drop-length-take (64 * 1024) (drop offset log)

  print_log-ends :
      (n offset : ℕ) (w : W) → is_empty (piece_at offset) ≡ true → Drained (suc n) offset w
  unfolding piece_at
  print_log-ends n offset w y =
      let (answer, printed) = print_log_chunk-prints offset w in
      let next = offset + length (piece_at offset) in
      let e : (print_log_chunk terminal id offset w).0 ≡ ok (next, false) =
        answer ∙ ap (λ b. ok (next, not b)) y in
      let nothing = take-empty 65535 (drop offset log) y in
      (
        next,
        rw (print_log-end n offset next w e) refl,
        rw (print_log-end n offset next w e) (
            printed
            ∙ ap (λ p. serves.printed w ++ p) (ap (take (64 * 1024)) nothing ∙ sym nothing)),
      )

  piece-rest :
      (offset : ℕ)
      → piece_at offset ++ drop (offset + length (piece_at offset)) log ≡ drop offset log
  piece-rest offset =
      ap (λ y. piece_at offset ++ y) (drop-piece offset)
      ∙ unfold piece_at in take-append-drop (64 * 1024) (drop offset log)

  shorter :
      (offset n : ℕ)
      → is_empty (piece_at offset) ≡ false
      → length (drop offset log) < suc n
      → length (drop (offset + length (piece_at offset)) log) < n
  shorter offset n k few =
      let total = ap length (piece-rest offset) in
      let parts = length-append (piece_at offset) (drop (offset + length (piece_at offset)) log) in
      let more = filled-length (piece_at offset) k in ground (arith, total, parts, more, few)

  -- A log that does not grow is printed from the offset to its end, once and in order, and its end is
  -- noticed, in any number of rounds above the number of bytes that are left, where the daemon
  -- answers with pieces of at most 64 KiB and the terminal can be written to.
  pub print_log-Drained : (n offset : ℕ) (w : W) → length (drop offset log) < n → Drained n offset w
  print_log-Drained zero offset w few = absurd (ground (arith, few))
  print_log-Drained (suc n) offset w few = elim (Bool-cases (is_empty (piece_at offset))) [
    | inl y ↦ print_log-ends n offset w y
    | inr k ↦
        let (answer, printed) = print_log_chunk-prints offset w in
        let next = offset + length (piece_at offset) in
        let w' = (print_log_chunk terminal id offset w).1 in
        let e : (print_log_chunk terminal id offset w).0 ≡ ok (next, true) =
          answer ∙ ap (λ b. ok (next, not b)) k in
        let (last, answers, all_printed) = print_log-Drained n next w' (shorter offset n k few) in
        (
          last,
          rw (print_log-more n offset next w e) answers,
          rw (print_log-more n offset next w e) (
              all_printed
              ∙ ap (λ x. x ++ drop next log) printed
              ∙ append_assoc (serves.printed w) (piece_at offset) (drop next log)
              ∙ ap (λ x. serves.printed w ++ x) (piece-rest offset)),
        )
  ]
