-- ===== src/Server/Stream/Prefix/Loops.antt =====
-- The loops of `StreamOutput` (api/server/server_impl.go), statement by statement: where the offset
-- stands, and what was sent.
use jobmaster.Base.{
  ℕ, zero, suc, ◌+◌, ◌≡◌, refl, sym, subst, Bool-cases, if◌then◌else◌, List, [], ◌∷◌, ◌++◌, arith,
  Option, Option-cases, inl, inr, none, some, length, is_nil,
}
use jobmaster.Result.{Error}
use jobmaster.FilePath.{FilePath}
use jobmaster.Os.{
  Env, Log, ReadReply, Io, ◌>>=◌, ◌>>◌, read_file, try_watcher, wait_broadcast, return, read_at,
  send,
}
use jobmaster.Server.Stream.{
  chunk_len, internal_error, check_canceled, send_chunk, is_eof, nil_error, drain, poll, is_over,
  send_new, follow,
}
use jobmaster.Server.Stream.Prefix.{
  sent, IsPrefixOf, GrowsTo, At, Ensures, bound-Ensures, Bool-Ensures, sent_of_Post, At-send,
}

module _ (env : Env) (p : FilePath) (content : List ℕ) (grows : GrowsTo env p content) where
  -- Bytes that may come next at an offset.
  abbrev Next : List ℕ → ℕ → Type 0
  Next bytes pos =
      (pre rest : List ℕ) → content ≡ pre ++ rest → pos ≡ length pre → IsPrefixOf bytes rest

  read-Next :
      (pos : ℕ) (log : Log) → Next (env.read_reply (read_at p chunk_len pos ∷ log)).bytes pos
  read-Next pos log pre rest h e =
      subst (λ n. IsPrefixOf (env.read_reply (read_at p chunk_len n ∷ log)).bytes rest) (sym e)
        (grows log pre rest h)

  abbrev Sent : {A : Type 0} → A → Log → Type 0
  Sent a log = IsPrefixOf (sent log) content

  read_file-Ensures :
      (pos : ℕ)
      → Ensures content
          (At content pos)
          (read_file env p chunk_len pos)
          (λ r log. At content pos log × Next r.bytes pos)
  read_file-Ensures pos = record { run = λ log h. (h, read-Next pos log) }

  check_canceled-Ensures :
      (pos : ℕ) → Ensures content (At content pos) (check_canceled env) (λ _. At content pos)
  unfolding check_canceled
  check_canceled-Ensures pos = record {
    run = λ log h. elim (Option-cases (env.ctx_err log)) [ inl c ↦ rw c h | inr (x, c) ↦ rw c h.1 ];
  }

  internal_error-Ensures {ℓ} :
      {A : Type ℓ} (e : Option Error) (pos : ℕ) (Q : A → Log → Type 0)
      → Ensures content (At content pos) (internal_error e) Q
  unfolding internal_error
  internal_error-Ensures none pos Q = record { run = λ log h. h.1 }
  internal_error-Ensures (some e) pos Q = record { run = λ log h. h.1 }

  send_chunk-Ensures :
      (bytes : List ℕ) (e : Option Error) (pos : ℕ)
      → Ensures content
          (λ log. At content pos log × Next bytes pos)
          (send_chunk env bytes e)
          (λ _. At content (pos + length bytes))
  unfolding send_chunk
  send_chunk-Ensures [] e pos = record { run = λ log h. (omega (arith, h.0.0), h.0.1) }
  send_chunk-Ensures (b ∷ bs) e pos = record {
    run = λ log h.
        let after = At-send content (b ∷ bs) pos log h.0 h.1 in
        elim (Option-cases (env.send_err (send (b ∷ bs) ∷ log))) [
          | inl c ↦ rw c after
          | inr (x, c) ↦ rw c ((internal_error-Ensures e (pos + length (b ∷ bs)) _).run _ after)
        ];
  }

  send_new-Ensures :
      (bytes : List ℕ) (pos : ℕ)
      → Ensures content
          (λ log. At content pos log × Next bytes pos)
          (send_new env bytes)
          (λ _. At content (pos + length bytes))
  unfolding send_new
  send_new-Ensures [] pos = record { run = λ log h. (omega (arith, h.0.0), h.0.1) }
  send_new-Ensures (b ∷ bs) pos = record {
    run = λ log h.
        let after = At-send content (b ∷ bs) pos log h.0 h.1 in
        elim (Option-cases (env.send_err (send (b ∷ bs) ∷ log))) [
          | inl c ↦ rw c after
          | inr (x, c) ↦ rw c after.1
        ];
  }

  -- The end of a round of the first loop, round any next one.
  round-Ensures :
      (o : Option Error) (pos : ℕ) (next : Io (Unit {0}))
      → Ensures content (At content pos) next Sent
      → Ensures content
          (At content pos)
          (elim o as (λ _. Io (Unit {0})) [
            | none ↦ nil_error
            | some e ↦ if is_eof e then return tt else next
          ])
          Sent
  round-Ensures none pos next h = record { run = λ log a. a.1 }
  round-Ensures (some e) pos next h = elim (Bool-cases (is_eof e)) [
    | inl c ↦ rw c (record { run = λ log a. a.1 })
    | inr c ↦ rw c h
  ]

  wait_broadcast-Ensures :
      (pos : ℕ) → Ensures content (At content pos) (wait_broadcast env) (λ _. At content pos)
  wait_broadcast-Ensures pos = record { run = λ log h. h }

  abbrev Read : ℕ → List ℕ × Option Error → Log → Type 0
  Read pos r log = At content pos log × Next r.0 pos

  -- What a round of the inner loop does with a read.
  again-Ensures :
      (r : ReadReply) (pos : ℕ) (again : Io (List ℕ × Option Error))
      → Ensures content (At content pos) again (Read pos)
      → Ensures content
          (λ log. At content pos log × Next r.bytes pos)
          (if is_nil r.bytes then again else return (r.bytes, r.error))
          (Read pos)
  again-Ensures r pos again h = elim (Bool-cases (is_nil r.bytes)) [
    | inl c ↦ rw c (record { run = λ log a. h.run log a.0 })
    | inr c ↦ rw c (record { run = λ log a. a })
  ]

  drain-Ensures : (fuel pos : ℕ) → Ensures content (At content pos) (drain env fuel p pos) Sent
  unfolding drain
  drain-Ensures zero pos = record { run = λ log h. h.1 }
  drain-Ensures (suc fuel) pos = bound-Ensures _ (check_canceled-Ensures pos) (λ _.
      bound-Ensures _ (read_file-Ensures pos) (λ r.
        bound-Ensures _ (send_chunk-Ensures r.bytes r.error pos) (λ _.
          round-Ensures r.error (pos + length r.bytes) _
            (drain-Ensures fuel (pos + length r.bytes)))))

  -- Whether the lock is free says nothing of the bytes.
  try_watcher-Ensures :
      (pos : ℕ) → Ensures content (At content pos) (try_watcher env) (λ _. At content pos)
  try_watcher-Ensures pos = record { run = λ log h. h }

  wait-Ensures :
      (pos : ℕ) (again : ReadReply → Io (List ℕ × Option Error))
      → ((r : ReadReply) → Ensures content (At content pos) (again r) (Read pos))
      → Ensures content
          (At content pos)
          (wait_broadcast env
            >> (read_file env p chunk_len pos >>= λ r.
                if is_nil r.bytes then again r else return (r.bytes, r.error)))
          (Read pos)
  wait-Ensures pos again h =
      bound-Ensures _ (wait_broadcast-Ensures pos)
        (λ _. bound-Ensures _ (read_file-Ensures pos) (λ r. again-Ensures r pos (again r) (h r)))

  poll-Ensures :
      (fuel pos : ℕ) (e : Option Error)
      → Ensures content (At content pos) (poll env fuel p pos e) (Read pos)
  unfolding poll
  poll-Ensures zero pos e = record { run = λ log h. h.1 }
  poll-Ensures (suc fuel) pos e = bound-Ensures _ (try_watcher-Ensures pos) (λ free.
      Bool-Ensures free (Read pos) (return ([], e)) _
        (record { run = λ log h. (h, λ pre rest _ _. (rest, refl)) })
        (wait-Ensures pos (λ r. poll env fuel p pos r.error) (λ r. poll-Ensures fuel pos r.error)))

  is_over-Ensures :
      (e : Option Error) (pos : ℕ) (bytes : List ℕ)
      → Ensures content
          (λ log. At content pos log × Next bytes pos)
          (is_over env e)
          (λ _ log. At content pos log × Next bytes pos)
  unfolding is_over
  is_over-Ensures none pos bytes = record { run = λ log a. a }
  is_over-Ensures (some e) pos bytes = elim (Bool-cases (is_eof e)) [
    | inl c ↦ rw c (record { run = λ log a. a })
    | inr c ↦ rw c (record { run = λ log a. a.0.1 })
  ]

  follow-Ensures :
      (fuel inner pos : ℕ) (e : Option Error)
      → Ensures content (At content pos) (follow env fuel inner p pos e) Sent
  unfolding follow
  follow-Ensures zero inner pos e = record { run = λ log h. h.1 }
  follow-Ensures (suc fuel) inner pos e = bound-Ensures _ (check_canceled-Ensures pos) (λ _.
      bound-Ensures _ (poll-Ensures inner pos e) (λ (bytes, e').
        bound-Ensures _ (is_over-Ensures e' pos bytes) (λ over.
          Bool-Ensures over Sent _ _ (record { run = λ log a. a.0.1 })
            (bound-Ensures _ (send_new-Ensures bytes pos)
              (λ _. follow-Ensures fuel inner (pos + length bytes) e')))))

  -- The loop for a job that has ended sends a prefix of the file's content: no byte is left out,
  -- repeated or moved, however the calls go, and on every way out.
  pub drain-IsPrefixOf : (fuel : ℕ) → IsPrefixOf (sent (drain env fuel p 0 []).1) content
  drain-IsPrefixOf fuel =
      sent_of_Post content _ ((drain-Ensures fuel 0).run [] (refl, (content, refl)))

  -- The loop for a job that runs sends a prefix of the content that the growing file comes to have: no byte
  -- is left out, repeated or moved, however the calls go, and on every way out.
  pub follow-IsPrefixOf :
      (fuel inner : ℕ) → IsPrefixOf (sent (follow env fuel inner p 0 none []).1) content
  follow-IsPrefixOf fuel inner =
      sent_of_Post content _ ((follow-Ensures fuel inner 0 none).run [] (refl, (content, refl)))
