-- ===== src/Server/Stream/Ended.antt =====
-- The stream of a job that has ended (api/server/server_impl.go): what is sent is decided by whether
-- the first read fills the buffer.
use jobmaster.Base.{
  ℕ, suc, ◌≤◌, ◌<◌, ◌≡◌, List, [], ◌∷◌, arith, none, some, length, take, drop, take-all,
  length-take, leb, if◌then◌else◌,
}
use jobmaster.Result.{ok, panic, eof}
use jobmaster.FilePath.{FilePath}
use jobmaster.Os.{Env, Log, read_at, check_ctx, send}
use jobmaster.Server.Stream.{chunk_len, check_canceled, send_chunk, is_eof, drain}

-- io.ReaderAt on a file that no longer changes: the buffer is filled as far as the file goes, and the
-- end of the file is reported exactly when the buffer is not full.
abbrev pub IsFile : Env → FilePath → List ℕ → Type 0
IsFile env p content =
    (log : Log) (pos : ℕ)
    → env.read_reply (read_at p chunk_len pos ∷ log) ≡ record {
      bytes = take chunk_len (drop pos content);
      error = if leb chunk_len (length (drop pos content)) then none else some eof;
    }

abbrev pub sent_call : List ℕ → Log → Log
sent_call [] log = log
sent_call (b ∷ bs) log = send (b ∷ bs) ∷ log

module _ (env : Env) (p : FilePath) (fuel : ℕ) (log : Log) where
  -- The log behind the first read.
  abbrev pub first_read : Log
  first_read = read_at p chunk_len 0 ∷ check_ctx ∷ log

  first_reply_short :
      (content : List ℕ)
      → IsFile env p content
      → length content < chunk_len
      → env.read_reply first_read ≡ record { bytes = content; error = some eof }
  unfolding drop
  first_reply_short content file short =
      ground (arith, file (check_ctx ∷ log) 0, take-all chunk_len content (omega arith))

  first_reply_long :
      (content : List ℕ)
      → IsFile env p content
      → chunk_len ≤ length content
      → env.read_reply first_read ≡ record { bytes = take chunk_len content; error = none }
  unfolding drop
  first_reply_long content file long = ground (arith, file (check_ctx ∷ log) 0)

  drain_of_reply :
      (content : List ℕ)
      → ((l : Log) → env.ctx_err l ≡ none)
      → ((l : Log) → env.send_err l ≡ none)
      → env.read_reply first_read ≡ record { bytes = content; error = some eof }
      → drain env (suc fuel) p 0 log ≡ (ok tt, sent_call content first_read)
  unfolding drain is_eof check_canceled send_chunk
  drain_of_reply [] live sends e = ground (arith, live log)
  drain_of_reply (b ∷ bs) live sends e =
      ground (arith, live log, sends (send (b ∷ bs) ∷ first_read))

  drain_of_full :
      (bytes : List ℕ)
      → ((l : Log) → env.ctx_err l ≡ none)
      → ((l : Log) → env.send_err l ≡ none)
      → 1 ≤ length bytes
      → env.read_reply first_read ≡ record { bytes = bytes; error = none }
      → drain env (suc fuel) p 0 log
        ≡ (panic "invalid memory address or nil pointer dereference", send bytes ∷ first_read)
  unfolding drain is_eof check_canceled send_chunk
  drain_of_full [] live sends some_bytes e = absurd (omega arith)
  drain_of_full (b ∷ bs) live sends some_bytes e =
      ground (arith, live log, sends (send (b ∷ bs) ∷ first_read))

  -- If the context lives, sends succeed and the file is shorter than the buffer of 1024 bytes, then its
  -- whole content is sent in one message, or none if it is empty, and the stream ends well in one round.
  pub drain_short :
      (content : List ℕ)
      → IsFile env p content
      → ((l : Log) → env.ctx_err l ≡ none)
      → ((l : Log) → env.send_err l ≡ none)
      → length content < chunk_len
      → drain env (suc fuel) p 0 log ≡ (ok tt, sent_call content first_read)
  drain_short content file live sends short =
      drain_of_reply content live sends (first_reply_short content file short)

  -- If the context lives, sends succeed and the file has 1024 bytes or more, then the handler sends the
  -- first 1024 of them and panics: a read that fills the buffer has no error, and the handler asks that
  -- missing error for its text.
  pub drain_long :
      (content : List ℕ)
      → IsFile env p content
      → ((l : Log) → env.ctx_err l ≡ none)
      → ((l : Log) → env.send_err l ≡ none)
      → chunk_len ≤ length content
      → drain env (suc fuel) p 0 log ≡ (
        panic "invalid memory address or nil pointer dereference",
        send (take chunk_len content) ∷ first_read,
      )
  drain_long content file live sends long =
      drain_of_full (take chunk_len content) live sends
        (omega (arith, length-take chunk_len content long)) (first_reply_long content file long)
