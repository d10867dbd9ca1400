-- ===== src/Server/Stream/Prefix.antt =====
-- What `StreamOutput` hands to Send (api/server/server_impl.go) against the content of the file: no
-- byte is left out, repeated or moved, on any way out of its loops.
pub mod Loops
use jobmaster.Base.{
  ℕ, zero, suc, ◌+◌, ◌≡◌, refl, sym, ap, subst, ◌∙◌, Bool, Bool-cases, if◌then◌else◌, List, [], ◌∷◌,
  ◌++◌, append-nil, append_assoc, arith, Option, Option-cases, inl, inr, none, some, length,
  length-append, is_nil,
}
use jobmaster.Result.{
  Result, Code, ok, err, panic, hang, Error, msg, wrap, joined, os, ctx, foreign, status, eof,
}
use jobmaster.FilePath.{FilePath}
use jobmaster.Os.{
  Env, Log, ReadReply, Call, Io, bound, ◌>>=◌, ◌>>◌, read_file, send_output, try_watcher,
  wait_broadcast, return, fail, read_at, send, check_ctx, try_lock_watcher, wait_event,
}
use jobmaster.Server.Stream.{
  chunk_len, internal_error, check_canceled, send_chunk, is_eof, nil_error, drain, poll, is_over,
  send_new, follow,
}

-- All that was handed to Send, in order.
abbrev pub sent : Log → List ℕ
sent [] = []
sent (send bytes ∷ log) = sent log ++ bytes
sent (c ∷ log) = sent log

abbrev pub IsPrefixOf : List ℕ → List ℕ → Type 0
IsPrefixOf xs ys = (rest : List ℕ) × (ys ≡ xs ++ rest)

-- io.ReaderAt on a file that is only ever appended to and ends as `content`: a read at an offset
-- yields bytes that stand in it from there on, be they none, and any error.
abbrev pub GrowsTo : Env → FilePath → List ℕ → Type 0
GrowsTo env p content =
    (log : Log) (pre rest : List ℕ)
    → content ≡ pre ++ rest
    → IsPrefixOf (env.read_reply (read_at p chunk_len (length pre) ∷ log)).bytes rest

-- The offset stands behind what was sent.
abbrev pub At : List ℕ → ℕ → Log → Type 0
At content pos log = (pos ≡ length (sent log)) × IsPrefixOf (sent log) content

-- A condition on a value and the log; on every other way out, what was sent is a prefix.
abbrev pub Post {ℓ} : {A : Type ℓ} → List ℕ → (A → Log → Type 0) → Result A × Log → Type 0
Post content Q (ok a, log) = Q a log
Post content Q (err e, log) = IsPrefixOf (sent log) content
Post content Q (panic s, log) = IsPrefixOf (sent log) content
Post content Q (hang, log) = IsPrefixOf (sent log) content

-- From each log at which P holds, the computation ends in a value at which Q holds, or otherwise as
-- `Post` says.
pub record Ensures {ℓ} {A : Type ℓ} (content : List ℕ) (P : Log → Type 0) (m : Io A)
    (Q : A → Log → Type 0) : Type 0 where
  pub run : (log : Log) → P log → Post content Q (m log)

pub bound-Ensures {ℓ κ} :
    {A : Type ℓ} {B : Type κ} {content : List ℕ} {P : Log → Type 0} (Q : A → Log → Type 0)
    {R : B → Log → Type 0} {m : Io A} {f : A → Io B}
    → Ensures content P m Q
    → ((a : A) → Ensures content (Q a) (f a) R)
    → Ensures content P (m >>= f) R
bound-Ensures {content = content} Q {R} {m} {f} h k = record {
  run = λ log p. next (m log) (h.run log p);
}
  where
    next : (r : _) → Post content Q r → Post content R (bound r f)
    next (ok a, log) q = (k a).run log q
    next (err e, log) q = q
    next (panic s, log) q = q
    next (hang, log) q = q

pub At-send :
    (content bytes : List ℕ) (pos : ℕ) (log : Log)
    → At content pos log
    → ((pre rest : List ℕ) → content ≡ pre ++ rest → pos ≡ length pre → IsPrefixOf bytes rest)
    → At content (pos + length bytes) (send bytes ∷ log)
At-send content bytes pos log (e, (rest, h)) next =
    let (tail, t) = next (sent log) rest h e in
    (
      omega (arith, length-append (sent log) bytes, e),
      (tail, h ∙ ap (λ r. sent log ++ r) t ∙ sym (append_assoc (sent log) bytes tail)),
    )

pub Bool-Ensures {ℓ} :
    {A : Type ℓ} {content : List ℕ} {P : Log → Type 0} (b : Bool) (Q : A → Log → Type 0)
    (m n : Io A)
    → Ensures content P m Q
    → Ensures content P n Q
    → Ensures content P (elim b as (λ _. Io A) [ Bool.true ↦ m | Bool.false ↦ n ]) Q
Bool-Ensures Bool.true Q m n h k = h
Bool-Ensures Bool.false Q m n h k = k

pub sent_of_Post :
    (content : List ℕ) (r : Result (Unit {0}) × Log)
    → Post content (λ _ log. IsPrefixOf (sent log) content) r
    → IsPrefixOf (sent r.1) content
sent_of_Post content (ok a, log) h = h
sent_of_Post content (err e, log) h = h
sent_of_Post content (panic s, log) h = h
sent_of_Post content (hang, log) h = h
