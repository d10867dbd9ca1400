-- ===== src/Server/Stream.antt =====
-- api/server/server_impl.go, `StreamOutput`: the two loops that send a job's output.
pub mod Ended
pub mod Prefix
pub mod Race
pub mod Running
pub mod Waiting
use jobmaster.Base.{
  ℕ, zero, suc, ◌+◌, Bool, List, [], ◌∷◌, Option, none, some, length, is_nil, if◌then◌else◌,
}
use jobmaster.Result.{Error, eof, status, canceled, internal, ctx, panic, hang}
use jobmaster.FilePath.{FilePath}
use jobmaster.Os.{
  Env, Io, ReadReply, ◌>>=◌, ◌>>◌, return, fail, lift, ctx_error, read_file, send_output,
  try_watcher, wait_broadcast,
}

-- chunklenBytes.
abbrev pub chunk_len : ℕ
chunk_len = 1024

-- What a call of the method `Error` on a nil error does.
abbrev pub nil_error {ℓ} : {A : Type ℓ} → Io A
nil_error = lift (panic "invalid memory address or nil pointer dereference")

-- `return status.Error(codes.Internal, err.Error())`.
unfoldable pub internal_error {ℓ} : {A : Type ℓ} → Option Error → Io A
internal_error none = nil_error
internal_error (some e) = fail (status internal e)

-- `errors.Is(err, io.EOF)`; what a ReadAt reports is the end of file itself, or has nothing to do with it.
unfoldable pub is_eof : Error → Bool
is_eof eof = Bool.true
is_eof e = Bool.false

module _ (env : Env) where
  unfoldable pub check_canceled : Io (Unit {0})
  check_canceled = do
    e ← ctx_error env
    elim e [ none ↦ return tt | some c ↦ fail (status canceled (ctx c)) ]

  -- The bytes of one read are sent, if there are any; where the send fails, the error of the read is
  -- reported, and not that of the send.
  unfoldable pub send_chunk : List ℕ → Option Error → Io (Unit {0})
  send_chunk [] e = return tt
  send_chunk (b ∷ bs) e = do
    serr ← send_output env (b ∷ bs)
    elim serr [ none ↦ return tt | some _ ↦ internal_error e ]

  -- The loop over the file of a job that has ended.
  unfoldable pub drain : ℕ → FilePath → ℕ → Io (Unit {0})
  drain zero p pos = lift hang
  drain (suc fuel) p pos = do
    check_canceled
    r ← read_file env p chunk_len pos
    send_chunk r.bytes r.error
    let rest = drain fuel p (pos + length r.bytes)
    elim r.error as (λ _. Io (Unit {0})) [
      | none ↦ nil_error
      | some e ↦ if is_eof e then return tt else rest
    ]

  -- The inner loop: the bytes of a read and the error, which is an old one if there was no read.
  unfoldable pub poll : ℕ → FilePath → ℕ → Option Error → Io (List ℕ × Option Error)
  poll zero p pos e = lift hang
  poll (suc fuel) p pos e = do
    free ← try_watcher env
    elim free as (λ _. Io (List ℕ × Option Error)) [
      | Bool.true ↦ return ([], e)
      | Bool.false ↦ (do
        wait_broadcast env
        r ← read_file env p chunk_len pos
        let again = poll fuel p pos r.error
        if is_nil r.bytes then again else return (r.bytes, r.error))
    ]

  -- `if err != nil`: whether the stream is over.
  unfoldable pub is_over : Option Error → Io Bool
  is_over none = return Bool.false
  is_over (some e) = if is_eof e then try_watcher env else fail (status internal e)

  -- Here the error of a send is its own.
  unfoldable pub send_new : List ℕ → Io (Unit {0})
  send_new [] = return tt
  send_new (b ∷ bs) = do
    serr ← send_output env (b ∷ bs)
    elim serr [ none ↦ return tt | some e ↦ fail (status internal e) ]

  -- The loop over the file of a job that runs; `e` is the error of the last read.
  unfoldable pub follow : ℕ → ℕ → FilePath → ℕ → Option Error → Io (Unit {0})
  follow zero inner p pos e = lift hang
  follow (suc fuel) inner p pos e = do
    check_canceled
    (bytes, e') ← poll inner p pos e
    over ← is_over e'
    elim over as (λ _. Io (Unit {0})) [
      | Bool.true ↦ return tt
      | Bool.false ↦ (do send_new bytes; follow fuel inner p (pos + length bytes) e')
    ]
