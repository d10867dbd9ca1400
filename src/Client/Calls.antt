-- ===== src/Client/Calls.antt =====
-- api/client/client_impl.go: the calls of the RPCs, and what is printed of their replies.
pub mod Laws
pub mod Line
pub mod Served
pub mod Relayed
use jobmaster.Base.{
  ℕ, zero, suc, ◌⊎◌, inl, inr, List, [], ◌∷◌, ◌++◌, Option, none, some, Text, codes, is_nil, ℤ, pos,
  if◌then◌else◌,
}
use jobmaster.Result.{Error, Result, ok, err, msg, hang}
use jobmaster.Os.{Log, Io, open_stream, recv, print, ◌>>=◌, ◌>>◌, return, fail, lift, note, attempt}
use jobmaster.Server.Rpc.{JobIdRequest, get_job_id, JobResponse, JobCreateRequest}
use jobmaster.Server.Stream.{is_eof}

-- The generated stub: the three unary calls, the error that opens a stream, and what `Recv` yields.
pub record JobServiceClient : Type 0 where
  pub start : JobCreateRequest → Io Text
  pub stop : JobIdRequest → Io JobResponse
  pub status : JobIdRequest → Io JobResponse
  pub stream_err : Log → Option Error
  pub received : Log → Error ⊎ List ℕ

-- The verbs "%d" and "%v" of fmt: of a number, of a command with its arguments, and of a time.
pub record Verbs : Type 0 where
  pub number : ℤ → Text
  pub command : Text → List Text → Text
  pub time : ℕ → Text

-- fmt.Println of one text.
unfoldable pub print_line : Text → Io (Unit {0})
print_line t = note (print (t ++ codes "\n"))

-- The line of a response, without the end of the line.
unfoldable pub response_line : Verbs → JobResponse → Text
response_line v r =
    codes "id="
    ++ get_job_id r.job_id_response
    ++ codes ",jobMsg="
    ++ r.job_msg
    ++ codes ",client="
    ++ r.client
    ++ codes ",pid="
    ++ v.number r.pid
    ++ codes ",state="
    ++ v.number (pos r.state)
    ++ codes ",exitCode="
    ++ v.number r.exit_code
    ++ codes ",signalstr="
    ++ r.signal_str
    ++ codes ",cmd="
    ++ v.command r.command r.args
    ++ codes ",started="
    ++ v.time r.started
    ++ codes ",ended="
    ++ v.time r.ended

module _ (rpc : JobServiceClient) where
  unfoldable pub start : Text → List Text → Io (Unit {0})
  start command cmd_args =
      if is_nil command
      then fail (msg "no command given for Start RPC")
      else (do id ← rpc.start (record { command = command; args = cmd_args }); print_line id)

  unfoldable pub stop : Verbs → Text → Io (Unit {0})
  stop v job_id =
      if is_nil job_id
      then fail (msg "no jobID given for Stop RPC")
      else (do r ← rpc.stop (some job_id); print_line (response_line v r))

  unfoldable pub status : Verbs → Text → Io (Unit {0})
  status v job_id =
      if is_nil job_id
      then fail (msg "no jobID given for Status RPC")
      else (do r ← rpc.status (some job_id); print_line (response_line v r))

  unfoldable pub open_output : Io (Unit {0})
  open_output log = (elim (rpc.stream_err log) [ none ↦ ok tt | some e ↦ err e ], open_stream ∷ log)

  unfoldable pub receive : Io (List ℕ)
  receive log = (elim (rpc.received log) [ inl e ↦ err e | inr bytes ↦ ok bytes ], recv ∷ log)

  -- The loop; the bytes of each message are printed as a line.
  unfoldable pub receive_all : ℕ → Io (Unit {0})
  receive_all zero = lift hang
  receive_all (suc fuel) = do
    r ← attempt receive
    let rest = receive_all fuel
    elim r as (λ _. Io (Unit {0})) [
      | inl e ↦ if is_eof e then return tt else fail e
      | inr bytes ↦ (do print_line bytes; rest)
    ]

  unfoldable pub stream_output : ℕ → Text → Io (Unit {0})
  stream_output fuel job_id =
      if is_nil job_id
      then fail (msg "no jobID given for Status RPC")
      else (do open_output; receive_all fuel)
