-- ===== src/Client/Calls/Laws.antt =====
-- What the client shows of a stream (api/client/client_impl.go, `StreamOutput`).
use jobmaster.Base.{
  ◌≡◌, refl, sym, ◌∙◌, inl, inr, ℕ, suc, zero, ◌<◌, ◌+◌, length, List, [], ◌∷◌, ◌++◌, arith, none,
  Text, codes, ◌≢◌, if◌then◌else◌, append_assoc, append-nil, length-append,
}
use jobmaster.Result.{ok, err, Error, Result}
use jobmaster.Os.{Log, print, recv, open_stream}
use jobmaster.Server.Stream.{is_eof}
use jobmaster.Client.Calls.{
  JobServiceClient, print_line, open_output, receive, receive_all, stream_output,
}

-- The log behind some messages that are received and shown.
abbrev pub shown : List (List ℕ) → Log → Log
shown [] log = log
shown (c ∷ cs) log = shown cs (print (c ++ codes "\n") ∷ recv ∷ log)

-- The text that is printed of some messages.
abbrev pub lines : List (List ℕ) → Text
lines [] = []
lines (c ∷ cs) = (c ++ codes "\n") ++ lines cs

abbrev pub joined : List (List ℕ) → Text
joined [] = []
joined (c ∷ cs) = c ++ joined cs

-- What stands on the screen after the calls: the texts that they printed.
abbrev pub screen : Log → Text
screen [] = []
screen (print t ∷ log) = screen log ++ t
screen (c ∷ log) = screen log

-- The end of a stream is no error.
abbrev pub ended : Error → Result (Unit {0})
ended e = if is_eof e then ok tt else err e

screen-shown : (cs : List (List ℕ)) (log : Log) → screen (shown cs log) ≡ screen log ++ lines cs
screen-shown [] log = sym (append-nil (screen log))
screen-shown (c ∷ cs) log =
    screen-shown cs (print (c ++ codes "\n") ∷ recv ∷ log)
    ∙ append_assoc (screen log) (c ++ codes "\n") (lines cs)

length-lines : (cs : List (List ℕ)) → length (lines cs) ≡ length (joined cs) + length cs
length-lines [] = refl
length-lines (c ∷ cs) = ground (
  arith,
  length-append (c ++ codes "\n") (lines cs),
  length-append c (codes "\n"),
  length-append c (joined cs),
  length-lines cs,
)

module _ (rpc : JobServiceClient) where
  -- The stream yields these messages and then this error.
  abbrev pub Yields : List (List ℕ) → Error → Log → Type 0
  Yields [] e log = rpc.received log ≡ inl e
  Yields (c ∷ cs) e log =
      (rpc.received log ≡ inr c) × Yields cs e (print (c ++ codes "\n") ∷ recv ∷ log)

  receive_all-shown :
      (cs : List (List ℕ)) (e : Error) (fuel : ℕ) (log : Log)
      → Yields cs e log
      → length cs < fuel
      → receive_all rpc fuel log ≡ (ended e, recv ∷ shown cs log)
  unfolding receive_all receive print_line
  receive_all-shown [] e (suc fuel) log h enough = ground arith
  receive_all-shown (c ∷ cs) e (suc fuel) log (here, h) enough =
      ground
        (arith, receive_all-shown cs e fuel (print (c ++ codes "\n") ∷ recv ∷ log) h (omega arith))
  receive_all-shown cs e zero log h enough = absurd (omega arith)

  -- For an ID that is not empty, a stream that opens and yields some messages and then an error, and more
  -- fuel than messages: the client returns that error, or none at the end of the file, and has printed
  -- each message, in order, with the end of a line behind it: one byte more for each message than there
  -- is output.
  pub stream_output-shows :
      (cs : List (List ℕ)) (e : Error) (fuel : ℕ) (job_id : Text) (log : Log)
      → job_id ≢ []
      → rpc.stream_err log ≡ none
      → Yields cs e (open_stream ∷ log)
      → length cs < fuel
      → (log' : Log) × (stream_output rpc fuel job_id log ≡ (ended e, log'))
        × (screen log' ≡ screen log ++ lines cs)
        × (length (lines cs) ≡ length (joined cs) + length cs)
  unfolding stream_output open_output
  stream_output-shows cs e fuel [] log some_id opens yields enough = absurd (some_id refl)
  stream_output-shows cs e fuel (b ∷ bs) log some_id opens yields enough = (
    recv ∷ shown cs (open_stream ∷ log),
    ground (arith, receive_all-shown cs e fuel (open_stream ∷ log) yields enough),
    screen-shown cs (open_stream ∷ log),
    length-lines cs,
  )
