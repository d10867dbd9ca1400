-- ===== src/Client/Calls/Relayed.antt =====
-- The output of a running job on its way: api/server/server_impl.go sends, api/client/client_impl.go shows.
use jobmaster.Base.{
  ◌≡◌, ◌≢◌, refl, sym, ap, ◌∙◌, ℕ, ◌<◌, length, List, [], ◌∷◌, ◌++◌, append_assoc, append-nil, none,
  Text, subst,
}
use jobmaster.Result.{Error}
use jobmaster.FilePath.{FilePath}
use jobmaster.Os.{Env, Log, send, open_stream}
use jobmaster.Server.Stream.{follow}
use jobmaster.Server.Stream.Prefix.{sent, IsPrefixOf, GrowsTo}
use jobmaster.Server.Stream.Prefix.Loops.{follow-IsPrefixOf}
use jobmaster.Client.Calls.{JobServiceClient, stream_output}
use jobmaster.Client.Calls.Laws.{joined, lines, screen, ended, Yields, stream_output-shows}

-- The messages that were sent, the first first.
abbrev pub messages : Log → List (List ℕ)
messages [] = []
messages (send bytes ∷ log) = messages log ++ bytes ∷ []
messages (c ∷ log) = messages log

joined-append : (cs ds : List (List ℕ)) → joined (cs ++ ds) ≡ joined cs ++ joined ds
joined-append [] ds = refl
joined-append (c ∷ cs) ds =
    ap (λ t. c ++ t) (joined-append cs ds) ∙ sym (append_assoc c (joined cs) (joined ds))

joined-messages : (log : Log) → joined (messages log) ≡ sent log
joined-messages [] = refl
joined-messages (send bytes ∷ log) =
    joined-append (messages log) (bytes ∷ [])
    ∙ ap (λ t. t ++ (bytes ++ [])) (joined-messages log)
    ∙ ap (λ t. sent log ++ t) (append-nil bytes)
joined-messages (c ∷ log) = joined-messages log

-- The messages of the loop for a running job.
abbrev pub served_messages : Env → FilePath → ℕ → ℕ → List (List ℕ)
served_messages env p fuel inner = messages (follow env fuel inner p 0 none []).1

-- What the handler sent, one side of the connection, and what the client shows, the other. The messages
-- arrive whole and in order, and then an error or the end of the stream.
module _ (env : Env) (p : FilePath) (content : List ℕ) (grows : GrowsTo env p content)
    (rpc : JobServiceClient) where
  -- For a running job whose file grows to some content, and a stub that yields the messages of the server's
  -- loop in order and then an error, with an ID that is not empty, a stream that opens and more fuel than
  -- messages: the client ends with that error, or none at the end of the stream, and has shown these
  -- messages as lines; without the ends of the lines they are a prefix of the content.
  pub follow-shows :
      (fuel inner client_fuel : ℕ) (e : Error) (job_id : Text) (log : Log)
      → job_id ≢ []
      → rpc.stream_err log ≡ none
      → Yields rpc (served_messages env p fuel inner) e (open_stream ∷ log)
      → length (served_messages env p fuel inner) < client_fuel
      → (log' : Log) × (stream_output rpc client_fuel job_id log ≡ (ended e, log'))
        × (screen log' ≡ screen log ++ lines (served_messages env p fuel inner))
        × IsPrefixOf (joined (served_messages env p fuel inner)) content
  follow-shows fuel inner client_fuel e job_id log some_id opens yields enough =
      let ms = served_messages env p fuel inner in
      let (log', ran, on_screen, _) =
        stream_output-shows rpc ms e client_fuel job_id log some_id opens yields enough in
      (
        log',
        ran,
        on_screen,
        subst (λ t. IsPrefixOf t content)
            (sym (joined-messages (follow env fuel inner p 0 none []).1))
            (follow-IsPrefixOf env p content grows fuel inner),
      )
