-- ===== src/Tests/Clients.antt =====
-- The client at concrete configurations, streams and servers.
use jobmaster.Base.{
  take, drop, ◌≡◌, refl, ◌↔◌, ℕ, List, [], ◌∷◌, ◌++◌, ◌+◌, Option, none, some, inl, inr, ◌⊎◌, Text,
  codes, length, lookup, text_eq, to_lower, arith,
}
use jobmaster.Result.{ok, msg, eof, Error}
use jobmaster.FilePath.{
  FilePath, clean, path_text, split_slash, resolve_all, resolve, slashed, join,
}
use jobmaster.Os.{Log, open_stream, recv, print, fail, close_conn}
use jobmaster.Authz.{Role}
use jobmaster.Authn.{Certificate}
use jobmaster.Jobslib.Job.{Job}
use jobmaster.Server.Identity.{tls}
use jobmaster.Server.Identity.Laws.{Chain}
use jobmaster.Server.Rpc.{job_response}
use jobmaster.Server.Rpc.Inversion.{Owns}
use jobmaster.Server.Stream.{is_eof}
use jobmaster.Client.CommandLine.{
  CommandLine, parse_command_line_args, parse_name, parse_operation, is_operation, parse_op_arg,
}
use jobmaster.Client.Connection.{
  ClientConfig, ClientConn, new_client, connect, load_tls_config_for_client,
}
use jobmaster.Client.Connection.Laws.{IsFull, Connects, strict_client, new_client-eq-ok}
use jobmaster.Client.Calls as Calls
use jobmaster.Client.Calls.{
  JobServiceClient, Verbs, stream_output, print_line, response_line, open_output, receive_all,
  receive,
}
use jobmaster.Client.Calls.Laws.{lines, joined, screen, ended, stream_output-shows}
use jobmaster.Client.Calls.Line.{job_line}
use jobmaster.Server.Rpc.Reports.{HasCode}
use jobmaster.Client.Calls.Served.{served, status-Owns}
use jobmaster.Client.Main.{Platform, done, client_config, run_operation, dispatch, report, main}
use jobmaster.Client.Main.Laws.{Invokes, main-done}
use jobmaster.Client.Calls.Relayed.{served_messages, follow-shows}
use jobmaster.Server.Stream.{follow, check_canceled, poll, is_over, send_new}
use jobmaster.Server.Stream.Prefix.{IsPrefixOf}
use jobmaster.Tests.Streaming.{guarded, logfile, hello, serving-GrowsTo}
use jobmaster.Tests.Rpcs.{boss, status_log, status_runs}
use jobmaster.Tests.World.{ascii, calm, one_lib, sleeper, keeps}

abbrev config : ClientConfig
config = record {
  client_name = codes "client1";
  client_cert_path_prefix = codes "/certs";
  server_name = codes "localhost";
  server_port = codes "6443";
  server_ca_cert_file = codes "/certs/server_ca_cert.pem";
}

abbrev conn_log : Log
conn_log = (new_client calm config []).1

new_client-eq-ok_example :
    (new_client calm config [] ≡ (ok (strict_client config (codes "PEM")), conn_log))
    ↔ (IsFull config × Connects calm [] config (strict_client config (codes "PEM")) conn_log)
new_client-eq-ok_example =
    new_client-eq-ok calm [] config (strict_client config (codes "PEM")) conn_log

-- Two messages, and then the end.
abbrev two_messages : Log → Error ⊎ List ℕ
two_messages (open_stream ∷ log) = inr (codes "ab")
two_messages (print t ∷ recv ∷ open_stream ∷ log) = inr (codes "c")
two_messages log = inl eof

abbrev talking : JobServiceClient
talking = record {
  start = λ req. fail (msg "unavailable");
  stop = λ req. fail (msg "unavailable");
  status = λ req. fail (msg "unavailable");
  stream_err = λ log. none;
  received = two_messages;
}

abbrev messages : List (List ℕ)
messages = codes "ab" ∷ codes "c" ∷ []

stream_output-shows_example :
    (log' : Log) × (stream_output talking 3 (codes "k1") [] ≡ (ended eof, log'))
    × (screen log' ≡ screen [] ++ lines messages)
    × (length (lines messages) ≡ length (joined messages) + length messages)
stream_output-shows_example =
    stream_output-shows talking messages eof 3 (codes "k1") [] (λ e. cc) refl (refl, (refl, refl))
      (omega arith)

abbrev verbs : Verbs
verbs = record { number = λ z. codes "1"; command = λ c args. c; time = λ t. codes "now" }

abbrev asking : JobServiceClient
asking = served calm one_lib boss talking

abbrev asked_log : Log
asked_log =
    print (response_line verbs (job_response (some (codes "k1")) sleeper) ++ codes "\n")
    ∷ status_log

status_prints : Calls.status asking verbs (codes "k1") [] ≡ (ok tt, asked_log)
unfolding jobmaster.Client.Calls.status print_line
status_prints = rw status_runs refl

status-Owns_example :
    (certs : List (Option Certificate)) × (name : Text) × (role : Role) × (job : Job) × (n : ℕ)
    × (log1 : Log) × (boss.peer ≡ some (tls certs))
    × Chain certs name role
    × (lookup (codes "k1") one_lib.jobs ≡ some job)
    × Owns name role job
    × HasCode job.state n
    × (asked_log ≡ print (job_line verbs (codes "k1") job n ++ codes "\n") ∷ log1)
status-Owns_example =
    status-Owns calm one_lib boss keeps talking verbs (codes "k1") [] asked_log status_prints

abbrev platform : Platform
platform = record {
  certs_dir = inr (clean (codes "/certs"));
  stub = λ conn. talking;
  verbs = verbs;
}

abbrev args : List Text
args = codes "-n" ∷ codes "client1" ∷ codes "streamoutput" ∷ codes "k1" ∷ []

abbrev listening : CommandLine
listening = record {
  client_name = codes "client1";
  operation = codes "streamoutput";
  op_arg = codes "k1";
  additional_args = [];
}

parse_runs : parse_command_line_args args ≡ ok listening
unfolding parse_command_line_args text_eq parse_name parse_operation is_operation to_lower
    parse_op_arg
parse_runs = refl

abbrev certs : FilePath
certs = clean (codes "/certs")

abbrev main_log : Log
main_log = (run_operation calm platform 3 certs listening []).1

operation_runs : run_operation calm platform 3 certs listening [] ≡ (ok done, main_log)
unfolding run_operation new_client client_config path_text clean split_slash resolve_all resolve
    slashed join connect load_tls_config_for_client dispatch text_eq report stream_output
    open_output receive_all receive print_line is_eof
operation_runs = refl

main_runs : main calm platform 3 args [] ≡ (ok done, main_log)
unfolding main
main_runs = rw parse_runs operation_runs

main-done_example :
    (dir : FilePath) × (cl : CommandLine) × (conn : ClientConn) × (l1 : Log) × (l2 : Log) × (◌≡◌
      {A = Error ⊎ FilePath}
      (inr (clean (codes "/certs")))
      (inr dir))
    × (parse_command_line_args args ≡ ok cl)
    × (new_client calm (client_config dir cl.client_name) [] ≡ (ok conn, l1))
    × Invokes 3 verbs talking cl l1 l2
    × (main_log ≡ close_conn ∷ l2)
main-done_example = main-done calm platform 3 [] main_log args main_runs

-- The stub yields what the server sends of the file: its content, and the end.
abbrev one_message : Log → Error ⊎ List ℕ
one_message (open_stream ∷ log) = inr hello
one_message log = inl eof

abbrev relaying : JobServiceClient
relaying = record talking { received = one_message }

-- Two rounds of the server's loop send one message.
one_sent : served_messages guarded logfile 2 2 ≡ hello ∷ []
unfolding follow check_canceled poll is_over send_new is_eof take drop
one_sent = refl

follow-shows_example :
    (log' : Log) × (stream_output relaying 3 (codes "k1") [] ≡ (ended eof, log'))
    × (screen log' ≡ screen [] ++ lines (served_messages guarded logfile 2 2))
    × IsPrefixOf (joined (served_messages guarded logfile 2 2)) hello
unfolding follow check_canceled poll is_over send_new is_eof take drop
follow-shows_example =
    follow-shows guarded logfile hello (serving-GrowsTo hello) relaying 2 2 3 eof (codes "k1") []
      (λ e. cc) refl (refl, refl) (omega arith)
