-- ===== src/Client/Main/Laws.antt =====
-- What a successful run of the client has done (cmd/client/main.go).
use jobmaster.Base.{
  ◌≡◌, refl, inl, inr, Sum-cases, Bool-cases, ℕ, List, ◌∷◌, arith, Text, codes, text_eq,
  text_eq_iff, CaseMap,
}
use jobmaster.Result.{Result, ok, err, panic, hang}
use jobmaster.FilePath.{FilePath}
use jobmaster.Os.{Env, Log, Io, close_conn, bound, caught, closed, closing, return}
use jobmaster.Client.CommandLine.{CommandLine, parse_command_line_args}
use jobmaster.Client.Connection.{ClientConn, new_client}
use jobmaster.Client.Calls as Calls
use jobmaster.Client.Calls.{JobServiceClient, Verbs}
use jobmaster.Client.Main.{
  Exit, done, not_created, usage_shown, rpc_failed, Platform, client_config, report, dispatch,
  run_operation, main,
}

-- The call of an operation, by the table of the usage.
pub data Invokes (fuel : ℕ) (v : Verbs) (rpc : JobServiceClient) (cl : CommandLine) (log log' : Log)
    : Type 0 where
  starts :
      cl.operation ≡ codes "start"
      → Calls.start rpc cl.op_arg cl.additional_args log ≡ (ok tt, log')
      → Invokes fuel v rpc cl log log'
  stops :
      cl.operation ≡ codes "stop"
      → Calls.stop rpc v cl.op_arg log ≡ (ok tt, log')
      → Invokes fuel v rpc cl log log'
  asks :
      cl.operation ≡ codes "status"
      → Calls.status rpc v cl.op_arg log ≡ (ok tt, log')
      → Invokes fuel v rpc cl log log'
  streams :
      cl.operation ≡ codes "streamoutput"
      → Calls.stream_output rpc fuel cl.op_arg log ≡ (ok tt, log')
      → Invokes fuel v rpc cl log log'

-- `report` on what the call came to.
reported-done :
    (r : Result (Unit {0}) × Log) (log' : Log)
    → bound
        (caught r)
        (λ x. elim x as (λ _. Io Exit) [ inl e ↦ return (rpc_failed e) | inr _ ↦ return done ])
      ≡ (ok done, log')
    → r ≡ (ok tt, log')
reported-done (ok tt, l) log' h = cc
reported-done (err e, l) log' h = cc
reported-done (panic w, l) log' h = cc
reported-done (hang, l) log' h = cc

report-done :
    (call : Io (Unit {0})) (log log' : Log)
    → report call log ≡ (ok done, log')
    → call log ≡ (ok tt, log')
unfolding report
report-done call log log' h = reported-done (call log) log' h

dispatch-done :
    (fuel : ℕ) (v : Verbs) (rpc : JobServiceClient) (cl : CommandLine) (log log' : Log)
    → dispatch fuel v rpc cl log ≡ (ok done, log')
    → Invokes fuel v rpc cl log log'
unfolding dispatch
dispatch-done fuel v rpc cl log log' h = elim (Bool-cases (text_eq cl.operation (codes "start"))) [
  | inl e ↦
      starts ((text_eq_iff cl.operation (codes "start")).0 e)
        (report-done (Calls.start rpc cl.op_arg cl.additional_args) log log' (ground arith))
  | inr n1 ↦ elim (Bool-cases (text_eq cl.operation (codes "stop"))) [
    | inl e ↦
        stops ((text_eq_iff cl.operation (codes "stop")).0 e)
          (report-done (Calls.stop rpc v cl.op_arg) log log' (ground arith))
    | inr n2 ↦ elim (Bool-cases (text_eq cl.operation (codes "status"))) [
      | inl e ↦
          asks ((text_eq_iff cl.operation (codes "status")).0 e)
            (report-done (Calls.status rpc v cl.op_arg) log log' (ground arith))
      | inr n3 ↦ elim (Bool-cases (text_eq cl.operation (codes "streamoutput"))) [
        | inl e ↦
            streams ((text_eq_iff cl.operation (codes "streamoutput")).0 e)
              (report-done (Calls.stream_output rpc fuel cl.op_arg) log log' (ground arith))
        | inr n4 ↦ absurd (ground arith)
      ]
    ]
  ]
]

closed-eq-ok :
    (r : Result Exit × Log) (log' : Log)
    → closed close_conn r ≡ (ok done, log')
    → (l : Log) × (r ≡ (ok done, l)) × (log' ≡ close_conn ∷ l)
closed-eq-ok (ok a, l) log' h = (l, cc, cc)
closed-eq-ok (err e, l) log' h = absurd (cc)
closed-eq-ok (panic w, l) log' h = absurd (cc)
closed-eq-ok (hang, l) log' h = absurd (cc)

module _ ⦃m : CaseMap⦄ (env : Env) (platform : Platform) (fuel : ℕ) (log log' : Log) where
  operated-done :
      (cl : CommandLine) (r : Result ClientConn × Log)
      → bound (caught r) (λ x. elim x as (λ _. Io Exit) [
        | inl e ↦ return (not_created e)
        | inr conn ↦ closing close_conn (dispatch fuel platform.verbs (platform.stub conn) cl)
      ])
        ≡ (ok done, log')
      → (conn : ClientConn) × (l1 : Log) × (l2 : Log) × (r ≡ (ok conn, l1))
        × (dispatch fuel platform.verbs (platform.stub conn) cl l1 ≡ (ok done, l2))
        × (log' ≡ close_conn ∷ l2)
  operated-done cl (ok conn, l1) h =
      let (l2, e, closes) =
        closed-eq-ok (dispatch fuel platform.verbs (platform.stub conn) cl l1) log' h in
      (conn, l1, l2, refl, e, closes)
  operated-done cl (err e, l1) h = absurd (cc)
  operated-done cl (panic w, l1) h = absurd (cc)
  operated-done cl (hang, l1) h = absurd (cc)

  run_operation-done :
      (dir : FilePath) (cl : CommandLine)
      → run_operation env platform fuel dir cl log ≡ (ok done, log')
      → (conn : ClientConn) × (l1 : Log) × (l2 : Log) × (new_client env
            (client_config dir cl.client_name)
            log
          ≡ (ok conn, l1))
        × (dispatch fuel platform.verbs (platform.stub conn) cl l1 ≡ (ok done, l2))
        × (log' ≡ close_conn ∷ l2)
  unfolding run_operation
  run_operation-done dir cl h =
      operated-done cl (new_client env (client_config dir cl.client_name) log) h

  -- From the directory of the certificates on.
  parsed-done :
      (dir : FilePath) (r : Result CommandLine)
      → bound (caught (r, log)) (λ x. elim x as (λ _. Io Exit) [
        | inl e ↦ return (usage_shown e)
        | inr cl ↦ run_operation env platform fuel dir cl
      ])
        ≡ (ok done, log')
      → (cl : CommandLine) × (r ≡ ok cl)
        × (run_operation env platform fuel dir cl log ≡ (ok done, log'))
  parsed-done dir (ok cl) h = (cl, refl, h)
  parsed-done dir (err e) h = absurd (cc)
  parsed-done dir (panic w) h = absurd (cc)
  parsed-done dir hang h = absurd (cc)

  -- Where the client ends with no message, the directory of the certificates was found, the arguments
  -- were accepted, a client was connected for the name that they give, the call of the operation that they
  -- name, with its arguments, succeeded on that connection, and the connection was then closed.
  pub main-done :
      (args : List Text)
      → main env platform fuel args log ≡ (ok done, log')
      → (dir : FilePath) × (cl : CommandLine) × (conn : ClientConn) × (l1 : Log) × (l2 : Log)
        × (platform.certs_dir ≡ inr dir)
        × (parse_command_line_args args ≡ ok cl)
        × (new_client env (client_config dir cl.client_name) log ≡ (ok conn, l1))
        × Invokes fuel platform.verbs (platform.stub conn) cl l1 l2
        × (log' ≡ close_conn ∷ l2)
  unfolding main
  main-done args h = elim (Sum-cases platform.certs_dir) [
    | inl (e, failed) ↦ absurd (ground arith)
    | inr (dir, found) ↦
        let (cl, parsed, ran) = parsed-done dir (parse_command_line_args args) (ground arith) in
        let (conn, l1, l2, connected, called, closes) = run_operation-done dir cl ran in
        (
          dir,
          cl,
          conn,
          l1,
          l2,
          found,
          parsed,
          connected,
          dispatch-done fuel platform.verbs (platform.stub conn) cl l1 l2 called,
          closes,
        )
  ]
