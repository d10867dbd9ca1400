-- ===== src/Server/Run/Life.antt =====
-- How the life of the server ends (api/server/server.go).
use jobmaster.Base.{◌≡◌, ◌≢◌, refl, sym, none, [], ◌∙◌, ◌↔◌, ◌∷◌, ◌++◌, codes}
use jobmaster.Result.{ok}
use jobmaster.Os.{Env, Log, serve, graceful_stop, rmdir, bound-eq-ok}
use jobmaster.Authz.{get_authorized_client_names}
use jobmaster.Jobslib.Cgroups.{parent_path, teardown_jobmaster_cgroups}
use jobmaster.Jobslib.Cgroups.Teardown.{AllGone, teardown_jobmaster_cgroups-eq-ok}
use jobmaster.Server.Run.{ServerConfig, Server, new_server, run}
use jobmaster.Server.Run.Laws.{Makes, new_server-eq-ok}

clients-not-nil : get_authorized_client_names ≢ []
unfolding get_authorized_client_names
clients-not-nil = λ h. cc

module _ (env : Env) where
  -- The error of `Serve` reaches no caller: for whatever ends the wait, a server that was made returns
  -- what the removal of the clients' directories returns, behind the graceful stop.
  pub run-teardown :
      (log : Log) (sc : ServerConfig) (s : Server) (l1 : Log)
      → new_server env sc log ≡ (ok s, l1)
      → run env sc log
        ≡ teardown_jobmaster_cgroups env get_authorized_client_names
            (graceful_stop ∷ serve (codes ":" ++ sc.server_port) ∷ l1)
  unfolding run
  run-teardown log sc s l1 made = rw made refl

  -- A run succeeds exactly when what a server needs is met (`Makes`: a valid device ID, the hierarchy of the
  -- clients set up, the key pair loaded and a certificate in the clients' CA file) and when then, behind the
  -- graceful stop, for each client in turn the directory is not there, or its kill file is written, it is
  -- listed, the directories in it are removed and it is removed (`AllGone`), and the parent directory is
  -- removed last, each of these calls with no error. These are the calls that are made. What ended the wait
  -- does not count, be it an error of `Serve`.
  pub run-eq-ok :
      (log : Log) (sc : ServerConfig) (log' : Log)
      → (run env sc log ≡ (ok tt, log')) ↔ (
          (s : Server) × (l1 : Log) × (l2 : Log) × Makes env log sc s l1
          × AllGone env get_authorized_client_names
              (graceful_stop ∷ serve (codes ":" ++ sc.server_port) ∷ l1)
              l2
          × (env.os_err l2 (rmdir parent_path) ≡ none)
          × (log' ≡ rmdir parent_path ∷ l2))
  unfolding run
  run-eq-ok log sc log' = (
    λ h.
        let (s, l1, made, rest) = bound-eq-ok (new_server env sc log) _ h in
        let (_, (l2, gone, last, calls)) =
          (teardown_jobmaster_cgroups-eq-ok env get_authorized_client_names
              (graceful_stop ∷ serve (codes ":" ++ sc.server_port) ∷ l1) log').0
            (sym (run-teardown log sc s l1 made) ∙ h) in
        (s, l1, l2, (new_server-eq-ok env log sc s l1).0 made, gone, last, calls),
    λ (s, l1, l2, needs, gone, last, calls).
        run-teardown log sc s l1 ((new_server-eq-ok env log sc s l1).1 needs)
        ∙ (teardown_jobmaster_cgroups-eq-ok env get_authorized_client_names
              (graceful_stop ∷ serve (codes ":" ++ sc.server_port) ∷ l1) log').1
            (clients-not-nil, (l2, gone, last, calls)),
  )
