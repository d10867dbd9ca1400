-- ===== src/Server/Main/Laws.antt =====
-- What a run of the server that ends with no message has done (cmd/server/main.go).
use jobmaster.Base.{◌≡◌, ◌⊎◌, inl, inr, none, Sum-cases, ◌∷◌, arith, codes}
use jobmaster.Result.{Result, ok, err, panic, hang, Error}
use jobmaster.FilePath.{FilePath}
use jobmaster.Os.{Env, Log, Io, bound, caught, return, graceful_stop, serve, rmdir}
use jobmaster.Authz.{get_authorized_client_names}
use jobmaster.Jobslib.Cgroups.{parent_path}
use jobmaster.Jobslib.Cgroups.Teardown.{AllGone}
use jobmaster.Server.Run.{Server, ServerConfig, run}
use jobmaster.Server.Run.Laws.{Makes}
use jobmaster.Server.Run.Life.{run-eq-ok}
use jobmaster.Server.Main.{Flags, Exit, failed, stopped, server_config, serve_until_done, main}

ran-stopped :
    (r : Result (Unit {0}) × Log) (log' : Log)
    → bound
        (caught r)
        (λ x. elim x as (λ _. Io Exit) [ inl e ↦ return (failed e) | inr _ ↦ return stopped ])
      ≡ (ok stopped, log')
    → r ≡ (ok tt, log')
ran-stopped (ok tt, l) log' h = cc
ran-stopped (err e, l) log' h = cc
ran-stopped (panic w, l) log' h = cc
ran-stopped (hang, l) log' h = cc

module _ (env : Env) (log : Log) where
  serve-stopped :
      (sc : ServerConfig) (log' : Log)
      → serve_until_done env sc log ≡ (ok stopped, log')
      → run env sc log ≡ (ok tt, log')
  unfolding serve_until_done
  serve-stopped sc log' h = ran-stopped (run env sc log) log' h

  -- Where the server ends with no message, the directory of the certificates was found, a server was made
  -- with the server's key pair and the clients' CA of that directory and with the two flags, on port 6443
  -- it served until its end, whatever ended it, was stopped gracefully and the clients' cgroup
  -- directories and their parent were removed, each call with no error.
  pub main-stopped :
      (certs_dir : Error ⊎ FilePath) (flags : Flags) (log' : Log)
      → main env certs_dir flags log ≡ (ok stopped, log')
      → (dir : FilePath) × (s : Server) × (l1 : Log) × (l2 : Log) × (certs_dir ≡ inr dir)
        × Makes env log (server_config dir flags) s l1
        × AllGone env get_authorized_client_names (graceful_stop ∷ serve (codes ":6443") ∷ l1) l2
        × (env.os_err l2 (rmdir parent_path) ≡ none)
        × (log' ≡ rmdir parent_path ∷ l2)
  unfolding main server_config
  main-stopped certs_dir flags log' h = elim (Sum-cases certs_dir) [
    | inl (e, failed_dir) ↦ absurd (ground arith)
    | inr (dir, found) ↦
        let (s, l1, l2, made, gone, last, calls) =
          (run-eq-ok env log (server_config dir flags) log').0
            (serve-stopped (server_config dir flags) log' (ground arith)) in
        (dir, s, l1, l2, found, made, gone, last, calls)
  ]
