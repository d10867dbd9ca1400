-- ===== src/Jobslib/Cgroups/Setup.antt =====
-- jobslib/cgroups.go, setupJobmasterCgroups: the hierarchy down to the clients' directories.
pub mod Laws
use jobmaster.Base.{List, [], ◌∷◌, Option, none, some, Text, inl, inr}
use jobmaster.Result.{Error, msg, wrap, os, joined}
use jobmaster.FilePath.{FilePath}
use jobmaster.Os.{
  Env, Io, mkdir_all, remove, rmdir, write_file, ◌>>=◌, ◌>>◌, return, fail, on_err, ask, call,
  attempt,
}
use jobmaster.Jobslib.Cgroups.{
  parent_path, client_path, controllers, subtree_control_file, final_error, verify_cgroups,
  teardown_jobmaster_cgroups,
}

module _ (env : Env) where
  -- A client's directory with its controllers; what comes back is the error, if there is one.
  unfoldable pub setup_client : FilePath → Io (Option Error)
  setup_client dir = do
    made ← ask env (mkdir_all dir)
    elim made [
      | some e ↦
          return (some (wrap "error creating client cgroup dir for client %q due to %w" (os e)))
      | none ↦ (do
        written ← ask env (write_file (subtree_control_file dir) controllers)
        elim written [
          | none ↦ return none
          | some e ↦ (do
            removed ← ask env (rmdir dir)
            elim removed [
              | none ↦ return (some (wrap "error enabling cgroup controllers on %q: %w" (os e)))
              | some e2 ↦
                  return (some (joined (wrap "there was also an error removing %q %w" (os e2))))
            ])
        ])
    ]

  -- The loop over the clients, which an error breaks off: `errList` holds one error at most.
  unfoldable pub setup_clients : List Text → Io (Option Error)
  setup_clients [] = return none
  setup_clients (client ∷ clients) = do
    e ← setup_client (client_path client)
    elim e [ none ↦ setup_clients clients | some e' ↦ return (some e') ]

  -- The controllers of the parent directory; `%w` wraps the first error also where the removal failed.
  unfoldable pub enable_parent : Io (Unit {0})
  enable_parent = do
    written ← ask env (write_file (subtree_control_file parent_path) controllers)
    elim written [
      | none ↦ return tt
      | some e ↦ (do
        let e1 = joined (wrap "error enabling cgroup controllers on %q: %w" (os e))
        removed ← ask env (remove parent_path)
        elim removed [ none ↦ fail e1 | some e2 ↦ fail (joined (wrap "error removing %q %w" e1)) ])
    ]

  unfoldable pub setup_jobmaster_cgroups : List Text → Io (Unit {0})
  setup_jobmaster_cgroups [] = fail (msg "client list for cgroup creation is empty")
  setup_jobmaster_cgroups (c ∷ cs) = do
    on_err (wrap "failed to create parent cgroup path %q: %w") (call env (mkdir_all parent_path))
    enable_parent
    e ← setup_clients (c ∷ cs)
    elim e [
      | none ↦ verify_cgroups env (c ∷ cs)
      | some e' ↦ (do
        torn ← attempt (teardown_jobmaster_cgroups env (c ∷ cs))
        elim torn [
          | inr _ ↦ fail (final_error (msg "error creating client cgroup dir(s)") (e' ∷ []))
          | inl e2 ↦ fail (joined (wrap "error cleaning up: %w" e2))
        ])
    ]
