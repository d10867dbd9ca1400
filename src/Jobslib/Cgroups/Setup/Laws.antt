-- ===== src/Jobslib/Cgroups/Setup/Laws.antt =====
-- When the hierarchy of the clients' directories is set up (jobslib/cgroups.go).
use jobmaster.Base.{
  ◌≡◌, refl, ◌↔◌, ◌⊎◌, inl, inr, ◌≢◌, Bool, List, [], ◌∷◌, arith, Option, none, some, Text,
  is_blank,
}
use jobmaster.Result.{ok, Error, msg, wrap, joined}
use jobmaster.Os.{
  Io, ◌>>=◌, fail, attempt, bound-eq-ok, Env, FileInfo, Log, mkdir_all, stat, write_file,
}
use jobmaster.Jobslib.Cgroups.{
  final_error, teardown_jobmaster_cgroups, parent_path, client_path, controllers,
  subtree_control_file, verify_client_cgroup, verify_each, verify_cgroups,
}
use jobmaster.Jobslib.Cgroups.Setup.{
  setup_client, setup_clients, enable_parent, setup_jobmaster_cgroups,
}

-- The calls that make the clients' directories, on top of those made before.
abbrev pub setup_calls : List Text → Log → Log
setup_calls [] log = log
setup_calls (c ∷ cs) log = setup_calls cs (
    write_file (subtree_control_file (client_path c)) controllers ∷ mkdir_all (client_path c) ∷ log)

-- Each directory is made and its controllers are enabled.
abbrev pub AllMade : Env → List Text → Log → Type 0
AllMade env [] log = Unit
AllMade env (c ∷ cs) log =
    (env.os_err log (mkdir_all (client_path c)) ≡ none)
    × (env.os_err (mkdir_all (client_path c) ∷ log)
          (write_file (subtree_control_file (client_path c)) controllers)
        ≡ none)
    × AllMade env cs (
        write_file (subtree_control_file (client_path c)) controllers
        ∷ mkdir_all (client_path c)
        ∷ log)

abbrev pub verify_calls : List Text → Log → Log
verify_calls [] log = log
verify_calls (c ∷ cs) log = verify_calls cs (stat (client_path c) ∷ log)

-- Each name has more than white space in it, and its directory is there.
abbrev pub AllThere : Env → List Text → Log → Type 0
AllThere env [] log = Unit
AllThere env (c ∷ cs) log =
    (is_blank c ≡ Bool.false)
    × ((i : FileInfo) × (env.stat_of log (client_path c) ≡ inr i) × (i.is_dir ≡ Bool.true))
    × AllThere env cs (stat (client_path c) ∷ log)

module _ (env : Env) where
  setup_client-eq-none :
      (c : Text) (log log' : Log)
      → (setup_client env (client_path c) log ≡ (ok none, log')) ↔ (
          (env.os_err log (mkdir_all (client_path c)) ≡ none)
          × (env.os_err
                (mkdir_all (client_path c) ∷ log)
                (write_file (subtree_control_file (client_path c)) controllers)
              ≡ none)
          × (log'
              ≡ write_file (subtree_control_file (client_path c)) controllers
                ∷ mkdir_all (client_path c)
                ∷ log))
  unfolding setup_client
  setup_client-eq-none c log log' = ground arith

  setup_clients-eq-none :
      (cs : List Text) (log log' : Log)
      → (setup_clients env cs log ≡ (ok none, log'))
        ↔ (AllMade env cs log × (log' ≡ setup_calls cs log))
  unfolding setup_clients setup_client
  setup_clients-eq-none [] log log' = ground arith
  setup_clients-eq-none (c ∷ cs) log log' = ground (
    arith,
    setup_clients-eq-none cs
        (write_file (subtree_control_file (client_path c)) controllers
          ∷ mkdir_all (client_path c)
          ∷ log)
        log',
  )

  verify_each-eq-ok :
      (cs : List Text) (log log' : Log)
      → (verify_each env cs log ≡ (ok tt, log'))
        ↔ (AllThere env cs log × (log' ≡ verify_calls cs log))
  unfolding verify_each verify_client_cgroup
  verify_each-eq-ok [] log log' = ground arith
  verify_each-eq-ok (c ∷ cs) log log' =
      ground (arith, verify_each-eq-ok cs (stat (client_path c) ∷ log) log')

  verify_cgroups-eq-ok :
      (c : Text) (cs : List Text) (log log' : Log)
      → (verify_cgroups env (c ∷ cs) log ≡ (ok tt, log')) ↔ (
          ((i : FileInfo) × (env.stat_of log parent_path ≡ inr i) × (i.is_dir ≡ Bool.true))
          × AllThere env (c ∷ cs) (stat parent_path ∷ log)
          × (log' ≡ verify_calls (c ∷ cs) (stat parent_path ∷ log)))
  unfolding verify_cgroups
  verify_cgroups-eq-ok c cs log log' =
      ground (arith, verify_each-eq-ok (c ∷ cs) (stat parent_path ∷ log) log')

  -- What follows the loop over the clients: any error ends in an error.
  abbrev then_verify : List Text → Option Error → Io (Unit {0})
  then_verify clients e = elim e as (λ _. Io (Unit {0})) [
    | none ↦ verify_cgroups env clients
    | some e' ↦
        (attempt (teardown_jobmaster_cgroups env clients) >>= λ torn.
        elim torn as (λ _. Io (Unit {0})) [
          | inr _ ↦ fail (final_error (msg "error creating client cgroup dir(s)") (e' ∷ []))
          | inl e2 ↦ fail (joined (wrap "error cleaning up: %w" e2))
        ])
  ]

  then_verify-eq-ok :
      (clients : List Text) (e : Option Error) (log log' : Log)
      → then_verify clients e log ≡ (ok tt, log')
      → (e ≡ none) × (verify_cgroups env clients log ≡ (ok tt, log'))
  then_verify-eq-ok clients none log log' h = (refl, h)
  then_verify-eq-ok clients (some e) log log' h =
      let (torn, l1, e1, h1) =
        bound-eq-ok (attempt (teardown_jobmaster_cgroups env clients) log) _ h in
      absurd (never torn l1 h1)
    where
      never :
          (torn : Error ⊎ Unit {0}) (l : Log)
          → (elim torn as (λ _. Io (Unit {0})) [
            | inr _ ↦ fail (final_error (msg "error creating client cgroup dir(s)") (e ∷ []))
            | inl e2 ↦ fail (joined (wrap "error cleaning up: %w" e2))
          ])
              l
            ≢ (ok tt, log')
      never (inl e2) l k = cc
      never (inr u) l k = cc

  made_then_verified :
      (cs : List Text) (log log' : Log)
      → ((setup_clients env cs >>= then_verify cs) log ≡ (ok tt, log'))
        ↔ (AllMade env cs log × (verify_cgroups env cs (setup_calls cs log) ≡ (ok tt, log')))
  made_then_verified cs log log' = (forward, backward)
    where
      forward :
          (setup_clients env cs >>= then_verify cs) log ≡ (ok tt, log')
          → AllMade env cs log × (verify_cgroups env cs (setup_calls cs log) ≡ (ok tt, log'))
      forward h =
          let (e, l1, e1, h1) = bound-eq-ok (setup_clients env cs log) _ h in
          let (no_error, verified) = then_verify-eq-ok cs e l1 log' h1 in
          let (made, calls) = (setup_clients-eq-none cs log l1).0 (cc) in (made, cc)

      backward :
          AllMade env cs log × (verify_cgroups env cs (setup_calls cs log) ≡ (ok tt, log'))
          → (setup_clients env cs >>= then_verify cs) log ≡ (ok tt, log')
      backward (made, verified) =
          rw ((setup_clients-eq-none cs log (setup_calls cs log)).1 (made, refl)) verified

  module _ (log : Log) where
    -- The log behind the parent's directory and its controllers.
    abbrev pub parent_made : Log
    parent_made =
        write_file (subtree_control_file parent_path) controllers ∷ mkdir_all parent_path ∷ log

    abbrev pub ParentMade : Type 0
    ParentMade =
        (env.os_err log (mkdir_all parent_path) ≡ none)
        × (env.os_err (mkdir_all parent_path ∷ log)
              (write_file (subtree_control_file parent_path) controllers)
            ≡ none)

    -- All the calls of a set-up that succeeds.
    abbrev pub all_calls : List Text → Log
    all_calls clients = verify_calls clients (stat parent_path ∷ setup_calls clients parent_made)

    -- What the world answered in a set-up that succeeds.
    abbrev pub AllSucceed : List Text → Type 0
    AllSucceed clients =
        ParentMade
        × AllMade env clients parent_made
        × ((i : FileInfo) × (env.stat_of (setup_calls clients parent_made) parent_path ≡ inr i)
            × (i.is_dir ≡ Bool.true))
        × AllThere env clients (stat parent_path ∷ setup_calls clients parent_made)

    parent_then_clients :
        (c : Text) (cs : List Text) (log' : Log)
        → (setup_jobmaster_cgroups env (c ∷ cs) log ≡ (ok tt, log')) ↔ (
            ParentMade
            × ((setup_clients env (c ∷ cs) >>= then_verify (c ∷ cs)) parent_made ≡ (ok tt, log')))
    unfolding setup_jobmaster_cgroups enable_parent
    parent_then_clients c cs log' = ground arith

    -- The set-up of the hierarchy succeeds exactly when there is a client, the parent's directory and then
    -- each client's were made and had their controllers enabled, and all of them were found to be there
    -- afterwards, the clients' names being more than white space; these are all the calls, in order.
    pub setup_jobmaster_cgroups-eq-ok :
        (clients : List Text) (log' : Log)
        → (setup_jobmaster_cgroups env clients log ≡ (ok tt, log'))
          ↔ ((clients ≢ []) × AllSucceed clients × (log' ≡ all_calls clients))
    unfolding setup_jobmaster_cgroups
    setup_jobmaster_cgroups-eq-ok [] log' = ground arith
    setup_jobmaster_cgroups-eq-ok (c ∷ cs) log' =
        let started = parent_then_clients c cs log' in
        let made = made_then_verified (c ∷ cs) parent_made log' in
        let verified = verify_cgroups-eq-ok c cs (setup_calls (c ∷ cs) parent_made) log' in
        (
          λ h.
              let (parent, h1) = started.0 h in
              let (all_made, h2) = made.0 h1 in
              let (there, all_there, calls) = verified.0 h2 in
              (λ e. cc, (parent, all_made, there, all_there), calls),
          λ h. started.1 (h.1.0, made.1 (h.1.1, verified.1 (h.1.2, h.1.3, h.2))),
        )
