-- ===== src/Jobslib/Cgroups/Teardown.antt =====
-- When the hierarchy of the clients' directories is taken down (jobslib/cgroups.go,
-- `TeardownJobmasterCgroups`).
use jobmaster.Base.{
  ◌≡◌, refl, sym, ap, ◌∙◌, ◌↔◌, ◌⊎◌, inl, inr, ◌≢◌, false, Bool-cases, Option-cases, Sum-cases,
  List, [], is_nil, ◌∷◌, ◌++◌, arith, none, Text, codes, if◌then◌else◌,
}
use jobmaster.Result.{ok, wrap, msg, Error, not_exist, exist, interrupted, other, OsErr, os}
use jobmaster.FilePath.{FilePath, join}
use jobmaster.Os.{
  Env, Log, Io, bound, return, FileInfo, DirEntry, Call, stat, read_dir, rmdir, write_file, call,
  on_err, fail, bound-eq-ok,
}
use jobmaster.Jobslib.Cgroups.{
  client_path, parent_path, kill_file, final_error, noting, remove_entries, teardown_client,
  teardown_clients, teardown_jobmaster_cgroups,
}

-- The call on an entry: a directory is removed, another entry is left.
abbrev pub entry_calls : FilePath → List DirEntry → Log → Log
entry_calls dir [] log = log
entry_calls dir (e ∷ es) log =
    entry_calls dir es (if e.is_dir then rmdir (join dir e.name) ∷ log else log)

-- Every directory among the entries is removed with no error.
abbrev pub EntriesGone : Env → FilePath → List DirEntry → Log → Type 0
EntriesGone env dir [] log = Unit
EntriesGone env dir (e ∷ es) log =
    ((e.is_dir ≡ false) ⊎ (env.os_err log (rmdir (join dir e.name)) ≡ none))
    × EntriesGone env dir es (if e.is_dir then rmdir (join dir e.name) ∷ log else log)

-- The log behind the write to the kill file of a client and the listing of its directory.
abbrev pub listed : Text → Log → Log
listed c log =
    read_dir (client_path c)
    ∷ write_file (kill_file (client_path c)) (codes "1")
    ∷ stat (client_path c)
    ∷ log

-- The directory of a client is there, its processes are killed, the directories in it are removed, and
-- then it is removed itself; each call with no error.
abbrev pub Removes : Env → Text → Log → Log → Type 0
Removes env c log log' =
    (i : FileInfo) × (es : List DirEntry) × (env.stat_of log (client_path c) ≡ inr i)
    × (env.os_err (stat (client_path c) ∷ log) (write_file (kill_file (client_path c)) (codes "1"))
        ≡ none)
    × (env.entries (write_file (kill_file (client_path c)) (codes "1") ∷ stat (client_path c) ∷ log)
          (client_path c)
        ≡ inr es)
    × EntriesGone env (client_path c) es (listed c log)
    × (env.os_err (entry_calls (client_path c) es (listed c log)) (rmdir (client_path c)) ≡ none)
    × (log' ≡ rmdir (client_path c) ∷ entry_calls (client_path c) es (listed c log))

-- Or it is not there, and nothing is done.
abbrev pub IsAbsent : Env → Text → Log → Log → Type 0
IsAbsent env c log log' =
    (env.stat_of log (client_path c) ≡ inl not_exist) × (log' ≡ stat (client_path c) ∷ log)

abbrev pub AllGone : Env → List Text → Log → Log → Type 0
AllGone env [] log log' = log' ≡ log
AllGone env (c ∷ cs) log log' =
    (l : Log) × (Removes env c log l ⊎ IsAbsent env c log l) × AllGone env cs l log'

module _ (env : Env) where
  noting-eq-nil :
      (errs : List Error) (c : Call) (log log' : Log)
      → (noting env errs c log ≡ (ok [], log'))
        ↔ ((errs ≡ []) × (env.os_err log c ≡ none) × (log' ≡ c ∷ log))
  unfolding noting
  noting-eq-nil [] c log log' = ground arith
  noting-eq-nil (e ∷ es) c log log' = ground arith

  -- An error that is noted stays.
  appended-not-nil : (errs : List Error) (e : Error) → errs ++ e ∷ [] ≢ []
  appended-not-nil [] e = λ h. cc
  appended-not-nil (x ∷ xs) e = λ h. cc

  remove_entries-eq-nil :
      (dir : FilePath) (errs : List Error) (es : List DirEntry) (log log' : Log)
      → (remove_entries env dir errs es log ≡ (ok [], log'))
        ↔ ((errs ≡ []) × EntriesGone env dir es log × (log' ≡ entry_calls dir es log))
  unfolding remove_entries noting
  remove_entries-eq-nil dir errs [] log log' = ground arith
  remove_entries-eq-nil dir errs (e ∷ es) log log' = elim (Bool-cases e.is_dir) [
    | inl a_dir ↦ rw a_dir (elim (Option-cases (env.os_err log (rmdir (join dir e.name)))) [
      | inl gone ↦
          rw gone
            (ground (arith, remove_entries-eq-nil dir errs es (rmdir (join dir e.name) ∷ log) log'))
      | inr (x, failed) ↦ rw failed (
          ground (
            arith,
            remove_entries-eq-nil dir (errs ++ os x ∷ []) es (rmdir (join dir e.name) ∷ log) log',
            appended-not-nil errs (os x),
          ))
    ])
    | inr no_dir ↦ rw no_dir (ground (arith, remove_entries-eq-nil dir errs es log log'))
  ]

  -- The end of the body, with what the listing yields.
  emptied-eq-nil :
      (dir : FilePath) (errs : List Error) (listing : OsErr ⊎ List DirEntry) (log log' : Log)
      → (bound
            ((elim listing as (λ _. Io (List Error)) [
              | inl e ↦ return (errs ++ os e ∷ [])
              | inr es ↦ remove_entries env dir errs es
            ])
              log)
            (λ emptied. noting env emptied (rmdir dir))
          ≡ (ok [], log'))
        ↔ ((es : List DirEntry) × (listing ≡ inr es)
            × (errs ≡ [])
            × EntriesGone env dir es log
            × (env.os_err (entry_calls dir es log) (rmdir dir) ≡ none)
            × (log' ≡ rmdir dir ∷ entry_calls dir es log))
  emptied-eq-nil dir errs (inl e) log log' =
      ground (
        arith,
        noting-eq-nil (errs ++ os e ∷ []) (rmdir dir) log log',
        appended-not-nil errs (os e),
      )
  emptied-eq-nil dir errs (inr es) log log' = (
    λ h.
        let (left, l1, removed, last) = bound-eq-ok (remove_entries env dir errs es log) _ h in
        let (clean, gone, calls) = (noting-eq-nil left (rmdir dir) l1 log').0 last in
        let (none_before, all, e) =
          (remove_entries-eq-nil dir errs es log l1).0 (removed ∙ ap (λ xs. (ok xs, l1)) clean) in
        (es, refl, none_before, all, cc, cc),
    λ (es', same, none_before, all, gone, calls).
        let e : es ≡ es' = cc in
        let all' : EntriesGone env dir es log = rw e all in
        let gone' : env.os_err (entry_calls dir es log) (rmdir dir) ≡ none = rw e gone in
        let calls' : log' ≡ rmdir dir ∷ entry_calls dir es log = rw e calls in
        rw
          ((remove_entries-eq-nil dir errs es log (entry_calls dir es log)).1
            (none_before, all', refl))
          ((noting-eq-nil [] (rmdir dir) (entry_calls dir es log) log').1 (refl, gone', calls')),
  )

  teardown_client-eq-nil :
      (c : Text) (errs : List Error) (i : FileInfo) (log log' : Log)
      → env.stat_of log (client_path c) ≡ inr i
      → (teardown_client env (client_path c) errs (stat (client_path c) ∷ log) ≡ (ok [], log'))
        ↔ ((errs ≡ []) × Removes env c log log')
  unfolding teardown_client
  teardown_client-eq-nil c errs i log log' found = (
    λ h.
        let (killed, l1, e1, h1) =
          bound-eq-ok
            (noting env errs (write_file (kill_file (client_path c)) (codes "1"))
              (stat (client_path c) ∷ log))
            _ h in
        let (es, listing, none_before, all, gone, calls) =
          (emptied-eq-nil (client_path c) killed (env.entries l1 (client_path c))
              (read_dir (client_path c) ∷ l1) log').0
            h1 in
        let (first, written, e) =
          (noting-eq-nil errs (write_file (kill_file (client_path c)) (codes "1"))
              (stat (client_path c) ∷ log) l1).0
            (e1 ∙ ap (λ xs. (ok xs, l1)) none_before) in
        (
          first,
          (
            i,
            es,
            found,
            written,
            rw (sym e) listing,
            rw (sym e) all,
            rw (sym e) gone,
            rw (sym e) calls,
          ),
        ),
    λ (first, (i', es, there, written, listing, all, gone, calls)).
        rw
          ((noting-eq-nil errs (write_file (kill_file (client_path c)) (codes "1"))
              (stat (client_path c) ∷ log)
              (write_file (kill_file (client_path c)) (codes "1") ∷ stat (client_path c) ∷ log)).1
            (first, written, refl))
          ((emptied-eq-nil (client_path c) []
              (env.entries
                (write_file (kill_file (client_path c)) (codes "1") ∷ stat (client_path c) ∷ log)
                (client_path c))
              (listed c log) log').1
            (es, listing, refl, all, gone, calls)),
  )

  clients-found :
      (errs : List Error) (c : Text) (cs : List Text) (i : FileInfo) (log : Log)
      → env.stat_of log (client_path c) ≡ inr i
      → teardown_clients env errs (c ∷ cs) log
        ≡ bound
            (teardown_client env (client_path c) errs (stat (client_path c) ∷ log))
            (λ errs'. teardown_clients env errs' cs)
  unfolding teardown_clients
  clients-found errs c cs i log found = rw found refl

  clients-absent :
      (errs : List Error) (c : Text) (cs : List Text) (log : Log)
      → env.stat_of log (client_path c) ≡ inl not_exist
      → teardown_clients env errs (c ∷ cs) log
        ≡ teardown_clients env errs cs (stat (client_path c) ∷ log)
  unfolding teardown_clients
  clients-absent errs c cs log absent = rw absent refl

  clients-failed :
      (errs : List Error) (c : Text) (cs : List Text) (e : OsErr) (log log' : Log)
      → env.stat_of log (client_path c) ≡ inl e
      → teardown_clients env errs (c ∷ cs) log ≡ (ok [], log')
      → e ≡ not_exist
  unfolding teardown_clients
  clients-failed errs c cs not_exist log log' failed h = refl
  clients-failed errs c cs exist log log' failed h = ground arith
  clients-failed errs c cs interrupted log log' failed h = ground arith
  clients-failed errs c cs (other n) log log' failed h = ground arith

  -- The loop leaves no error exactly when there was none before it and each directory was removed or absent.
  teardown_clients-eq-nil :
      (errs : List Error) (cs : List Text) (log log' : Log)
      → (teardown_clients env errs cs log ≡ (ok [], log')) ↔ ((errs ≡ []) × AllGone env cs log log')
  unfolding teardown_clients
  teardown_clients-eq-nil errs [] log log' = ground arith
  teardown_clients-eq-nil errs (c ∷ cs) log log' = (
    λ h. elim (Sum-cases (env.stat_of log (client_path c))) [
      | inl (e, failed) ↦
          let absent : env.stat_of log (client_path c) ≡ inl not_exist =
            failed ∙ ap inl (clients-failed errs c cs e log log' failed h) in
          let (first, rest) =
            (teardown_clients-eq-nil errs cs (stat (client_path c) ∷ log) log').0
              (sym (clients-absent errs c cs log absent) ∙ h) in
          (first, (stat (client_path c) ∷ log, inr (absent, refl), rest))
      | inr (i, found) ↦
          let (left, l1, removed, h1) =
            bound-eq-ok (teardown_client env (client_path c) errs (stat (client_path c) ∷ log)) _
              (sym (clients-found errs c cs i log found) ∙ h) in
          let (clean, rest) = (teardown_clients-eq-nil left cs l1 log').0 h1 in
          let (first, gone) =
            (teardown_client-eq-nil c errs i log l1 found).0
              (removed ∙ ap (λ xs. (ok xs, l1)) clean) in
          (first, (l1, inl gone, rest))
    ],
    λ (first, (l, this, rest)). elim this [
      | inl gone ↦
          clients-found errs c cs gone.0 log gone.2
          ∙ rw ((teardown_client-eq-nil c errs gone.0 log l gone.2).1 (first, gone))
              ((teardown_clients-eq-nil [] cs l log').1 (refl, rest))
      | inr (absent, e) ↦
          clients-absent errs c cs log absent
          ∙ (teardown_clients-eq-nil errs cs (stat (client_path c) ∷ log) log').1
              (first, rw (sym e) rest)
    ],
  )

  parent-eq-ok :
      (errs : List Error) (l log' : Log)
      → (if is_nil errs
            then on_err
                (wrap "failed to remove jobmaster cgroup parent dir %q: %w")
                (call env (rmdir parent_path))
            else fail (final_error (msg "error removing one or more client cgroup (sub)dirs") errs))
          l
        ≡ (ok tt, log')
      → (errs ≡ []) × (env.os_err l (rmdir parent_path) ≡ none) × (log' ≡ rmdir parent_path ∷ l)
  parent-eq-ok [] l log' h = ground arith
  parent-eq-ok (e ∷ es) l log' h = ground arith

  -- The hierarchy is taken down exactly when there is a client, every directory of a client that is there is
  -- emptied and removed and the parent directory is then removed, each call with no error.
  pub teardown_jobmaster_cgroups-eq-ok :
      (cs : List Text) (log log' : Log)
      → (teardown_jobmaster_cgroups env cs log ≡ (ok tt, log')) ↔ (
          (cs ≢ [])
          × ((l : Log) × AllGone env cs log l
              × (env.os_err l (rmdir parent_path) ≡ none)
              × (log' ≡ rmdir parent_path ∷ l)))
  unfolding teardown_jobmaster_cgroups
  teardown_jobmaster_cgroups-eq-ok [] log log' = ground arith
  teardown_jobmaster_cgroups-eq-ok (c ∷ cs) log log' = (
    λ h.
        let (errs, l, cleared, h1) = bound-eq-ok (teardown_clients env [] (c ∷ cs) log) _ h in
        let (clean, last, calls) = parent-eq-ok errs l log' h1 in
        let (_, gone) =
          (teardown_clients-eq-nil [] (c ∷ cs) log l).0 (cleared ∙ ap (λ xs. (ok xs, l)) clean) in
        ((λ none_there. ground arith), (l, gone, last, calls)),
    λ (_, (l, gone, last, calls)).
        rw ((teardown_clients-eq-nil [] (c ∷ cs) log l).1 (refl, gone)) (ground arith),
  )
