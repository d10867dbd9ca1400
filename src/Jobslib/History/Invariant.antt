-- ===== src/Jobslib/History/Invariant.antt =====
-- The two maps of the library agree (jobslib/jobslib.go).
use jobmaster.Base.{
  ◌≡◌, ◌⊎◌, inl, inr, ◌≢◌, Bool-cases, List, [], ◌∷◌, ◌++◌, arith, none, some, Text, text_eq,
  text_eq_iff, lookup, lookup-insert, OneOf, OneOf-append, true, false,
}
use jobmaster.Os.{Env, Log}
use jobmaster.Result.{ok}
use jobmaster.Jobslib.Job.{Job, unspecified, running}
use jobmaster.Jobslib.Store.{JobsLib, create_jobs_lib, set_job, add_job, append_id, ids_at}
use jobmaster.Jobslib.Stop.{is_ended}
use jobmaster.Jobslib.History.{Reach, here, next}
use jobmaster.Jobslib.History.Evolution.{Evolves, Change, nothing, added, rewritten, Step-Change}

-- The IDs that the library lists for a client.
abbrev pub ids_of : Text → JobsLib → List Text
ids_of client lib = ids_at client lib.client_to_job_id

-- Every job stands under its own ID, is listed for its client and has a known state; every ID that is
-- listed for a client is that of a job of that client.
pub record IsConsistent (lib : JobsLib) : Type 0 where
  pub keyed : (id : Text) (job : Job) → lookup id lib.jobs ≡ some job → job.id ≡ id
  pub listed :
      (id : Text) (job : Job)
      → lookup id lib.jobs ≡ some job
      → OneOf (ids_of job.client_name lib) id
  pub known : (id : Text) (job : Job) → lookup id lib.jobs ≡ some job → job.state ≢ unspecified
  pub backed :
      (client id : Text)
      → OneOf (ids_of client lib) id
      → (job : Job) × (lookup id lib.jobs ≡ some job) × (job.client_name ≡ client)

ids_of-add_job :
    (lib : JobsLib) (job : Job) (client : Text)
    → ids_of client (add_job job lib) ≡ elim (text_eq job.client_name client) [
      | true ↦ ids_of client lib ++ job.id ∷ []
      | false ↦ ids_of client lib
    ]
unfolding add_job append_id ids_at
ids_of-add_job lib job client = ground (
  arith,
  lookup-insert job.client_name client (ids_of job.client_name lib ++ job.id ∷ [])
      lib.client_to_job_id,
  text_eq_iff job.client_name client,
)

jobs-add_job :
    (lib : JobsLib) (job : Job) (id : Text)
    → lookup id (add_job job lib).jobs
      ≡ elim (text_eq job.id id) [ true ↦ some job | false ↦ lookup id lib.jobs ]
unfolding add_job
jobs-add_job lib job id = rw lookup-insert (ground arith)

jobs-set_job :
    (lib : JobsLib) (j : Text) (job : Job) (id : Text)
    → lookup id (set_job j job lib).jobs
      ≡ elim (text_eq j id) [ true ↦ some job | false ↦ lookup id lib.jobs ]
unfolding set_job
jobs-set_job lib j job id = rw lookup-insert (ground arith)

-- An ID that is listed after a job was added was listed before, or is the new job's.
added_ids :
    (lib : JobsLib) (job : Job) (client id : Text)
    → OneOf (ids_of client (add_job job lib)) id
    → OneOf (ids_of client lib) id ⊎ ((job.client_name ≡ client) × (job.id ≡ id))
added_ids lib job client id l = ground (
  arith,
  ids_of-add_job lib job client,
  text_eq_iff job.client_name client,
  OneOf-append (ids_of client lib) job.id id,
)

add_job-IsConsistent :
    (lib : JobsLib) (job : Job)
    → lookup job.id lib.jobs ≡ none
    → job.state ≡ running
    → IsConsistent lib
    → IsConsistent (add_job job lib)
add_job-IsConsistent lib job fresh runs c = record {
  keyed = λ id j e. ground (arith, jobs-add_job lib job id, text_eq_iff job.id id, c.keyed id j);
  listed = λ id j e. ground (
    arith,
    jobs-add_job lib job id,
    ids_of-add_job lib job j.client_name,
    text_eq_iff job.id id,
    text_eq_iff job.client_name j.client_name,
    OneOf-append (ids_of j.client_name lib) job.id id,
    c.listed id j,
  );
  known = λ id j e. ground (arith, jobs-add_job lib job id, c.known id j);
  backed = λ client id l. elim (added_ids lib job client id l) [
    | inl old ↦
        let (j, e, same) = c.backed client id old in
        (j, ground (arith, jobs-add_job lib job id, text_eq_iff job.id id), same)
    | inr (same, at) ↦ (job, ground (arith, jobs-add_job lib job id, text_eq_iff job.id id), same)
  ];
}

set_job-IsConsistent :
    (lib : JobsLib) (id : Text) (job job' : Job)
    → lookup id lib.jobs ≡ some job
    → Evolves job job'
    → IsConsistent lib
    → IsConsistent (set_job id job' lib)
unfolding is_ended
set_job-IsConsistent lib id job job' found p c = record {
  keyed = λ i j e.
      ground
        (arith, jobs-set_job lib id job' i, text_eq_iff id i, c.keyed i j, c.keyed id job found);
  listed = λ i j e.
      unfold set_job in
      ground
        (arith, jobs-set_job lib id job' i, text_eq_iff id i, c.listed i j, c.listed id job found);
  known = λ i j e. ground (arith, jobs-set_job lib id job' i, c.known i j, c.known id job found);
  backed = λ client i l.
      let (j, e, same) = c.backed client i (unfold set_job in l) in
      elim (Bool-cases (text_eq id i)) [
        | inl at ↦
            (job', ground (arith, jobs-set_job lib id job' i), ground (arith, text_eq_iff id i))
        | inr other ↦ (j, ground (arith, jobs-set_job lib id job' i), same)
      ];
}

Change-IsConsistent : {lib lib' : JobsLib} → Change lib lib' → IsConsistent lib → IsConsistent lib'
Change-IsConsistent nothing c = c
Change-IsConsistent {lib} (added job fresh runs) c = add_job-IsConsistent lib job fresh runs c
Change-IsConsistent {lib} (rewritten id job job' found p) c =
    set_job-IsConsistent lib id job job' found p c

Reach-IsConsistent :
    {env : Env} {lib lib' : JobsLib} → IsConsistent lib → Reach env lib lib' → IsConsistent lib'
Reach-IsConsistent c here = c
Reach-IsConsistent c (next r s) = Change-IsConsistent (Step-Change s) (Reach-IsConsistent c r)

create_jobs_lib-IsConsistent :
    (env : Env) (clients : List Text) (dir device : Text) (log log' : Log) (lib : JobsLib)
    → create_jobs_lib env clients dir device log ≡ (ok lib, log')
    → IsConsistent lib
unfolding create_jobs_lib lookup ids_at
create_jobs_lib-IsConsistent env clients dir device log log' lib e =
    let maps : (lib.jobs ≡ []) × (lib.client_to_job_id ≡ []) = ground arith in
    record {
      keyed = λ id j h. ground arith;
      listed = λ id j h. ground arith;
      known = λ id j h. ground arith;
      backed = λ client id l. absurd (ground arith);
    }

-- Every library that is reached from a newly created one, by any interleaving of starts, ends of
-- processes and stops, is consistent: a job stands under its own ID, is listed for its client and has a
-- known state, and every listed ID is that of a job of the client that it is listed for.
pub create-Reach-IsConsistent :
    {env : Env} {lib lib' : JobsLib} (clients : List Text) (dir device : Text) (log log' : Log)
    → create_jobs_lib env clients dir device log ≡ (ok lib, log')
    → Reach env lib lib'
    → IsConsistent lib'
create-Reach-IsConsistent {env} {lib} clients dir device log log' e r =
    Reach-IsConsistent (create_jobs_lib-IsConsistent env clients dir device log log' lib e) r
