-- ===== src/Client/Calls/Line.antt =====
-- The line that is printed of a response (api/client/client_impl.go).
use jobmaster.Base.{◌≡◌, ℕ, List, [], ◌∷◌, ◌++◌, append_assoc, some, Text, codes, pos, to_int32}
use jobmaster.Jobslib.Job.{Job}
use jobmaster.Server.Rpc.{JobResponse, get_job_id}
use jobmaster.Server.Rpc.Reports.{Reports, HasCode}
use jobmaster.Client.Calls.{Verbs, response_line}

-- Names with their values: "a=x,b=y".
abbrev pub labelled : Text × Text → List (Text × Text) → Text
labelled (name, value) [] = name ++ codes "=" ++ value
labelled (name, value) (next ∷ fields) =
    name ++ codes "=" ++ value ++ codes "," ++ labelled next fields

-- The line of a job, whose state has the number `n`.
abbrev pub job_line : Verbs → Text → Job → ℕ → Text
job_line v id job n =
    labelled (codes "id", id)
      ((codes "jobMsg", job.mesg)
        ∷ (codes "client", job.client_name)
        ∷ (codes "pid", v.number job.pid)
        ∷ (codes "state", v.number (pos n))
        ∷ (codes "exitCode", v.number (to_int32 job.exit_code))
        ∷ (codes "signalstr", job.signal_str)
        ∷ (codes "cmd", v.command job.command job.cmd_args)
        ∷ (codes "started", v.time job.started_unix_milli)
        ∷ (codes "ended", v.time job.ended_unix_milli)
        ∷ [])

pub response_line_lem :
    (v : Verbs) (id : Text) (job : Job) (r : JobResponse)
    → Reports (some id) job r
    → (n : ℕ) × HasCode job.state n × (response_line v r ≡ job_line v id job n)
unfolding response_line get_job_id
response_line_lem v id job r
      (req, mesg, client, pid, code, exit, signal, command, args, started, ended) =
    (
      r.state,
      code,
      rw (req, mesg, client, pid, exit, signal, command, args, started, ended)
          (simp (append_assoc)),
    )
