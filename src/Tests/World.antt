-- ===== src/Tests/World.antt =====
-- A world in which every call succeeds, and the data of the tests.
use jobmaster.Base.{Option, none, some, inr, [], ◌∷◌, refl, codes, CaseMap, true, pos}
use jobmaster.Result.{OsErr, other}
use jobmaster.FilePath.{clean}
use jobmaster.Os.{Env, Call, signal_zero, context_done}
use jobmaster.Authn.{Certificate}
use jobmaster.Server.Identity.{Context, tls}
use jobmaster.Server.Identity.RoundTrip.{KeepsSpaces}
use jobmaster.Jobslib.Job.{Job, running}
use jobmaster.Jobslib.Store.{JobsLib}

instance abbrev pub ascii : CaseMap
ascii = record { lower = λ c. c; upper = λ c. c }

-- Signal 0 finds no process; ESRCH is 3.
abbrev pub calm_err : Call → Option OsErr
calm_err (signal_zero pid) = some (other 3)
calm_err c = none

abbrev pub calm : Env
calm = record {
  ctx_err = λ log. none;
  os_err = λ log c. calm_err c;
  stat_of = λ log p. inr (record { is_dir = true });
  entries = λ log p. inr [];
  ksuid = λ log. inr (codes "k1");
  spawn = λ log. inr 42;
  unix_milli = λ log. 1000;
  show_error = λ e. codes "error";
  read_reply = λ log. record { bytes = []; error = none };
  send_err = λ log. none;
  watcher_free = λ log. true;
  event_read = λ log. inr [];
  key_pair_err = λ log. none;
  text_of = λ log. inr (codes "PEM");
  has_certificates = λ t. true;
  serving = λ log. context_done;
  dial_err = λ log. none;
}

abbrev pub empty_lib : JobsLib
empty_lib = record {
  jobs = [];
  client_to_job_id = [];
  client_list = codes "client1" ∷ codes "superuser" ∷ [];
  output_dir = codes "/tmp";
  io_dev_major_minor = codes "7:0";
}

abbrev pub sleeper : Job
sleeper = record {
  id = codes "k1";
  mesg = [];
  client_name = codes "client1";
  pid = pos 42;
  state = running;
  exit_code = pos 0;
  signal_str = [];
  command = codes "sleep";
  cmd_args = codes "60" ∷ [];
  started_unix_milli = 1000;
  ended_unix_milli = 0;
  output_file_path = clean (codes "/tmp/k1.log");
}

abbrev pub one_lib : JobsLib
one_lib = record empty_lib {
  jobs = (codes "k1", sleeper) ∷ [];
  client_to_job_id = (codes "client1", codes "k1" ∷ []) ∷ [];
}

abbrev pub cert1 : Certificate
cert1 = record {
  signature_algorithm = codes "ECDSA-SHA256";
  public_key_algorithm = codes "ECDSA";
  common_name = codes "jobmaster-Client1";
}

abbrev pub connected : Context
connected = record { peer = some (tls (some cert1 ∷ [])); client_name = none; client_role = none }

pub keeps : KeepsSpaces ascii
keeps c h = refl
