-- ===== src/Tests/Watching.antt =====
-- The watcher at concrete events, and a stream that waits.
use jobmaster.Base.{◌≡◌, ◌↔◌, ◌⊎◌, refl, Bool, [], ◌∷◌, none, inr, true, arith, codes, drop}
use jobmaster.Result.{ok, hang}
use jobmaster.FilePath.{FilePath, clean}
use jobmaster.Os.{Log, Env}
use jobmaster.Jobslib.Inotify.{read_event, read_u32, is_close_write}
use jobmaster.Jobslib.WaitForFile.{wait_for_file, wait_loop}
use jobmaster.Jobslib.Watcher.{
  process_events, handle_bytes, broadcasts, watcher, watch, watch_loop, read_locked,
}
use jobmaster.Jobslib.Watcher.Batch.{Event, batch_bytes, outcome, handle_bytes-batch}
use jobmaster.Jobslib.Watcher.Bounds.{IsSafe, process_events-IsSafe}
use jobmaster.Jobslib.Watcher.Release.{IsFree, watcher-IsFree}
use jobmaster.Jobslib.Watcher.Closing.{watcher-closes}
use jobmaster.Server.Stream.{follow}
use jobmaster.Server.Stream.Prefix.{sent}
use jobmaster.Server.Stream.Race.Laws.{Reach, IsStuck, lost, over, Reach-IsStuck_iff}
use jobmaster.Server.Stream.Waiting.{follow-waits}
use jobmaster.Tests.World.{calm}

-- IN_MODIFY is 2; IN_CLOSE_WRITE is 8.
abbrev modified : Event
modified = record { wd = 1; mask = 2; cookie = 0; name = [] }

abbrev closed_file : Event
closed_file = record { wd = 1; mask = 8; cookie = 0; name = codes "log." }

handle_runs : handle_bytes 3 (batch_bytes (modified ∷ closed_file ∷ [])) [] ≡ (
  ok (outcome (modified ∷ closed_file ∷ []) 0 []).0,
  (outcome (modified ∷ closed_file ∷ []) 0 []).1,
)
unfolding handle_bytes process_events batch_bytes read_event read_u32 is_close_write broadcasts drop
handle_runs = refl

handle_bytes-batch_example : handle_bytes 3 (batch_bytes (modified ∷ closed_file ∷ [])) [] ≡ (
  ok (outcome (modified ∷ closed_file ∷ []) 0 []).0,
  (outcome (modified ∷ closed_file ∷ []) 0 []).1,
)
unfolding batch_bytes
handle_bytes-batch_example =
    handle_bytes-batch modified (closed_file ∷ []) 3 [] (ground arith) (omega arith) (omega arith)

process_events-IsSafe_example : IsSafe (process_events 3 (batch_bytes (modified ∷ [])) 0 0 []).0
unfolding batch_bytes
process_events-IsSafe_example =
    process_events-IsSafe 3 (batch_bytes (modified ∷ [])) 0 0 [] (omega arith)

abbrev logfile : FilePath
logfile = clean (codes "/tmp/k1.log")

watcher-IsFree_example : IsFree calm (watcher calm 1 1 logfile []).1
unfolding watcher wait_for_file watch watch_loop read_locked handle_bytes wait_loop
watcher-IsFree_example = watcher-IsFree calm 1 1 logfile [] (refl, refl, refl) tt

-- Every read yields the two events.
abbrev eventful : Env
eventful = record calm {
  os_err = λ log c. none;
  event_read = λ log. inr (batch_bytes (modified ∷ closed_file ∷ []));
}

watcher-closes_example :
    (log' : Log) × (watcher eventful 1 3 logfile [] ≡ (ok tt, log')) × IsFree eventful log'
unfolding batch_bytes is_close_write
watcher-closes_example =
    watcher-closes eventful modified (closed_file ∷ []) 3 0 (ground arith) (omega arith)
      (omega arith) (λ l. refl) (λ l. refl) (λ l. refl) logfile (record { is_dir = true })
      (λ l. refl) (λ l c. refl) [] (refl, refl, refl)

-- A watcher holds the lock.
abbrev guarded : Env
guarded = record calm { watcher_free = λ log. Bool.false }

follow-waits_example :
    ((follow guarded 3 2 logfile 5 none []).0 ≡ hang)
    × (sent (follow guarded 3 2 logfile 5 none []).1 ≡ [])
follow-waits_example =
    follow-waits guarded logfile 5 (λ l. refl) (λ l. refl) (λ l. refl) 3 2 none []

-- The stream that waits for ever.
Reach-IsStuck_iff_example : (Reach lost × IsStuck lost) ↔ ((lost ≡ lost) ⊎ (lost ≡ over))
Reach-IsStuck_iff_example = Reach-IsStuck_iff lost
