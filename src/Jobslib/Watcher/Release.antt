-- ===== src/Jobslib/Watcher/Release.antt =====
-- What the watcher holds while it runs, and that it lets go of it (jobslib/watcher.go).
use jobmaster.Base.{none, some, ℕ, ◌≡◌, refl, Bool, true, false, inl, inr, [], ◌∷◌, Option-cases}
use jobmaster.Result.{Result, ok, err, panic, hang, os}
use jobmaster.FilePath.{FilePath}
use jobmaster.Os.{
  Env, Log, closed, closing, call, Io, bound, ◌>>◌, broadcast, lock_event, unlock_event,
  lock_watcher, unlock_watcher, inotify_init, close_inotify, add_watch, remove_watch,
}
use jobmaster.Jobslib.WaitForFile.{num_sleep_cycles, wait_loop, wait_for_file}
use jobmaster.Jobslib.Watcher.{watch_loop, watch, watcher}
use jobmaster.Jobslib.Watcher.Keep.{IsKept, wait_loop_keep, watch_loop_keep}

-- The watcher's lock is held.
abbrev pub watcher_held : Log → Bool
watcher_held [] = false
watcher_held (lock_watcher ∷ log) = true
watcher_held (unlock_watcher ∷ log) = false
watcher_held (c ∷ log) = watcher_held log

-- The lock of the condition variable is held.
abbrev pub event_held : Log → Bool
event_held [] = false
event_held (lock_event ∷ log) = true
event_held (unlock_event ∷ log) = false
event_held (c ∷ log) = event_held log

-- The inotify descriptor is open: one was made, and not closed since.
abbrev pub inotify_open : Env → Log → Bool
inotify_open env [] = false
inotify_open env (inotify_init ∷ log) = elim (env.os_err log inotify_init) [
  | none ↦ true
  | some _ ↦ inotify_open env log
]
inotify_open env (close_inotify ∷ log) = false
inotify_open env (c ∷ log) = inotify_open env log

-- Nothing is held.
abbrev pub IsFree : Env → Log → Type 0
IsFree env log =
    (watcher_held log ≡ false) × (event_held log ≡ false) × (inotify_open env log ≡ false)

abbrev pub Ends {ℓ} : {A : Type ℓ} → Result A → Type 0
Ends (ok a) = Unit
Ends (err e) = Unit
Ends (panic s) = Unit
Ends hang = ⊥

IsFree-IsKept : (env : Env) → IsKept (IsFree env)
IsFree-IsKept env = record {
  looked = λ log h. h;
  woken = λ log h. h;
  read = λ log h. (h.0, refl, h.2);
  found = λ p log h. h;
  slept = λ log h. h;
}

event_free-IsKept : IsKept (λ log. event_held log ≡ false)
event_free-IsKept = record {
  looked = λ log h. h;
  woken = λ log h. h;
  read = λ log h. refl;
  found = λ p log h. h;
  slept = λ log h. h;
}

-- The deferred calls let go of the watcher's lock and of the descriptor.
deferred-IsFree :
    (env : Env) (r : Result (Unit {0}) × Log)
    → event_held r.1 ≡ false
    → Ends
        (closed close_inotify (closed remove_watch (closed broadcast (closed unlock_watcher r)))).0
    → IsFree env
        (closed close_inotify (closed remove_watch (closed broadcast (closed unlock_watcher r)))).1
deferred-IsFree env (ok a, log) h e = (refl, h, refl)
deferred-IsFree env (err x, log) h e = (refl, h, refl)
deferred-IsFree env (panic s, log) h e = (refl, h, refl)
deferred-IsFree env (hang, log) h e = absurd e

module _ (env : Env) (rounds fuel : ℕ) (p : FilePath) where
  -- From the descriptor on.
  abbrev watched : Io (Unit {0})
  watched =
      call env inotify_init
      >> closing close_inotify (call env (add_watch p) >> watch env rounds fuel)

  watched-IsFree : (log : Log) → IsFree env log → Ends (watched log).0 → IsFree env (watched log).1
  unfolding watch
  watched-IsFree log (w, v, o) ends = elim (Option-cases (env.os_err log inotify_init)) [
    | inr (x, failed) ↦
        let run : watched log ≡ (err (os x), inotify_init ∷ log) = rw failed refl in
        rw run (w, v, rw (failed, inotify_open) o)
    | inl made ↦ elim (Option-cases (env.os_err (inotify_init ∷ log) (add_watch p))) [
      | inr (x, failed) ↦
          let run : watched log ≡ (err (os x), close_inotify ∷ add_watch p ∷ inotify_init ∷ log) =
            rw made (rw failed refl) in
          rw run (w, v, refl)
      | inl added ↦
          let inside : Result (Unit {0}) × Log =
            watch_loop env rounds fuel (lock_watcher ∷ add_watch p ∷ inotify_init ∷ log) in
          let run : watched log
              ≡ closed close_inotify
                  (closed remove_watch (closed broadcast (closed unlock_watcher inside))) =
            rw made (rw added refl) in
          let free : event_held inside.1 ≡ false =
            watch_loop_keep (λ l. event_held l ≡ false) event_free-IsKept env rounds fuel _ v in
          rw run (deferred-IsFree env inside free (rw run at ends))
    ]
  ]

  -- If nothing is held when the watcher starts, then nothing is held when it ends: on every way out, a
  -- panic included, its own lock and the one of the condition variable are free and the inotify
  -- descriptor, if one was made, is closed.
  pub watcher-IsFree :
      (log : Log)
      → IsFree env log
      → Ends (watcher env rounds fuel p log).0
      → IsFree env (watcher env rounds fuel p log).1
  unfolding watcher wait_for_file
  watcher-IsFree log free ends =
      after (wait_loop env num_sleep_cycles 0 p log)
        (wait_loop_keep (IsFree env) (IsFree-IsKept env) env num_sleep_cycles 0 p log free) ends
    where
      after :
          (r : Result (Unit {0}) × Log)
          → IsFree env r.1
          → Ends (bound r (λ _. watched)).0
          → IsFree env (bound r (λ _. watched)).1
      after (ok a, l) h e = watched-IsFree l h e
      after (err x, l) h e = h
      after (panic s, l) h e = h
      after (hang, l) h e = h
