-- ===== src/Os.antt =====
-- The world that the program runs in: the kernel, the file system, the clock, the request's context.
-- It is code outside the repository, so `Env` is a parameter: each reply may depend on all the calls
-- made before it. The monad `Io` threads the log of the calls, the newest first.
mod Calls
mod Monad
pub use Calls.*
pub use Monad.*
use jobmaster.Base.{◌≡◌, refl, ℕ, Bool, List, ◌∷◌, Option, none, some, ◌⊎◌, inl, inr, Text, ℤ}
use jobmaster.Result.{OsErr, CtxErr, Error, Result, ok, err, panic, hang, os, ctx}
use jobmaster.FilePath.{FilePath}

module _ (env : Env) where
  -- ctx.Err().
  abbrev pub ctx_error : Io (Option CtxErr)
  ctx_error log = (ok (env.ctx_err log), check_ctx ∷ log)

  abbrev pub ask : Call → Io (Option OsErr)
  ask c log = (ok (env.os_err log c), c ∷ log)

  abbrev pub call : Call → Io (Unit {0})
  call c log = (elim (env.os_err log c) [ none ↦ ok tt | some e ↦ err (os e) ], c ∷ log)

  abbrev pub stat_path : FilePath → Io (OsErr ⊎ FileInfo)
  stat_path p log = (ok (env.stat_of log p), stat p ∷ log)

  abbrev pub list_dir : FilePath → Io (OsErr ⊎ List DirEntry)
  list_dir p log = (ok (env.entries log p), read_dir p ∷ log)

  abbrev pub clock : Io ℕ
  clock log = (ok (env.unix_milli log), now ∷ log)

  -- `if ctx.Err() != nil { return ctx.Err() }`: a context that is done stays done.
  abbrev pub check_live : Io (Unit {0})
  check_live log = (elim (env.ctx_err log) [ none ↦ ok tt | some e ↦ err (ctx e) ], check_ctx ∷ log)

  abbrev pub new_id : Io Text
  new_id log = (elim (env.ksuid log) [ inl e ↦ err e | inr s ↦ ok s ], new_ksuid ∷ log)

  -- The start of a process; the error is looked at by the caller.
  abbrev pub start : FilePath → FilePath → Text → List Text → Io (Error ⊎ ℕ)
  start cgroup output command args log =
      (ok (env.spawn log), start_process cgroup output command args ∷ log)

  -- The reply comes after the call, and may depend on its arguments.
  abbrev pub read_file : FilePath → ℕ → ℕ → Io ReadReply
  read_file p len pos log = (ok (env.read_reply (read_at p len pos ∷ log)), read_at p len pos ∷ log)

  abbrev pub send_output : List ℕ → Io (Option Error)
  send_output bytes log = (ok (env.send_err (send bytes ∷ log)), send bytes ∷ log)

  -- TryLock on the watcher's lock, and at once Unlock if it was free.
  abbrev pub try_watcher : Io Bool
  try_watcher log = (ok (env.watcher_free log), try_lock_watcher ∷ log)

  abbrev pub wait_broadcast : Io (Unit {0})
  wait_broadcast log = (ok tt, wait_event ∷ log)

  abbrev pub read_inotify : Io (OsErr ⊎ List ℕ)
  read_inotify log = (ok (env.event_read log), read_events ∷ log)

  abbrev pub load_pair : FilePath → FilePath → Io (Unit {0})
  load_pair cert key log =
      (elim (env.key_pair_err log) [ none ↦ ok tt | some e ↦ err e ], load_key_pair cert key ∷ log)

  abbrev pub read_text_file : FilePath → Io Text
  read_text_file p log =
      (elim (env.text_of log) [ inl e ↦ err e | inr t ↦ ok t ], read_text p ∷ log)

  abbrev pub serve_until : Text → Io ServeEvent
  serve_until port log = (ok (env.serving log), serve port ∷ log)

  abbrev pub dial_to : Text → Io (Unit {0})
  dial_to address log =
      (elim (env.dial_err log) [ none ↦ ok tt | some e ↦ err e ], dial address ∷ log)
