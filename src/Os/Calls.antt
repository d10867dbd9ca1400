-- ===== src/Os/Calls.antt =====
-- The calls that leave the program, and the world that answers them.
use jobmaster.Base.{ℕ, Bool, List, Option, ◌⊎◌, Text, ℤ}
use jobmaster.Result.{OsErr, CtxErr, Error}
use jobmaster.FilePath.{FilePath}

-- The calls that leave the program.
pub data Call : Type 0 where
  -- ctx.Err(), or a select on ctx.Done()
  check_ctx : Call
  mkdir mkdir_all remove rmdir stat read_dir open_dir create_file open_file close_file :
      FilePath → Call
  write_file : FilePath → Text → Call
  -- the cgroup directory, the output file, the command and its arguments
  start_process : FilePath → FilePath → Text → List Text → Call
  find_process signal_zero : ℤ → Call
  new_ksuid now sleep : Call
  -- io.ReaderAt on the open file, with the length of the buffer and the offset
  read_at : FilePath → ℕ → ℕ → Call
  send : List ℕ → Call
  try_lock_watcher lock_watcher unlock_watcher : Call
  -- the condition variable, and the lock that belongs to it
  wait_event broadcast lock_event unlock_event : Call
  inotify_init close_inotify remove_watch read_events : Call
  add_watch : FilePath → Call
  -- tls.LoadX509KeyPair of the certificate and the key
  load_key_pair : FilePath → FilePath → Call
  read_text : FilePath → Call
  -- net.Listen and Serve, in a goroutine, until it ends or the context is done
  serve : Text → Call
  graceful_stop : Call
  dial : Text → Call
  open_stream recv close_conn : Call
  print : Text → Call

-- What ends the wait of the server: its context, or the goroutine with the error of `Serve`.
pub data ServeEvent : Type 0 where
  context_done : ServeEvent
  serve_ended : Option Error → ServeEvent

abbrev pub Log : Type 0
Log = List Call

-- What os.Stat reports of a path, as far as it is read.
pub record FileInfo : Type 0 where
  pub is_dir : Bool

pub record DirEntry : Type 0 where
  pub name : Text
  pub is_dir : Bool

-- The bytes that a ReadAt put into the buffer, and its error.
pub record ReadReply : Type 0 where
  pub bytes : List ℕ
  pub error : Option Error

pub record Env : Type 0 where
  pub ctx_err : Log → Option CtxErr
  -- the calls that report an error or nothing
  pub os_err : Log → Call → Option OsErr
  pub stat_of : Log → FilePath → OsErr ⊎ FileInfo
  pub entries : Log → FilePath → OsErr ⊎ List DirEntry
  pub ksuid : Log → Error ⊎ Text
  -- the process ID
  pub spawn : Log → Error ⊎ ℕ
  pub unix_milli : Log → ℕ
  -- the text of an error, for "%v"
  pub show_error : Error → Text
  pub read_reply : Log → ReadReply
  pub send_err : Log → Option Error
  -- the watcher's lock is free
  pub watcher_free : Log → Bool
  -- the bytes that a read of the inotify descriptor yields
  pub event_read : Log → OsErr ⊎ List ℕ
  pub key_pair_err : Log → Option Error
  pub text_of : Log → Error ⊎ Text
  -- AppendCertsFromPEM finds a certificate in the text
  pub has_certificates : Text → Bool
  pub serving : Log → ServeEvent
  pub dial_err : Log → Option Error
