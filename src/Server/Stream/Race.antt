-- ===== src/Server/Stream/Race.antt =====
-- The watcher of a running job and a stream that reads its output, one beside the other: jobslib/watcher.go
-- (`Watcher`, from its lock on) and api/server/server_impl.go (the second loop of `StreamOutput`). A step is
-- what one of them does between two points at which the other may go on.
pub mod Laws
use jobmaster.Base.{Bool, true, false, not, Option, none, some, if◌then◌else◌}

pub data WatcherAt : Type 0 where
  -- the head of the loop, before `CvEvent.L.Lock`
  looking : WatcherAt
  -- in the read, under that lock
  reading : WatcherAt
  -- behind it: the events are looked through
  handling : WatcherAt
  -- in the deferred function, `WatcherLock` released
  released : WatcherAt
  -- behind its last broadcast
  gone : WatcherAt

pub data ReaderAt : Type 0 where
  -- before `CvEvent.L.Lock`
  entering : ReaderAt
  -- before `TryLock`
  testing : ReaderAt
  -- behind a `TryLock` that failed
  dozing : ReaderAt
  -- in `Wait`, and woken in it, the lock not yet taken again
  asleep woken : ReaderAt
  -- before `ReadAt`
  polling : ReaderAt
  -- behind `CvEvent.L.Unlock`
  outside : ReaderAt
  -- the handler has returned
  ended : ReaderAt

pub data Party : Type 0 where
  watcher_party reader_party : Party

-- The owner is that of `CvEvent.L`.
pub record State : Type 0 where
  pub watcher_at : WatcherAt
  pub reader_at : ReaderAt
  pub owner : Option Party

-- `WatcherLock` is held from before the loop to the deferred function.
unfoldable pub lock_free : WatcherAt → Bool
lock_free released = true
lock_free gone = true
lock_free w = false

-- `CvEvent.Broadcast`: only who waits is woken.
unfoldable pub woken_up : ReaderAt → ReaderAt
woken_up asleep = woken
woken_up r = r

pub data WatcherMove : Type 0 where
  lock_read unlock_read broadcast_event look_again stop_watch leave_watch : WatcherMove

pub data ReaderMove : Type 0 where
  lock_poll try_watcher_lock wait_signal wake_up read_nothing read_bytes poll_again end_stream :
      ReaderMove

pub data Move : Type 0 where
  of_watcher : WatcherMove → Move
  of_reader : ReaderMove → Move

-- The lock is taken by someone who waits for it.
taken : Option Party → State → Option State
taken none s = some s
taken (some p) s = none

unfoldable pub watcher_step : WatcherMove → State → WatcherAt → Option State
unfolding taken
watcher_step lock_read s looking =
    taken s.owner (record s { watcher_at = reading; owner = some watcher_party })
watcher_step unlock_read s reading = some (record s { watcher_at = handling; owner = none })
watcher_step broadcast_event s handling = some (record s { reader_at = woken_up s.reader_at })
watcher_step look_again s handling = some (record s { watcher_at = looking })
-- the context is done, or the watch is over
watcher_step stop_watch s looking = some (record s { watcher_at = released })
watcher_step stop_watch s handling = some (record s { watcher_at = released })
watcher_step leave_watch s released =
    some (record s { watcher_at = gone; reader_at = woken_up s.reader_at })
watcher_step m s w = none

unfoldable pub reader_step : ReaderMove → State → ReaderAt → Option State
unfolding taken
reader_step lock_poll s entering =
    taken s.owner (record s { reader_at = testing; owner = some reader_party })
reader_step try_watcher_lock s testing = some (
    if lock_free s.watcher_at
    then record s { reader_at = outside; owner = none }
    else record s { reader_at = dozing })
reader_step wait_signal s dozing = some (record s { reader_at = asleep; owner = none })
reader_step wake_up s woken =
    taken s.owner (record s { reader_at = polling; owner = some reader_party })
reader_step read_nothing s polling = some (record s { reader_at = testing })
reader_step read_bytes s polling = some (record s { reader_at = outside; owner = none })
reader_step poll_again s outside = some (record s { reader_at = entering })
reader_step end_stream s outside = some (record s { reader_at = ended })
-- the context may be done before the lock is asked for
reader_step end_stream s entering = some (record s { reader_at = ended })
reader_step m s r = none

unfoldable pub step : Move → State → Option State
step (of_watcher m) s = watcher_step m s s.watcher_at
step (of_reader m) s = reader_step m s s.reader_at
