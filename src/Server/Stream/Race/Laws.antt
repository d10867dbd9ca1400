-- ===== src/Server/Stream/Race/Laws.antt =====
-- Where the watcher and a stream come to a stop for ever (jobslib/watcher.go, api/server/server_impl.go).
use jobmaster.Base.{◌≡◌, refl, ◌↔◌, ◌⊎◌, inl, inr, Bool, true, false, arith, none, some, subst, sym}
use jobmaster.Server.Stream.Race.{
  WatcherAt, looking, reading, gone, ReaderAt, entering, testing, dozing, asleep, polling, ended,
  watcher_party, reader_party, State, lock_free, woken_up, WatcherMove, unlock_read, stop_watch,
  leave_watch, ReaderMove, lock_poll, try_watcher_lock, wait_signal, wake_up, read_nothing,
  end_stream, Move, of_watcher, of_reader, taken, watcher_step, reader_step, step,
}

-- The watcher has its lock, and the stream comes to its loop.
abbrev pub begin : State
begin = record { watcher_at = looking; reader_at = entering; owner = none }

pub data Reach : State → Type 0 where
  here : Reach begin
  next : {s s' : State} (m : Move) → Reach s → step m s ≡ some s' → Reach s'

-- Who holds `CvEvent.L`, by where they stand.
abbrev pub watcher_holds : WatcherAt → Bool
watcher_holds reading = true
watcher_holds w = false

abbrev pub reader_holds : ReaderAt → Bool
reader_holds testing = true
reader_holds dozing = true
reader_holds polling = true
reader_holds r = false

-- The lock has at most one holder, and its owner is who holds it.
pub record IsExclusive (s : State) : Type 0 where
  pub by_watcher : (s.owner ≡ some watcher_party) ↔ (watcher_holds s.watcher_at ≡ true)
  pub by_reader : (s.owner ≡ some reader_party) ↔ (reader_holds s.reader_at ≡ true)

watcher_step-IsExclusive :
    (m : WatcherMove) (s s' : State) (w : WatcherAt)
    → s.watcher_at ≡ w
    → IsExclusive s
    → watcher_step m s w ≡ some s'
    → IsExclusive s'
unfolding watcher_step woken_up taken
watcher_step-IsExclusive m s s' w at ex e = ground arith

reader_step-IsExclusive :
    (m : ReaderMove) (s s' : State) (r : ReaderAt)
    → s.reader_at ≡ r
    → IsExclusive s
    → reader_step m s r ≡ some s'
    → IsExclusive s'
unfolding reader_step lock_free taken
reader_step-IsExclusive m s s' r at ex e = ground arith

Reach-IsExclusive : (s : State) → Reach s → IsExclusive s
unfolding step
Reach-IsExclusive s here = ground arith
Reach-IsExclusive s (next {s = before} (of_watcher m) reach e) =
    watcher_step-IsExclusive m before s before.watcher_at refl (Reach-IsExclusive before reach) e
Reach-IsExclusive s (next {s = before} (of_reader m) reach e) =
    reader_step-IsExclusive m before s before.reader_at refl (Reach-IsExclusive before reach) e

-- No move is left.
abbrev pub IsStuck : State → Type 0
IsStuck s = (m : Move) → step m s ≡ none

-- The stream waits, and no one is left to wake it.
abbrev pub lost : State
lost = record { watcher_at = gone; reader_at = asleep; owner = none }

-- Both have ended.
abbrev pub over : State
over = record { watcher_at = gone; reader_at = ended; owner = none }

Stuck-gone : (s : State) → IsExclusive s → IsStuck s → s.watcher_at ≡ gone
unfolding step watcher_step reader_step taken
Stuck-gone s ex stuck = ground (
  arith,
  stuck (of_watcher stop_watch),
  stuck (of_watcher unlock_read),
  stuck (of_watcher leave_watch),
)

Stuck-reader :
    (s : State)
    → IsExclusive s
    → IsStuck s
    → s.watcher_at ≡ gone
    → (s.reader_at ≡ asleep) ⊎ (s.reader_at ≡ ended)
unfolding step reader_step taken
Stuck-reader s ex stuck at = ground (
  arith,
  stuck (of_reader end_stream),
  stuck (of_reader try_watcher_lock),
  stuck (of_reader wait_signal),
  stuck (of_reader wake_up),
  stuck (of_reader read_nothing),
)

Stuck-cases : (s : State) → Reach s → IsStuck s → (s ≡ lost) ⊎ (s ≡ over)
Stuck-cases s reach stuck =
    let ex = Reach-IsExclusive s reach in
    let at = Stuck-gone s ex stuck in let reader = Stuck-reader s ex stuck at in ground arith

lost-Reach : Reach lost
unfolding step watcher_step reader_step taken woken_up lock_free
lost-Reach =
    next (of_reader wait_signal)
      (next (of_watcher leave_watch)
        (next (of_watcher stop_watch)
          (next (of_reader try_watcher_lock) (next (of_reader lock_poll) here refl) refl) refl)
        refl)
      refl

over-Reach : Reach over
unfolding step watcher_step reader_step taken woken_up lock_free
over-Reach =
    next (of_reader end_stream)
      (next (of_watcher leave_watch) (next (of_watcher stop_watch) here refl) refl) refl

lost-IsStuck : IsStuck lost
unfolding step watcher_step reader_step
lost-IsStuck (of_watcher m) = ground arith
lost-IsStuck (of_reader m) = ground arith

over-IsStuck : IsStuck over
unfolding step watcher_step reader_step
over-IsStuck (of_watcher m) = ground arith
over-IsStuck (of_reader m) = ground arith

-- From the moment at which the watcher of a running job has its lock and a stream comes to its loop, the
-- states that can be reached and have no next step are two: both have ended, or the watcher is gone and the
-- stream waits for a broadcast that no one makes any more.
pub Reach-IsStuck_iff : (s : State) → (Reach s × IsStuck s) ↔ ((s ≡ lost) ⊎ (s ≡ over))
Reach-IsStuck_iff s = (
  λ (reach, stuck). Stuck-cases s reach stuck,
  λ cases. elim cases [
    | inl e ↦ (subst Reach (sym e) lost-Reach, subst IsStuck (sym e) lost-IsStuck)
    | inr e ↦ (subst Reach (sym e) over-Reach, subst IsStuck (sym e) over-IsStuck)
  ],
)
