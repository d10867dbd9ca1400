-- ===== src/Jobslib/Watcher/Bounds.antt =====
-- The reads of the loop over inotify events (jobslib/watcher.go): where they go, and that they end.
use jobmaster.Base.{ℕ, zero, suc, ◌+◌, ◌%◌, ◌^◌, ◌≤◌, ◌<◌, ◌≡◌, List, ◌∷◌, arith, length, drop}
use jobmaster.Result.{Result, ok, err, panic, hang, IsReturn}
use jobmaster.Os.{Log, broadcast}
use jobmaster.Jobslib.Inotify.{InotifyEvent, event_size, read_event}
use jobmaster.Jobslib.Watcher.{process_events}
use jobmaster.Jobslib.Watcher.Rounds.{past, closes, goes_on, Round-cases}

abbrev pub IsSafe {ℓ} : {A : Type ℓ} → Result A → Type 0
IsSafe (ok a) = Unit
IsSafe (err e) = Unit
IsSafe (panic s) = ⊥
IsSafe hang = Unit

-- Where a read of at least one event's size is looked through, every struct that is read stands
-- within the bytes, whatever they are and wherever the names in them claim to end.
pub process_events-IsSafe :
    (fuel : ℕ) (bytes : List ℕ) (offset seen : ℕ) (log : Log)
    → event_size ≤ length bytes
    → IsSafe (process_events fuel bytes offset seen log).0
process_events-IsSafe zero bytes offset seen log h = unfold process_events in tt
process_events-IsSafe (suc fuel) bytes offset seen log h =
    elim (Round-cases fuel bytes offset seen log h) [
      | past beyond e ↦ rw e tt
      | closes e ↦ rw e tt
      | goes_on ev within read e ↦ rw e (
          process_events-IsSafe fuel bytes ((offset + (event_size + ev.len) % 2 ^ 32) % 2 ^ 32)
            (seen + 1) (broadcast ∷ log) h)
    ]

-- The names in the bytes are no longer than a uint32 can count together with the buffer.
abbrev pub ShortNames : List ℕ → Type 0
ShortNames bytes =
    (offset : ℕ) (ev : InotifyEvent) → read_event (drop offset bytes) ≡ ok ev → ev.len < 2 ^ 31

-- If no name in the bytes claims 2^31 bytes or more, and there are fewer bytes than that, then the loop
-- over the events of a read ends, with more rounds of fuel than there are bytes left.
pub process_events-IsReturn :
    (fuel : ℕ) (bytes : List ℕ) (offset seen : ℕ) (log : Log)
    → ShortNames bytes
    → event_size ≤ length bytes
    → length bytes < 2 ^ 30
    → 0 < fuel
    → length bytes < fuel + offset
    → IsReturn (process_events fuel bytes offset seen log).0
process_events-IsReturn zero bytes offset seen log short h few some_fuel enough =
    absurd (omega arith)
process_events-IsReturn (suc fuel) bytes offset seen log short h few some_fuel enough =
    elim (Round-cases fuel bytes offset seen log h) [
      | past beyond e ↦ rw e tt
      | closes e ↦ rw e tt
      | goes_on ev within read e ↦ rw e (
          process_events-IsReturn fuel bytes ((offset + (event_size + ev.len) % 2 ^ 32) % 2 ^ 32)
            (seen + 1) (broadcast ∷ log) short h few (omega arith)
            (omega (arith, short offset ev read)))
    ]
