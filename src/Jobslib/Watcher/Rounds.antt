-- ===== src/Jobslib/Watcher/Rounds.antt =====
-- One round of the loop over inotify events (jobslib/watcher.go), by its three outcomes.
use jobmaster.Base.{
  dec_lt, Bool-cases, length-drop, ℕ, zero, suc, ◌+◌, ◌-◌, ◌%◌, ◌^◌, ◌≤◌, ◌<◌, ◌≡◌, refl, Bool, inl,
  inr, List, [], ◌∷◌, arith, length, drop,
}
use jobmaster.Result.{ok}
use jobmaster.Os.{Log, broadcast}
use jobmaster.Jobslib.Inotify.{read_u32, InotifyEvent, event_size, read_event, is_close_write}
use jobmaster.Jobslib.Watcher.{broadcasts, process_events}

abbrev pub wakes : ℕ → Log → Log
wakes zero log = log
wakes (suc n) log = wakes n (broadcast ∷ log)

pub broadcasts_lem : (n : ℕ) (log : Log) → broadcasts n log ≡ (ok tt, wakes n log)
unfolding broadcasts
broadcasts_lem zero log = refl
broadcasts_lem (suc n) log = broadcasts_lem n (broadcast ∷ log)

module _ (fuel : ℕ) (bytes : List ℕ) (offset seen : ℕ) (log : Log) where
  pub process_events-past :
      length bytes - event_size < offset
      → process_events (suc fuel) bytes offset seen log ≡ (ok Bool.false, log)
  unfolding process_events
  process_events-past h = ground arith

  pub process_events-close :
      (ev : InotifyEvent)
      → offset ≤ length bytes - event_size
      → read_event (drop offset bytes) ≡ ok ev
      → is_close_write ev.mask ≡ Bool.true
      → process_events (suc fuel) bytes offset seen log
        ≡ (ok Bool.true, wakes (seen + 11) (broadcast ∷ log))
  unfolding process_events
  process_events-close ev h e c = ground (arith, broadcasts_lem (seen + 11) (broadcast ∷ log))

  pub process_events-more :
      (ev : InotifyEvent)
      → offset ≤ length bytes - event_size
      → read_event (drop offset bytes) ≡ ok ev
      → is_close_write ev.mask ≡ Bool.false
      → process_events (suc fuel) bytes offset seen log
        ≡ process_events fuel bytes
            ((offset + (event_size + ev.len) % 2 ^ 32) % 2 ^ 32)
            (seen + 1)
            (broadcast ∷ log)
  unfolding process_events
  process_events-more ev h e c = ground arith

read_u32-ok :
    (bytes : List ℕ)
    → 4 ≤ length bytes
    → (n : ℕ) × (rest : List ℕ) × (read_u32 bytes ≡ ok (n, rest)) × (length rest + 4 ≡ length bytes)
unfolding read_u32
read_u32-ok [] h = absurd (omega arith)
read_u32-ok (a ∷ []) h = absurd (omega arith)
read_u32-ok (a ∷ b ∷ []) h = absurd (omega arith)
read_u32-ok (a ∷ b ∷ c ∷ []) h = absurd (omega arith)
read_u32-ok (a ∷ b ∷ c ∷ d ∷ rest) h = (_, rest, refl, omega arith)

pub read_event-ok :
    (bytes : List ℕ) → event_size ≤ length bytes → (ev : InotifyEvent) × (read_event bytes ≡ ok ev)
unfolding read_event
read_event-ok bytes h =
    let (wd, r1, e1, n1) = read_u32-ok bytes (omega arith) in
    let (mask, r2, e2, n2) = read_u32-ok r1 (omega arith) in
    let (cookie, r3, e3, n3) = read_u32-ok r2 (omega arith) in
    let (len, r4, e4, n4) = read_u32-ok r3 (omega arith) in
    (
      record { wd = wd; mask = mask; cookie = cookie; len = len },
      rw e1 (rw e2 (rw e3 (rw e4 refl))),
    )

-- The three outcomes of a round, where the bytes hold an event's size at least.
pub data Round (fuel : ℕ) (bytes : List ℕ) (offset seen : ℕ) (log : Log) : Type 0 where
  past :
      length bytes - event_size < offset
      → process_events (suc fuel) bytes offset seen log ≡ (ok Bool.false, log)
      → Round fuel bytes offset seen log
  closes :
      process_events (suc fuel) bytes offset seen log
        ≡ (ok Bool.true, wakes (seen + 11) (broadcast ∷ log))
      → Round fuel bytes offset seen log
  goes_on :
      (ev : InotifyEvent)
      → offset ≤ length bytes - event_size
      → read_event (drop offset bytes) ≡ ok ev
      → process_events (suc fuel) bytes offset seen log
        ≡ process_events fuel bytes
            ((offset + (event_size + ev.len) % 2 ^ 32) % 2 ^ 32)
            (seen + 1)
            (broadcast ∷ log)
      → Round fuel bytes offset seen log

pub Round-cases :
    (fuel : ℕ) (bytes : List ℕ) (offset seen : ℕ) (log : Log)
    → event_size ≤ length bytes
    → Round fuel bytes offset seen log
Round-cases fuel bytes offset seen log h = elim (dec_lt (length bytes - event_size) offset) [
  | yes beyond ↦ past beyond (process_events-past fuel bytes offset seen log beyond)
  | no within ↦
      let (ev, e) = read_event-ok (drop offset bytes) (omega (arith, length-drop offset bytes)) in
      elim (Bool-cases (is_close_write ev.mask)) [
        | inl c ↦ closes (process_events-close fuel bytes offset seen log ev (omega arith) e c)
        | inr c ↦
            goes_on ev (omega arith) e
              (process_events-more fuel bytes offset seen log ev (omega arith) e c)
      ]
]
