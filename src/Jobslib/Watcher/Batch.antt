-- ===== src/Jobslib/Watcher/Batch.antt =====
-- A batch of events as inotify(7) lays it out, and what the watcher does with it (jobslib/watcher.go).
use jobmaster.Base.{
  ℕ, zero, suc, ◌+◌, ◌/◌, ◌%◌, ◌^◌, ◌≤◌, ◌<◌, ◌≡◌, refl, sym, ap, ◌∙◌, Bool, Bool-cases, inl, inr,
  List, [], ◌∷◌, ◌++◌, append_assoc, append-nil, arith, is_nil-eq-false, le→ltb, length,
  length-append, drop, drop-append, All, if◌then◌else◌,
}
use jobmaster.Result.{ok}
use jobmaster.Os.{Log, broadcast}
use jobmaster.Jobslib.Inotify.{InotifyEvent, event_size, read_u32, read_event, is_close_write}
use jobmaster.Jobslib.Watcher.{process_events, handle_bytes}
use jobmaster.Jobslib.Watcher.Rounds.{
  wakes, process_events-past, process_events-close, process_events-more,
}

-- An event with its name; `len` counts the bytes of the name, the padding included.
pub record Event : Type 0 where
  pub wd : ℕ
  pub mask : ℕ
  pub cookie : ℕ
  pub name : List ℕ

abbrev pub header_of : Event → InotifyEvent
header_of e = record { wd = e.wd; mask = e.mask; cookie = e.cookie; len = length e.name }

abbrev pub u32_bytes : ℕ → List ℕ
u32_bytes n = n % 256 ∷ n / 256 % 256 ∷ n / 65536 % 256 ∷ n / 16777216 % 256 ∷ []

abbrev pub event_bytes : Event → List ℕ
event_bytes e =
    u32_bytes e.wd
    ++ (u32_bytes e.mask ++ (u32_bytes e.cookie ++ (u32_bytes (length e.name) ++ e.name)))

-- Not an abbreviation: the proofs count its bytes by a lemma.
unfoldable pub batch_bytes : List Event → List ℕ
batch_bytes [] = []
batch_bytes (e ∷ es) = event_bytes e ++ batch_bytes es

pub record Fits (e : Event) : Type 0 where
  pub wd_fits : e.wd < 2 ^ 32
  pub mask_fits : e.mask < 2 ^ 32
  pub cookie_fits : e.cookie < 2 ^ 32

read_u32-bytes :
    (n : ℕ) (rest : List ℕ) → n < 2 ^ 32 → read_u32 (u32_bytes n ++ rest) ≡ ok (n, rest)
unfolding read_u32
read_u32-bytes n rest h = ground arith

read_event-bytes :
    (e : Event) (rest : List ℕ)
    → Fits e
    → length e.name < 2 ^ 32
    → read_event (event_bytes e ++ rest) ≡ ok (header_of e)
unfolding read_event
read_event-bytes e rest fits short =
    let wd =
      read_u32-bytes e.wd
        (u32_bytes e.mask
          ++ (u32_bytes e.cookie ++ (u32_bytes (length e.name) ++ (e.name ++ rest))))
        fits.wd_fits in
    let mask =
      read_u32-bytes e.mask (u32_bytes e.cookie ++ (u32_bytes (length e.name) ++ (e.name ++ rest)))
        fits.mask_fits in
    let cookie =
      read_u32-bytes e.cookie (u32_bytes (length e.name) ++ (e.name ++ rest)) fits.cookie_fits in
    let len = read_u32-bytes (length e.name) (e.name ++ rest) short in
    rw wd (rw mask (rw cookie (rw len refl)))

-- What the watcher is to do with events: a broadcast for each, up to the first that closes the file,
-- which ends the watch with eleven more and one for each event before it.
abbrev pub outcome : List Event → ℕ → Log → Bool × Log
outcome [] seen log = (Bool.false, log)
outcome (e ∷ es) seen log =
    if is_close_write e.mask
    then (Bool.true, wakes (seen + 11) (broadcast ∷ log))
    else outcome es (seen + 1) (broadcast ∷ log)

length-event_bytes : (e : Event) → length (event_bytes e) ≡ length e.name + event_size
length-event_bytes e = omega arith

length-batch_bytes :
    (e : Event) (es : List Event)
    → length (batch_bytes (e ∷ es)) ≡ length e.name + event_size + length (batch_bytes es)
unfolding batch_bytes
length-batch_bytes e es = omega (arith, length-append {0} (event_bytes e) (batch_bytes es))

-- The state of the loop before an event, behind the bytes of those before it.
module _ (e : Event) (es : List Event) (pre : List ℕ) (fuel seen : ℕ) (log : Log)
    (few : length (pre ++ batch_bytes (e ∷ es)) < 2 ^ 31) where
  counted :
      length (pre ++ batch_bytes (e ∷ es))
      ≡ length pre + (length e.name + event_size + length (batch_bytes es))
  counted = omega (arith, length-append {0} pre (batch_bytes (e ∷ es)), length-batch_bytes e es)

  regrouped : (pre ++ event_bytes e) ++ batch_bytes es ≡ pre ++ batch_bytes (e ∷ es)
  unfolding batch_bytes
  regrouped = append_assoc pre (event_bytes e) (batch_bytes es)

  at_event :
      Fits e → read_event (drop (length pre) (pre ++ batch_bytes (e ∷ es))) ≡ ok (header_of e)
  unfolding batch_bytes
  at_event fits =
      ap read_event (drop-append pre (batch_bytes (e ∷ es)))
      ∙ read_event-bytes e (batch_bytes es) fits (omega (arith, counted))

  process_batch-close :
      Fits e
      → is_close_write e.mask ≡ Bool.true
      → process_events (suc fuel) (pre ++ batch_bytes (e ∷ es)) (length pre) seen log
        ≡ (ok Bool.true, wakes (seen + 11) (broadcast ∷ log))
  process_batch-close fits c =
      process_events-close fuel (pre ++ batch_bytes (e ∷ es)) (length pre) seen log (header_of e)
        (omega (arith, counted)) (at_event fits) c

  process_batch-more :
      Fits e
      → is_close_write e.mask ≡ Bool.false
      → process_events (suc fuel) (pre ++ batch_bytes (e ∷ es)) (length pre) seen log
        ≡ process_events fuel
            ((pre ++ event_bytes e) ++ batch_bytes es)
            (length (pre ++ event_bytes e))
            (seen + 1)
            (broadcast ∷ log)
  unfolding batch_bytes
  process_batch-more fits c =
      let moved : (length pre + (event_size + length e.name) % 2 ^ 32) % 2 ^ 32
          ≡ length (pre ++ event_bytes e) =
        omega (arith, counted, length-append {0} pre (event_bytes e)) in
      process_events-more fuel (pre ++ batch_bytes (e ∷ es)) (length pre) seen log (header_of e)
        (omega (arith, counted)) (at_event fits) c
      ∙ ap (λ n. process_events fuel (pre ++ batch_bytes (e ∷ es)) n (seen + 1) (broadcast ∷ log))
          moved
      ∙ ap (λ b. process_events fuel b (length (pre ++ event_bytes e)) (seen + 1) (broadcast ∷ log))
          (sym regrouped)

process_batch :
    (es : List Event) (pre : List ℕ) (fuel seen : ℕ) (log : Log)
    → All Fits es
    → length (pre ++ batch_bytes es) < 2 ^ 31
    → event_size ≤ length (pre ++ batch_bytes es)
    → length es < fuel
    → process_events fuel (pre ++ batch_bytes es) (length pre) seen log
      ≡ (ok (outcome es seen log).0, (outcome es seen log).1)
process_batch es pre zero seen log fits few some_event enough = absurd (omega arith)
process_batch [] pre (suc fuel) seen log fits few some_event enough =
    process_events-past fuel (pre ++ batch_bytes []) (length pre) seen log
      (unfold batch_bytes in omega (arith, ap (λ (l : List ℕ). length l) (append-nil pre)))
process_batch (e ∷ es) pre (suc fuel) seen log fits few some_event enough =
    elim (Bool-cases (is_close_write e.mask)) [
      | inl c ↦ rw c (process_batch-close e es pre fuel seen log few fits.0 c)
      | inr c ↦
          let same : length ((pre ++ event_bytes e) ++ batch_bytes es)
              ≡ length (pre ++ batch_bytes (e ∷ es)) =
            ap (λ (l : List ℕ). length l) (regrouped e es pre fuel seen log few) in
          rw c (
            process_batch-more e es pre fuel seen log few fits.0 c
            ∙ process_batch es (pre ++ event_bytes e) fuel (seen + 1) (broadcast ∷ log) fits.1
                (omega arith) (omega arith) (omega arith))
    ]

-- Where a read yields a batch of one or more events as inotify lays them out, of less than 2^31 bytes and
-- with fewer events than the fuel, the loop over the bytes does with them what `outcome` says of the
-- events: one broadcast each, up to the first that closes the file, which ends the watch.
pub handle_bytes-batch :
    (e : Event) (es : List Event) (fuel : ℕ) (log : Log)
    → All Fits (e ∷ es)
    → length (batch_bytes (e ∷ es)) < 2 ^ 31
    → suc (length es) < fuel
    → handle_bytes fuel (batch_bytes (e ∷ es)) log
      ≡ (ok (outcome (e ∷ es) 0 log).0, (outcome (e ∷ es) 0 log).1)
unfolding handle_bytes
handle_bytes-batch e es fuel log fits few enough =
    rw
      (is_nil-eq-false (batch_bytes (e ∷ es)) (λ none.
        absurd (omega (arith, length-batch_bytes e es, ap (λ (l : List ℕ). length l) none))))
      (rw
        (le→ltb (length (batch_bytes (e ∷ es))) event_size (omega (arith, length-batch_bytes e es)))
        (process_batch (e ∷ es) [] fuel 0 log fits few (omega (arith, length-batch_bytes e es))
          enough))
