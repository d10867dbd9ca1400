-- ===== src/Tests/Streaming.antt =====
-- The output stream at concrete files.
use jobmaster.Base.{
  ◌⊎◌, inl, ◌≤◌, ◌+◌, ◌≡◌, refl, sym, ℕ, zero, suc, Bool, List, [], ◌∷◌, none, some, arith, length,
  take, drop, take-drop, drop-append, leb, if◌then◌else◌, codes,
}
use jobmaster.Jobslib.WaitForFile.{wait_loop, wait_for_file}
use jobmaster.Jobslib.WaitForFile.Bounds.{gave_up, stats, wait_for_file-IsReturn}
use jobmaster.Result.{not_exist, IsReturn, ok, panic, hang, eof}
use jobmaster.FilePath.{FilePath, clean}
use jobmaster.Os.{Env, Log, ReadReply, read_at, send}
use jobmaster.Server.Stream.{chunk_len, check_canceled, send_chunk, is_eof, drain, follow}
use jobmaster.Server.Stream.Ended.{sent_call, first_read, drain_short, drain_long}
use jobmaster.Server.Stream.Running.{idle_rounds, follow-stale_outcome}
use jobmaster.Server.Stream.Prefix.{sent, IsPrefixOf, GrowsTo}
use jobmaster.Server.Stream.Prefix.Loops.{drain-IsPrefixOf, follow-IsPrefixOf}
use jobmaster.Tests.World.{calm}

abbrev pub logfile : FilePath
logfile = clean (codes "/tmp/k1.log")

-- A file that holds those bytes, for every path.
abbrev pub read_of : List ℕ → Log → ReadReply
read_of content (read_at p len pos ∷ log) = record {
  bytes = take len (drop pos content);
  error = if leb len (length (drop pos content)) then none else some eof;
}
read_of content log = record { bytes = []; error = none }

abbrev pub serving : List ℕ → Env
serving content = record calm { read_reply = read_of content }

abbrev pub hello : List ℕ
hello = codes "hello"

abbrev zeros : ℕ → List ℕ
zeros zero = []
zeros (suc n) = 0 ∷ zeros n

length-zeros : (n : ℕ) → length (zeros n) ≡ n
length-zeros zero = refl
length-zeros (suc n) = omega (arith, length-zeros n)

pub serving-GrowsTo : (content : List ℕ) → GrowsTo (serving content) logfile content
serving-GrowsTo content log pre rest e =
    (drop chunk_len rest, rw e (rw (drop-append pre rest) (sym (take-drop chunk_len rest))))

drain_runs : sent (drain (serving hello) 1 logfile 0 []).1 ≡ hello
unfolding drain check_canceled send_chunk is_eof take drop
drain_runs = refl

drain_short_example :
    drain (serving hello) 1 logfile 0 []
    ≡ (ok tt, sent_call hello (first_read (serving hello) logfile 0 []))
drain_short_example =
    drain_short (serving hello) logfile 0 [] hello (λ log pos. refl) (λ l. refl) (λ l. refl)
      (omega arith)

drain_long_example : drain (serving (zeros 1500)) 1 logfile 0 [] ≡ (
  panic "invalid memory address or nil pointer dereference",
  send (take chunk_len (zeros 1500)) ∷ first_read (serving (zeros 1500)) logfile 0 [],
)
drain_long_example =
    drain_long (serving (zeros 1500)) logfile 0 [] (zeros 1500) (λ log pos. refl) (λ l. refl)
      (λ l. refl) (omega (arith, length-zeros 1500))

follow_example : follow calm 3 1 logfile 0 none [] ≡ (hang, idle_rounds 3 [])
follow_example = follow-stale_outcome calm logfile 0 (λ l. refl) (λ l. refl) 2 0 none []

drain-IsPrefixOf_example : IsPrefixOf (sent (drain (serving hello) 1 logfile 0 []).1) hello
drain-IsPrefixOf_example = drain-IsPrefixOf (serving hello) logfile hello (serving-GrowsTo hello) 1

-- The same while a watcher holds its lock.
abbrev pub guarded : Env
guarded = record (serving hello) { watcher_free = λ l. Bool.false }

follow-IsPrefixOf_example : IsPrefixOf (sent (follow guarded 2 2 logfile 0 none []).1) hello
follow-IsPrefixOf_example = follow-IsPrefixOf guarded logfile hello (serving-GrowsTo hello) 2 2

-- The file never appears.
abbrev missing : Env
missing = record calm { stat_of = λ log p. inl not_exist }

wait_for_file_runs : gave_up (wait_for_file missing logfile []).0 ≡ Bool.true
unfolding wait_for_file wait_loop
wait_for_file_runs = refl

wait_for_file-IsReturn_example :
    IsReturn (wait_for_file missing logfile []).0
    × (stats (wait_for_file missing logfile []).1 ≤ 199 + 0)
    × ((gave_up (wait_for_file missing logfile []).0 ≡ Bool.false)
        ⊎ (stats (wait_for_file missing logfile []).1 ≡ 199 + 0))
wait_for_file-IsReturn_example = wait_for_file-IsReturn missing logfile []
