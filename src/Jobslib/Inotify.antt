-- ===== src/Jobslib/Inotify.antt =====
-- jobslib/watcher.go: the events that a read of an inotify descriptor leaves in the buffer.
use jobmaster.Base.{ℕ, ◌+◌, ◌*◌, Bool, List, ◌∷◌, ◌==◌}
use jobmaster.Result.{Result, ok, panic, ◌>>=◌}
use Prim.Native.Nat.{bit_and}

-- syscall.InotifyEvent: the four numbers before the name.
pub record InotifyEvent : Type 0 where
  pub wd : ℕ
  pub mask : ℕ
  pub cookie : ℕ
  pub len : ℕ

-- syscall.SizeofInotifyEvent.
abbrev pub event_size : ℕ
event_size = 16

-- syscall.IN_CLOSE_WRITE.
abbrev pub in_close_write : ℕ
in_close_write = 8

-- A uint32 as it stands in the memory of a little-endian machine. A read past the end is a fault.
unfoldable pub read_u32 : List ℕ → Result (ℕ × List ℕ)
read_u32 (a ∷ b ∷ c ∷ d ∷ rest) = ok (a + 256 * b + 65536 * c + 16777216 * d, rest)
read_u32 _ = panic "unexpected fault address"

-- The struct that stands at the head of the bytes.
unfoldable pub read_event : List ℕ → Result InotifyEvent
read_event bytes = do
  (wd, r1) ← read_u32 bytes
  (mask, r2) ← read_u32 r1
  (cookie, r3) ← read_u32 r2
  (len, r4) ← read_u32 r3
  ok (record { wd = wd; mask = mask; cookie = cookie; len = len })

unfoldable pub is_close_write : ℕ → Bool
is_close_write mask = bit_and mask in_close_write == in_close_write
