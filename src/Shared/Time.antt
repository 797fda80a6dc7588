-- ===== src/Shared/Time.antt =====
-- `Duration` and `Instant` count nanoseconds; an instant counts them from an arbitrary origin.
use Prim.Native.Nat.{ℕ, ◌-◌, ◌*◌, ◌/◌, ◌%◌, ◌^◌}
use bilbycast_libsrt_rs.Shared.Tests.{ltb, if◌then◌else◌}
use bilbycast_libsrt_rs.Shared.Int.{ℤ, pos, negsuc}

abbrev pub from_millis : ℕ → ℕ
from_millis n = n * 1000000

abbrev pub from_secs : ℕ → ℕ
from_secs n = n * 1000000000

-- `d.as_millis() as u32`
abbrev pub as_millis_u32 : ℕ → ℕ
as_millis_u32 d = d / 1000000 % 2 ^ 32

-- `n as i32`, for a `u32` or a wider unsigned number
abbrev pub as_i32 : ℕ → ℤ
as_i32 n = let m = n % 2 ^ 32 in if ltb m (2 ^ 31) then pos m else negsuc (2 ^ 32 - m - 1)
