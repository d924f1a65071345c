-- ===== src/LogThrottle.antt =====
-- The throttle of the diagnostics: `LogThrottle` and `throttle_suffix` (logger.hpp). Times and the
-- interval are in one unit of the steady clock, whose epoch is `window_start_`'s first value, and
-- the counts keep their 64 and 32 bits.
use kcp_proxy_cpp.Base.{
  ℕ, ◌+◌, ◌-◌, ◌^◌, ◌<◌, ◌≡◌, ltb, ◌==◌, if◌then◌else◌, List, [], ◌∷◌, ◌++◌, length, Option, none,
  some, arith,
}

pub record LogThrottle : Type 0 where
  pub window_start : ℕ
  pub interval : ℕ
  pub suppressed : ℕ

abbrev pub throttle_init : ℕ → LogThrottle
throttle_init interval = record { window_start = 0; interval = interval; suppressed = 0 }

unfoldable pub note_suppressed_locked : LogThrottle → ℕ → LogThrottle
note_suppressed_locked t n =
    if ltb (2 ^ 64 - 1 - n) t.suppressed
    then record t { suppressed = 2 ^ 64 - 1 }
    else record t { suppressed = t.suppressed + n }

unfoldable pub clamp_to_u32 : ℕ → ℕ
clamp_to_u32 v = if ltb (2 ^ 32 - 1) v then 2 ^ 32 - 1 else v

-- `some n` is a line that stands for itself and n suppressed ones.
unfoldable pub should_log : LogThrottle → ℕ → LogThrottle × Option ℕ
unfolding note_suppressed_locked clamp_to_u32
should_log t now =
    if ltb (now - t.window_start) t.interval
    then (note_suppressed_locked t 1, none)
    else (record t { window_start = now; suppressed = 0 }, some (clamp_to_u32 t.suppressed))

unfoldable pub pending : LogThrottle → ℕ
unfolding clamp_to_u32
pending t = clamp_to_u32 t.suppressed

-- The text of `throttle_suffix` around the printed number.
unfoldable pub throttle_suffix : (ℕ → List ℕ) → ℕ → List ℕ
throttle_suffix decimal suppressed =
    if suppressed == 0
    then []
    else (b' ' ∷ b'(' ∷ [])
      ++ (decimal suppressed
          ++ (b' ' ∷ b'm' ∷ b'o' ∷ b'r' ∷ b'e' ∷ b' ' ∷ b's' ∷ b'u' ∷ b'p' ∷ b'p' ∷ b'r' ∷ b'e'
              ∷ b's' ∷ b's' ∷ b'e' ∷ b'd' ∷ b' ' ∷ b't' ∷ b'h' ∷ b'i' ∷ b's' ∷ b' ' ∷ b'i' ∷ b'n'
              ∷ b't' ∷ b'e' ∷ b'r' ∷ b'v' ∷ b'a' ∷ b'l' ∷ b')' ∷ []))

-- The throttle after occurrences at these times, the last of them first.
abbrev pub after : LogThrottle → List ℕ → LogThrottle
after t [] = t
after t (now ∷ earlier) = (should_log (after t earlier) now).0

-- The occurrences that the lines so far report: themselves and those folded into them.
abbrev pub reported_by : Option ℕ → ℕ
reported_by none = 0
reported_by (some n) = n + 1

abbrev pub reported : LogThrottle → List ℕ → ℕ
reported t [] = 0
reported t (now ∷ earlier) = reported_by (should_log (after t earlier) now).1 + reported t earlier

kept_lem :
    (t : LogThrottle) (times : List ℕ)
    → t.suppressed ≡ 0
    → length times < 2 ^ 32
    → reported t times + (after t times).suppressed ≡ length times
unfolding should_log note_suppressed_locked clamp_to_u32
kept_lem t [] fresh few = ground (arith, fresh)
kept_lem t (now ∷ earlier) fresh few = ground (arith, few, kept_lem t earlier fresh (omega arith))

-- However a fresh throttle groups the occurrences, of fewer than 2^32 none is lost and none is counted
-- twice: each is a line of its own, is counted in the suffix of a later line, or is still pending.
pub reported-pending :
    (t : LogThrottle) (times : List ℕ)
    → t.suppressed ≡ 0
    → length times < 2 ^ 32
    → reported t times + pending (after t times) ≡ length times
unfolding pending clamp_to_u32
reported-pending t times fresh few = ground (arith, few, kept_lem t times fresh few)
