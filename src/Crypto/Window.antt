-- ===== src/Crypto/Window.antt =====
-- The replay window of `Crypto`: `check_replay_window`, `commit_replay_window` (crypto.cpp).
-- Counters are `uint64_t` values and are only compared and subtracted downwards, so none wraps.
pub mod History
use kcp_proxy_cpp.Base.{
  ℕ, ◌-◌, ◌≡◌, arith, Bool, true, false, not, ◌&&◌, ltb, leb, ◌==◌, if◌then◌else◌,
}

-- `REPLAY_WINDOW_BITS`.
abbrev pub replay_window_bits : ℕ
replay_window_bits = 2048

-- `std::bitset<REPLAY_WINDOW_BITS>`: bit `i` for `i` below the width; no other is ever set.
abbrev pub Bitset : Type 0
Bitset = ℕ → Bool

abbrev pub bits_reset : Bitset
bits_reset i = false

abbrev pub bits_set : Bitset → ℕ → Bitset
bits_set w k i = if i == k then true else w i

-- `<<=`: what is pushed past the width is lost.
abbrev pub bits_shift : Bitset → ℕ → Bitset
bits_shift w k i = leb k i && ltb i replay_window_bits && w (i - k)

-- The three members of `Crypto` that make up the window.
pub record Window : Type 0 where
  pub highest_received : ℕ
  pub replay_window : Bitset
  pub any_received : Bool

abbrev pub window_init : Window
window_init = record { highest_received = 0; replay_window = bits_reset; any_received = false }

unfoldable pub check_replay_window : Window → ℕ → Bool
check_replay_window w counter =
    if not w.any_received
    then true
    else if ltb w.highest_received counter
    then true
    else if counter == w.highest_received
    then false
    else let offset = w.highest_received - counter in
      if ltb replay_window_bits offset then false else not (w.replay_window (offset - 1))

-- Nothing seen yet: any counter passes.
pub check_first :
    (w : Window) (counter : ℕ) → w.any_received ≡ false → check_replay_window w counter ≡ true
unfolding check_replay_window
check_first w counter h = ground arith

pub commit_replay_window : Window → ℕ → Window
commit_replay_window w counter =
    if not w.any_received
    then record { highest_received = counter; replay_window = bits_reset; any_received = true }
    else if ltb w.highest_received counter
    then (let shift = counter - w.highest_received in
        record w {
          highest_received = counter;
          replay_window =
              if ltb replay_window_bits shift
              then bits_reset
              else bits_set (bits_shift w.replay_window shift) (shift - 1);
        })
    else if ltb counter w.highest_received
    then (let offset = w.highest_received - counter in
        if leb offset replay_window_bits
        then record w { replay_window = bits_set w.replay_window (offset - 1) }
        else w)
    else w
