-- ===== src/Config/Tuning.antt =====
-- `KcpTuning`, `clamp_kcp_value` and `set_kcp_tuning` (config.hpp). The fields are `int`s; every
-- value is far from the ends of the type, and for a tuning that `set_kcp_tuning` makes no difference
-- falls below 0.
use kcp_proxy_cpp.Base.{
  ℕ, ◌+◌, ◌-◌, ◌*◌, ◌/◌, ◌≤◌, ◌<◌, ◌≡◌, Bool, true, ◌&&◌, ltb, leb, if◌then◌else◌, arith,
}

abbrev pub kcp_sndwnd_min : ℕ
kcp_sndwnd_min = 256

abbrev pub kcp_sndwnd_max : ℕ
kcp_sndwnd_max = 4096

abbrev pub kcp_rcvwnd_min : ℕ
kcp_rcvwnd_min = 256

abbrev pub kcp_rcvwnd_max : ℕ
kcp_rcvwnd_max = 4096

abbrev pub kcp_mtu_min : ℕ
kcp_mtu_min = 576

abbrev pub kcp_mtu_max : ℕ
kcp_mtu_max = 9000

abbrev pub fwd_buf_size : ℕ
fwd_buf_size = 16384

abbrev pub kcp_segment_overhead : ℕ
kcp_segment_overhead = 24

abbrev pub kcp_backpressure_burst_msgs : ℕ
kcp_backpressure_burst_msgs = 4

pub record KcpTuning : Type 0 where
  pub sndwnd : ℕ
  pub rcvwnd : ℕ
  pub mtu : ℕ

unfoldable pub max_segments_per_msg : KcpTuning → ℕ
max_segments_per_msg t = let mss = t.mtu - kcp_segment_overhead in (fwd_buf_size + mss - 1) / mss

unfoldable pub backpressure_threshold : KcpTuning → ℕ
unfolding max_segments_per_msg
backpressure_threshold t = t.sndwnd - max_segments_per_msg t - 8

pub backpressure_resume : KcpTuning → ℕ
unfolding backpressure_threshold
backpressure_resume t =
    backpressure_threshold t - kcp_backpressure_burst_msgs * max_segments_per_msg t

pub backpressure_invariant_holds : KcpTuning → Bool
unfolding backpressure_resume
backpressure_invariant_holds t =
    let segs = max_segments_per_msg t in
    let thr = backpressure_threshold t in
    ltb 0 segs && ltb 0 thr && ltb 0 (backpressure_resume t) && leb (thr + segs) t.sndwnd

pub clamp_kcp_value : ℕ → ℕ → ℕ → ℕ
clamp_kcp_value v lo hi = if ltb v lo then lo else if ltb hi v then hi else v

pub set_kcp_tuning : ℕ → ℕ → ℕ → KcpTuning
unfolding clamp_kcp_value
set_kcp_tuning sndwnd rcvwnd mtu = record {
  sndwnd = clamp_kcp_value sndwnd kcp_sndwnd_min kcp_sndwnd_max;
  rcvwnd = clamp_kcp_value rcvwnd kcp_rcvwnd_min kcp_rcvwnd_max;
  mtu = clamp_kcp_value mtu kcp_mtu_min kcp_mtu_max;
}

-- A message of `fwd_buf_size` bytes never takes more than 30 segments.
segments_bounds :
    (t : KcpTuning)
    → kcp_mtu_min ≤ t.mtu
    → t.mtu ≤ kcp_mtu_max
    → (1 ≤ max_segments_per_msg t) × (max_segments_per_msg t ≤ 30)
unfolding max_segments_per_msg
segments_bounds t low high = grind arith

-- Whatever is asked for on the command line, the tuning in force keeps the hysteresis band: the
-- resume mark is above 0 and below the park threshold, which leaves room for one whole message
-- below the window.
pub set_kcp_tuning-backpressure :
    (sndwnd rcvwnd mtu : ℕ)
    → let t = set_kcp_tuning sndwnd rcvwnd mtu in
      (backpressure_invariant_holds t ≡ true)
      × (backpressure_resume t < backpressure_threshold t)
      × (backpressure_threshold t + max_segments_per_msg t + 8 ≡ t.sndwnd)
unfolding set_kcp_tuning backpressure_invariant_holds
set_kcp_tuning-backpressure sndwnd rcvwnd mtu =
    let t = set_kcp_tuning sndwnd rcvwnd mtu in ground (arith, segments_bounds t)
