-- ===== src/CleanPath.antt =====
-- src/kcp_proxy/clean_path.hpp: the state machine behind both adaptive policies. Times are
-- microseconds of a clock that starts at 0 or later; the counters are `uint64_t` totals.
pub mod Evidence
pub mod Policies
use kcp_proxy_cpp.Base.{
  ℕ, ◌+◌, ◌-◌, ◌*◌, Bool, true, false, not, ◌&&◌, ◌||◌, ltb, leb, if◌then◌else◌, List, [], ◌∷◌,
}

-- The comparison of the segment rate with `min_seg_rate` is over `double`s; here it is what the
-- tuning says of a number of segments sent in a number of microseconds.
pub record CleanPathTuning : Type 0 where
  pub clean_sec : ℕ
  pub hold_sec : ℕ
  pub below_min_rate : ℕ → ℕ → Bool

pub record CleanPathTracker : Type 0 where
  pub initialized : Bool
  pub clean : Bool
  pub last_out_segs : ℕ
  pub last_fast_retrans : ℕ
  pub last_sample_us : ℕ
  pub clean_us : ℕ
  pub hold_until_us : ℕ

abbrev pub tracker_init : CleanPathTracker
tracker_init = record {
  initialized = false;
  clean = false;
  last_out_segs = 0;
  last_fast_retrans = 0;
  last_sample_us = 0;
  clean_us = 0;
  hold_until_us = 0;
}

pub data Transition : Type 0 where
  k_none k_to_clean k_to_lossy : Transition

-- One reading of the process-wide counters.
pub record Sample : Type 0 where
  pub out_segs_total : ℕ
  pub fast_retrans_total : ℕ
  pub now_us : ℕ

abbrev pub micros : ℕ → ℕ
micros sec = sec * 1000000

module _ (tuning : CleanPathTuning) where
  -- The branch on an acknowledged gap.
  unfoldable pub on_loss : CleanPathTracker → ℕ → CleanPathTracker × Transition
  on_loss t now =
      let held = record t { clean_us = 0; hold_until_us = now + micros tuning.hold_sec } in
      if t.clean then (record held { clean = false }, k_to_lossy) else (held, k_none)

  -- The rest of a sample without loss: `d_out` segments in `dt` microseconds.
  unfoldable pub on_quiet : CleanPathTracker → ℕ → ℕ → ℕ → CleanPathTracker × Transition
  on_quiet t d_out dt now =
      if ltb now t.hold_until_us
      then (record t { clean_us = 0 }, k_none)
      else if tuning.below_min_rate d_out dt
      then (t, k_none)
      else if not t.clean && leb (micros tuning.clean_sec) (t.clean_us + dt)
      then (record t { clean_us = 0; clean = true }, k_to_clean)
      else (record t { clean_us = t.clean_us + dt }, k_none)

  -- The members that every sample writes.
  abbrev pub take_baseline : CleanPathTracker → Sample → CleanPathTracker
  take_baseline t s = record t {
    initialized = true;
    last_out_segs = s.out_segs_total;
    last_fast_retrans = s.fast_retrans_total;
    last_sample_us = s.now_us;
  }

  abbrev pub is_rebased : CleanPathTracker → Sample → Bool
  is_rebased t s =
      t.initialized
      && (ltb s.out_segs_total t.last_out_segs || ltb s.fast_retrans_total t.last_fast_retrans)

  -- A sample that is not judged: the first one, one after a counter went back, or one in no time.
  abbrev pub is_skipped : CleanPathTracker → Sample → Bool
  is_skipped t s = not t.initialized || is_rebased t s || leb s.now_us t.last_sample_us

  unfoldable pub on_sample : CleanPathTracker → Sample → CleanPathTracker × Transition
  unfolding on_loss on_quiet
  on_sample t s =
      let t' = take_baseline t s in
      let d_out = s.out_segs_total - t.last_out_segs in
      let d_fast = s.fast_retrans_total - t.last_fast_retrans in
      if is_skipped t s
      then (t', k_none)
      else if ltb 0 d_fast
      then on_loss t' s.now_us
      else on_quiet t' d_out (s.now_us - t.last_sample_us) s.now_us

  unfoldable pub run : CleanPathTracker → List Sample → CleanPathTracker
  run t [] = t
  run t (s ∷ ss) = run (on_sample t s).0 ss
