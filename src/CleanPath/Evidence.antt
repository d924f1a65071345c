-- ===== src/CleanPath/Evidence.antt =====
-- What evidence a change of state of the tracker (clean_path.hpp) rests on.
use kcp_proxy_cpp.Base.{
  ℕ, ◌+◌, ◌-◌, ◌≤◌, ◌<◌, ◌≡◌, refl, ◌⊎◌, inl, inr, true, false, ◌||◌, ltb, if◌then◌else◌, List, [],
  ◌∷◌, arith, All,
}
use kcp_proxy_cpp.CleanPath.{
  CleanPathTuning, CleanPathTracker, tracker_init, k_none, k_to_clean, k_to_lossy, Sample, micros,
  on_sample, run, is_skipped,
}

-- The sample reports a loss: it is judged, and the peer acknowledged around a gap.
abbrev pub IsLoss : CleanPathTracker → Sample → Type 0
IsLoss t s =
    (t.initialized ≡ true)
    × (t.last_out_segs ≤ s.out_segs_total)
    × (t.last_fast_retrans < s.fast_retrans_total)
    × (t.last_sample_us < s.now_us)

module _ (tuning : CleanPathTuning) where
  -- What a judged sample without loss adds to the evidence for a clean path: its time, if it carried
  -- enough traffic.
  pub busy_time : CleanPathTracker → Sample → ℕ
  busy_time t s =
      if is_skipped tuning t s || ltb t.last_fast_retrans s.fast_retrans_total
      then 0
      else if tuning.below_min_rate (s.out_segs_total - t.last_out_segs)
          (s.now_us - t.last_sample_us)
      then 0
      else s.now_us - t.last_sample_us

  pub busy_total : CleanPathTracker → List Sample → ℕ
  busy_total t [] = 0
  busy_total t (s ∷ ss) = busy_time t s + busy_total (on_sample tuning t s).0 ss

  evidence_step :
      (t : CleanPathTracker) (s : Sample)
      → t.clean ≡ false
      → ((on_sample tuning t s).0.clean ≡ true)
          × (micros tuning.clean_sec ≤ t.clean_us + busy_time t s)
        ⊎ ((on_sample tuning t s).0.clean ≡ false)
          × ((on_sample tuning t s).0.clean_us ≤ t.clean_us + busy_time t s)
  unfolding on_sample busy_time
  evidence_step t s h = ground arith

  clean_evidence :
      (t : CleanPathTracker) (ss : List Sample)
      → t.clean ≡ false
      → (run tuning t ss).clean ≡ true
      → micros tuning.clean_sec ≤ t.clean_us + busy_total t ss
  unfolding run busy_total
  clean_evidence t [] lossy now_clean = absurd (ground arith)
  clean_evidence t (s ∷ ss) lossy now_clean = elim (evidence_step t s lossy) [
    | inl (e, enough) ↦ omega (arith, enough)
    | inr (e, less) ↦ omega (arith, less, clean_evidence (on_sample tuning t s).0 ss e now_clean)
  ]

  -- From the start, no run of samples makes the path clean unless it holds at least `clean_sec`
  -- seconds of judged, loss-free samples with enough traffic.
  pub run-clean_evidence :
      (ss : List Sample)
      → (run tuning tracker_init ss).clean ≡ true
      → micros tuning.clean_sec ≤ busy_total tracker_init ss
  run-clean_evidence ss h = omega (arith, clean_evidence tracker_init ss refl h)

  -- One sample with loss is enough: the path is no longer clean, whatever it was, the evidence is
  -- dropped, and the hold runs for `hold_sec` seconds.
  pub on_sample_loss :
      (t : CleanPathTracker) (s : Sample)
      → IsLoss t s
      → ((on_sample tuning t s).0.clean ≡ false)
        × ((on_sample tuning t s).0.clean_us ≡ 0)
        × ((on_sample tuning t s).0.hold_until_us ≡ s.now_us + micros tuning.hold_sec)
        × ((on_sample tuning t s).1 ≡ (if t.clean then k_to_lossy else k_none))
  unfolding on_sample
  on_sample_loss t s h = ground arith

  hold_step :
      (t : CleanPathTracker) (s : Sample) (deadline : ℕ)
      → t.clean ≡ false
      → deadline ≤ t.hold_until_us
      → s.now_us < deadline
      → deadline ≤ s.now_us + micros tuning.hold_sec
      → ((on_sample tuning t s).0.clean ≡ false)
        × (deadline ≤ (on_sample tuning t s).0.hold_until_us)
  unfolding on_sample
  hold_step t s deadline lossy holds before after = ground arith

  -- The samples are read between two times.
  abbrev pub Between : ℕ → ℕ → List Sample → Type 0
  Between from to = All (λ (r : Sample). (from ≤ r.now_us) × (r.now_us < to))

  hold_run :
      (t : CleanPathTracker) (base : ℕ) (ss : List Sample)
      → t.clean ≡ false
      → base + micros tuning.hold_sec ≤ t.hold_until_us
      → Between base (base + micros tuning.hold_sec) ss
      → (run tuning t ss).clean ≡ false
  unfolding run
  hold_run t base [] lossy holds within = lossy
  hold_run t base (s ∷ ss) lossy holds within =
      let (lossy', holds') =
        hold_step t s (base + micros tuning.hold_sec) lossy holds within.0.1
          (omega (arith, within.0.0)) in
      hold_run (on_sample tuning t s).0 base ss lossy' holds' within.1

  -- While the hold of a loss runs the path stays lossy, whatever is read between the loss and the
  -- end of the hold.
  pub run_in_hold :
      (t : CleanPathTracker) (s : Sample) (ss : List Sample)
      → IsLoss t s
      → Between s.now_us (s.now_us + micros tuning.hold_sec) ss
      → (run tuning (on_sample tuning t s).0 ss).clean ≡ false
  run_in_hold t s ss loss within =
      let l = on_sample_loss t s loss in
      hold_run (on_sample tuning t s).0 s.now_us ss l.0 (omega (arith, l)) within

  -- A transition is reported exactly when the state changes.
  pub on_sample_change :
      (t : CleanPathTracker) (s : Sample)
      → (((on_sample tuning t s).1 ≡ k_none) × ((on_sample tuning t s).0.clean ≡ t.clean))
        ⊎ ((((on_sample tuning t s).1 ≡ k_to_clean) × ((on_sample tuning t s).0.clean ≡ true))
            ⊎ (((on_sample tuning t s).1 ≡ k_to_lossy) × ((on_sample tuning t s).0.clean ≡ false)))
  unfolding on_sample
  on_sample_change t s = ground arith
