-- ===== src/CleanPath/Policies.antt =====
-- The two policies over the state machine: fec_parity.hpp and rto_floor.hpp. The gate that every
-- tunnel reads is a flag of the process; the controller holds it by reference, here beside it.
use kcp_proxy_cpp.Base.{◌≡◌, refl, ap, ◌∙◌, Bool, true, false, not, List, [], ◌∷◌, arith}
use kcp_proxy_cpp.CleanPath.Evidence.{on_sample_change}
use kcp_proxy_cpp.CleanPath.{
  CleanPathTuning, CleanPathTracker, tracker_init, Transition, k_none, k_to_clean, k_to_lossy,
  Sample, on_sample, run,
}

-- `FecParityController` with its `FecParityGate`: `enabled` lets a tunnel emit parity.
pub record FecParity : Type 0 where
  pub enabled : Bool
  pub tracker : CleanPathTracker

pub data ParityTransition : Type 0 where
  none_parity k_to_economy k_to_protected : ParityTransition

abbrev pub parity_init : FecParity
parity_init = record { enabled = true; tracker = tracker_init }

abbrev pub economy : FecParity → Bool
economy c = c.tracker.clean

-- The switch on the tracker's transition.
pub parity_react : FecParity → CleanPathTracker → Transition → FecParity × ParityTransition
parity_react c t k_to_clean = (record { enabled = false; tracker = t }, k_to_economy)
parity_react c t k_to_lossy = (record { enabled = true; tracker = t }, k_to_protected)
parity_react c t k_none = (record c { tracker = t }, none_parity)

-- `RtoFloorController` with its `RtoFloorGate`: `low_latency` is the 30 ms floor.
pub record RtoFloor : Type 0 where
  pub low_latency : Bool
  pub tracker : CleanPathTracker

pub data RtoTransition : Type 0 where
  none_rto k_to_relaxed k_to_low_latency : RtoTransition

abbrev pub rto_init : RtoFloor
rto_init = record { low_latency = true; tracker = tracker_init }

abbrev pub relaxed : RtoFloor → Bool
relaxed c = c.tracker.clean

pub rto_react : RtoFloor → CleanPathTracker → Transition → RtoFloor × RtoTransition
rto_react c t k_to_clean = (record { low_latency = false; tracker = t }, k_to_relaxed)
rto_react c t k_to_lossy = (record { low_latency = true; tracker = t }, k_to_low_latency)
rto_react c t k_none = (record c { tracker = t }, none_rto)

module _ (tuning : CleanPathTuning) where
  pub parity_sample : FecParity → Sample → FecParity × ParityTransition
  unfolding parity_react
  parity_sample c s = let (t, change) = on_sample tuning c.tracker s in parity_react c t change

  pub parity_run : FecParity → List Sample → FecParity
  parity_run c [] = c
  parity_run c (s ∷ ss) = parity_run (parity_sample c s).0 ss

  pub rto_sample : RtoFloor → Sample → RtoFloor × RtoTransition
  unfolding rto_react
  rto_sample c s = let (t, change) = on_sample tuning c.tracker s in rto_react c t change

  pub rto_run : RtoFloor → List Sample → RtoFloor
  rto_run c [] = c
  rto_run c (s ∷ ss) = rto_run (rto_sample c s).0 ss

  parity_step :
      (c : FecParity) (s : Sample)
      → c.enabled ≡ not (economy c)
      → ((parity_sample c s).0.enabled ≡ not (economy (parity_sample c s).0))
        × ((parity_sample c s).0.tracker ≡ (on_sample tuning c.tracker s).0)
  unfolding parity_sample
  parity_step c s h = ground (arith, on_sample_change tuning c.tracker s)

  parity_run_from :
      (c : FecParity) (ss : List Sample)
      → c.enabled ≡ not (economy c)
      → (parity_run c ss).enabled ≡ not (run tuning c.tracker ss).clean
  unfolding parity_run run
  parity_run_from c [] h = h
  parity_run_from c (s ∷ ss) h =
      let (in_step, moved) = parity_step c s h in
      parity_run_from (parity_sample c s).0 ss in_step ∙ ap (λ t. not (run tuning t ss).clean) moved

  rto_step :
      (c : RtoFloor) (s : Sample)
      → c.low_latency ≡ not (relaxed c)
      → ((rto_sample c s).0.low_latency ≡ not (relaxed (rto_sample c s).0))
        × ((rto_sample c s).0.tracker ≡ (on_sample tuning c.tracker s).0)
  unfolding rto_sample
  rto_step c s h = ground (arith, on_sample_change tuning c.tracker s)

  rto_run_from :
      (c : RtoFloor) (ss : List Sample)
      → c.low_latency ≡ not (relaxed c)
      → (rto_run c ss).low_latency ≡ not (run tuning c.tracker ss).clean
  unfolding rto_run run
  rto_run_from c [] h = h
  rto_run_from c (s ∷ ss) h =
      let (in_step, moved) = rto_step c s h in
      rto_run_from (rto_sample c s).0 ss in_step ∙ ap (λ t. not (run tuning t ss).clean) moved

  -- After any run of samples the parity gate is open exactly when the path is not taken for clean,
  -- and the RTO gate asks for the low floor exactly when it is not.
  pub gates_follow_tracker :
      (ss : List Sample)
      → ((parity_run parity_init ss).enabled ≡ not (run tuning tracker_init ss).clean)
        × ((rto_run rto_init ss).low_latency ≡ not (run tuning tracker_init ss).clean)
  gates_follow_tracker ss = (parity_run_from parity_init ss refl, rto_run_from rto_init ss refl)
