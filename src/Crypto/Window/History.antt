-- ===== src/Crypto/Window/History.antt =====
-- The replay window (crypto.cpp) against what it stands for: the list of all counters accepted so far.
use kcp_proxy_cpp.Base.{
  ℕ, ◌+◌, ◌-◌, ◌≤◌, ◌<◌, max, ◌≡◌, refl, ap, inl, inr, Bool, true, false, not, ◌&&◌, ◌||◌, ltb, leb,
  ◌==◌, if◌then◌else◌, Bool-cases, List, [], ◌∷◌, arith,
}
use kcp_proxy_cpp.Crypto.Window.{
  Window, window_init, check_replay_window, commit_replay_window, replay_window_bits,
}

abbrev pub contains : ℕ → List ℕ → Bool
contains c [] = false
contains c (x ∷ xs) = (x == c) || contains c xs

abbrev pub max_of : List ℕ → ℕ
max_of [] = 0
max_of (x ∷ xs) = max x (max_of xs)

abbrev pub is_empty : List ℕ → Bool
is_empty [] = true
is_empty (x ∷ xs) = false

-- What the window promises: a counter passes if it is the first, if it is above every accepted one,
-- or if it was not accepted before and lies at most `replay_window_bits` below the highest.
abbrev pub is_fresh : List ℕ → ℕ → Bool
is_fresh seen c =
    is_empty seen
    || ltb (max_of seen) c
    || (not (contains c seen) && leb (max_of seen - c) replay_window_bits)

-- The window `w` stands for the accepted counters `seen`.
pub record Tracks (w : Window) (seen : List ℕ) : Type 0 where
  pub any : w.any_received ≡ not (is_empty seen)
  pub highest : w.highest_received ≡ max_of seen
  pub bits :
      (c : ℕ)
      → c < w.highest_received
      → w.highest_received - c ≤ replay_window_bits
      → w.replay_window (w.highest_received - c - 1) ≡ contains c seen

contains_above : (c : ℕ) (xs : List ℕ) → max_of xs < c → contains c xs ≡ false
contains_above c [] h = refl
contains_above c (x ∷ xs) h = ground (arith, contains_above c xs)

contains_max : (xs : List ℕ) → is_empty xs ≡ false → contains (max_of xs) xs ≡ true
contains_max [] h = cc
contains_max (x ∷ []) h = ground arith
contains_max (x ∷ y ∷ ys) h = ground (arith, contains_max (y ∷ ys) refl)

window_init-Tracks : Tracks window_init []
window_init-Tracks = record { any = refl; highest = refl; bits = λ c h k. absurd (omega arith) }

-- The code's test is the specification's.
pub check-is_fresh :
    (w : Window) (seen : List ℕ) (c : ℕ) → Tracks w seen → check_replay_window w c ≡ is_fresh seen c
unfolding check_replay_window
check-is_fresh w [] c t = ground (arith, t.any)
check-is_fresh w (x ∷ xs) c t =
    ground (arith, t.any, t.highest, t.bits c, contains_max (x ∷ xs) refl)

pub commit-Tracks :
    (w : Window) (seen : List ℕ) (c : ℕ)
    → Tracks w seen
    → Tracks (commit_replay_window w c) (c ∷ seen)
unfolding commit_replay_window
commit-Tracks w [] c t = record {
  any = ground (arith, t.any);
  highest = ground (arith, t.any, t.highest);
  bits = λ d h k. ground (arith, t.any);
}
commit-Tracks w (x ∷ xs) c t = record {
  any = ground (arith, t.any);
  highest = ground (arith, t.any, t.highest);
  bits = λ d h k.
      ground
        (arith, t.any, t.highest, t.bits d, contains_above d (x ∷ xs), contains_max (x ∷ xs) refl);
}

-- One datagram whose tag verifies: the code's check, then its commit.
pub receive : Window → ℕ → Window × Bool
receive w c = if check_replay_window w c then (commit_replay_window w c, true) else (w, false)

-- The verdicts over a run of counters, by the window and by the list of accepted counters.
pub verdicts : Window → List ℕ → List Bool
unfolding receive
verdicts w [] = []
verdicts w (c ∷ cs) = (receive w c).1 ∷ verdicts (receive w c).0 cs

pub fresh_verdicts : List ℕ → List ℕ → List Bool
fresh_verdicts seen [] = []
fresh_verdicts seen (c ∷ cs) =
    is_fresh seen c ∷ fresh_verdicts (if is_fresh seen c then c ∷ seen else seen) cs

verdicts-Tracks :
    (w : Window) (seen cs : List ℕ) → Tracks w seen → verdicts w cs ≡ fresh_verdicts seen cs
unfolding verdicts fresh_verdicts
verdicts-Tracks w seen [] t = refl
verdicts-Tracks w seen (c ∷ cs) t = elim (Bool-cases (is_fresh seen c)) [
  | inl fresh ↦
      rw (check-is_fresh w seen c t, fresh)
        (ap (◌∷◌ true)
          (verdicts-Tracks (commit_replay_window w c) (c ∷ seen) cs (commit-Tracks w seen c t)))
  | inr stale ↦ rw (check-is_fresh w seen c t, stale) (ap (◌∷◌ false) (verdicts-Tracks w seen cs t))
]

-- Over any run of authenticated counters, the 2048-bit window accepts and rejects exactly as
-- the full list of accepted counters would.
pub verdicts-fresh_verdicts : (cs : List ℕ) → verdicts window_init cs ≡ fresh_verdicts [] cs
verdicts-fresh_verdicts cs = verdicts-Tracks window_init [] cs window_init-Tracks

-- How often a run of counters accepts the counter `c`.
pub accepted : ℕ → Window → List ℕ → ℕ
accepted c w [] = 0
accepted c w (d ∷ ds) =
    (if (receive w d).1 && (d == c) then 1 else 0) + accepted c (receive w d).0 ds

accepted-seen :
    (c : ℕ) (w : Window) (seen cs : List ℕ)
    → Tracks w seen
    → accepted c w cs + (if contains c seen then 1 else 0) ≤ 1
unfolding accepted receive
accepted-seen c w seen [] t = ground arith
accepted-seen c w seen (d ∷ ds) t = elim (Bool-cases (is_fresh seen d)) [
  | inl fresh ↦
      let ih =
        accepted-seen c (commit_replay_window w d) (d ∷ seen) ds (commit-Tracks w seen d t) in
      rw (check-is_fresh w seen d t, fresh) (ground (arith, ih, contains_above d seen))
  | inr stale ↦ rw (check-is_fresh w seen d t, stale) (omega (arith, accepted-seen c w seen ds t))
]

-- No counter is accepted twice, whatever counters come before, between and after.
pub accepted-le-one : (c : ℕ) (cs : List ℕ) → accepted c window_init cs ≤ 1
accepted-le-one c cs = omega (arith, accepted-seen c window_init [] cs window_init-Tracks)
