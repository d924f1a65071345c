-- ===== src/Runs/Policies.antt =====
-- The theorems on the configuration, the allow-list and the adaptive policies at concrete inputs.
use kcp_proxy_cpp.Base.{ℕ, List, [], ◌∷◌, ◌++◌}
use kcp_proxy_cpp.Allowlist.{target_matches_allowlist}
use kcp_proxy_cpp.Allowlist.Matching.{Justified, target_matches_allowlist-Justified}
use kcp_proxy_cpp.CleanPath.{Sample}

-- "ab" and "80".
abbrev host : List ℕ
host = b'a' ∷ b'b' ∷ []

abbrev eighty : List ℕ
eighty = b'8' ∷ b'0' ∷ []

target_matches_allowlist-Justified_example :
    Justified
      ((host ++ (b':' ∷ eighty)) ∷ [])
      (b'A' ∷ b'B' ∷ [])
      80
      (target_matches_allowlist ((host ++ (b':' ∷ eighty)) ∷ []) (b'A' ∷ b'B' ∷ []) 80)
target_matches_allowlist-Justified_example =
    target_matches_allowlist-Justified ((host ++ (b':' ∷ eighty)) ∷ []) (b'A' ∷ b'B' ∷ []) 80

abbrev at : ℕ → ℕ → ℕ → Sample
at out fast now = record { out_segs_total = out; fast_retrans_total = fast; now_us = now }
