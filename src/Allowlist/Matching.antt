-- ===== src/Allowlist/Matching.antt =====
-- The match of target_allowlist.hpp against the spelling of its entries.
use kcp_proxy_cpp.Base.{
  ℕ, ◌≡◌, refl, sym, ◌∙◌, ◌⊎◌, inl, inr, Bool, true, false, List, [], ◌∷◌, map, bytes_eq, arith,
  Attempt, refused, threw, accepted, Bool-cases, eq_of_bytes_eq,
}
use kcp_proxy_cpp.Allowlist.{
  Target, fold_char, iequals_loop, ascii_iequals, parse_allow_target_entry, entry_matches,
  loop_turn, target_matches_allowlist,
}
use kcp_proxy_cpp.Allowlist.Spelling.{IsSpelled, Answered, parse_allow_target_entry-Answered}

-- The comparison is equality of the folded texts.
pub ascii_iequals-fold_char :
    (a b : List ℕ) → ascii_iequals a b ≡ bytes_eq (map fold_char a) (map fold_char b)
unfolding ascii_iequals iequals_loop
ascii_iequals-fold_char [] [] = refl
ascii_iequals-fold_char [] (y ∷ ys) = ground arith
ascii_iequals-fold_char (x ∷ xs) [] = ground arith
ascii_iequals-fold_char (x ∷ xs) (y ∷ ys) = ground (arith, ascii_iequals-fold_char xs ys)

-- Some element of a list has the property.
abbrev pub Some : {A : Type 0} → (A → Type 0) → List A → Type 0
Some P [] = ⊥
Some P (x ∷ xs) = P x ⊎ Some P xs

-- The entry spells a target on this host, up to the case of ASCII letters, and, where it names a
-- port, on this port.
abbrev pub Allows : List ℕ → ℕ → List ℕ → Type 0
Allows host port entry =
    (t : Target) × IsSpelled entry t
    × (map fold_char t.host ≡ map fold_char host)
    × ((t.has_port ≡ false) ⊎ (t.port ≡ port))

entry_matches-Allows :
    (host : List ℕ) (port : ℕ) (entry : List ℕ) (t : Target)
    → Answered entry (accepted t)
    → entry_matches host port t ≡ true
    → Allows host port entry
unfolding entry_matches
entry_matches-Allows host port entry t answered m = (
  t,
  answered.1,
  eq_of_bytes_eq _ _ (sym (ascii_iequals-fold_char t.host host) ∙ ground arith),
  ground arith,
)

-- A verdict of the whole list: it is never an exception, and `true` comes from some entry.
abbrev pub Justified : List (List ℕ) → List ℕ → ℕ → Attempt Bool → Type 0
Justified entries host port refused = ⊥
Justified entries host port threw = ⊥
Justified entries host port (accepted false) = Unit {0}
Justified entries host port (accepted true) = Some (Allows host port) entries

more :
    (entry : List ℕ) (entries : List (List ℕ)) (host : List ℕ) (port : ℕ) (r : Attempt Bool)
    → Justified entries host port r
    → Justified (entry ∷ entries) host port r
more entry entries host port refused j = j
more entry entries host port threw j = j
more entry entries host port (accepted false) j = tt
more entry entries host port (accepted true) j = inr j

loop_turn-Justified :
    (entry : List ℕ) (entries : List (List ℕ)) (host : List ℕ) (port : ℕ) (r : Attempt Target)
    (rest : Attempt Bool)
    → Answered entry r
    → Justified entries host port rest
    → Justified (entry ∷ entries) host port (loop_turn host port r rest)
unfolding loop_turn
loop_turn-Justified entry entries host port refused rest a j = more entry entries host port rest j
loop_turn-Justified entry entries host port threw rest a j = absurd a
loop_turn-Justified entry entries host port (accepted t) rest a j =
    elim (Bool-cases (entry_matches host port t)) [
      | inl hit ↦ rw hit (inl (entry_matches-Allows host port entry t a hit))
      | inr miss ↦ rw miss (more entry entries host port rest j)
    ]

-- The list answers on every host and port, without an exception, and says yes only where one of its
-- entries spells that host, up to case, and that port or none.
pub target_matches_allowlist-Justified :
    (entries : List (List ℕ)) (host : List ℕ) (port : ℕ)
    → Justified entries host port (target_matches_allowlist entries host port)
unfolding target_matches_allowlist
target_matches_allowlist-Justified [] host port = tt
target_matches_allowlist-Justified (entry ∷ entries) host port =
    loop_turn-Justified entry entries host port (parse_allow_target_entry entry)
      (target_matches_allowlist entries host port) (parse_allow_target_entry-Answered entry)
      (target_matches_allowlist-Justified entries host port)
