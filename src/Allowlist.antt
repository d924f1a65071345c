-- ===== src/Allowlist.antt =====
-- src/kcp_proxy/target_allowlist.hpp: the entries of --allow-target, their parser and their match.
-- Texts are lists of bytes.
pub mod Spelling
pub mod Matching
use kcp_proxy_cpp.Base.{
  ℕ, ◌+◌, ◌-◌, Bool, true, false, not, ◌&&◌, ◌||◌, ltb, leb, ◌==◌, if◌then◌else◌, List, [], ◌∷◌,
  length, none, some, Attempt, refused, threw, accepted, cut, has_char, all_digits, stol,
}

-- A port by its digits; the length is checked before the conversion.
pub parse_port_digits : List ℕ → Attempt ℕ
parse_port_digits digits =
    if length digits == 0 || ltb 5 (length digits)
    then refused
    else if not (all_digits digits)
    then refused
    else elim (stol digits) [
      | none ↦ threw
      | some value ↦ if ltb value 1 || ltb 65535 value then refused else accepted value
    ]

-- The folding of one character: 'A' to 'Z' only.
pub fold_char : ℕ → ℕ
fold_char c = if leb b'A' c && leb c b'Z' then c - b'A' + b'a' else c

-- The loop over both texts; it is entered only where the sizes agree.
pub iequals_loop : List ℕ → List ℕ → Bool
unfolding fold_char
iequals_loop [] [] = true
iequals_loop [] (y ∷ ys) = true
iequals_loop (x ∷ xs) [] = true
iequals_loop (x ∷ xs) (y ∷ ys) = (fold_char x == fold_char y) && iequals_loop xs ys

pub ascii_iequals : List ℕ → List ℕ → Bool
unfolding iequals_loop
ascii_iequals a b = if not (length a == length b) then false else iequals_loop a b

-- What a parsed entry holds; `port` is 0 where the entry names none.
pub record Target : Type 0 where
  pub host : List ℕ
  pub has_port : Bool
  pub port : ℕ

abbrev pub host_only : List ℕ → Target
host_only host = record { host = host; has_port = false; port = 0 }

-- `parse_port_digits`, then the success of the caller.
pub with_port : List ℕ → Attempt ℕ → Attempt Target
with_port host refused = refused
with_port host threw = threw
with_port host (accepted port) = accepted (record { host = host; has_port = true; port = port })

-- The entry behind its opening bracket.
pub parse_bracketed : List ℕ → List ℕ → Attempt Target
unfolding with_port
parse_bracketed [] after = refused
parse_bracketed (h ∷ hs) [] = accepted (host_only (h ∷ hs))
parse_bracketed (h ∷ hs) (c ∷ port_part) =
    if not (c == b':') then refused else with_port (h ∷ hs) (parse_port_digits port_part)

-- The entry around its first colon; a second colon makes it a bare IPv6 literal.
pub parse_colon : List ℕ → List ℕ → List ℕ → Attempt Target
unfolding with_port
parse_colon entry before after =
    if has_char b':' after
    then accepted (host_only entry)
    else if length before == 0
    then refused
    else with_port before (parse_port_digits after)

-- The entry when it begins with no bracket.
pub parse_plain : List ℕ → Attempt Target
unfolding parse_colon
parse_plain entry = elim (cut b':' entry) [
  | none ↦ accepted (host_only entry)
  | some (before, after) ↦ parse_colon entry before after
]

pub parse_allow_target_entry : List ℕ → Attempt Target
unfolding parse_bracketed parse_plain
parse_allow_target_entry [] = refused
parse_allow_target_entry (c ∷ rest) =
    if c == b'['
    then elim (cut b']' rest) [ none ↦ refused | some (host, after) ↦ parse_bracketed host after ]
    else parse_plain (c ∷ rest)

-- One turn of the loop: does this entry match?
pub entry_matches : List ℕ → ℕ → Target → Bool
unfolding ascii_iequals
entry_matches host port t = ascii_iequals t.host host && (not t.has_port || t.port == port)

-- One turn of the loop, given what the remaining turns return.
pub loop_turn : List ℕ → ℕ → Attempt Target → Attempt Bool → Attempt Bool
unfolding entry_matches
loop_turn host port refused rest = rest
loop_turn host port threw rest = threw
loop_turn host port (accepted t) rest = if entry_matches host port t then accepted true else rest

pub target_matches_allowlist : List (List ℕ) → List ℕ → ℕ → Attempt Bool
unfolding parse_allow_target_entry loop_turn
target_matches_allowlist [] host port = accepted false
target_matches_allowlist (entry ∷ entries) host port =
    loop_turn host port (parse_allow_target_entry entry)
      (target_matches_allowlist entries host port)
