-- ===== src/Allowlist/Spelling.antt =====
-- How an entry is spelled, and what `parse_allow_target_entry` (target_allowlist.hpp) makes of it.
use kcp_proxy_cpp.Base.{
  ℕ, ◌≤◌, ◌≡◌, ◌≢◌, refl, ◌⊎◌, inl, inr, true, false, List, [], ◌∷◌, ◌++◌, length, arith, Attempt,
  refused, threw, accepted, cut, cut_lem, cut-append, has_char, no_colon, Option-cases, all_digits,
  value_from, value-lt_five, stol_in_range,
}
use kcp_proxy_cpp.Allowlist.{
  Target, parse_port_digits, with_port, parse_bracketed, parse_colon, parse_plain,
  parse_allow_target_entry,
}

-- One to five digits whose value is a port from 1 to 65535.
abbrev pub IsPort : List ℕ → ℕ → Type 0
IsPort digits port =
    (all_digits digits ≡ true)
    × (1 ≤ length digits)
    × (length digits ≤ 5)
    × (value_from 0 digits ≡ port)
    × (1 ≤ port)
    × (port ≤ 65535)

-- An entry without a port is the host itself or the host in brackets; one with a port adds a colon
-- and the digits.
abbrev pub IsSpelled : List ℕ → Target → Type 0
IsSpelled entry t =
    ((t.has_port ≡ false) × ((entry ≡ t.host) ⊎ (entry ≡ b'[' ∷ (t.host ++ (b']' ∷ [])))))
    ⊎ ((digits : List ℕ) × (t.has_port ≡ true)
        × IsPort digits t.port
        × ((entry ≡ t.host ++ (b':' ∷ digits))
            ⊎ (entry ≡ b'[' ∷ (t.host ++ (b']' ∷ (b':' ∷ digits))))))

-- A refusal, or a target with a host that the entry spells; never an exception.
abbrev pub Answered : List ℕ → Attempt Target → Type 0
Answered entry refused = Unit {0}
Answered entry threw = ⊥
Answered entry (accepted t) = (1 ≤ length t.host) × IsSpelled entry t

abbrev AnsweredPort : List ℕ → Attempt ℕ → Type 0
AnsweredPort digits refused = Unit {0}
AnsweredPort digits threw = ⊥
AnsweredPort digits (accepted port) = IsPort digits port

parse_port_digits-Answered : (digits : List ℕ) → AnsweredPort digits (parse_port_digits digits)
unfolding parse_port_digits
parse_port_digits-Answered digits = ground (arith, stol_in_range digits, value-lt_five digits)

with_port-Answered :
    (entry host digits : List ℕ) (r : Attempt ℕ)
    → 1 ≤ length host
    → (entry ≡ host ++ (b':' ∷ digits)) ⊎ (entry ≡ b'[' ∷ (host ++ (b']' ∷ (b':' ∷ digits))))
    → AnsweredPort digits r
    → Answered entry (with_port host r)
unfolding with_port
with_port-Answered entry host digits refused some_host spelled h = tt
with_port-Answered entry host digits threw some_host spelled h = h
with_port-Answered entry host digits (accepted port) some_host spelled h =
    (some_host, inr (digits, refl, h, spelled))

parse_bracketed-Answered :
    (entry host after : List ℕ)
    → entry ≡ b'[' ∷ (host ++ (b']' ∷ after))
    → Answered entry (parse_bracketed host after)
unfolding parse_bracketed
parse_bracketed-Answered entry [] after e = tt
parse_bracketed-Answered entry (h ∷ hs) [] e = (omega arith, inl (refl, inr e))
parse_bracketed-Answered entry (h ∷ hs) (c ∷ ds) e = ground (
  arith,
  e,
  with_port-Answered entry (h ∷ hs) ds (parse_port_digits ds),
  parse_port_digits-Answered ds,
)

parse_plain-Answered : (entry : List ℕ) → 1 ≤ length entry → Answered entry (parse_plain entry)
unfolding parse_plain parse_colon
parse_plain-Answered entry h = elim (Option-cases (cut b':' entry)) [
  | inl e ↦ rw (e, parse_plain) (h, inl (refl, inl refl))
  | inr ((a, b), e) ↦
      rw (e, parse_plain)
        (ground (
          arith,
          cut_lem b':' entry a b e,
          with_port-Answered entry a b (parse_port_digits b),
          parse_port_digits-Answered b,
        ))
]

-- Whatever the text, the parser answers: it refuses, or it gives a target that the text spells, with
-- a host that is not empty and, behind a colon, one to five digits for a port from 1 to 65535.
pub parse_allow_target_entry-Answered :
    (entry : List ℕ) → Answered entry (parse_allow_target_entry entry)
unfolding parse_allow_target_entry
parse_allow_target_entry-Answered [] = tt
parse_allow_target_entry-Answered (c ∷ rest) = elim (Option-cases (cut b']' rest)) [
  | inl e ↦ rw (e, parse_allow_target_entry) (ground (arith, parse_plain-Answered (c ∷ rest)))
  | inr ((a, b), e) ↦
      rw (e, parse_allow_target_entry)
        (ground (
          arith,
          cut_lem b']' rest a b e,
          parse_bracketed-Answered (c ∷ rest) a b,
          parse_plain-Answered (c ∷ rest),
        ))
]

-- An entry HOST:PORT is accepted as that host and port, where the host begins with no bracket and
-- holds no colon and the port is one to five digits for 1 to 65535.
pub parse_allow_target_entry-host_port :
    (h : ℕ) (hs digits : List ℕ) (port : ℕ)
    → h ≢ b'['
    → has_char b':' (h ∷ hs) ≡ false
    → IsPort digits port
    → parse_allow_target_entry ((h ∷ hs) ++ (b':' ∷ digits))
      ≡ accepted (record { host = h ∷ hs; has_port = true; port = port })
unfolding parse_allow_target_entry parse_plain parse_colon parse_port_digits with_port
parse_allow_target_entry-host_port h hs digits port plain clean p =
    ground (arith, cut-append b':' (h ∷ hs) digits clean, no_colon digits, stol_in_range digits)
