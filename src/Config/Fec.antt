-- ===== src/Config/Fec.antt =====
-- `FecConfig` and `parse_fec_config` (config.hpp).
use kcp_proxy_cpp.Base.{
  ℕ, ◌+◌, ◌≤◌, ◌<◌, ◌≡◌, ◌⊎◌, inl, inr, Bool, true, not, ◌&&◌, ◌||◌, ltb, ◌==◌, if◌then◌else◌, List,
  [], ◌∷◌, ◌++◌, length, none, some, Option-cases, arith, Attempt, refused, threw, accepted, cut,
  cut-append, all_digits, skip_zeros, value_from, stol, stol_in_range, value-lt_three, no_colon,
}

pub record FecConfig : Type 0 where
  pub data_shards : ℕ
  pub parity_shards : ℕ

-- `FecConfig{}`.
abbrev pub fec_off : FecConfig
fec_off = record { data_shards = 0; parity_shards = 0 }

abbrev pub enabled : FecConfig → Bool
enabled c = ltb 0 c.data_shards && ltb 0 c.parity_shards

-- The numeric checks behind the two conversions.
pub shards_of : ℕ → ℕ → Attempt FecConfig
shards_of shards parity =
    if shards == 0 && parity == 0
    then accepted fec_off
    else if ltb shards 1 || ltb parity 1 || ltb 256 (shards + parity) || ltb shards parity
    then refused
    else accepted (record { data_shards = shards; parity_shards = parity })

-- The texts on both sides of the colon.
pub parse_parts : List ℕ → List ℕ → Attempt FecConfig
unfolding shards_of
parse_parts data_part parity_part =
    if length data_part == 0
      || length parity_part == 0
      || not (all_digits data_part)
      || not (all_digits parity_part)
    then refused
    else if ltb 3 (length (skip_zeros data_part)) || ltb 3 (length (skip_zeros parity_part))
    then refused
    else elim (stol data_part) [
      | none ↦ threw
      | some shards ↦ elim (stol parity_part) [
        | none ↦ threw
        | some parity ↦ shards_of shards parity
      ]
    ]

pub parse_fec_config : List ℕ → Attempt FecConfig
unfolding parse_parts
parse_fec_config text = elim (cut b':' text) [
  | none ↦ refused
  | some (data_part, parity_part) ↦ parse_parts data_part parity_part
]

-- The configurations that the Reed-Solomon codec takes, and no more parity than data.
abbrev pub IsLegal : FecConfig → Type 0
IsLegal c =
    (c ≡ fec_off)
    ⊎ ((1 ≤ c.parity_shards)
        × (c.parity_shards ≤ c.data_shards)
        × (c.data_shards + c.parity_shards ≤ 256))

-- A refusal, or a legal configuration; never an exception.
abbrev pub Answered : Attempt FecConfig → Type 0
Answered refused = Unit {0}
Answered threw = ⊥
Answered (accepted c) = IsLegal c

shards_of-Answered : (shards parity : ℕ) → Answered (shards_of shards parity)
unfolding shards_of
shards_of-Answered shards parity = ground arith

parse_parts-Answered : (a b : List ℕ) → Answered (parse_parts a b)
unfolding parse_parts
parse_parts-Answered a b = ground (
  arith,
  stol_in_range a,
  stol_in_range b,
  value-lt_three a,
  value-lt_three b,
  shards_of-Answered (value_from 0 a) (value_from 0 b),
)

-- No text lets the exception of `std::stol` out of the parser, and what it accepts is either off or
-- a configuration with 1 <= parity <= data and data + parity <= 256.
pub parse_fec_config-Answered : (text : List ℕ) → Answered (parse_fec_config text)
unfolding parse_fec_config
parse_fec_config-Answered text = elim (Option-cases (cut b':' text)) [
  | inl e ↦ rw (e, parse_fec_config) tt
  | inr ((a, b), e) ↦ rw (e, parse_fec_config) (parse_parts-Answered a b)
]

-- `to_string` of an enabled configuration, over a decimal rendering of numbers.
pub to_string : (ℕ → List ℕ) → FecConfig → List ℕ
to_string decimal c =
    if enabled c
    then decimal c.data_shards ++ (b':' ∷ decimal c.parity_shards)
    else b'o' ∷ b'f' ∷ b'f' ∷ []

-- What `fmt` prints for a number below 1000: its digits.
abbrev pub IsDecimal : (ℕ → List ℕ) → Type 0
IsDecimal decimal =
    (n : ℕ)
    → n < 1000
    → (1 ≤ length (decimal n))
      × (all_digits (decimal n) ≡ true)
      × (length (skip_zeros (decimal n)) ≤ 3)
      × (value_from 0 (decimal n) ≡ n)

-- A legal configuration that is on is read back from its printed form.
pub parse_fec_config-to_string :
    (decimal : ℕ → List ℕ) (c : FecConfig)
    → IsDecimal decimal
    → 1 ≤ c.parity_shards
    → c.parity_shards ≤ c.data_shards
    → c.data_shards + c.parity_shards ≤ 256
    → parse_fec_config (to_string decimal c) ≡ accepted c
unfolding parse_fec_config to_string
parse_fec_config-to_string decimal c prints pos below sum =
    let a = decimal c.data_shards in
    let b = decimal c.parity_shards in
    let pa = prints c.data_shards (omega arith) in
    let pb = prints c.parity_shards (omega arith) in
    ground (arith, pa, pb, cut-append b':' a b, no_colon a, stol_in_range a, stol_in_range b)
