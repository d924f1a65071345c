-- ===== src/Base/Maps.antt =====
-- `std::unordered_map` as an association list over keys with a Boolean equality. The order of the
-- entries is that of their first insertion; no modelled code depends on it.
use Prim.Native.Nat.{ℕ, ◌+◌, ◌≤◌}
use mathlib.Core.Path.{◌≡◌, refl}
use mathlib.Core.Logic.{◌↔◌}
use mathlib.Core.Bool.{Bool, true}
use mathlib.Core.List.{List, [], ◌∷◌}
use mathlib.Core.Option.{Option, none, some}
use native.Mathlib.Omega.{arith}
use kcp_proxy_cpp.Base.Tests.{if◌then◌else◌, ==_iff, ◌==◌}
use kcp_proxy_cpp.Base.Lists.{length}
use kcp_proxy_cpp.Base.Bytes.{bytes_eq, bytes_eq_refl, eq_of_bytes_eq}

pub record Eq {ℓ} (A : Type ℓ) : Type ℓ where
  pub beq : A → A → Bool
  pub beq_iff : (a b : A) → (beq a b ≡ true) ↔ (a ≡ b)

pub nat_beq_iff : (a b : ℕ) → ((a == b) ≡ true) ↔ (a ≡ b)
nat_beq_iff a b = ==_iff a b

pub bytes_beq_iff : (a b : List ℕ) → (bytes_eq a b ≡ true) ↔ (a ≡ b)
bytes_beq_iff a b = (eq_of_bytes_eq a b, λ e. ground (arith, bytes_eq_refl a, e))

instance abbrev pub nat_eq : Eq ℕ
nat_eq = record { beq = ◌==◌; beq_iff = nat_beq_iff }

instance abbrev pub bytes_key : Eq (List ℕ)
bytes_key = record { beq = bytes_eq; beq_iff = bytes_beq_iff }

abbrev pub Map {ℓ κ} : Type ℓ → Type κ → Type (ℓ ⊔ κ)
Map K V = List (K × V)

pub beq_refl {ℓ} : {K : Type ℓ} ⦃e : Eq K⦄ (k : K) → e.beq k k ≡ true
beq_refl ⦃e⦄ k = (e.beq_iff k k).1 refl

module _ {ℓ κ} {K : Type ℓ} ⦃e : Eq K⦄ {V : Type κ} where
  abbrev pub map_find : K → Map K V → Option V
  map_find k [] = none
  map_find k ((j, v) ∷ m) = if e.beq j k then some v else map_find k m

  abbrev pub map_insert : K → V → Map K V → Map K V
  map_insert k v [] = (k, v) ∷ []
  map_insert k v ((j, w) ∷ m) = if e.beq j k then (k, v) ∷ m else (j, w) ∷ map_insert k v m

  abbrev pub map_erase : K → Map K V → Map K V
  map_erase k [] = []
  map_erase k ((j, w) ∷ m) = if e.beq j k then map_erase k m else (j, w) ∷ map_erase k m

  pub map_find-insert :
      (k j : K) (v : V) (m : Map K V)
      → map_find j (map_insert k v m) ≡ (if e.beq k j then some v else map_find j m)
  map_find-insert k j v [] = refl
  map_find-insert k j v ((i, w) ∷ m) =
      ground (arith, e.beq_iff k j, e.beq_iff i k, e.beq_iff i j, map_find-insert k j v m)

  pub map_find-erase :
      (k j : K) (m : Map K V)
      → map_find j (map_erase k m) ≡ (if e.beq k j then none else map_find j m)
  map_find-erase k j [] = ground arith
  map_find-erase k j ((i, w) ∷ m) =
      ground (arith, e.beq_iff k j, e.beq_iff i k, e.beq_iff i j, map_find-erase k j m)

  pub length-map_erase : (k : K) (m : Map K V) → length (map_erase k m) ≤ length m
  length-map_erase k [] = omega arith
  length-map_erase k ((j, w) ∷ m) = ground (arith, length-map_erase k m)

  -- Where a key is present, erasing it makes room.
  pub length-map_erase_found :
      (k : K) (v : V) (m : Map K V) → map_find k m ≡ some v → length (map_erase k m) + 1 ≤ length m
  length-map_erase_found k v [] h = absurd (ground arith)
  length-map_erase_found k v ((j, w) ∷ m) h =
      ground (arith, length-map_erase k m, length-map_erase_found k v m)

  pub length-map_insert : (k : K) (v : V) (m : Map K V) → length (map_insert k v m) ≤ length m + 1
  length-map_insert k v [] = omega arith
  length-map_insert k v ((j, w) ∷ m) = ground (arith, length-map_insert k v m)
