-- ===== src/Base/Parsing.antt =====
-- What a parser that reports failure by a flag does: it refuses, it lets an exception out, or it
-- accepts. And a text cut at the first occurrence of a character.
use Prim.Native.Nat.{ℕ}
use mathlib.Core.Path.{◌≡◌, refl}
use mathlib.Core.Logic.{inl, inr}
use mathlib.Core.Bool.{Bool, false, ◌||◌}
use mathlib.Core.List.{List, [], ◌∷◌, ◌++◌}
use mathlib.Core.Option.{Option, none, some}
use native.Mathlib.Omega.{arith}
use kcp_proxy_cpp.Base.Tests.{Option-cases, if◌then◌else◌, ◌==◌}

pub data Attempt {ℓ} (A : Type ℓ) : Type ℓ where
  refused : Attempt A
  threw : Attempt A
  accepted : A → Attempt A

abbrev pub has_char : ℕ → List ℕ → Bool
has_char c [] = false
has_char c (x ∷ xs) = (x == c) || has_char c xs

-- A character before the cut joins the part in front.
abbrev pub cut_under : ℕ → Option (List ℕ × List ℕ) → Option (List ℕ × List ℕ)
cut_under x none = none
cut_under x (some (before, after)) = some (x ∷ before, after)

-- `find(c)` with the two `substr` around it; `none` is `npos`.
abbrev pub cut : ℕ → List ℕ → Option (List ℕ × List ℕ)
cut c [] = none
cut c (x ∷ xs) = if x == c then some ([], xs) else cut_under x (cut c xs)

pub cut_lem :
    (c : ℕ) (text before after : List ℕ)
    → cut c text ≡ some (before, after)
    → (text ≡ before ++ (c ∷ after)) × (has_char c before ≡ false)
cut_lem c [] before after h = absurd (ground arith)
cut_lem c (x ∷ xs) [] after h = elim (Option-cases (cut c xs)) [
  | inl e ↦ ground (arith, e)
  | inr ((b, a), e) ↦ ground (arith, e)
]
cut_lem c (x ∷ xs) (y ∷ ys) after h = elim (Option-cases (cut c xs)) [
  | inl e ↦ absurd (ground (arith, e))
  | inr ((b, a), e) ↦ ground (arith, e, cut_lem c xs ys after)
]

pub cut-append :
    (c : ℕ) (before after : List ℕ)
    → has_char c before ≡ false
    → cut c (before ++ (c ∷ after)) ≡ some (before, after)
cut-append c [] after h = ground arith
cut-append c (x ∷ before) after h = ground (arith, cut-append c before after)

pub cut-none : (c : ℕ) (text : List ℕ) → has_char c text ≡ false → cut c text ≡ none
cut-none c [] h = refl
cut-none c (x ∷ xs) h = ground (arith, cut-none c xs)
