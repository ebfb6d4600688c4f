-- ===== src/Prelude/Order.antt =====
-- The order of texts by their characters' codes, which is that of their UTF-8 bytes.
use Prim.Native.Nat.{ℕ}
use Prim.Native.Char.{code}
use Prim.Native.String.{String, [], ◌∷◌}
use mathlib.Core.Path.{◌≡◌, refl, sym, subst, ◌∙◌}
use mathlib.Core.Logic.{inl, inr, ◌⊎◌}
use mathlib.Core.Bool.{Bool, true, false, ◌&&◌, ◌||◌}
use native.Mathlib.Omega.{arith}
use text.Mathlib.TextEquality.{Char-path, eq_iff}
use text.Mathlib.Text.{◌==◌ as str_eq}
use gofin.Prelude.Tests.{ltb, ◌==◌, Bool-cases}

unfoldable pub lt_str : String → String → Bool
lt_str [] [] = false
lt_str [] (d ∷ t) = true
lt_str (c ∷ s) [] = false
lt_str (c ∷ s) (d ∷ t) =
    let rest = lt_str s t in ltb (code c) (code d) || ((code c == code d) && rest)

pub lt_str_irreflexive : (s : String) → lt_str s s ≡ false
unfolding lt_str
lt_str_irreflexive [] = refl
lt_str_irreflexive (c ∷ s) = ground (arith, lt_str_irreflexive s)

pub lt_str_transitive : (s t u : String) → lt_str s t ≡ true → lt_str t u ≡ true → lt_str s u ≡ true
unfolding lt_str
lt_str_transitive [] [] u h k = cc
lt_str_transitive [] (d ∷ t) [] h k = cc
lt_str_transitive [] (d ∷ t) (e ∷ u) h k = refl
lt_str_transitive (c ∷ s) [] u h k = cc
lt_str_transitive (c ∷ s) (d ∷ t) [] h k = cc
lt_str_transitive (c ∷ s) (d ∷ t) (e ∷ u) h k = ground (arith, lt_str_transitive s t u)

three_ways : (m n : ℕ) → (ltb m n ≡ true) ⊎ ((ltb n m ≡ true) ⊎ (m ≡ n))
three_ways m n = ground arith

pub lt_str_connected : (s t : String) → (lt_str s t ≡ true) ⊎ ((lt_str t s ≡ true) ⊎ (s ≡ t))
unfolding lt_str
lt_str_connected [] [] = inr (inr refl)
lt_str_connected [] (d ∷ t) = inl refl
lt_str_connected (c ∷ s) [] = inr (inl refl)
lt_str_connected (c ∷ s) (d ∷ t) = elim (three_ways (code c) (code d)) [
  | inl h ↦ inl (ground arith)
  | inr (inl h) ↦ inr (inl (ground arith))
  | inr (inr e) ↦ elim (lt_str_connected s t) [
    | inl h ↦ inl (ground arith)
    | inr (inl h) ↦ inr (inl (ground arith))
    | inr (inr p) ↦ inr (inr λ i. Char-path c d e i ∷ p i)
  ]
]

-- Pairs of texts, by the first and then by the second.
abbrev pub lt_pair : String → String → String → String → Bool
lt_pair x i y j = lt_str x y || (str_eq y x && lt_str i j)

lt_pair_cases :
    (x i y j : String)
    → lt_pair x i y j ≡ true
    → (lt_str x y ≡ true) ⊎ ((y ≡ x) × (lt_str i j ≡ true))
lt_pair_cases x i y j h = elim (Bool-cases (lt_str x y)) [
  | inl e ↦ inl e
  | inr e ↦ let k = (eq_iff y x).0 in inr (k (ground arith), ground arith)
]

lt_pair_first : (x i y j : String) → lt_str x y ≡ true → lt_pair x i y j ≡ true
lt_pair_first x i y j h = rw h refl

lt_pair_second : (x i y j : String) → y ≡ x → lt_str i j ≡ true → lt_pair x i y j ≡ true
lt_pair_second x i y j p h = let e = (eq_iff y x).1 p in ground arith

pub lt_pair_irreflexive : (x i : String) → lt_pair x i x i ≡ false
lt_pair_irreflexive x i = ground (arith, lt_str_irreflexive x, lt_str_irreflexive i)

pub lt_pair_transitive :
    (x i y j z k : String)
    → lt_pair x i y j ≡ true
    → lt_pair y j z k ≡ true
    → lt_pair x i z k ≡ true
lt_pair_transitive x i y j z k h g = go (lt_pair_cases x i y j h) (lt_pair_cases y j z k g)
  where
    go :
        (lt_str x y ≡ true) ⊎ ((y ≡ x) × (lt_str i j ≡ true))
        → (lt_str y z ≡ true) ⊎ ((z ≡ y) × (lt_str j k ≡ true))
        → lt_pair x i z k ≡ true
    go (inl a) (inl b) = lt_pair_first x i z k (lt_str_transitive x y z a b)
    go (inl a) (inr (q, b)) = lt_pair_first x i z k (subst (λ w. lt_str x w ≡ true) (sym q) a)
    go (inr (p, a)) (inl b) = lt_pair_first x i z k (subst (λ w. lt_str w z ≡ true) p b)
    go (inr (p, a)) (inr (q, b)) = lt_pair_second x i z k (q ∙ p) (lt_str_transitive i j k a b)

pub lt_pair_connected :
    (x i y j : String) → str_eq i j ≡ false → (lt_pair x i y j ≡ true) ⊎ (lt_pair y j x i ≡ true)
lt_pair_connected x i y j d = elim (lt_str_connected x y) [
  | inl h ↦ inl (lt_pair_first x i y j h)
  | inr (inl h) ↦ inr (lt_pair_first y j x i h)
  | inr (inr p) ↦ elim (lt_str_connected i j) [
    | inl h ↦ inl (lt_pair_second x i y j (sym p) h)
    | inr (inl h) ↦ inr (lt_pair_second y j x i p h)
    | inr (inr q) ↦ let e = (eq_iff i j).1 q in cc
  ]
]
