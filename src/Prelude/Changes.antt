-- ===== src/Prelude/Changes.antt =====
-- What an UPDATE and a DELETE with a condition leave of a table.
use mathlib.Core.Path.{◌≡◌, refl, sym, subst}
use mathlib.Core.Logic.{◌⊎◌, inl, inr}
use mathlib.Core.Bool.{Bool, true, false, not, ◌&&◌}
use mathlib.Core.List.{List, [], ◌∷◌, map, Memᴰ}
use text.Mathlib.TextEquality.{eq_iff}
use text.Mathlib.Text.{◌==◌ as str_eq}
use Prim.Native.String.{String}
use native.Mathlib.Omega.{arith}
use mathlib.Core.Option.{Option, some}
use gofin.Prelude.Tests.{if◌then◌else◌, Bool-cases}
use gofin.Prelude.Lists.{All, keep, length}

module _ {ℓ} {A : Type ℓ} where
  -- The lists are of the same length, and the elements at the same place are related.
  abbrev pub Pointwise : (A → A → Type 0) → List A → List A → Type 0
  Pointwise R [] [] = Unit
  Pointwise R [] (y ∷ ys) = ⊥
  Pointwise R (x ∷ xs) [] = ⊥
  Pointwise R (x ∷ xs) (y ∷ ys) = R x y × Pointwise R xs ys

  -- The second list is the first one without the elements that satisfy Q, and has all others in order.
  abbrev pub Removed : (A → Type ℓ) → List A → List A → Type ℓ
  Removed Q [] ys = ys ≡ []
  Removed Q (x ∷ xs) ys =
      (Q x × Removed Q xs ys) ⊎ ((zs : List A) × (ys ≡ x ∷ zs) × (¬ Q x) × Removed Q xs zs)

  pub Pointwise-map :
      (R : A → A → Type 0) (p : A → Bool) (f : A → A)
      → ((x : A) → p x ≡ true → R x (f x))
      → ((x : A) → p x ≡ false → R x x)
      → (xs : List A) → Pointwise R xs (map (λ x. if p x then f x else x) xs)
  Pointwise-map R p f on off [] = tt
  Pointwise-map R p f on off (x ∷ xs) = elim (Bool-cases (p x)) [
    | inl e ↦ rw e (on x e, Pointwise-map R p f on off xs)
    | inr e ↦ rw e (off x e, Pointwise-map R p f on off xs)
  ]

  pub Removed-keep :
      (Q : A → Type ℓ) (p : A → Bool)
      → ((x : A) → p x ≡ true → Q x)
      → ((x : A) → p x ≡ false → ¬ Q x)
      → (xs : List A) → Removed Q xs (keep (λ x. not (p x)) xs)
  Removed-keep Q p on off [] = refl
  Removed-keep Q p on off (x ∷ xs) = elim (Bool-cases (p x)) [
    | inl e ↦ rw e (inl (on x e, Removed-keep Q p on off xs))
    | inr e ↦ rw e (inr (keep (λ y. not (p y)) xs, refl, off x e, Removed-keep Q p on off xs))
  ]

  -- A count of nothing.
  pub length-keep-All :
      (p : A → Bool) (xs : List A) → length (keep p xs) ≡ 0 → All (λ x. p x ≡ false) xs
  length-keep-All p [] h = tt
  length-keep-All p (x ∷ xs) h = go (p x) refl h (length-keep-All p xs)
    where
      go :
          (b : Bool)
          → p x ≡ b
          → length (if b then x ∷ keep p xs else keep p xs) ≡ 0
          → (length (keep p xs) ≡ 0 → All (λ y. p y ≡ false) xs)
          → All (λ y. p y ≡ false) (x ∷ xs)
      go true e k later = absurd (omega (arith, k))
      go false e k later = (e, later k)

  -- A SELECT that answers with the first row of a test.
  pub found-Memᴰ :
      (P : A → Type 0) (b : Bool) (x e : A) (xs : List A) (rest : Option A)
      → (b ≡ true → P x)
      → (rest ≡ some e → Memᴰ e xs × P e)
      → (if b then some x else rest) ≡ some e
      → Memᴰ e (x ∷ xs) × P e
  found-Memᴰ P true x e xs rest here later h =
      let same : x ≡ e = cc in (Memᴰ.head (sym same), subst P same (here refl))
  found-Memᴰ P false x e xs rest here later h = let (m, q) = later h in (Memᴰ.tail m, q)

-- A row is named by its id and its user.
pub both_named :
    (a id b user_id : String) → (str_eq a id && str_eq b user_id) ≡ true → (a ≡ id) × (b ≡ user_id)
both_named a id b user_id h = elim (Bool-cases (str_eq a id)) [
  | inl e ↦ elim (Bool-cases (str_eq b user_id)) [
    | inl f ↦ ((eq_iff a id).0 e, (eq_iff b user_id).0 f)
    | inr f ↦ ground arith
  ]
  | inr e ↦ ground arith
]

pub not_both_named :
    (a id b user_id : String)
    → (str_eq a id && str_eq b user_id) ≡ false
    → ¬ ((a ≡ id) × (b ≡ user_id))
not_both_named a id b user_id h (p, q) = ground (arith, (eq_iff a id).1 p, (eq_iff b user_id).1 q)

pub not_named : (a id : String) → str_eq a id ≡ false → ¬ (a ≡ id)
not_named a id h p = ground (arith, (eq_iff a id).1 p)
