-- ===== src/Prelude/Alls.antt =====
-- `All` through the list functions.
use mathlib.Core.Path.{◌≡◌, refl, sym, subst}
use mathlib.Core.Logic.{inl, inr}
use mathlib.Core.Bool.{Bool, true, false}
use mathlib.Core.List.{List, [], ◌∷◌, ◌++◌, Memᴰ}
use gofin.Prelude.Tests.{if◌then◌else◌, Bool-cases}
use gofin.Prelude.Lists.{All, keep, insert_by, sort_by}

module _ {ℓ κ} {A : Type ℓ} (P : A → Type κ) where
  pub All_at : (x : A) (xs : List A) → All P xs → Memᴰ x xs → P x
  All_at x [] hs m = elim m [ ]
  All_at x (y ∷ ys) (h, hs) m = elim m [
    | Memᴰ.head e ↦ subst P (sym e) h
    | Memᴰ.tail m' ↦ All_at x ys hs m'
  ]

  pub All-everywhere : ((x : A) → P x) → (xs : List A) → All P xs
  All-everywhere k [] = tt
  All-everywhere k (x ∷ xs) = (k x, All-everywhere k xs)

  pub All-weaken : (Q : A → Type κ) → ((x : A) → P x → Q x) → (xs : List A) → All P xs → All Q xs
  All-weaken Q f [] hs = tt
  All-weaken Q f (x ∷ xs) (h, hs) = (f x h, All-weaken Q f xs hs)

  pub All-append : (xs ys : List A) → All P xs → All P ys → All P (xs ++ ys)
  All-append [] ys hx hy = hy
  All-append (x ∷ xs) ys (h, hs) hy = (h, All-append xs ys hs hy)

  pub All-keep : (p : A → Bool) (xs : List A) → All P xs → All P (keep p xs)
  All-keep p [] hs = tt
  All-keep p (x ∷ xs) (h, hs) = elim (Bool-cases (p x)) [
    | inl e ↦ rw e (h, All-keep p xs hs)
    | inr e ↦ rw e (All-keep p xs hs)
  ]

  -- What holds of the elements that a test keeps.
  pub All-of_keep :
      (p : A → Bool) (xs : List A) → All P (keep p xs) → All (λ x. p x ≡ true → P x) xs
  All-of_keep p [] hs = tt
  All-of_keep p (x ∷ xs) hs = go (p x) refl (All-of_keep p xs) hs
    where
      go :
          (b : Bool)
          → p x ≡ b
          → (All P (keep p xs) → All (λ y. p y ≡ true → P y) xs)
          → All P (if b then x ∷ keep p xs else keep p xs)
          → All (λ y. p y ≡ true → P y) (x ∷ xs)
      go true e rest (h, ks) = (λ c. h, rest ks)
      go false e rest ks = (λ c. cc, rest ks)

  pub All-insert_by :
      (before : A → A → Bool) (x : A) (xs : List A) → P x → All P xs → All P (insert_by before x xs)
  All-insert_by before x [] h hs = (h, tt)
  All-insert_by before x (y ∷ ys) h (k, ks) = elim (Bool-cases (before x y)) [
    | inl e ↦ rw e (h, (k, ks))
    | inr e ↦ rw e (k, All-insert_by before x ys h ks)
  ]

  pub All-sort_by : (before : A → A → Bool) (xs : List A) → All P xs → All P (sort_by before xs)
  All-sort_by before [] hs = tt
  All-sort_by before (x ∷ xs) (h, hs) =
      All-insert_by before x (sort_by before xs) h (All-sort_by before xs hs)

module _ {ℓ} {A : Type ℓ} where
  pub mem-keep : (p : A → Bool) (x : A) (xs : List A) → p x ≡ true → Memᴰ x xs → Memᴰ x (keep p xs)
  mem-keep p x [] h m = elim m [ ]
  mem-keep p x (y ∷ ys) h m = elim (Bool-cases (p y)) [
    | inl e ↦
        rw e
          (elim m [ Memᴰ.head q ↦ Memᴰ.head q | Memᴰ.tail m' ↦ Memᴰ.tail (mem-keep p x ys h m') ])
    | inr e ↦ rw e (elim m [ Memᴰ.head q ↦ cc | Memᴰ.tail m' ↦ mem-keep p x ys h m' ])
  ]

  mem-insert_by :
      (before : A → A → Bool) (x y : A) (ys : List A)
      → Memᴰ x (y ∷ ys)
      → Memᴰ x (insert_by before y ys)
  mem-insert_by before x y [] m = m
  mem-insert_by before x y (z ∷ zs) m = elim (Bool-cases (before y z)) [
    | inl e ↦ rw e m
    | inr e ↦ rw e (elim m [
      | Memᴰ.head q ↦ Memᴰ.tail (mem-insert_by before x y zs (Memᴰ.head q))
      | Memᴰ.tail m' ↦ elim m' [
        | Memᴰ.head q ↦ Memᴰ.head q
        | Memᴰ.tail k ↦ Memᴰ.tail (mem-insert_by before x y zs (Memᴰ.tail k))
      ]
    ])
  ]

  pub mem-sort_by :
      (before : A → A → Bool) (x : A) (xs : List A) → Memᴰ x xs → Memᴰ x (sort_by before xs)
  mem-sort_by before x [] m = m
  mem-sort_by before x (y ∷ ys) m =
      mem-insert_by before x y (sort_by before ys) (elim m [
        | Memᴰ.head q ↦ Memᴰ.head q
        | Memᴰ.tail m' ↦ Memᴰ.tail (mem-sort_by before x ys m')
      ])
