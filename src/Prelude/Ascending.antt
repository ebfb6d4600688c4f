-- ===== src/Prelude/Ascending.antt =====
-- Lists in strictly ascending order, for any strict order as a test.
use mathlib.Core.Path.{◌≡◌, refl, ap}
use mathlib.Core.Logic.{inl, inr, ◌⊎◌}
use mathlib.Core.Bool.{Bool, true, false, not}
use mathlib.Core.List.{List, [], ◌∷◌, ◌++◌}
use gofin.Prelude.Tests.{Bool-cases}
use gofin.Prelude.Lists.{All, keep, insert_by, sort_by}
use gofin.Prelude.Alls.{All-weaken, All-insert_by, All-sort_by}

module _ {A : Type 0} (lt : A → A → Bool) where
  abbrev pub Ascending : List A → Type 0
  Ascending [] = Unit
  Ascending (x ∷ xs) = All (λ y. lt x y ≡ true) xs × Ascending xs

  -- Every two elements are in order one way or the other.
  abbrev pub Apart : List A → Type 0
  Apart [] = Unit
  Apart (x ∷ xs) = All (λ y. (lt x y ≡ true) ⊎ (lt y x ≡ true)) xs × Apart xs

  -- The order by which rows are sorted.
  abbrev pub not_behind : A → A → Bool
  not_behind a b = not (lt b a)

  keep_lem : (p : A → Bool) (xs : List A) → All (λ x. p x ≡ true) xs → keep p xs ≡ xs
  keep_lem p [] h = refl
  keep_lem p (x ∷ xs) (h, hs) = rw h (ap (λ ys. x ∷ ys) (keep_lem p xs hs))

  pub All-middle :
      (P : A → Type 0) (xs : List A) (c : A) (ys : List A) → All P (xs ++ (c ∷ ys)) → P c
  All-middle P [] c ys (h, hs) = h
  All-middle P (x ∷ xs) c ys (h, hs) = All-middle P xs c ys hs

  module _ (irrefl : (a : A) → lt a a ≡ false)
      (trans : (a b c : A) → lt a b ≡ true → lt b c ≡ true → lt a c ≡ true) where
    asym : (a b : A) → lt a b ≡ true → lt b a ≡ false
    asym a b h = elim (Bool-cases (lt b a)) [
      | inl e ↦ let t = trans a b a h e in let r = irrefl a in cc
      | inr e ↦ e
    ]

    insert_by-Ascending :
        (x : A) (xs : List A)
        → All (λ y. (lt x y ≡ true) ⊎ (lt y x ≡ true)) xs
        → Ascending xs
        → Ascending (insert_by not_behind x xs)
    insert_by-Ascending x [] k h = (tt, tt)
    insert_by-Ascending x (y ∷ ys) (inl e, k) (h, hs) =
        rw (asym x y e) ((e, All-weaken _ _ (λ z g. trans x y z e g) ys h), (h, hs))
    insert_by-Ascending x (y ∷ ys) (inr e, k) (h, hs) =
        rw e (All-insert_by _ not_behind x ys e h, insert_by-Ascending x ys k hs)

    pub sort_by-Ascending : (xs : List A) → Apart xs → Ascending (sort_by not_behind xs)
    sort_by-Ascending [] k = tt
    sort_by-Ascending (x ∷ xs) (k, ks) =
        insert_by-Ascending x (sort_by not_behind xs) (All-sort_by _ not_behind xs k)
          (sort_by-Ascending xs ks)

    -- What stands behind an element of an ascending list is what the order puts after it.
    pub keep-after :
        (xs : List A) (c : A) (ys : List A)
        → Ascending (xs ++ (c ∷ ys))
        → keep (lt c) (xs ++ (c ∷ ys)) ≡ ys
    keep-after [] c ys (h, hs) = rw (irrefl c) (keep_lem (lt c) ys h)
    keep-after (x ∷ xs) c ys (h, hs) =
        rw (asym x c (All-middle _ xs c ys h)) (keep-after xs c ys hs)
