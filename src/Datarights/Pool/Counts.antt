-- ===== src/Datarights/Pool/Counts.antt =====
-- Counting the workers of a pool.
use gofin.Prelude.{if◌then◌else◌, All, ℕ, ◌+◌, ◌≡◌, Bool, List, [], ◌∷◌, ◌++◌, arith}
use gofin.Datarights.Pool.{Worker}

abbrev pub one_if : Bool → ℕ
one_if b = if b then 1 else 0

unfoldable pub count : (Worker → Bool) → List Worker → ℕ
count p [] = 0
count p (w ∷ ws) = one_if (p w) + count p ws

pub count-append :
    (p : Worker → Bool) (xs ys : List Worker) → count p (xs ++ ys) ≡ count p xs + count p ys
unfolding count
count-append p [] ys = omega arith
count-append p (x ∷ xs) ys = omega (arith, count-append p xs ys)

-- The count around one worker.
pub count-middle :
    (p : Worker → Bool) (pre post : List Worker) (w : Worker)
    → count p (pre ++ w ∷ post) ≡ count p pre + one_if (p w) + count p post
count-middle p pre post w =
    let e = count-append p pre (w ∷ post) in unfold count in omega (arith, e)

pub count-last :
    (p : Worker → Bool) (ws : List Worker) (w : Worker)
    → count p (ws ++ w ∷ []) ≡ count p ws + one_if (p w)
count-last p ws w = let e = count-middle p ws [] w in unfold count in omega (arith, e)

module _ (P : Worker → Type 0) where
  pub All-middle : (pre post : List Worker) (w : Worker) → All P (pre ++ w ∷ post) → P w
  All-middle [] post w (h, hs) = h
  All-middle (x ∷ pre) post w (h, hs) = All-middle pre post w hs

  pub All-replace :
      (pre post : List Worker) (w w' : Worker)
      → P w'
      → All P (pre ++ w ∷ post)
      → All P (pre ++ w' ∷ post)
  All-replace [] post w w' h (k, ks) = (h, ks)
  All-replace (x ∷ pre) post w w' h (k, ks) = (k, All-replace pre post w w' h ks)
