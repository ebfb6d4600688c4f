-- ===== src/Exec.antt =====
-- Service methods that change the database and may fail. What was written before a failure stays
-- written, so the store comes back beside the error too.
pub mod Keeps
use gofin.Prelude.{◌≡◌, refl}
use gofin.Api.{Error, Result, ok, err}

abbrev pub Exec {ℓ} : Type ℓ → Type ℓ → Type ℓ
Exec S A = S → S × Result A

-- An error is replaced.
abbrev pub or_error {ℓ} : {A : Type ℓ} → Error → Result A → Result A
or_error e (ok a) = ok a
or_error e (err x) = err e

module _ {ℓ} {S A : Type ℓ} where
  unfoldable pub pure : A → Exec S A
  pure a s = (s, ok a)

  unfoldable pub raise : Error → Exec S A
  raise e s = (s, err e)

  unfoldable pub lift : Result A → Exec S A
  lift r s = (s, r)

  unfoldable pub gets : (S → A) → Exec S A
  gets f s = (s, ok (f s))

  -- The Go idiom of a call whose error is looked at.
  unfoldable pub attempt : Exec S A → Exec S (Result A)
  attempt m s = ((m s).0, ok (m s).1)

module _ {ℓ} {S A B : Type ℓ} where
  abbrev pub continue : S → Result A → (A → Exec S B) → S × Result B
  continue s (ok a) f = f a s
  continue s (err e) f = (s, err e)

  infixl 5 ◌>>=◌ ◌>>◌
  unfoldable pub ◌>>=◌ : Exec S A → (A → Exec S B) → Exec S B
  unfolding pure raise lift gets attempt
  ◌>>=◌ m f s = continue (m s).0 (m s).1 f

  abbrev pub ◌>>◌ : Exec S A → Exec S B → Exec S B
  m >> n = m >>= λ _. n

  -- What a call that succeeded has done, step by step.
  pub bind-ok :
      (m : Exec S A) (f : A → Exec S B) (s : S) {b : B}
      → ((m >>= f) s).1 ≡ ok b
      → (a : A) × ((m s).1 ≡ ok a) × ((m >>= f) s ≡ f a (m s).0)
  unfolding ◌>>=◌
  bind-ok m f s {b} h = go (m s).0 (m s).1 h
    where
      go :
          (t : S) (r : Result A)
          → (continue t r f).1 ≡ ok b
          → (a : A) × (r ≡ ok a) × (continue t r f ≡ f a t)
      go t (ok a) h' = (a, refl, refl)
      go t (err e) h' = cc

-- A call that writes nothing, and the rest after each answer of its.
pub bind-read {ℓ κ} :
    {S A B : Type ℓ} (Post : S × Result B → Type κ) (m : Exec S A) (f : A → Exec S B) (s : S)
    → (m s).0 ≡ s
    → ((e : Error) → (m s).1 ≡ err e → Post (s, err e))
    → ((a : A) → (m s).1 ≡ ok a → Post (f a s))
    → Post ((m >>= f) s)
unfolding ◌>>=◌
bind-read {S} {A} {B} Post m f s p bad good = rw p (go (m s).1 refl)
  where
    go : (r : Result A) → (m s).1 ≡ r → Post (continue s r f)
    go (err e) h = bad e h
    go (ok a) h = good a h
