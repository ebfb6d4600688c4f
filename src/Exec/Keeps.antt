-- ===== src/Exec/Keeps.antt =====
-- Invariants of the methods: a rule for each way in which one is put together.
use gofin.Prelude.{if◌then◌else◌, ◌≡◌, refl, Bool, true, false}
use gofin.Exec.{bind-ok, Exec, pure, raise, lift, gets, attempt, continue, ◌>>=◌}
use gofin.Api.{Error, Result, ok, err}

-- The invariant `I` holds after the method, whatever its answer.
pub record Keeps {ℓ} {S A : Type ℓ} (I : S → Type ℓ) (act : Exec S A) : Type ℓ where
  pub after : (s : S) → I s → I (act s).0

module _ {ℓ} {S : Type ℓ} {I : S → Type ℓ} where
  -- Methods that write nothing.
  pub Keeps-lift : {A : Type ℓ} (answer : Result A) → Keeps I (lift answer)
  unfolding lift
  Keeps-lift answer = record { after = λ s i. i }

  pub Keeps-gets : {A : Type ℓ} (read : S → A) → Keeps I (gets read)
  unfolding gets
  Keeps-gets read = record { after = λ s i. i }

  pub Keeps-raise : {A : Type ℓ} (e : Error) → Keeps I (raise {A = A} e)
  unfolding raise
  Keeps-raise e = record { after = λ s i. i }

  pub Keeps-pure : {A : Type ℓ} (a : A) → Keeps I (pure a)
  unfolding pure
  Keeps-pure a = record { after = λ s i. i }

  -- Methods made of others.
  pub Keeps-attempt : {A : Type ℓ} (act : Exec S A) → Keeps I act → Keeps I (attempt act)
  unfolding attempt
  Keeps-attempt act k = record { after = λ s i. k.after s i }

  pub Keeps-if :
      {A : Type ℓ} (test : Bool) (act other : Exec S A)
      → Keeps I act
      → Keeps I other
      → Keeps I (if test then act else other)
  Keeps-if true act other k l = k
  Keeps-if false act other k l = l

  pub Keeps-bind :
      {A B : Type ℓ} (act : Exec S A) (rest : A → Exec S B)
      → Keeps I act
      → ((a : A) → Keeps I (rest a))
      → Keeps I (act >>= rest)
  unfolding ◌>>=◌
  Keeps-bind {A} act rest k l = record { after = λ s i. go (act s).0 (act s).1 (k.after s i) }
    where
      go : (t : S) (answer : Result A) → I t → I (continue t answer rest).0
      go t (ok a) i = (l a).after t i
      go t (err e) i = i

  -- The rest may use that the call has succeeded.
  pub Keeps-bind-lift :
      {A B : Type ℓ} (answer : Result A) (rest : A → Exec S B)
      → ((a : A) → answer ≡ ok a → Keeps I (rest a))
      → Keeps I (lift answer >>= rest)
  unfolding ◌>>=◌
  Keeps-bind-lift (err e) rest l = record { after = λ s i. i }
  Keeps-bind-lift (ok a) rest l = record { after = λ s i. (l a refl).after s i }

pub ruleset keeps_rules =
    (Keeps-bind, Keeps-lift, Keeps-gets, Keeps-raise, Keeps-pure, Keeps-attempt, Keeps-if)

-- Where the method succeeds, `Q` holds of what it leaves.
pub record Gives {ℓ} {S A : Type ℓ} (Q : S → Type ℓ) (m : Exec S A) : Type ℓ where
  pub after : (s : S) (a : A) → (m s).1 ≡ ok a → Q (m s).0

module _ {ℓ} {S A B : Type ℓ} {Q : S → Type ℓ} where
  pub Gives-bind : (m : Exec S A) (f : A → Exec S B) → ((a : A) → Gives Q (f a)) → Gives Q (m >>= f)
  Gives-bind m f k = record { after = go }
    where
      go : (s : S) (b : B) → ((m >>= f) s).1 ≡ ok b → Q ((m >>= f) s).0
      go s b h = let (a, p, q) = bind-ok m f s h in rw q ((k a).after (m s).0 b (rw q at h))

  pub Gives-then :
      (m : Exec S A) (f : A → Exec S B) → Gives Q m → ((a : A) → Keeps Q (f a)) → Gives Q (m >>= f)
  Gives-then m f g k = record { after = go }
    where
      go : (s : S) (b : B) → ((m >>= f) s).1 ≡ ok b → Q ((m >>= f) s).0
      go s b h = let (a, p, q) = bind-ok m f s h in rw q ((k a).after (m s).0 (g.after s a p))
