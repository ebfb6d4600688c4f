-- ===== src/Auth/Calls/Steps.antt =====
-- What a service method has passed where it succeeds.
use gofin.Prelude.{◌≡◌, refl, Bool, true, false, Option, none, some}
use gofin.Exec.{pure, raise, or_error, Exec, ◌>>=◌, ◌>>◌}
use gofin.Auth.Model.{Store}
use gofin.Auth.Service.{require_not, require}
use gofin.Api.{Error, Result, ok, err}

pub ok-injective : {A : Type 0} {a b : A} → ok a ≡ ok b → a ≡ b
ok-injective h = cc

pub or_error-ok : {A : Type 0} (e : Error) (r : Result A) {a : A} → or_error e r ≡ ok a → r ≡ ok a
or_error-ok e (ok b) h = h
or_error-ok e (err x) h = cc

pub require_not-ok :
    {B : Type 0} (e : Error) (b : Bool) (m : Exec Store B) (s : Store) {x : B}
    → ((require_not e b >> m) s).1 ≡ ok x
    → (b ≡ false) × ((require_not e b >> m) s ≡ m s)
unfolding require_not raise pure ◌>>=◌
require_not-ok e false m s h = (refl, refl)
require_not-ok e true m s h = cc

pub require-ok :
    {A B : Type 0} (e : Error) (o : Option A) (f : A → Exec Store B) (s : Store) {x : B}
    → ((require e o >>= f) s).1 ≡ ok x
    → (a : A) × (o ≡ some a) × ((require e o >>= f) s ≡ f a s)
unfolding require raise pure ◌>>=◌
require-ok e (some a) f s h = (a, refl, refl)
require-ok e none f s h = cc
