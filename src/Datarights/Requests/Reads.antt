-- ===== src/Datarights/Requests/Reads.antt =====
-- What the reads and the guards of services/datarights/internal/service give.
use gofin.Prelude.{String, ◌≡◌, refl, Bool, true, false, Option, none, some}
use gofin.Exec.{bind-read, ◌>>◌, raise, pure, gets, Exec, ◌>>=◌}
use gofin.Api.{err, Error, Result, ok}
use gofin.Datarights.Jobs.{Database, query, Tables}
use gofin.Datarights.Requests.{raise, ok, check_that}

-- A call that writes nothing, and whose answer, where it is one, has the property.
abbrev pub Answers : {A : Type 0} → (A → Type 0) → Exec Tables A → Tables → Type 0
Answers {A} P m s = ((m s).0 ≡ s) × ((a : A) → (m s).1 ≡ ok a → P a)

-- The rest of a method after such a call.
pub bind-Answers :
    {A B : Type 0} {P : A → Type 0} (Post : Tables × Result B → Type 0) (m : Exec Tables A)
    (f : A → Exec Tables B) (s : Tables)
    → Answers P m s
    → ((e : Error) → Post (s, err e))
    → ((a : A) → P a → Post (f a s))
    → Post ((m >>= f) s)
bind-Answers Post m f s (same, gives) bad good =
    bind-read Post m f s same (λ e h. bad e) λ a h. good a (gives a h)

pub query-Answers :
    {A : Type 0} (db : Database) (name : String) (f : Tables → A) (s : Tables)
    → Answers (λ a. f s ≡ a) (query db name >> gets f) s
unfolding query gets ◌>>=◌
query-Answers {A} db name f s = go (db.statement name) refl
  where
    go :
        (o : Option Error)
        → db.statement name ≡ o
        → Answers (λ a. f s ≡ a) (query db name >> gets f) s
    go none h = rw h (refl, λ a k. cc)
    go (some e) h = rw h (refl, λ a k. cc)

pub check_that-Answers :
    (b : Bool) (e : Error) (s : Tables) → Answers (λ c. b ≡ true) (check_that b e) s
unfolding check_that pure raise
check_that-Answers true e s = (refl, λ c k. refl)
check_that-Answers false e s = (refl, λ c k. cc)

-- Two such calls after each other are one.
pub then-Answers :
    {A B : Type 0} {P : A → Type 0} {Q : B → Type 0} (m : Exec Tables A) (f : A → Exec Tables B)
    (s : Tables)
    → Answers P m s
    → ((a : A) → P a → Answers Q (f a) s)
    → Answers Q (m >>= f) s
then-Answers {A} {B} {P} {Q} m f s first rest =
    bind-Answers (λ r. (r.0 ≡ s) × ((b : B) → r.1 ≡ ok b → Q b)) m f s first
      (λ e. (refl, λ b h. cc)) rest

pub weaken-Answers :
    {A : Type 0} {P Q : A → Type 0} (m : Exec Tables A) (s : Tables)
    → ((a : A) → P a → Q a)
    → Answers P m s
    → Answers Q m s
weaken-Answers m s k (same, gives) = (same, λ a h. k a (gives a h))
