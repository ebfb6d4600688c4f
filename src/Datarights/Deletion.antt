-- ===== src/Datarights/Deletion.antt =====
-- services/datarights/internal/deletion: the engine that runs every deletion provider in turn, each
-- with up to three attempts.
pub mod Erasure
pub mod Tests
use gofin.Prelude.{
  ◌==◌, if◌then◌else◌, ℕ, zero, suc, ◌+◌, String, Option, none, some, List, [], ◌∷◌,
}
use gofin.Api.{Error}

abbrev pub max_retries : ℕ
max_retries = 3

-- In milliseconds, after the first attempt and after the second.
unfoldable pub backoff : ℕ → ℕ
backoff attempt = if attempt == 1 then 1000 else 2000

-- The providers, by an identifier `K`, on the state `S` of all that they act on; and the wait for a
-- time, which gives the context's error where the context ends first.
pub record Providers (K S : Type 0) : Type 0 where
  pub name : K → String
  pub delete : K → String → S → S × Option Error
  pub wait : ℕ → S → S × Option Error

pub record JobError : Type 0 where
  pub provider : String
  pub attempts : ℕ
  pub cause : Error

-- The loop of executeProvider from an attempt on, with the number of attempts left after it.
unfoldable pub attempt_from :
    {K S : Type 0} → Providers K S → K → String → ℕ → ℕ → S → S × (ℕ × Option Error)
unfolding backoff
attempt_from ps k user_id attempt zero s =
    let (s1, r) = ps.delete k user_id s in
    elim r [ none ↦ (s1, (attempt, none)) | some e ↦ (s1, (max_retries, some e)) ]
attempt_from ps k user_id attempt (suc left) s =
    let (s1, r) = ps.delete k user_id s in
    let (s2, c) = ps.wait (backoff attempt) s1 in
    let rest = attempt_from ps k user_id (attempt + 1) left s2 in
    elim r [
      | none ↦ (s1, (attempt, none))
      | some e ↦ elim c [ some expired ↦ (s2, (attempt, some expired)) | none ↦ rest ]
    ]

unfoldable pub execute_provider :
    {K S : Type 0} → Providers K S → K → String → S → S × (ℕ × Option Error)
unfolding attempt_from
execute_provider ps k user_id s = attempt_from ps k user_id 1 2 s

unfoldable pub execute : {K S : Type 0} → Providers K S → List K → String → S → S × Option JobError
unfolding execute_provider
execute ps [] user_id s = (s, none)
execute ps (k ∷ ks) user_id s =
    let (s1, r) = execute_provider ps k user_id s in
    elim r.1 [
      | some e ↦ (s1, some (record { provider = ps.name k; attempts = r.0; cause = e }))
      | none ↦ execute ps ks user_id s1
    ]
