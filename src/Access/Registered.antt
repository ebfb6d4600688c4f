-- ===== src/Access/Registered.antt =====
-- services/access/coverage.go: a service's routes against the registry.
use text.Mathlib.Text.{starts_with}
use gofin.Prelude.{
  if◌then◌else◌, Bool-cases, is_empty, any, keep, All, String, ◌≡◌, refl, sym, ap, ◌↔◌, inl, inr,
  Bool, true, false, not, ◌&&◌, List, [], ◌∷◌, map, Memᴰ, arith, eq_iff, str_eq,
}
use gofin.Access.Levels.{Route}
use gofin.Access.Registry.{routes_for}

pub record RegisteredRoute : Type 0 where
  pub method : String
  pub path : String

abbrev pub same_route : RegisteredRoute → RegisteredRoute → Bool
same_route a b = str_eq a.method b.method && str_eq a.path b.path

abbrev pub registered_as : Route → RegisteredRoute
registered_as r = record { method = r.method; path = r.path }

-- `strings.HasPrefix(path, "/api/")`.
abbrev pub is_api : RegisteredRoute → Bool
is_api r = starts_with r.path "/api/"

-- The routes that are registered and not wanted, and those that are wanted and not registered:
-- the sets of the source are lists, which it only asks for membership.
unfoldable pub extra : List Route → List RegisteredRoute → List RegisteredRoute
extra want registered =
    keep (λ r. is_api r && not (any (λ w. same_route (registered_as w) r) want)) registered

unfoldable pub missing : List Route → List RegisteredRoute → List Route
missing want registered =
    keep (λ w. not (any (λ r. same_route r (registered_as w)) registered)) want

pub data Verdict : Type 0 where
  agrees : Verdict
  diverges : List RegisteredRoute → List Route → Verdict

-- `VerifyRegistration`; the sorting and the text of its error are left out.
unfoldable pub verify_against : List Route → List RegisteredRoute → Verdict
verify_against want registered =
    let e = extra want registered in
    let m = missing want registered in if is_empty e && is_empty m then agrees else diverges e m

unfoldable pub verify_registration : String → List RegisteredRoute → Verdict
verify_registration service registered = verify_against (routes_for service) registered

same_route_iff : (a b : RegisteredRoute) → (same_route a b ≡ true) ↔ (a ≡ b)
same_route_iff a b = ground (arith, eq_iff a.method b.method, eq_iff a.path b.path)

is_empty-keep {ℓ} :
    {A : Type ℓ} (p : A → Bool) (xs : List A)
    → (is_empty (keep p xs) ≡ true) ↔ All (λ x. p x ≡ false) xs
is_empty-keep p [] = (λ _. tt, λ _. refl)
is_empty-keep p (x ∷ xs) = elim (Bool-cases (p x)) [
  | inl e ↦ (rw e (λ h. cc), λ h. cc)
  | inr e ↦ (rw e (λ h. (refl, (is_empty-keep p xs).0 h)), rw e (λ h. (is_empty-keep p xs).1 h.1))
]

-- A loop that looks for an element equal to `a` decides membership.
module _ {A B : Type 0} (f : B → A) (a : A) (p : B → Bool)
    (p_iff : (b : B) → (p b ≡ true) ↔ (f b ≡ a)) where
  Mem_of_any : (bs : List B) → any p bs ≡ true → Memᴰ a (map f bs)
  Mem_of_any [] h = cc
  Mem_of_any (b ∷ bs) h = elim (Bool-cases (p b)) [
    | inl e ↦ Memᴰ.head (sym ((p_iff b).0 e))
    | inr e ↦ Memᴰ.tail (Mem_of_any bs (rw e at h))
  ]

  any_of_Mem : (bs : List B) → Memᴰ a (map f bs) → any p bs ≡ true
  any_of_Mem [] m = elim m [ ]
  any_of_Mem (b ∷ bs) (Memᴰ.head e) = rw ((p_iff b).1 (sym e))
  any_of_Mem (b ∷ bs) (Memᴰ.tail m) = ground (arith, any_of_Mem bs m)

-- Two flags are raised over two lists exactly as two decisions say.
is_wanted_iff :
    (want : List Route) (r : RegisteredRoute)
    → (any (λ w. same_route (registered_as w) r) want ≡ true) ↔ Memᴰ r (map registered_as want)
is_wanted_iff want r = (
  Mem_of_any registered_as r (λ w. same_route (registered_as w) r)
      (λ w. same_route_iff (registered_as w) r) want,
  any_of_Mem registered_as r (λ w. same_route (registered_as w) r)
      (λ w. same_route_iff (registered_as w) r) want,
)

map-id_route : (rs : List RegisteredRoute) → map (λ r. r) rs ≡ rs
map-id_route [] = refl
map-id_route (r ∷ rs) = ap (λ l. r ∷ l) (map-id_route rs)

is_registered_iff :
    (registered : List RegisteredRoute) (w : RegisteredRoute)
    → (any (λ r. same_route r w) registered ≡ true) ↔ Memᴰ w registered
is_registered_iff registered w = (
  λ h.
      rw (map-id_route registered) at
        (Mem_of_any (λ r. r) w (λ r. same_route r w) (λ r. same_route_iff r w) registered h),
  λ m.
      any_of_Mem (λ r. r) w (λ r. same_route r w) (λ r. same_route_iff r w) registered
        (rw (map-id_route registered) m),
)

All-iff :
    {A : Type 0} {P Q : A → Type 0} (xs : List A) → ((x : A) → P x ↔ Q x) → All P xs ↔ All Q xs
All-iff [] e = (λ _. tt, λ _. tt)
All-iff (x ∷ xs) e =
    (λ h. ((e x).0 h.0, (All-iff xs e).0 h.1), λ h. ((e x).1 h.0, (All-iff xs e).1 h.1))

-- Every API route that the service registered is one of its routes in the registry.
abbrev pub NothingExtra : List Route → List RegisteredRoute → Type 0
NothingExtra want registered =
    All (λ r. is_api r ≡ true → Memᴰ r (map registered_as want)) registered

-- Every route that the registry has for the service was registered.
abbrev pub NothingMissing : List Route → List RegisteredRoute → Type 0
NothingMissing want registered = All (λ w. Memᴰ (registered_as w) registered) want

extra_iff :
    (want : List Route) (registered : List RegisteredRoute)
    → (is_empty (extra want registered) ≡ true) ↔ NothingExtra want registered
unfolding extra
extra_iff want registered =
    let (to, from) =
      is_empty-keep (λ r. is_api r && not (any (λ w. same_route (registered_as w) r) want))
        registered in
    let step = All-iff registered one in (λ h. step.0 (to h), λ h. from (step.1 h))
  where
    one :
        (r : RegisteredRoute)
        → ((is_api r && not (any (λ w. same_route (registered_as w) r) want)) ≡ false)
          ↔ (is_api r ≡ true → Memᴰ r (map registered_as want))
    one r = (
      λ h api. (is_wanted_iff want r).0 (ground arith),
      λ h. elim (Bool-cases (is_api r)) [
        | inl api ↦ rw (api, (is_wanted_iff want r).1 (h api))
        | inr other ↦ rw other
      ],
    )

missing_iff :
    (want : List Route) (registered : List RegisteredRoute)
    → (is_empty (missing want registered) ≡ true) ↔ NothingMissing want registered
unfolding missing
missing_iff want registered =
    let (to, from) =
      is_empty-keep (λ w. not (any (λ r. same_route r (registered_as w)) registered)) want in
    let step = All-iff want one in (λ h. step.0 (to h), λ h. from (step.1 h))
  where
    one :
        (w : Route)
        → (not (any (λ r. same_route r (registered_as w)) registered) ≡ false)
          ↔ Memᴰ (registered_as w) registered
    one w = (
      λ h. (is_registered_iff registered (registered_as w)).0 (ground arith),
      λ m. rw ((is_registered_iff registered (registered_as w)).1 m),
    )

verify_against_iff :
    (want : List Route) (registered : List RegisteredRoute)
    → (verify_against want registered ≡ agrees)
      ↔ (NothingExtra want registered × NothingMissing want registered)
unfolding verify_against
verify_against_iff want registered =
    let (to_extra, from_extra) = extra_iff want registered in
    let (to_missing, from_missing) = missing_iff want registered in
    (
      λ h. (to_extra (ground arith), to_missing (ground arith)),
      λ h. rw (from_extra h.0, from_missing h.1),
    )

-- `VerifyRegistration` accepts a router exactly when every API route of it is a registry route of
-- the service, byte for byte, and every registry route of the service is registered.
pub verify_registration_iff :
    (service : String) (registered : List RegisteredRoute)
    → (verify_registration service registered ≡ agrees) ↔ (
        NothingExtra (routes_for service) registered
        × NothingMissing (routes_for service) registered)
unfolding verify_registration
verify_registration_iff service registered = verify_against_iff (routes_for service) registered
