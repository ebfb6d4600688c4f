-- ===== src/Access/Overlap.antt =====
-- Requests that more than one route answers: services/access/registry.go read by
-- services/access/resolver.go.
use gofin.Prelude.{
  ◌==◌, if◌then◌else◌, Bool-cases, ℕ, String, ◌≡◌, refl, sym, ap, subst, ◌∙◌, ◌≢◌, ◌⊎◌, inl, inr,
  Bool, true, false, not, ◌&&◌, ◌||◌, List, [], ◌∷◌, Memᴰ, arith, eq_iff, str_eq, eq_refl,
}
use gofin.Prelude.Alls.{All_at}
use gofin.Access.Resolver.Best.{resolve_in-Chosen}
use gofin.Access.Resolver.{fits, match_pattern, resolve, match_segments}
use gofin.Access.Levels.{deny, admin, personal, authenticated, public, Level, Route}
use gofin.Prelude.Text.{split_slash, has_prefix}
use gofin.Access.Registry.{registry}

not_equal : (a b : String) → a ≢ b → str_eq a b ≡ false
not_equal a b h = elim (Bool-cases (str_eq a b)) [
  | inl e ↦ absurd (h ((eq_iff a b).0 e))
  | inr e ↦ e
]

-- The segments of a path are those of a pattern, where a segment `:name` stands for any one that is
-- not empty.
abbrev pub Instance : List String → List String → Type 0
Instance [] [] = Unit
Instance [] (part ∷ parts) = ⊥
Instance (seg ∷ segs) [] = ⊥
Instance (seg ∷ segs) (part ∷ parts) =
    ((seg ≡ part) ⊎ ((has_prefix b':' seg ≡ true) × (part ≢ ""))) × Instance segs parts

empty-has_prefix : (p : ℕ) (s : String) → str_eq s "" ≡ true → has_prefix p s ≡ false
unfolding has_prefix
empty-has_prefix p s h = let e = (eq_iff s "").0 h in rw e

same-match_segments :
    (seg : String) (segs parts : List String)
    → match_segments segs parts ≡ true
    → match_segments (seg ∷ segs) (seg ∷ parts) ≡ true
unfolding match_segments
same-match_segments seg segs parts h = ground (arith, eq_refl seg, empty-has_prefix b':' seg)

Instance-match_segments :
    (segs parts : List String) → Instance segs parts → match_segments segs parts ≡ true
unfolding match_segments
Instance-match_segments [] [] h = refl
Instance-match_segments [] (part ∷ parts) h = absurd h
Instance-match_segments (seg ∷ segs) [] h = absurd h
Instance-match_segments (seg ∷ segs) (part ∷ parts) (inl e, h) =
    subst (λ q. match_segments (seg ∷ segs) (q ∷ parts) ≡ true) e
      (same-match_segments seg segs parts (Instance-match_segments segs parts h))
Instance-match_segments (seg ∷ segs) (part ∷ parts) (inr (c, e), h) =
    let rest = Instance-match_segments segs parts h in
    let filled : str_eq part "" ≡ false = not_equal part "" e in ground (arith, c, filled, rest)

-- Some path is of both patterns.
abbrev overlap : List String → List String → Bool
overlap [] [] = true
overlap [] (b ∷ bs) = has_prefix b'*' b
overlap (a ∷ as_) [] = has_prefix b'*' a
overlap (a ∷ as_) (b ∷ bs) =
    let rest = overlap as_ bs in
    (has_prefix b'*' a || has_prefix b'*' b)
    || ((has_prefix b':' a || has_prefix b':' b || str_eq a b) && rest)

equal_both : (a b part : String) → str_eq a part ≡ true → str_eq b part ≡ true → str_eq a b ≡ true
equal_both a b part h k = (eq_iff a b).1 ((eq_iff a part).0 h ∙ sym ((eq_iff b part).0 k))

match_both :
    (as_ bs parts : List String)
    → match_segments as_ parts ≡ true
    → match_segments bs parts ≡ true
    → overlap as_ bs ≡ true
unfolding match_segments
match_both [] [] parts h k = refl
match_both [] (b ∷ bs) [] h k = cc
match_both [] (b ∷ bs) (part ∷ parts) h k = cc
match_both (a ∷ as_) [] [] h k = cc
match_both (a ∷ as_) [] (part ∷ parts) h k = cc
match_both (a ∷ as_) (b ∷ bs) [] h k = cc
match_both (a ∷ as_) (b ∷ bs) (part ∷ parts) h k =
    ground (arith, equal_both a b part, match_both as_ bs parts)

abbrev all {ℓ} : {A : Type ℓ} → (A → Bool) → List A → Bool
all p [] = true
all p (x ∷ xs) = p x && all p xs

all_at {ℓ} :
    {A : Type ℓ} (p : A → Bool) (x : A) (xs : List A) → all p xs ≡ true → Memᴰ x xs → p x ≡ true
all_at p x [] h m = elim m [ ]
all_at p x (y ∷ ys) h m = elim m [
  | Memᴰ.head e ↦ subst (λ z. p z ≡ true) (sym e) (ground arith)
  | Memᴰ.tail m' ↦ all_at p x ys (ground arith) m'
]

abbrev rank : Level → ℕ
rank public = 0
rank authenticated = 1
rank personal = 2
rank admin = 3
rank deny = 4

abbrev ranked : ℕ → Level
ranked n =
    if n == 0
    then public
    else if n == 1
    then authenticated
    else if n == 2
    then personal
    else if n == 3
    then admin
    else deny

ranked-rank : (a : Level) → ranked (rank a) ≡ a
ranked-rank public = refl
ranked-rank authenticated = refl
ranked-rank personal = refl
ranked-rank admin = refl
ranked-rank deny = refl

same_level : (a b : Level) → rank a ≡ rank b → a ≡ b
same_level a b h = sym (ranked-rank a) ∙ ap ranked h ∙ ranked-rank b

-- Two routes are of the same level or of different methods, or no path is of both.
abbrev agree : Route → Route → Bool
agree a b =
    rank a.access == rank b.access
    || not (str_eq a.method b.method)
    || not (overlap (split_slash a.path) (split_slash b.path))

registry_agrees : all (λ a. all (agree a) registry) registry ≡ true
unfolding registry split_slash has_prefix
registry_agrees = refl

same_access :
    (a b : Route) (path : String)
    → agree a b ≡ true
    → fits b.method path a ≡ true
    → fits b.method path b ≡ true
    → a.access ≡ b.access
unfolding match_pattern
same_access a b path h ha hb =
    same_level a.access b.access
      (ground (arith, match_both (split_slash a.path) (split_slash b.path) (split_slash path)))

registry-agree : (a b : Route) → Memᴰ a registry → Memᴰ b registry → agree a b ≡ true
registry-agree a b ma mb =
    all_at (agree a) b registry (all_at (λ r. all (agree r) registry) a registry registry_agrees ma)
      mb

-- Every request with the method of a route of the registry and a path that is an instance of its
-- pattern is resolved to that route's own level, whichever other routes the request fits.
pub registry-resolve :
    (r : Route) (path : String)
    → Memᴰ r registry
    → Instance (split_slash r.path) (split_slash path)
    → resolve r.method path ≡ r.access
unfolding resolve
registry-resolve r path listed h = elim (resolve_in-Chosen registry r.method path) [
  | inl (denied, none_fit) ↦
      absurd (no_answer (All_at (λ x. fits r.method path x ≡ false) r registry none_fit listed))
  | inr (b, level, m, hit, unbeaten) ↦
      level ∙ same_access b r path (registry-agree b r m listed) hit fitting
]
  where
    fitting : fits r.method path r ≡ true
    fitting =
        unfold match_pattern in
        ground (
          arith,
          eq_refl r.method,
          Instance-match_segments (split_slash r.path) (split_slash path) h,
        )

    no_answer : fits r.method path r ≡ false → ⊥
    no_answer e = ground (arith, fitting)
