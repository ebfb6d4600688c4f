-- ===== src/Access/Resolver/Best.antt =====
-- The route that `Resolve` of services/access/resolver.go takes.
use gofin.Prelude.{
  if◌then◌else◌, Bool-cases, All, String, ◌≡◌, refl, sym, subst, ◌∙◌, ◌⊎◌, inl, inr, true, false,
  Option, none, some, List, [], ◌∷◌, Memᴰ, arith,
}
use gofin.Access.Levels.{deny, Route}
use gofin.Access.Resolver.Priority.{more_specific_weak, more_specific_irrefl, more_specific_trans}
use gofin.Access.Resolver.{resolve_in, more_specific, fits, consider, best_of}

-- `b` is `c` or outranks it.
abbrev Dominates : Route → Route → Type 0
Dominates b c = (b ≡ c) ⊎ (more_specific b.path c.path ≡ true)

Dominates-trans : (b c d : Route) → Dominates b c → Dominates c d → Dominates b d
Dominates-trans b c d h k = ground (arith, more_specific_trans b.path c.path d.path)

module _ (method path : String) where
  -- `r` does not answer the request, or does not outrank `b`.
  abbrev pub Unbeaten : Route → Route → Type 0
  Unbeaten b r = fits method path r ≡ true → more_specific r.path b.path ≡ false

  -- What the loop returns once it has a candidate `c`.
  abbrev Improves : Route → List Route → Option Route → Type 0
  Improves c rs out =
      (b : Route) × (out ≡ some b)
      × Dominates b c
      × ((b ≡ c) ⊎ (Memᴰ b rs × (fits method path b ≡ true)))
      × All (Unbeaten b) rs

  -- What one round makes of a candidate `c`.
  abbrev Round : Route → Route → Option Route → Type 0
  Round c r out =
      (d : Route) × (out ≡ some d)
      × Dominates d c
      × ((d ≡ c) ⊎ ((d ≡ r) × (fits method path r ≡ true)))
      × (fits method path r ≡ true → more_specific r.path d.path ≡ false)

  consider-Round : (c r : Route) → Round c r (consider method path (some c) r)
  unfolding consider
  consider-Round c r = elim (Bool-cases (fits method path r)) [
    | inr out ↦ (c, rw out, inl refl, inl refl, λ e. cc)
    | inl hit ↦ elim (Bool-cases (more_specific r.path c.path)) [
      | inl up ↦ (r, rw (hit, up), inr up, inr (refl, hit), λ _. more_specific_irrefl r.path)
      | inr down ↦ (c, rw (hit, down), inl refl, inl refl, λ _. down)
    ]
  ]

  origin :
      (b c d r : Route) (rs : List Route)
      → (b ≡ d) ⊎ (Memᴰ b rs × (fits method path b ≡ true))
      → (d ≡ c) ⊎ ((d ≡ r) × (fits method path r ≡ true))
      → (b ≡ c) ⊎ (Memᴰ b (r ∷ rs) × (fits method path b ≡ true))
  origin b c d r rs (inr (m, h)) from = inr (Memᴰ.tail m, h)
  origin b c d r rs (inl e) (inl e') = inl (e ∙ e')
  origin b c d r rs (inl e) (inr (e', h)) = inr (Memᴰ.head (e ∙ e'), rw (e ∙ e') h)

  Unbeaten-by_Dominates : (b d r : Route) → Dominates b d → Unbeaten d r → Unbeaten b r
  Unbeaten-by_Dominates b d r (inl e) h = rw e h
  Unbeaten-by_Dominates b d r (inr up) h = λ hit. more_specific_weak r.path d.path b.path (h hit) up

  best_of-Improves : (rs : List Route) (c : Route) → Improves c rs (best_of rs method path (some c))
  unfolding best_of
  best_of-Improves [] c = (c, refl, inl refl, inl refl, tt)
  best_of-Improves (r ∷ rs) c =
      let (d, e, up, from, unbeaten) = consider-Round c r in
      let (b, e', up', from', rest) = best_of-Improves rs d in
      (
        b,
        rw e e',
        Dominates-trans b d c up' up,
        origin b c d r rs from' from,
        (Unbeaten-by_Dominates b d r up' unbeaten, rest),
      )

  -- What the loop returns from the start.
  abbrev pub Chosen : List Route → Option Route → Type 0
  Chosen rs out =
      ((out ≡ none) × All (λ r. fits method path r ≡ false) rs)
      ⊎ ((b : Route) × (out ≡ some b)
          × Memᴰ b rs
          × (fits method path b ≡ true)
          × All (Unbeaten b) rs)

  Chosen-of_Improves :
      (r : Route) (rs : List Route) (out : Option Route)
      → fits method path r ≡ true
      → Improves r rs out
      → Chosen (r ∷ rs) out
  Chosen-of_Improves r rs out hit (b, e, up, from, rest) =
      let (m, h) = at from in
      inr (b, e, m, h, (Unbeaten-by_Dominates b r r up (λ _. more_specific_irrefl r.path), rest))
    where
      at :
          (b ≡ r) ⊎ (Memᴰ b rs × (fits method path b ≡ true))
          → Memᴰ b (r ∷ rs) × (fits method path b ≡ true)
      at (inl same) = (Memᴰ.head same, rw same hit)
      at (inr (m, h)) = (Memᴰ.tail m, h)

  Chosen-skip :
      (r : Route) (rs : List Route) (out : Option Route)
      → fits method path r ≡ false
      → Chosen rs out
      → Chosen (r ∷ rs) out
  Chosen-skip r rs out miss (inl (e, none_fit)) = inl (e, (miss, none_fit))
  Chosen-skip r rs out miss (inr (b, e, m, h, rest)) = inr (b, e, Memᴰ.tail m, h, (λ hit. cc, rest))

  consider_first :
      (r : Route) → consider method path none r ≡ (if fits method path r then some r else none)
  unfolding consider
  consider_first r = ground arith

  pub best_of-Chosen : (rs : List Route) → Chosen rs (best_of rs method path none)
  unfolding best_of
  best_of-Chosen [] = inl (refl, tt)
  best_of-Chosen (r ∷ rs) = elim (Bool-cases (fits method path r)) [
    | inl hit ↦
        subst (λ o. Chosen (r ∷ rs) (best_of rs method path o)) (sym (consider_first r ∙ rw hit))
          (Chosen-of_Improves r rs (best_of rs method path (some r)) hit (best_of-Improves rs r))
    | inr miss ↦
        subst (λ o. Chosen (r ∷ rs) (best_of rs method path o)) (sym (consider_first r ∙ rw miss))
          (Chosen-skip r rs (best_of rs method path none) miss (best_of-Chosen rs))
  ]

-- Over any list of routes, a request that no route answers is given Deny; any other is given the
-- level of a route of the list that answers it and that no route answering it outranks.
pub resolve_in-Chosen :
    (routes : List Route) (method path : String)
    → ((resolve_in routes method path ≡ deny) × All (λ r. fits method path r ≡ false) routes)
      ⊎ ((b : Route) × (resolve_in routes method path ≡ b.access)
          × Memᴰ b routes
          × (fits method path b ≡ true)
          × All (Unbeaten method path b) routes)
unfolding resolve_in
resolve_in-Chosen routes method path = elim (best_of-Chosen method path routes) [
  | inl (e, none_fit) ↦ inl (rw e, none_fit)
  | inr (b, e, m, h, rest) ↦ inr (b, rw e, m, h, rest)
]
