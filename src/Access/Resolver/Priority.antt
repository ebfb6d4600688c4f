-- ===== src/Access/Resolver/Priority.antt =====
-- The priority between patterns of services/access/resolver.go as a strict order.
use gofin.Prelude.{Bool-cases, String, ◌≡◌, refl, inl, inr, true, false, List, [], ◌∷◌, arith}
use gofin.Access.Resolver.{more_specific, outranks}
use gofin.Prelude.Text.{split_slash}

pub outranks_irrefl : (as_ : List String) → outranks as_ as_ ≡ false
unfolding outranks
outranks_irrefl [] = refl
outranks_irrefl (a ∷ as_) = ground (arith, outranks_irrefl as_)

pub outranks_trans :
    (as_ bs cs : List String)
    → outranks as_ bs ≡ true
    → outranks bs cs ≡ true
    → outranks as_ cs ≡ true
unfolding outranks
outranks_trans [] bs cs h k = cc
outranks_trans (a ∷ as_) [] cs h k = cc
outranks_trans (a ∷ as_) (b ∷ bs) [] h k = refl
outranks_trans (a ∷ as_) (b ∷ bs) (c ∷ cs) h k = ground (arith, outranks_trans as_ bs cs)

-- A pattern that does not outrank `b` does not outrank what outranks `b`.
pub outranks_weak :
    (as_ bs cs : List String)
    → outranks as_ bs ≡ false
    → outranks cs bs ≡ true
    → outranks as_ cs ≡ false
outranks_weak as_ bs cs h k = elim (Bool-cases (outranks as_ cs)) [
  | inl e ↦ cc (outranks_trans as_ cs bs e k)
  | inr e ↦ e
]

-- The same of patterns as texts.
pub more_specific_irrefl : (a : String) → more_specific a a ≡ false
unfolding more_specific
more_specific_irrefl a = outranks_irrefl (split_slash a)

pub more_specific_trans :
    (a b c : String)
    → more_specific a b ≡ true
    → more_specific b c ≡ true
    → more_specific a c ≡ true
unfolding more_specific
more_specific_trans a b c = outranks_trans (split_slash a) (split_slash b) (split_slash c)

pub more_specific_weak :
    (a b c : String)
    → more_specific a b ≡ false
    → more_specific c b ≡ true
    → more_specific a c ≡ false
unfolding more_specific
more_specific_weak a b c = outranks_weak (split_slash a) (split_slash b) (split_slash c)
