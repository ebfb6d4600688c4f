-- ===== src/Gateway/Headers.antt =====
-- The request headers as the gateway uses them (net/http's Header with canonical names): a name may
-- come with several values, `Get` reads the first.
use gofin.Prelude.{
  if◌then◌else◌, String, ◌≡◌, refl, Option, none, some, List, [], ◌∷◌, arith, eq_iff, str_eq,
  eq_refl,
}

abbrev pub Headers : Type 0
Headers = List (String × String)

unfoldable pub get_header : String → Headers → Option String
get_header k [] = none
get_header k ((j, v) ∷ h) = if str_eq j k then some v else get_header k h

unfoldable pub del_header : String → Headers → Headers
del_header k [] = []
del_header k ((j, v) ∷ h) = if str_eq j k then del_header k h else (j, v) ∷ del_header k h

unfoldable pub set_header : String → String → Headers → Headers
unfolding del_header
set_header k v h = (k, v) ∷ del_header k h

pub get_header-del_header :
    (k j : String) (h : Headers)
    → get_header k (del_header j h) ≡ (if str_eq j k then none else get_header k h)
unfolding get_header del_header
get_header-del_header k j [] = ground arith
get_header-del_header k j ((i, v) ∷ h) =
    ground (arith, get_header-del_header k j h, eq_iff i j, eq_iff i k, eq_iff j k)

pub get_header-set_header :
    (k j v : String) (h : Headers)
    → get_header k (set_header j v h) ≡ (if str_eq j k then some v else get_header k h)
unfolding set_header get_header
get_header-set_header k j v h = ground (arith, get_header-del_header k j h, eq_iff j k)

-- Deletions commute, so the order in which names are struck does not matter.
pub del_header_comm :
    (k j : String) (h : Headers) → del_header k (del_header j h) ≡ del_header j (del_header k h)
unfolding del_header
del_header_comm k j [] = refl
del_header_comm k j ((i, v) ∷ h) = ground (arith, del_header_comm k j h)

-- What is struck leaves no trace.
pub del_header-cons : (k v : String) (h : Headers) → del_header k ((k, v) ∷ h) ≡ del_header k h
unfolding del_header
del_header-cons k v h = rw (eq_refl k)
