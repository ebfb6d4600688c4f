-- ===== src/Access/Resolver.antt =====
-- services/access/resolver.go: which access level a concrete request needs.
pub mod Priority
pub mod Best
use gofin.Prelude.{
  ltb, ◌==◌, if◌then◌else◌, is_empty, ℕ, String, Bool, true, false, not, ◌&&◌, Option, none, some,
  List, [], ◌∷◌, str_eq,
}
use gofin.Prelude.Text.{has_prefix, split_slash}
use gofin.Access.Levels.{Level, deny, Route}
use gofin.Access.Registry.{registry}

-- The loop of `matchPattern`: both lists are what is left from index i on.
unfoldable pub match_segments : List String → List String → Bool
match_segments [] parts = is_empty parts
match_segments (seg ∷ segs) [] = false
match_segments (seg ∷ segs) (part ∷ parts) =
    let rest = match_segments segs parts in
    if has_prefix b'*' seg
    then true
    else if has_prefix b':' seg
    then (if str_eq part "" then false else rest)
    else if str_eq seg part
    then rest
    else false

unfoldable pub match_pattern : String → String → Bool
unfolding match_segments
match_pattern pattern path = match_segments (split_slash pattern) (split_slash path)

unfoldable pub segment_class : String → ℕ
unfolding has_prefix
segment_class seg = if has_prefix b'*' seg then 0 else if has_prefix b':' seg then 1 else 2

-- The loop of `moreSpecific` and its final comparison of lengths.
unfoldable pub outranks : List String → List String → Bool
outranks [] bs = false
outranks (a ∷ as_) [] = true
outranks (a ∷ as_) (b ∷ bs) =
    let rest = outranks as_ bs in
    if segment_class a == segment_class b then rest else ltb (segment_class b) (segment_class a)

unfoldable pub more_specific : String → String → Bool
unfolding outranks segment_class split_slash
more_specific a b = outranks (split_slash a) (split_slash b)

abbrev pub fits : String → String → Route → Bool
fits method path r = str_eq r.method method && match_pattern r.path path

-- One round of `Resolve`'s loop.
unfoldable pub consider : String → String → Option Route → Route → Option Route
unfolding match_pattern more_specific
consider method path best r = if not (fits method path r) then best else elim best [
  | none ↦ some r
  | some b ↦ if more_specific r.path b.path then some r else some b
]

unfoldable pub best_of : List Route → String → String → Option Route → Option Route
best_of [] method path best = best
best_of (r ∷ rs) method path best = best_of rs method path (consider method path best r)

abbrev pub level_of : Option Route → Level
level_of none = deny
level_of (some r) = r.access

unfoldable pub resolve_in : List Route → String → String → Level
unfolding best_of consider
resolve_in routes method path = level_of (best_of routes method path none)

unfoldable pub resolve : String → String → Level
unfolding resolve_in registry split_slash has_prefix
resolve = resolve_in registry
