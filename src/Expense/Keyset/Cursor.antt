-- ===== src/Expense/Keyset/Cursor.antt =====
-- Cursors into a user's history: services/expense/internal/repository/keyset.go.
use gofin.Prelude.{
  Bool-cases, keep, All, String, ◌≡◌, refl, sym, ap, subst, ◌∙◌, inl, inr, Bool, false, Option,
  none, some, List, [], ◌∷◌, ◌++◌, str_eq,
}
use gofin.Expense.Keyset.{
  no_cursor, cursor_of, selected, next_cursor, joined, ExpenseCursor, and_sent, history, Sent,
  earlier, Error, send_all,
}
use gofin.Prelude.Alls.{All-weaken, All-keep}
use gofin.Api.{Error}
use gofin.Prelude.Ascending.{keep-after, All-middle, sort_by-Ascending, Ascending, Apart}
use mathlib.Core.List.{append_assoc}
use gofin.Prelude.Order.{lt_pair_transitive, lt_pair_irreflexive, lt_pair_connected}
use gofin.Expense.Model.{Expense}

abbrev pub Distinct : List Expense → Type 0
Distinct [] = Unit
Distinct (e ∷ es) = All (λ f. str_eq e.id f.id ≡ false) es × Distinct es

Distinct-Apart : (es : List Expense) → Distinct es → Apart earlier es
Distinct-Apart [] d = tt
Distinct-Apart (e ∷ es) (d, ds) = (
  All-weaken _ _ (λ f. lt_pair_connected e.created_at e.id f.created_at f.id) es d,
  Distinct-Apart es ds,
)

Distinct-keep : (p : Expense → Bool) (es : List Expense) → Distinct es → Distinct (keep p es)
Distinct-keep p [] d = tt
Distinct-keep p (e ∷ es) (d, ds) = elim (Bool-cases (p e)) [
  | inl h ↦ rw h (All-keep _ p es d, Distinct-keep p es ds)
  | inr h ↦ rw h (Distinct-keep p es ds)
]

pub history-Ascending :
    (u : String) (table : List Expense) → Distinct table → Ascending earlier (history u table)
history-Ascending u table d =
    sort_by-Ascending earlier (λ a. lt_pair_irreflexive a.created_at a.id)
      (λ a b c. lt_pair_transitive a.created_at a.id b.created_at b.id c.created_at c.id)
      (keep (λ e. str_eq e.user_id u) table)
      (Distinct-Apart _ (Distinct-keep (λ e. str_eq e.user_id u) table d))

joined-and_sent : (e : Expense) (r t : Sent) → and_sent e (joined r t) ≡ joined (and_sent e r) t
joined-and_sent e (es, some x) t = refl
joined-and_sent e (es, none) (fs, r) = refl

joined-none : (t : Sent) → joined ([], none) t ≡ t
joined-none (fs, r) = refl

pub send_all-append :
    (send : Expense → Option Error) (es fs : List Expense)
    → send_all send (es ++ fs) ≡ joined (send_all send es) (send_all send fs)
unfolding send_all
send_all-append send [] fs = sym (joined-none (send_all send fs))
send_all-append send (e ∷ es) fs =
    go (send e) (send_all send es) (send_all send (es ++ fs)) (send_all-append send es fs)
  where
    go :
        (o : Option Error) (r t : Sent)
        → t ≡ joined r (send_all send fs)
        → elim o as (λ x. Sent) [ some x ↦ ([], some x) | none ↦ and_sent e t ]
          ≡ joined
              (elim o as (λ x. Sent) [ some x ↦ ([], some x) | none ↦ and_sent e r ])
              (send_all send fs)
    go (some x) r t h = refl
    go none r t h = rw h (joined-and_sent e r (send_all send fs))

-- The cursor that a client holds who has had the rows `before`.
abbrev pub cursor_after : List Expense → ExpenseCursor
cursor_after before = next_cursor no_cursor before

-- The last row of a page that is not empty makes the cursor.
last_of :
    (x : Expense) (xs : List Expense)
    → (init : List Expense) × (c : Expense) × ((x ∷ xs) ≡ init ++ (c ∷ []))
      × ((d : ExpenseCursor) → next_cursor d (x ∷ xs) ≡ cursor_of c)
unfolding next_cursor
last_of x [] = ([], x, refl, λ d. refl)
last_of x (y ∷ ys) =
    let (init, c, p, q) = last_of y ys in (x ∷ init, c, ap (λ es. x ∷ es) p, λ d. q (cursor_of x))

at_last :
    (init : List Expense) (c : Expense) (all : List Expense) (cursor : ExpenseCursor)
    (rest : List Expense)
    → all ≡ init ++ (c ∷ rest)
    → cursor ≡ cursor_of c
    → Ascending earlier all
    → All (λ e. str_eq e.created_at "" ≡ false) all
    → selected cursor all ≡ rest
at_last init c all cursor rest p q asc dated =
    let asc' = subst (Ascending earlier) p asc in
    let dated' = subst (All (λ e. str_eq e.created_at "" ≡ false)) p dated in
    rw (p, q, All-middle earlier (λ e. str_eq e.created_at "" ≡ false) init c rest dated')
      (keep-after earlier (λ a. lt_pair_irreflexive a.created_at a.id)
        (λ x y z. lt_pair_transitive x.created_at x.id y.created_at y.id z.created_at z.id) init c
        rest asc')

-- From there, the query selects what stands behind.
pub selected-cursor_after :
    (before rest : List Expense)
    → Ascending earlier (before ++ rest)
    → All (λ e. str_eq e.created_at "" ≡ false) (before ++ rest)
    → selected (cursor_after before) (before ++ rest) ≡ rest
unfolding next_cursor
selected-cursor_after [] rest asc dated = refl
selected-cursor_after (x ∷ xs) rest asc dated =
    let (init, c, p, q) = last_of x xs in
    at_last init c ((x ∷ xs) ++ rest) (next_cursor no_cursor (x ∷ xs)) rest
      (ap (λ es. es ++ rest) p ∙ append_assoc init (c ∷ []) rest) (q no_cursor) asc dated

pub next_cursor-append :
    (c : ExpenseCursor) (es fs : List Expense)
    → next_cursor (next_cursor c es) fs ≡ next_cursor c (es ++ fs)
unfolding next_cursor
next_cursor-append c [] fs = refl
next_cursor-append c (e ∷ es) fs = next_cursor-append (cursor_of e) es fs
