-- ===== src/Expense/Keyset/Stream.antt =====
-- The stream of services/expense/internal/service/expense.go, page by page, against the user's
-- history in one piece.
use gofin.Prelude.{
  ltb, Bool-cases, length, take, drop, keep, All, ℕ, zero, suc, ◌+◌, ◌^◌, ◌≤◌, ◌<◌, String, ◌≡◌,
  refl, sym, ap, subst, ◌∙◌, inl, inr, true, false, not, Option, none, some, List, [], ◌++◌, arith,
  str_eq,
}
use gofin.Prelude.Int.{pos, ltb_ℤ, add_pos, wrap32_pos, pos_part, ℤ}
use gofin.Expense.Keyset.{
  pos, ltb_ℤ, limited, pos_part, no_cursor, stream_page_size, earlier, Page,
  get_expenses_by_user_after, pages_from, page_sent, send_all, history, next_cursor, ℤ, Error,
  Expense, ExpenseCursor, stream_all_user_expenses, page_of,
}
use gofin.Expense.Keyset.Cursor.{
  send_all-append, selected-cursor_after, history-Ascending, next_cursor-append, cursor_after,
  Distinct,
}
use gofin.Prelude.Slices.{
  length-keep, length-sort_by, length-drop, take-append-drop, take-take, take_all, length-take,
}
use gofin.Prelude.Alls.{All-keep, All-sort_by}
use mathlib.Core.List.{append_assoc}
use gofin.Prelude.Ascending.{Ascending}
use gofin.Api.{ok, Error}
use gofin.Expense.Model.{Expense}

-- The last page, and a page with more behind it.
page_of-last :
    (c : ExpenseCursor) (n : ℕ) (es : List Expense)
    → length es ≤ n
    → n + 1 < 2 ^ 31
    → page_of c n (take (n + 1) es)
      ≡ record { rows = es; next = next_cursor c es; has_more = false }
unfolding page_of
page_of-last c n es h small =
    let p = take_all (n + 1) es (omega (arith, h)) in
    let w = wrap32_pos (length es) (omega (arith, h, small)) in
    let q : ltb_ℤ (pos n) (pos (length es)) ≡ false = ground arith in rw (p, w, q) refl

page_of-more :
    (c : ExpenseCursor) (n : ℕ) (es : List Expense)
    → n < length es
    → n + 1 < 2 ^ 31
    → page_of c n (take (n + 1) es)
      ≡ record { rows = take n es; next = next_cursor c (take n es); has_more = true }
unfolding page_of
page_of-more c n es h small =
    let p = length-take (n + 1) es (omega (arith, h)) in
    let w = wrap32_pos (n + 1) small in
    let q : ltb_ℤ (pos n) (pos (n + 1)) ≡ true = ground arith in
    rw (p, w, q, take-take n (n + 1) es (omega arith)) refl

module _ (negative : List Expense → List Expense) (broken : ExpenseCursor → Option Error)
    (send : Expense → Option Error) (u : String) (table : List Expense) (n : ℕ)
    (quiet : (c : ExpenseCursor) → broken c ≡ none) (some_rows : 1 ≤ n) (small : n + 1 < 2 ^ 31)
    (distinct : Distinct table)
    (dated : All (λ e. str_eq e.created_at "" ≡ false) (history u table)) where
  page_after :
      (before rest : List Expense)
      → before ++ rest ≡ history u table
      → get_expenses_by_user_after negative u table (cursor_after before) n
        ≡ page_of (cursor_after before) n (take (n + 1) rest)
  unfolding get_expenses_by_user_after limited
  page_after before rest p =
      let asc = subst (Ascending earlier) (sym p) (history-Ascending u table distinct) in
      let dated' = subst (All (λ e. str_eq e.created_at "" ≡ false)) (sym p) dated in
      rw
        (add_pos n 1, wrap32_pos (n + 1) small, sym p, selected-cursor_after before rest asc dated')
        refl

  -- One round, for what its page is known to be.
  pages_from-suc :
      (fuel : ℕ) (c : ExpenseCursor) (page : Page)
      → get_expenses_by_user_after negative u table c n ≡ page
      → pages_from negative broken send (suc fuel) u table c n
        ≡ page_sent negative broken send none page
            (pages_from negative broken send fuel u table page.next n)
  unfolding pages_from
  pages_from-suc fuel c page p =
      subst
        (λ page.
          pages_from negative broken send (suc fuel) u table c n
          ≡ page_sent negative broken send none page
              (pages_from negative broken send fuel u table page.next n))
        p (rw (quiet c) refl)

  pages_from-send_all :
      (fuel : ℕ) (before rest : List Expense)
      → before ++ rest ≡ history u table
      → length rest < fuel
      → pages_from negative broken send fuel u table (cursor_after before) n
        ≡ some (send_all send rest)
  unfolding page_sent
  pages_from-send_all zero before rest p h = ground arith
  pages_from-send_all (suc fuel) before rest p h = elim (Bool-cases (ltb n (length rest))) [
    | inr e ↦
        pages_from-suc fuel _ _ (
          page_after before rest p ∙ page_of-last (cursor_after before) n rest (ground arith) small)
    | inl e ↦
        pages_from-suc fuel _ _ (
          page_after before rest p ∙ page_of-more (cursor_after before) n rest (ground arith) small)
        ∙ rw
            (
              next_cursor-append no_cursor before (take n rest),
              pages_from-send_all fuel (before ++ take n rest) (drop n rest)
                  (append_assoc before (take n rest) (drop n rest)
                    ∙ ap (λ es. before ++ es) (take-append-drop n rest)
                    ∙ p)
                  (ground (arith, length-drop n rest)),
            )
            (ap some (
              sym (send_all-append send (take n rest) (drop n rest))
              ∙ ap (send_all send) (take-append-drop n rest)))
  ]

-- For a page size of at most 2 ^ 31 - 2 (below 1 it is the default), the stream ends, and it is the
-- user's rows sent one by one in one piece, from the first created on and, of those created at the
-- same time, by id, up to the first row that is not taken, where no query of a page fails, the table
-- does not change between the pages, ids are not shared and every row has a time of creation.
pub stream_all_user_expenses-send_all :
    (negative : List Expense → List Expense) (broken : ExpenseCursor → Option Error)
    (send : Expense → Option Error) (u : String) (table : List Expense) (page_size : ℤ)
    → pos_part page_size + 1 < 2 ^ 31
    → str_eq u "" ≡ false
    → ((c : ExpenseCursor) → broken c ≡ none)
    → Distinct table
    → All (λ e. str_eq e.created_at "" ≡ false) table
    → (stream_all_user_expenses negative broken send u table page_size
        ≡ ok (some (send_all send (history u table))))
      × Ascending earlier (history u table)
unfolding stream_all_user_expenses
stream_all_user_expenses-send_all negative broken send u table page_size small named quiet distinct
      dated =
    (
      rw named (
          ap ok (
            pages_from-send_all negative broken send u table (stream_page_size page_size) quiet
              (ground arith) (ground arith) distinct (All-sort_by _ _ _ (All-keep _ _ table dated))
              (suc (length table)) [] (history u table) refl
              (omega (
                arith,
                length-sort_by (λ a b. not (earlier b a)) (keep (λ e. str_eq e.user_id u) table),
                length-keep (λ e. str_eq e.user_id u) table,
              )))),
      history-Ascending u table distinct,
    )
