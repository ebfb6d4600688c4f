-- ===== src/Expense/Keyset.antt =====
-- `GetExpensesByUserAfter` of services/expense/internal/repository/keyset.go and
-- `StreamAllUserExpenses` of services/expense/internal/service/expense.go.
pub mod Cursor
pub mod Stream
use gofin.Prelude.{
  if◌then◌else◌, length, take, keep, sort_by, ℕ, zero, suc, String, Bool, not, Option, none, some,
  List, [], ◌∷◌, ◌++◌, str_eq,
}
use gofin.Prelude.Int.{◌+ℤ◌, wrap32, negsuc, pos_part, pos, ltb_ℤ, ℤ}
use gofin.Validator.{has_errors, check}
use gofin.Prelude.Order.{lt_pair}
use gofin.Api.{ok, validation, err, Result, Error}
use gofin.Expense.Model.{Expense}

pub record ExpenseCursor : Type 0 where
  pub created_at : String
  pub id : String

abbrev pub no_cursor : ExpenseCursor
no_cursor = record { created_at = ""; id = "" }

-- The predicate of the query, where immudb compares texts by their bytes; and its order by the two columns.
abbrev pub past : ExpenseCursor → Expense → Bool
past c e = lt_pair c.created_at c.id e.created_at e.id

abbrev pub cursor_of : Expense → ExpenseCursor
cursor_of e = record { created_at = e.created_at; id = e.id }

abbrev pub earlier : Expense → Expense → Bool
earlier a b = past (cursor_of a) b

-- The user's rows, by creation and id.
abbrev pub history : String → List Expense → List Expense
history user_id rows =
    sort_by (λ a b. not (earlier b a)) (keep (λ e. str_eq e.user_id user_id) rows)

abbrev pub default_stream_page_size : ℕ
default_stream_page_size = 100

abbrev pub stream_page_size : ℤ → ℕ
stream_page_size page_size =
    if ltb_ℤ page_size (pos 1) then default_stream_page_size else pos_part page_size

-- The cursor after a page: that of its last row, or the one before.
unfoldable pub next_cursor : ExpenseCursor → List Expense → ExpenseCursor
next_cursor c [] = c
next_cursor c (e ∷ es) = next_cursor (cursor_of e) es

-- The rows that the cursor's predicate lets through; the empty cursor has none.
abbrev pub selected : ExpenseCursor → List Expense → List Expense
selected cursor rows = if str_eq cursor.created_at "" then rows else keep (past cursor) rows

pub record Page : Type 0 where
  pub rows : List Expense
  pub next : ExpenseCursor
  pub has_more : Bool

-- A page of at least one row, from the rows that the query returned. Lengths are compared as int32.
unfoldable pub page_of : ExpenseCursor → ℕ → List Expense → Page
unfolding next_cursor
page_of cursor page_size found =
    let has_more = ltb_ℤ (pos page_size) (wrap32 (pos (length found))) in
    let rows = if has_more then take page_size found else found in
    record { rows = rows; next = next_cursor cursor rows; has_more = has_more }

-- LIMIT of an int32. What the database answers to a negative one is not known.
unfoldable pub limited : (List Expense → List Expense) → ℤ → List Expense → List Expense
limited negative (pos n) rows = take n rows
limited negative (negsuc n) rows = negative rows

-- The limit, pageSize + 1, is computed in int32.
unfoldable pub get_expenses_by_user_after :
    (List Expense → List Expense) → String → List Expense → ExpenseCursor → ℕ → Page
unfolding page_of limited
get_expenses_by_user_after negative user_id table cursor page_size =
    page_of cursor page_size
      (limited negative (wrap32 (pos page_size +ℤ pos 1)) (selected cursor (history user_id table)))

-- The rows sent, and the error that the stream ended with.
abbrev pub Sent : Type 0
Sent = List Expense × Option Error

abbrev pub and_sent : Expense → Sent → Sent
and_sent e (es, r) = (e ∷ es, r)

-- The consumer's loop: it ends at the first row that is not taken.
unfoldable pub send_all : (Expense → Option Error) → List Expense → Sent
send_all send [] = ([], none)
send_all send (e ∷ es) = elim (send e) [
  | some x ↦ ([], some x)
  | none ↦ and_sent e (send_all send es)
]

-- The rows before, then what follows where none was refused.
abbrev pub joined : Sent → Sent → Sent
joined (es, some x) rest = (es, some x)
joined (es, none) (fs, r) = (es ++ fs, r)

abbrev pub after : Sent → Option Sent → Option Sent
after first (some rest) = some (joined first rest)
after (es, some x) none = some (es, some x)
after (es, none) none = none

-- The query of a page fails where `broken` says so, for the cursor; the rows before it are sent.
-- `negative` is the database's answer to a negative limit.
module _ (negative : List Expense → List Expense) (broken : ExpenseCursor → Option Error)
    (send : Expense → Option Error) where
  unfoldable pub page_sent : Option Error → Page → Option Sent → Option Sent
  unfolding send_all
  page_sent (some x) page rest = some ([], some x)
  page_sent none page rest =
      if page.has_more then after (send_all send page.rows) rest else some (send_all send page.rows)

  unfoldable pub pages_from : ℕ → String → List Expense → ExpenseCursor → ℕ → Option Sent
  unfolding get_expenses_by_user_after page_sent
  pages_from zero user_id table cursor page_size = none
  pages_from (suc fuel) user_id table cursor page_size =
      let page = get_expenses_by_user_after negative user_id table cursor page_size in
      let rest = pages_from fuel user_id table page.next page_size in
      page_sent (broken cursor) page rest

  -- One page for each row of the user and one more: no page but the last is empty.
  unfoldable pub stream_all_user_expenses : String → List Expense → ℤ → Result (Option Sent)
  unfolding pages_from check has_errors validation
  stream_all_user_expenses user_id table page_size =
      let v = check (not (str_eq user_id "")) "userId" "user_id is required" [] in
      if has_errors v
      then err (validation "validation failed" v)
      else ok (pages_from (suc (length table)) user_id table no_cursor (stream_page_size page_size))
