-- ===== src/Finance/ProRata/Rows.antt =====
-- The schedule table seen by its key: rows are found and updated by their id.
use mathlib.Core.Option
use gofin.Prelude.{
  if◌then◌else◌, Bool-cases, keep, insert_by, sort_by, All, String, ◌≡◌, refl, sym, ap, ◌∙◌, ◌≢◌,
  inl, inr, Bool, true, false, Option, none, some, List, [], ◌∷◌, Memᴰ, arith, eq_iff, str_eq,
  eq_refl,
}
use gofin.Finance.ProRata.{is_due, by_index, ℤ, update_row, get_pending_pro_rata}
use gofin.Prelude.Alls.{All-insert_by, All-sort_by, All-keep}
use gofin.Prelude.Int.{ℤ}
use gofin.Finance.Model.{ProRataSchedule}

-- SELECT … WHERE id = …
unfoldable pub row_of : String → List ProRataSchedule → Option ProRataSchedule
row_of id [] = none
row_of id (s ∷ rows) = if str_eq s.id id then some s else row_of id rows

-- No row of the list has the id.
abbrev pub IsFresh : String → List ProRataSchedule → Type 0
IsFresh id = All (λ s. s.id ≢ id)

-- The id is the table's primary key.
abbrev pub IsKeyed : List ProRataSchedule → Type 0
IsKeyed [] = Unit
IsKeyed (s ∷ rows) = IsFresh s.id rows × IsKeyed rows

str_neq : (s t : String) → s ≢ t → str_eq s t ≡ false
str_neq s t h = elim (Bool-cases (str_eq s t)) [ inl e ↦ absurd (h ((eq_iff s t).0 e)) | inr e ↦ e ]

pub row_of-update :
    (id : String) (f : ProRataSchedule → ProRataSchedule) (rows : List ProRataSchedule)
    → ((s : ProRataSchedule) → (f s).id ≡ s.id)
    → row_of id (update_row id f rows) ≡ Option.map f (row_of id rows)
unfolding row_of update_row
row_of-update id f [] same = refl
row_of-update id f (s ∷ rows) same = elim (Bool-cases (str_eq s.id id)) [
  | inl e ↦ rw (e, same s, e)
  | inr e ↦ rw (e, e) (row_of-update id f rows same)
]

-- An update leaves the rows of the other ids alone.
pub row_of-update-other :
    (id other : String) (f : ProRataSchedule → ProRataSchedule) (rows : List ProRataSchedule)
    → other ≢ id
    → ((s : ProRataSchedule) → (f s).id ≡ s.id)
    → row_of id (update_row other f rows) ≡ row_of id rows
unfolding row_of update_row
row_of-update-other id other f [] h same = refl
row_of-update-other id other f (s ∷ rows) h same = elim (Bool-cases (str_eq s.id other)) [
  | inl e ↦
      let ne : str_eq s.id id ≡ false =
        str_neq s.id id (λ q. h (sym ((eq_iff s.id other).0 e) ∙ q)) in
      rw (e, same s, ne) (row_of-update-other id other f rows h same)
  | inr e ↦
      rw e (
        ap (λ r. if str_eq s.id id then some s else r) (row_of-update-other id other f rows h same))
]

pub row_of_self :
    (rows : List ProRataSchedule) → IsKeyed rows → All (λ s. row_of s.id rows ≡ some s) rows
unfolding row_of
row_of_self [] k = tt
row_of_self (s ∷ rows) (fresh, k) =
    (rw (eq_refl s.id), below s rows fresh rows (row_of_self rows k) fresh)
  where
    below :
        (t : ProRataSchedule) (all : List ProRataSchedule)
        → IsFresh t.id all
        → (xs : List ProRataSchedule) → All (λ x. row_of x.id all ≡ some x) xs
        → IsFresh t.id xs
        → All (λ x. row_of x.id (t ∷ all) ≡ some x) xs
    below t all f [] h g = tt
    below t all f (x ∷ xs) (h, hs) (g, gs) =
        (rw (str_neq t.id x.id (λ q. g (sym q))) h, below t all f xs hs gs)

pub mem_of_row_of :
    (id : String) (rows : List ProRataSchedule) (d : ProRataSchedule)
    → row_of id rows ≡ some d
    → Memᴰ d rows × (d.id ≡ id)
unfolding row_of
mem_of_row_of id [] d h = cc
mem_of_row_of id (s ∷ rows) d h = elim (Bool-cases (str_eq s.id id)) [
  | inl e ↦
      let q : s ≡ d = found s d rows e h in
      (Memᴰ.head (sym q), ap (λ r. r.id) (sym q) ∙ (eq_iff s.id id).0 e)
  | inr e ↦ let (m, q) = mem_of_row_of id rows d (rw e at h) in (Memᴰ.tail m, q)
]
  where
    found :
        (t u : ProRataSchedule) (ts : List ProRataSchedule)
        → str_eq t.id id ≡ true
        → row_of id (t ∷ ts) ≡ some u
        → t ≡ u
    found t u ts e h' = ground arith

IsKeyed-keep :
    (p : ProRataSchedule → Bool) (rows : List ProRataSchedule)
    → IsKeyed rows
    → IsKeyed (keep p rows)
IsKeyed-keep p [] k = tt
IsKeyed-keep p (s ∷ rows) (f, k) = elim (Bool-cases (p s)) [
  | inl e ↦ rw e (All-keep (λ t. t.id ≢ s.id) p rows f, IsKeyed-keep p rows k)
  | inr e ↦ rw e (IsKeyed-keep p rows k)
]

IsKeyed-insert_by :
    (before : ProRataSchedule → ProRataSchedule → Bool) (s : ProRataSchedule)
    (rows : List ProRataSchedule)
    → IsFresh s.id rows
    → IsKeyed rows
    → IsKeyed (insert_by before s rows)
IsKeyed-insert_by before s [] f k = (tt, tt)
IsKeyed-insert_by before s (t ∷ rows) (f, fs) (g, k) = elim (Bool-cases (before s t)) [
  | inl e ↦ rw e ((f, fs), (g, k))
  | inr e ↦ rw e (
    All-insert_by (λ x. x.id ≢ t.id) before s rows (λ q. f (sym q)) g,
    IsKeyed-insert_by before s rows fs k,
  )
]

pub IsKeyed-sort_by :
    (before : ProRataSchedule → ProRataSchedule → Bool) (rows : List ProRataSchedule)
    → IsKeyed rows
    → IsKeyed (sort_by before rows)
IsKeyed-sort_by before [] k = tt
IsKeyed-sort_by before (s ∷ rows) (f, k) =
    IsKeyed-insert_by before s (sort_by before rows) (All-sort_by (λ t. t.id ≢ s.id) before rows f)
      (IsKeyed-sort_by before rows k)

pub due-IsKeyed :
    (user_id : String) (year month : ℤ) (rows : List ProRataSchedule)
    → IsKeyed rows
    → IsKeyed (get_pending_pro_rata user_id year month rows)
unfolding get_pending_pro_rata
due-IsKeyed user_id year month rows k =
    IsKeyed-sort_by by_index (keep (is_due user_id year month) rows)
      (IsKeyed-keep (is_due user_id year month) rows k)
