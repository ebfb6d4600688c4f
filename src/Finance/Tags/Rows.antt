-- ===== src/Finance/Tags/Rows.antt =====
-- The rows of the tag table that `DeleteTag` reads and removes, and the schedules that it counts
-- (services/finance/internal/repository/postgres.go).
use gofin.Prelude.{
  All, String, ◌≡◌, refl, Bool, true, false, not, ◌&&◌, some, List, [], ◌∷◌, Memᴰ, arith, eq_iff,
  str_eq,
}
use gofin.Prelude.Changes.{Removed-keep, length-keep-All, found-Memᴰ, both_named, Removed}
use gofin.Finance.Model.{pending, ProRataSchedule}
use gofin.Prelude.Alls.{All-weaken}
use gofin.Finance.Tags.{Tag, find_tag, count_tag_in_pro_rata, remove_tag}
use gofin.Finance.ProRata.{is_pending}

-- The row has the id and the user and is not a default one.
abbrev pub IsRemovable : String → String → Tag → Type 0
IsRemovable id user_id t = (t.id ≡ id) × (t.user_id ≡ user_id) × (t.is_default ≡ false)

-- A pending schedule of the user with the tag.
abbrev pub Uses : String → String → ProRataSchedule → Type 0
Uses tag_id user_id s = (s.tag_id ≡ tag_id) × (s.user_id ≡ user_id) × (s.status ≡ pending)

pub find_tag_lem :
    (id user_id : String) (ts : List Tag) (t : Tag)
    → find_tag id user_id ts ≡ some t
    → Memᴰ t ts × ((t.id ≡ id) × (t.user_id ≡ user_id))
unfolding find_tag
find_tag_lem id user_id [] t h = cc
find_tag_lem id user_id (x ∷ xs) t h =
    found-Memᴰ (λ y. (y.id ≡ id) × (y.user_id ≡ user_id))
      (str_eq x.id id && str_eq x.user_id user_id) x t xs (find_tag id user_id xs)
      (both_named x.id id x.user_id user_id) (find_tag_lem id user_id xs t) h

removable :
    (id user_id : String) (t : Tag)
    → (str_eq t.id id && str_eq t.user_id user_id && not t.is_default) ≡ true
    → IsRemovable id user_id t
removable id user_id t h =
    let (i, u) = both_named t.id id t.user_id user_id (ground arith) in (i, u, ground arith)

not-IsRemovable :
    (id user_id : String) (t : Tag)
    → (str_eq t.id id && str_eq t.user_id user_id && not t.is_default) ≡ false
    → ¬ (IsRemovable id user_id t)
not-IsRemovable id user_id t h (i, u, d) =
    ground (arith, (eq_iff t.id id).1 i, (eq_iff t.user_id user_id).1 u)

pub remove_tag-Removed :
    (id user_id : String) (ts : List Tag)
    → Removed (IsRemovable id user_id) ts (remove_tag id user_id ts)
unfolding remove_tag
remove_tag-Removed id user_id ts =
    Removed-keep (IsRemovable id user_id)
      (λ t. str_eq t.id id && str_eq t.user_id user_id && not t.is_default) (removable id user_id)
      (not-IsRemovable id user_id) ts

counted :
    (tag_id user_id : String) (s : ProRataSchedule)
    → Uses tag_id user_id s
    → (str_eq s.tag_id tag_id && str_eq s.user_id user_id && is_pending s.status) ≡ true
unfolding is_pending
counted tag_id user_id s (t, u, p) =
    rw (p, (eq_iff s.tag_id tag_id).1 t, (eq_iff s.user_id user_id).1 u) refl

pub count_tag_in_pro_rata_lem :
    (tag_id user_id : String) (rows : List ProRataSchedule)
    → count_tag_in_pro_rata tag_id user_id rows ≡ 0
    → All (λ s. ¬ (Uses tag_id user_id s)) rows
unfolding count_tag_in_pro_rata
count_tag_in_pro_rata_lem tag_id user_id rows h =
    All-weaken (λ s. used_by s ≡ false) (λ s. ¬ (Uses tag_id user_id s))
      (λ s e k. ground (arith, counted tag_id user_id s k)) rows (length-keep-All used_by rows h)
  where
    used_by : ProRataSchedule → Bool
    used_by s = str_eq s.tag_id tag_id && str_eq s.user_id user_id && is_pending s.status
