-- ===== src/Finance/Tags/Unused.antt =====
-- When a tag is deleted (`DeleteTag` of services/finance/internal/service/finance.go).
use gofin.Prelude.{
  if◌then◌else◌, is_some, All, ℕ, String, ◌≡◌, refl, ◌⊎◌, inl, inr, Bool, true, false, ◌||◌, Option,
  none, some, List, Memᴰ, arith,
}
use gofin.Finance.Tags.Rows.{
  Uses, remove_tag-Removed, count_tag_in_pro_rata_lem, find_tag_lem, IsRemovable,
}
use gofin.Prelude.Int.{◌≤ℤ◌, pos, ltb_ℤ, ℤ}
use gofin.Prelude.Changes.{Removed}
use gofin.Finance.Tags.{
  tag_in_use, default_tag, pos, count_tag_in_pro_rata, ltb_ℤ, remove_tag, find_tag, Error, ℤ, Tag,
  ProRataSchedule, delete_tag, TagPeers, delete_unused,
}
use gofin.Api.{not_found, err, Result, ok, Error}
use gofin.Finance.Model.{ProRataSchedule}

-- A row of the tags has the id, is the user's and not a default one, the tag is in no expense that the
-- expense service counts, and no pending schedule of the user has it.
abbrev pub IsUnused : TagPeers → String → String → List ProRataSchedule → List Tag → Tag → Type 0
IsUnused peers user_id tag_id rows tags t =
    Memᴰ t tags
    × IsRemovable tag_id user_id t
    × ((n : ℤ) × (peers.count_expenses_by_tag user_id tag_id ≡ ok n) × (n ≤ℤ pos 0))
    × All (λ s. ¬ (Uses tag_id user_id s)) rows

abbrev pub TagDeleted :
    TagPeers → String → String → List ProRataSchedule → List Tag → List Tag × Option Error → Type 0
TagDeleted peers user_id tag_id rows tags r =
    ((r.0 ≡ tags) × (is_some r.1 ≡ true))
    ⊎ ((t : Tag) × IsUnused peers user_id tag_id rows tags t
        × Removed (IsRemovable tag_id user_id) tags r.0
        × (r.1 ≡ none))

delete_unused-TagDeleted :
    (peers : TagPeers) (user_id tag_id : String) (rows : List ProRataSchedule) (tags : List Tag)
    (t : Tag) (n : ℤ)
    → find_tag tag_id user_id tags ≡ some t
    → t.is_default ≡ false
    → peers.count_expenses_by_tag user_id tag_id ≡ ok n
    → TagDeleted peers user_id tag_id rows tags (delete_unused peers user_id tag_id rows tags n)
unfolding delete_unused
delete_unused-TagDeleted peers user_id tag_id rows tags t n f d c =
    first (peers.query "CountTagInProRata")
  where
    schedules : ℕ
    schedules = count_tag_in_pro_rata tag_id user_id rows

    deleted : Option Error → List Tag × Option Error
    deleted q = elim q [ some e ↦ (tags, some e) | none ↦ (remove_tag tag_id user_id tags, none) ]

    zero_count : (k : ℕ) → ltb_ℤ (pos 0) (pos k) ≡ false → k ≡ 0
    zero_count k h = ground arith

    third :
        (q : Option Error)
        → ltb_ℤ (pos 0) n ≡ false
        → ltb_ℤ (pos 0) (pos schedules) ≡ false
        → TagDeleted peers user_id tag_id rows tags (deleted q)
    third (some e) a b = inl (refl, refl)
    third none a b =
        let (m, (i, u)) = find_tag_lem tag_id user_id tags t f in
        let unused = count_tag_in_pro_rata_lem tag_id user_id rows (zero_count schedules b) in
        inr (
          t,
          (m, (i, u, d), (n, c, ground arith), unused),
          remove_tag-Removed tag_id user_id tags,
          refl,
        )

    used : Bool → Bool → List Tag × Option Error
    used a b =
        if a || b
        then (tags, some (tag_in_use n (pos schedules)))
        else deleted (peers.query "DeleteTag")

    second :
        (a b : Bool)
        → ltb_ℤ (pos 0) n ≡ a
        → ltb_ℤ (pos 0) (pos schedules) ≡ b
        → TagDeleted peers user_id tag_id rows tags (used a b)
    second true b p q = inl (refl, refl)
    second false true p q = inl (refl, refl)
    second false false p q = third (peers.query "DeleteTag") p q

    first :
        (q : Option Error)
        → TagDeleted peers user_id tag_id rows tags (elim q [
          | some e ↦ (tags, some e)
          | none ↦ used (ltb_ℤ (pos 0) n) (ltb_ℤ (pos 0) (pos schedules))
        ])
    first (some e) = inl (refl, refl)
    first none = second (ltb_ℤ (pos 0) n) (ltb_ℤ (pos 0) (pos schedules)) refl refl

-- A deletion returns an error and leaves the tags alone, or it succeeds, and then a row of the tags
-- had the id, was the user's and not a default one, the expense service counted no expense with the
-- tag, and no pending schedule of the user had it; and the rows with that id and user that are not
-- defaults are gone, and all others are there in order.
pub delete_tag-TagDeleted :
    (peers : TagPeers) (user_id tag_id : String) (rows : List ProRataSchedule) (tags : List Tag)
    → TagDeleted peers user_id tag_id rows tags (delete_tag peers user_id tag_id rows tags)
unfolding delete_tag
delete_tag-TagDeleted peers user_id tag_id rows tags = first (peers.query "GetTag")
  where
    D : List Tag × Option Error → Type 0
    D r = TagDeleted peers user_id tag_id rows tags r

    counted : Result ℤ → List Tag × Option Error
    counted c = elim c [
      | err e ↦ (tags, some e)
      | ok n ↦ delete_unused peers user_id tag_id rows tags n
    ]

    fourth :
        (t : Tag) (c : Result ℤ)
        → find_tag tag_id user_id tags ≡ some t
        → t.is_default ≡ false
        → peers.count_expenses_by_tag user_id tag_id ≡ c
        → D (counted c)
    fourth t (err e) f d c = inl (refl, refl)
    fourth t (ok n) f d c = delete_unused-TagDeleted peers user_id tag_id rows tags t n f d c

    kept : Bool → List Tag × Option Error
    kept b =
        if b then (tags, some default_tag) else counted (peers.count_expenses_by_tag user_id tag_id)

    third :
        (t : Tag) (b : Bool) → find_tag tag_id user_id tags ≡ some t → t.is_default ≡ b → D (kept b)
    third t true f d = inl (refl, refl)
    third t false f d = fourth t (peers.count_expenses_by_tag user_id tag_id) f d refl

    found : Option Tag → List Tag × Option Error
    found o = elim o [
      | none ↦ (tags, some (not_found "Tag not found"))
      | some t ↦ kept t.is_default
    ]

    second : (o : Option Tag) → find_tag tag_id user_id tags ≡ o → D (found o)
    second none f = inl (refl, refl)
    second (some t) f = third t t.is_default f refl

    first :
        (q : Option Error)
        → D (elim q [ some e ↦ (tags, some e) | none ↦ found (find_tag tag_id user_id tags) ])
    first (some e) = inl (refl, refl)
    first none = second (find_tag tag_id user_id tags) refl
