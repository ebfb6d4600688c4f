-- ===== src/Finance/Tags.antt =====
-- The tags of services/finance/internal/service/finance.go: creation, renaming and deletion.
pub mod Rows
pub mod Unused
use gofin.Prelude.{
  leb, if◌then◌else◌, length, keep, ℕ, suc, String, str_append, Bool, false, not, ◌&&◌, ◌||◌,
  Option, none, some, List, [], ◌∷◌, ◌++◌, map, str_eq,
}
use gofin.Api.{validation, ok, coded, err, Error, Result, not_found, conflict}
use gofin.Prelude.Int.{ltb_ℤ, pos, ℤ}
use gofin.Validator.{has_errors, check}
use gofin.Prelude.Format.{show_ℤ}
use gofin.Finance.ProRata.{is_pending}
use gofin.Prelude.Text.{trim_space}
use gofin.Finance.Model.{ProRataSchedule}

pub record Tag : Type 0 where
  pub id : String
  pub user_id : String
  pub name : String
  pub is_default : Bool

-- What a write of a name meets in the database: the index on the user and the lower-case name may be
-- violated, or the statement fails, or it goes through, an insert with its new id.
pub data NameWrite : Type 0 where
  written : String → NameWrite
  unique_violation : NameWrite
  write_error : Error → NameWrite

-- The database, and the count of the expense service.
pub record TagPeers : Type 0 where
  pub create_tag : String → String → NameWrite
  pub update_tag : String → String → NameWrite
  pub query : String → Option Error
  pub count_expenses_by_tag : String → String → Result ℤ

unfoldable pub rune_count : String → ℕ
rune_count String.[] = 0
rune_count (String.◌∷◌ c s) = suc (rune_count s)

unfoldable pub validate_tag_name : String → Option Error
unfolding check has_errors validation rune_count
validate_tag_name name =
    let v =
      check (leb (rune_count name) 50) "name" "must be 50 characters or fewer"
        (check (not (str_eq name "")) "name" "required" []) in
    if has_errors v then some (validation "validation failed" v) else none

-- The message quotes the name without Go's escapes.
unfoldable pub duplicate_tag_error : String → Error
unfolding conflict
duplicate_tag_error name =
    conflict "DUPLICATE_TAG" (str_append "A tag named \"" (str_append name "\" already exists"))

-- SELECT … WHERE id = … AND user_id = …
unfoldable pub find_tag : String → String → List Tag → Option Tag
find_tag id user_id [] = none
find_tag id user_id (t ∷ ts) =
    if str_eq t.id id && str_eq t.user_id user_id then some t else find_tag id user_id ts

unfoldable pub insert_tag : TagPeers → String → String → List Tag → List Tag × Result Tag
unfolding duplicate_tag_error
insert_tag peers user_id name tags = elim (peers.create_tag user_id name) [
  | write_error e ↦ (tags, err e)
  | unique_violation ↦ (tags, err (duplicate_tag_error name))
  | written id ↦
      let t : Tag = record { id = id; user_id = user_id; name = name; is_default = false } in
      (tags ++ (t ∷ []), ok t)
]

unfoldable pub create_tag : TagPeers → String → String → List Tag → List Tag × Result Tag
unfolding trim_space validate_tag_name insert_tag
create_tag peers user_id requested tags = elim (validate_tag_name (trim_space requested)) [
  | some e ↦ (tags, err e)
  | none ↦ insert_tag peers user_id (trim_space requested) tags
]

-- UPDATE … SET name = … WHERE id = … AND user_id = …
abbrev pub rename : String → String → String → List Tag → List Tag
rename id user_id name =
    map (λ t. if str_eq t.id id && str_eq t.user_id user_id then record t { name = name } else t)

unfoldable pub update_tag : TagPeers → String → String → String → List Tag → List Tag × Result Tag
unfolding trim_space validate_tag_name duplicate_tag_error find_tag not_found
update_tag peers user_id tag_id requested tags =
    let name = trim_space requested in
    let renamed = rename tag_id user_id name tags in
    elim (validate_tag_name name) [
      | some e ↦ (tags, err e)
      | none ↦ elim (peers.update_tag tag_id name) [
        | write_error e ↦ (tags, err e)
        | unique_violation ↦ (tags, err (duplicate_tag_error name))
        | written id ↦ elim (find_tag tag_id user_id renamed) [
          | none ↦ (tags, err (not_found "Tag not found"))
          | some t ↦ (renamed, ok t)
        ]
      ]
    ]

-- SELECT count(*) … WHERE tag_id = … AND user_id = … AND status = 'pending'
unfoldable pub count_tag_in_pro_rata : String → String → List ProRataSchedule → ℕ
unfolding is_pending
count_tag_in_pro_rata tag_id user_id rows =
    length
      (keep (λ s. str_eq s.tag_id tag_id && str_eq s.user_id user_id && is_pending s.status) rows)

-- DELETE … WHERE id = … AND user_id = … AND is_default = false
unfoldable pub remove_tag : String → String → List Tag → List Tag
remove_tag id user_id =
    keep (λ t. not (str_eq t.id id && str_eq t.user_id user_id && not t.is_default))

abbrev pub default_tag : Error
default_tag = coded "DEFAULT_TAG" "Default tags cannot be deleted, only renamed" 403

abbrev pub tag_in_use : ℤ → ℤ → Error
unfolding conflict show_ℤ
tag_in_use expenses schedules =
    let some_expenses = str_append (show_ℤ expenses) " expense(s)" in
    let some_schedules = str_append (show_ℤ schedules) " pending schedule(s)" in
    let parts =
      if ltb_ℤ (pos 0) expenses
      then if ltb_ℤ (pos 0) schedules
        then str_append some_expenses (str_append " and " some_schedules)
        else some_expenses
      else some_schedules in
    conflict "TAG_IN_USE" (str_append "Tag is referenced by " parts)

-- `none` is success.
unfoldable pub delete_unused :
    TagPeers → String → String → List ProRataSchedule → List Tag → ℤ → List Tag × Option Error
unfolding count_tag_in_pro_rata remove_tag tag_in_use
delete_unused peers user_id tag_id rows tags expenses = elim (peers.query "CountTagInProRata") [
  | some e ↦ (tags, some e)
  | none ↦
      let schedules = pos (count_tag_in_pro_rata tag_id user_id rows) in
      if ltb_ℤ (pos 0) expenses || ltb_ℤ (pos 0) schedules
      then (tags, some (tag_in_use expenses schedules))
      else elim (peers.query "DeleteTag") [
        | some e ↦ (tags, some e)
        | none ↦ (remove_tag tag_id user_id tags, none)
      ]
]

unfoldable pub delete_tag :
    TagPeers → String → String → List ProRataSchedule → List Tag → List Tag × Option Error
unfolding find_tag not_found delete_unused
delete_tag peers user_id tag_id rows tags = elim (peers.query "GetTag") [
  | some e ↦ (tags, some e)
  | none ↦ elim (find_tag tag_id user_id tags) [
    | none ↦ (tags, some (not_found "Tag not found"))
    | some t ↦
        if t.is_default
        then (tags, some default_tag)
        else elim (peers.count_expenses_by_tag user_id tag_id) [
          | err e ↦ (tags, some e)
          | ok expenses ↦ delete_unused peers user_id tag_id rows tags expenses
        ]
  ]
]
