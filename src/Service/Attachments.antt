-- ===== src/Service/Attachments.antt =====
-- internal/service/attachments.go: which fields of a message are forwarded.
-- `size` stands for the length of a value's msgpack encoding, none where it cannot be encoded. A nil
-- map is the empty one. Go leaves the order of the loop open, and with it that of the notes.
use reticulum_group_chat.Base.{
  ℕ, suc, ◌*◌, ◌/◌, ◌%◌, ◌≡◌, refl, Bool, false, not, ◌&&◌, ◌||◌, Option, none, some, List, [], ◌∷◌,
  ◌++◌, arith, ltb, nat_beq, ◌==◌, if◌then◌else◌, Bool-cases, inl, inr, ◌⊎◌, All, if_cases,
  option_cases,
}
use reticulum_group_chat.Base.Decimal.{decimal}
use reticulum_group_chat.Base.Int.{ℤ, pos, negsuc}
use reticulum_group_chat.Base.Maps.{contains, select}
use reticulum_group_chat.Base.Text.{Bytes, text, sort, insert_sorted, bytes_ltb}
use reticulum_group_chat.Service.Fields.{Key, Value, Fields, int_eq, key_as_int, key_eq}

-- The fields of ServiceConfig that the policy reads; a negative cap, which normalize makes 0, is 0.
pub record AttachmentPolicy : Type 0 where
  pub forward_attachments : Bool
  pub max_attachment_bytes : ℕ
  pub forwarded_fields : List ℤ

unfoldable pub attachment_label : ℤ → Option Bytes
attachment_label key =
    if key == pos 5
    then some (text "file")
    else if key == pos 6
    then some (text "image")
    else if key == pos 7
    then some (text "audio")
    else none

abbrev pub signed_decimal : ℤ → Bytes
signed_decimal (pos n) = decimal n
signed_decimal (negsuc n) = text "-" ++ decimal (suc n)

unfoldable pub field_label : ℤ → Bytes
field_label key =
    if key == pos 5
    then text "file"
    else if key == pos 6
    then text "image"
    else if key == pos 7
    then text "audio"
    else if key == pos 48
    then text "reply-to"
    else if key == pos 49
    then text "reply text"
    else if key == pos 64
    then text "reaction"
    else if key == pos 65
    then text "comment"
    else if key == pos 66
    then text "continuation"
    else text "field " ++ signed_decimal key

-- `%.1f` of n / 1024 in tenths, a tie to the even one.
unfoldable pub tenths : ℕ → ℕ
tenths n =
    let q = n * 10 / 1024 in
    let r = n * 10 % 1024 in if ltb 512 r || (nat_beq r 512 && nat_beq (q % 2) 1) then suc q else q

unfoldable pub human_bytes : ℕ → Bytes
unfolding tenths
human_bytes n =
    if ltb n 1024
    then decimal n ++ text " B"
    else decimal (tenths n / 10) ++ text "." ++ decimal (tenths n % 10) ++ text " KB"

unfoldable pub drop_note : ℤ → ℕ → ℕ → Bytes
unfolding field_label human_bytes
drop_note key size limit =
    text "["
    ++ field_label key
    ++ text " not forwarded: "
    ++ human_bytes size
    ++ text " > "
    ++ human_bytes limit
    ++ text " limit]"

pub record Filtered : Type 0 where
  pub out : Fields
  pub drops : List Bytes
  pub rejected : List Bytes

abbrev pub with_label : Option Bytes → List Bytes → List Bytes
with_label none labels = labels
with_label (some label) labels = label ∷ labels

-- The labels of all the recognized kinds.
unfoldable pub labels_of : Fields → List Bytes
unfolding attachment_label
labels_of [] = []
labels_of ((k, _) ∷ fields) = elim (key_as_int k) [
  | none ↦ labels_of fields
  | some key ↦ with_label (attachment_label key) (labels_of fields)
]

-- A label that a refusal can name.
abbrev pub IsKind : Bytes → Type 0
IsKind s = (s ≡ text "file") ⊎ ((s ≡ text "image") ⊎ (s ≡ text "audio"))

with_label-IsKind :
    (key : ℤ) (labels : List Bytes)
    → All IsKind labels
    → All IsKind (with_label (attachment_label key) labels)
unfolding attachment_label
with_label-IsKind key labels a =
    if_cases {A = Option Bytes} (λ o. All IsKind (with_label o labels)) (key == pos 5)
      (λ _. (inl refl, a))
      λ _.
        if_cases {A = Option Bytes} (λ o. All IsKind (with_label o labels)) (key == pos 6)
          (λ _. (inr (inl refl), a))
          λ _.
            if_cases {A = Option Bytes} (λ o. All IsKind (with_label o labels)) (key == pos 7)
              (λ _. (inr (inr refl), a)) (λ _. a)

labels_of-IsKind : (fields : Fields) → All IsKind (labels_of fields)
unfolding labels_of
labels_of-IsKind [] = tt
labels_of-IsKind ((k, v) ∷ fields) =
    option_cases {B = List Bytes} (All IsKind) (key_as_int k) (λ _. labels_of-IsKind fields)
      (λ key _. with_label-IsKind key (labels_of fields) (labels_of-IsKind fields))

insert_sorted-IsKind :
    (s : Bytes) (l : List Bytes)
    → IsKind s
    → All IsKind l
    → All IsKind (insert_sorted bytes_ltb s l)
unfolding insert_sorted
insert_sorted-IsKind s [] k a = (k, tt)
insert_sorted-IsKind s (t ∷ l) k a =
    if_cases {A = List Bytes} (All IsKind) (bytes_ltb s t) (λ _. (k, a))
      (λ _. (a.0, insert_sorted-IsKind s l k a.1))

sort-IsKind : (l : List Bytes) → All IsKind l → All IsKind (sort bytes_ltb l)
unfolding sort
sort-IsKind [] a = tt
sort-IsKind (s ∷ l) a = insert_sorted-IsKind s (sort bytes_ltb l) a.0 (sort-IsKind l a.1)

module _ (size : Value → Option ℕ) (cfg : AttachmentPolicy) where
  abbrev pub is_too_large : ℕ → Bool
  is_too_large n = ltb 0 cfg.max_attachment_bytes && ltb cfg.max_attachment_bytes n

  -- One turn of the loop, before what the other turns give.
  unfoldable pub filter_one : Key → Value → Filtered → Filtered
  unfolding attachment_label drop_note
  filter_one k v rest = elim (key_as_int k) [
    | none ↦ rest
    | some key ↦
        if not (contains cfg.forwarded_fields key)
        then record rest { rejected = with_label (attachment_label key) rest.rejected }
        else elim (size v) [
          | none ↦ rest
          | some n ↦
              if is_too_large n
              then record rest { drops = drop_note key n cfg.max_attachment_bytes ∷ rest.drops }
              else record rest { out = (k, v) ∷ rest.out }
        ]
  ]

  unfoldable pub filter_each : Fields → Filtered
  unfolding filter_one
  filter_each [] = record { out = []; drops = []; rejected = [] }
  filter_each ((k, v) ∷ fields) = filter_one k v (filter_each fields)

  unfoldable pub filter_attachments : Fields → Filtered
  unfolding filter_each labels_of
  filter_attachments fields =
      if not cfg.forward_attachments
      then record { out = []; drops = []; rejected = sort bytes_ltb (labels_of fields) }
      else let f = filter_each fields in
        record { out = f.out; drops = f.drops; rejected = sort bytes_ltb f.rejected }

  -- The policy as a test on one field.
  abbrev sized : Option ℕ → Bool
  sized none = false
  sized (some n) = not (is_too_large n)

  abbrev allowed : Option ℤ → Value → Bool
  allowed none v = false
  allowed (some key) v = contains cfg.forwarded_fields key && sized (size v)

  abbrev pub is_forwarded : Key → Value → Bool
  is_forwarded k v = cfg.forward_attachments && allowed (key_as_int k) v

  out-filter_each :
      (fields : Fields) → (filter_each fields).out ≡ select (λ k v. allowed (key_as_int k) v) fields
  unfolding filter_each filter_one select
  out-filter_each [] = refl
  out-filter_each ((k, v) ∷ fields) = ground (arith, out-filter_each fields)

  select_none : (fields : Fields) → [] ≡ select (λ k v. false) fields
  unfolding select
  select_none [] = refl
  select_none ((k, v) ∷ fields) = select_none fields

  filter_each-IsKind : (fields : Fields) → All IsKind (filter_each fields).rejected
  unfolding filter_each filter_one
  filter_each-IsKind [] = tt
  filter_each-IsKind ((k, v) ∷ fields) =
      let rest = filter_each-IsKind fields in
      option_cases {B = Filtered} (λ f. All IsKind f.rejected) (key_as_int k) (λ _. rest)
        λ key _.
          if_cases {A = Filtered} (λ f. All IsKind f.rejected)
            (not (contains cfg.forwarded_fields key))
            (λ _. with_label-IsKind key (filter_each fields).rejected rest)
            λ _.
              option_cases {B = Filtered} (λ f. All IsKind f.rejected) (size v) (λ _. rest)
                λ n _.
                  if_cases {A = Filtered} (λ f. All IsKind f.rejected) (is_too_large n) (λ _. rest)
                    (λ _. rest)

  -- The fields that are forwarded are those, in their order and unchanged, whose key reads as a number of the
  -- allowlist and whose size is within the cap, and none where attachments are off; each kind that is
  -- reported as rejected is "file", "image" or "audio", whatever the keys.
  pub filter_attachments_exact :
      (fields : Fields)
      → ((filter_attachments fields).out ≡ select is_forwarded fields)
        × All IsKind (filter_attachments fields).rejected
  unfolding filter_attachments
  filter_attachments_exact fields = elim (Bool-cases cfg.forward_attachments) [
    | inl on ↦ rw on (
      out-filter_each fields,
      sort-IsKind (filter_each fields).rejected (filter_each-IsKind fields),
    )
    | inr off ↦
        rw off (select_none fields, sort-IsKind (labels_of fields) (labels_of-IsKind fields))
  ]
