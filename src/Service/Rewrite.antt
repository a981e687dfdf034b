-- ===== src/Service/Rewrite.antt =====
-- internal/service/rewrite.go: the fields of a relayed message, for each recipient.
-- The closure of `buildRewrite` is the targets that it found and the function that applies them; a
-- bubble is its number in the cache. A key of Go's type int has width 0. Go leaves the order of the loops over a map open: it decides which entry
-- counts where two keys read as the same number, as the order of the list does here. Logging is left out.
pub mod Binding
use reticulum_group_chat.Base.{
  ℕ, ◌+◌, Bool, true, false, not, ◌&&◌, ◌||◌, Option, none, some, List, [], ◌∷◌, ◌++◌, nat_eq, ltb,
  leb, nat_beq, ◌==◌, if◌then◌else◌, length, every, keep,
}
use Prim.Native.Nat.{◌%◌}
use reticulum_group_chat.Base.Int.{ℤ, pos}
use reticulum_group_chat.Base.Maps.{Map, lookup, insert}
use reticulum_group_chat.Base.Text.{Bytes, bytes_eq, text}
use reticulum_group_chat.Hex.{encode, decode_pairs}
use reticulum_group_chat.IdMap.{Cache, lookup_bubble, view_for}
use reticulum_group_chat.Service.Fields.{
  Key, signed, Leaf, bytes_leaf, str_leaf, opaque_leaf, Value, leaf, dict, Fields, int_eq, key_eq,
  key_as_int, is_key,
}

abbrev pub field_reply_to : ℤ
field_reply_to = pos 0x30

abbrev pub field_reply_quote : ℤ
field_reply_quote = pos 0x31

abbrev pub field_reaction : ℤ
field_reaction = pos 0x40

abbrev pub field_comment : ℤ
field_comment = pos 0x41

abbrev pub field_continuation : ℤ
field_continuation = pos 0x42

abbrev pub target_idx : ℤ
target_idx = pos 0

abbrev pub field_custom_type : Key
field_custom_type = signed 0 (pos 0xfb)

abbrev pub field_custom_data : Key
field_custom_data = signed 0 (pos 0xfc)

unfoldable pub has_reaction_field : Fields → Bool
has_reaction_field [] = false
has_reaction_field ((k, _) ∷ fields) = is_key field_reaction k || has_reaction_field fields

unfoldable pub stamp_reactor_identity : Fields → Bytes → Fields × Bool
unfolding has_reaction_field
stamp_reactor_identity fields reactor_hash =
    if nat_beq (length reactor_hash) 0 || not (has_reaction_field fields)
    then (fields, false)
    else (
      insert field_custom_data (leaf (bytes_leaf reactor_hash))
          (insert field_custom_type (leaf (str_leaf (text "originator-identity"))) fields),
      true,
    )

abbrev pub is_annotation : ℤ → Bool
is_annotation i =
    i == field_reply_to
    || i == field_reply_quote
    || i == field_reaction
    || i == field_comment
    || i == field_continuation

abbrev pub is_attachment : Option ℤ → Bool
is_attachment none = false
is_attachment (some i) = not (is_annotation i)

unfoldable pub has_attachment : Fields → Bool
has_attachment [] = false
has_attachment ((k, _) ∷ fields) = is_attachment (key_as_int k) || has_attachment fields

unfoldable pub is_primary_bubble : Bytes → Fields → Bool
unfolding has_attachment
is_primary_bubble content fields = not (content == []) || has_attachment fields

unfoldable pub is_hex_digit : ℕ → Bool
is_hex_digit c =
    (leb b'0' c && leb c b'9') || (leb b'a' c && leb c b'f') || (leb b'A' c && leb c b'F')

unfoldable pub is_hex_string : Bytes → Bool
unfolding is_hex_digit
is_hex_string s = not (s == []) && every is_hex_digit s

-- hex.DecodeString; none is an error.
unfoldable pub decode_string : Bytes → Option Bytes
decode_string s = if nat_beq (length s % 2) 0 then decode_pairs s else none

abbrev pub decoded_or : Bytes → Option Bytes → Option Bytes
decoded_or s none = some s
decoded_or s (some raw) = some raw

-- asHashBytes, on what is not a map.
unfoldable pub as_hash_bytes : Leaf → Option Bytes
unfolding is_hex_string decode_string
as_hash_bytes (bytes_leaf b) = some b
as_hash_bytes (str_leaf s) =
    if nat_beq (length s) 64 && is_hex_string s then decoded_or s (decode_string s) else some s
as_hash_bytes (opaque_leaf n) = none

-- The target of a dict, in hex; empty where there is none.
unfoldable pub first_target : Map Key Leaf → Bytes
unfolding as_hash_bytes
first_target [] = []
first_target ((k, v) ∷ m) =
    if not (is_key target_idx k)
    then first_target m
    else elim (as_hash_bytes v) [ none ↦ first_target m | some b ↦ encode b ]

unfoldable pub extract_dict_target : Value → Bytes
unfolding first_target
extract_dict_target (leaf l) = []
extract_dict_target (dict m) = first_target m

-- What `buildRewrite` finds: the fields to rewrite with their bubbles.
pub record Targets : Type 0 where
  pub dicts : List (ℤ × ℕ)
  pub reply : Option ℕ

abbrev pub with_dict : ℤ → Option ℕ → Targets → Targets
with_dict key none t = t
with_dict key (some b) t = record t { dicts = t.dicts ++ ((key, b) ∷ []) }

abbrev pub with_reply : Option ℕ → Targets → Targets
with_reply none t = t
with_reply (some b) t = record t { reply = some b }

abbrev pub is_dict_key : ℤ → Bool
is_dict_key i = i == field_reaction || i == field_comment || i == field_continuation

abbrev pub hash_of_value : Value → Option Bytes
hash_of_value (leaf l) = as_hash_bytes l
hash_of_value (dict m) = none

-- One turn of the scan; a lookup moves its bubble in the cache.
unfoldable pub scan_field : Cache → ℤ → Value → ℕ → Targets → Cache × Targets
unfolding extract_dict_target
scan_field c key v now t =
    if is_dict_key key
    then (if extract_dict_target v == []
        then (c, t)
        else let (c', b) = lookup_bubble c (extract_dict_target v) now in (c', with_dict key b t))
    else if key == field_reply_to
    then elim (hash_of_value v) [
      | none ↦ (c, t)
      | some raw ↦ let (c', b) = lookup_bubble c (encode raw) now in (c', with_reply b t)
    ]
    else (c, t)

unfoldable pub scan : Cache → Fields → ℕ → Targets → Cache × Targets
unfolding scan_field
scan c [] now t = (c, t)
scan c ((k, v) ∷ fields) now t = elim (key_as_int k) [
  | none ↦ scan c fields now t
  | some key ↦ let (c', t') = scan_field c key v now t in scan c' fields now t'
]

-- The view of a recipient, as bytes.
abbrev pub decoded : Option Bytes → Option Bytes
decoded none = none
decoded (some view) = decode_string view

unfoldable pub raw_view : Cache → ℕ → Bytes → Option Bytes
unfolding view_for
raw_view c b recipient_hex = elim (lookup b c.bubbles) [
  | none ↦ none
  | some bubble ↦ decoded (view_for bubble recipient_hex)
]

-- The key in a dict that reads as the target.
unfoldable pub target_key : Map Key Leaf → Option Key
target_key [] = none
target_key ((k, _) ∷ m) = if is_key target_idx k then some k else target_key m

-- The dict of a field and its target's key, if the field is the one looked for.
unfoldable pub dict_at : ℤ → Key → Value → Option (Map Key Leaf × Key)
unfolding target_key
dict_at key k (leaf l) = none
dict_at key k (dict m) =
    if not (is_key key k)
    then none
    else elim (target_key m) [ none ↦ none | some tk ↦ some (m, tk) ]

abbrev pub before_rest : Key → Value → Option Fields → Option Fields
before_rest k v none = none
before_rest k v (some rest) = some ((k, v) ∷ rest)

-- none where the source has false.
unfoldable pub substitute_dict_target : ℤ → Option Bytes → Fields → Option Fields
unfolding dict_at
substitute_dict_target key raw [] = some []
substitute_dict_target key raw ((k, v) ∷ fields) =
    let rest = substitute_dict_target key raw fields in
    elim (dict_at key k v) [
      | none ↦ before_rest k v rest
      | some (m, tk) ↦ elim raw [
        | none ↦ none
        | some bytes ↦ some ((k, dict (insert tk (bytes_leaf bytes) m)) ∷ fields)
      ]
    ]

abbrev pub is_reply_hash : Key → Value → Bool
is_reply_hash k v =
    is_key field_reply_to k && elim (hash_of_value v) [ none ↦ false | some _ ↦ true ]

unfoldable pub substitute_reply_hash : Option Bytes → Fields → Option Fields
substitute_reply_hash raw [] = some []
substitute_reply_hash raw ((k, v) ∷ fields) =
    let rest = substitute_reply_hash raw fields in
    if is_reply_hash k v
    then elim raw [ none ↦ none | some bytes ↦ some ((k, leaf (bytes_leaf bytes)) ∷ fields) ]
    else before_rest k v rest

unfoldable pub strip_reply_hash : Fields → Fields
strip_reply_hash fields = keep (λ e. not (is_key field_reply_to e.0)) fields

unfoldable pub rewrite_dicts : Cache → List (ℤ × ℕ) → Bytes → Fields → Option Fields
unfolding substitute_dict_target raw_view
rewrite_dicts c [] recipient_hex fields = some fields
rewrite_dicts c ((key, b) ∷ dicts) recipient_hex fields =
    elim (substitute_dict_target key (raw_view c b recipient_hex) fields) [
      | none ↦ none
      | some fields' ↦ rewrite_dicts c dicts recipient_hex fields'
    ]

unfoldable pub rewrite_reply : Cache → Option ℕ → Bytes → Fields → Fields
unfolding substitute_reply_hash strip_reply_hash raw_view
rewrite_reply c none recipient_hex fields = fields
rewrite_reply c (some b) recipient_hex fields =
    elim (substitute_reply_hash (raw_view c b recipient_hex) fields) [
      | none ↦ strip_reply_hash fields
      | some fields' ↦ fields'
    ]

-- The closure; none skips the recipient.
unfoldable pub rewrite_for : Cache → Targets → Bytes → Fields → Option Fields
unfolding rewrite_dicts rewrite_reply
rewrite_for c t recipient_hex fields = elim (rewrite_dicts c t.dicts recipient_hex fields) [
  | none ↦ none
  | some fields' ↦ some (rewrite_reply c t.reply recipient_hex fields')
]

abbrev pub no_targets : Targets
no_targets = record { dicts = []; reply = none }

-- The cache after the scan, and the targets; none where nothing is to be rewritten.
unfoldable pub build_rewrite : Option Cache → Fields → ℕ → Option Cache × Option Targets
unfolding scan
build_rewrite none fields now = (none, none)
build_rewrite (some c) fields now =
    let (c', t) = scan c fields now no_targets in
    elim t.reply [
      | none ↦ (some c', if nat_beq (length t.dicts) 0 then none else some t)
      | some _ ↦ (some c', some t)
    ]
