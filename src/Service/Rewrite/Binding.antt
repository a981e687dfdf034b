-- ===== src/Service/Rewrite/Binding.antt =====
-- Proofs on internal/service/rewrite.go: what a rewritten field binds to, and what stays.
use reticulum_group_chat.Base.{
  ℕ, ◌≡◌, refl, ap, ◌∙◌, subst, Bool, true, false, not, ◌||◌, Option, none, some, [], ◌∷◌, arith,
  ◌==◌, if◌then◌else◌, if_cases, option_cases, Bool-cases, Option-cases, ◌⊎◌, inl, inr, beq→eq,
  beq_refl, is_some,
}
use reticulum_group_chat.Base.Int.{ℤ}
use reticulum_group_chat.Base.Maps.{Map, lookup, insert, lookup-insert}
use reticulum_group_chat.Base.Text.{Bytes, bytes_eq}
use reticulum_group_chat.IdMap.{Cache}
use reticulum_group_chat.Service.Fields.{
  Key, Leaf, bytes_leaf, Value, leaf, dict, Fields, int_eq, key_eq, is_key, key_beq_iff,
}
use reticulum_group_chat.Service.Rewrite.{
  Targets, target_idx, target_key, dict_at, before_rest, substitute_dict_target, raw_view,
  rewrite_dicts, rewrite_reply, rewrite_for,
}

target_key_reads :
    (m : Map Key Leaf) (tk : Key) → target_key m ≡ some tk → is_key target_idx tk ≡ true
unfolding target_key
target_key_reads [] tk e = cc
target_key_reads ((k, v) ∷ m) tk e = elim (Bool-cases (is_key target_idx k)) [
  | inl here ↦ let same : k ≡ tk = ground arith in subst (λ j. is_key target_idx j ≡ true) same here
  | inr other ↦ target_key_reads m tk (ground arith)
]

-- The rewritten target stays the first one.
target_key-insert :
    (tk : Key) (v : Leaf) (m : Map Key Leaf)
    → target_key m ≡ some tk
    → target_key (insert tk v m) ≡ some tk
unfolding target_key insert
target_key-insert tk v [] e = cc
target_key-insert tk v ((k, w) ∷ m) e =
    ground (arith, target_key-insert tk v m, target_key_reads m tk, key_beq_iff k tk)

-- The entry that a field of the kind is bound to.
unfoldable pub bound_to : ℤ → Fields → Option Leaf
bound_to key [] = none
bound_to key ((k, v) ∷ fields) = elim (dict_at key k v) [
  | none ↦ bound_to key fields
  | some (m, tk) ↦ lookup tk m
]

unfoldable pub has_target : ℤ → Fields → Bool
has_target key [] = false
has_target key ((k, v) ∷ fields) = is_some (dict_at key k v) || has_target key fields

some_of : (x y : Map Key Leaf × Key) → some x ≡ some y → x ≡ y
some_of x y e = cc

dict_at_found :
    (key : ℤ) (k : Key) (v : Value) (x : Map Key Leaf × Key)
    → dict_at key k v ≡ some x
    → (is_key key k ≡ true) × (target_key x.0 ≡ some x.1)
unfolding dict_at
dict_at_found key k (leaf l) x = λ e. cc
dict_at_found key k (dict m) x =
    if_cases {A = Option (Map Key Leaf × Key)}
      (λ o. o ≡ some x → (is_key key k ≡ true) × (target_key x.0 ≡ some x.1)) (not (is_key key k))
      (λ _ bad. cc)
      λ here.
        option_cases {B = Option (Map Key Leaf × Key)}
          (λ o. o ≡ some x → (is_key key k ≡ true) × (target_key x.0 ≡ some x.1)) (target_key m)
          (λ _ bad. cc)
          λ tk e same.
            let pairs : Path (Map Key Leaf × Key) (m, tk) x = some_of (m, tk) x same in
            (ground arith, subst (λ (p : Map Key Leaf × Key). target_key p.0 ≡ some p.1) pairs e)

dict_at-insert :
    (key : ℤ) (k : Key) (x : Leaf) (m : Map Key Leaf) (tk : Key)
    → is_key key k ≡ true
    → target_key m ≡ some tk
    → dict_at key k (dict (insert tk x m)) ≡ some (insert tk x m, tk)
unfolding dict_at
dict_at-insert key k x m tk here e = rw (here, target_key-insert tk x m e) refl

-- What a substitution gives.
abbrev Substituted : ℤ → Bytes → Fields → Option Fields → Type 0
Substituted key bytes fields none = ⊥
Substituted key bytes fields (some out) =
    (has_target key fields ≡ true → bound_to key out ≡ some (bytes_leaf bytes))
    × ((k : Key) → is_key key k ≡ false → lookup k out ≡ lookup k fields)

before_rest-Substituted :
    (key : ℤ) (bytes : Bytes) (k : Key) (v : Value) (fields : Fields) (o : Option Fields)
    → dict_at key k v ≡ none
    → Substituted key bytes fields o
    → Substituted key bytes ((k, v) ∷ fields) (before_rest k v o)
unfolding bound_to has_target lookup
before_rest-Substituted key bytes k v fields none e s = s
before_rest-Substituted key bytes k v fields (some out) e s =
    rw (e, bound_to, has_target)
      (s.0, λ j other. ap (λ o. if k == j then some v else o) (s.1 j other))

bound_to_at :
    (key : ℤ) (k : Key) (v : Value) (fields : Fields) (x : Map Key Leaf × Key)
    → dict_at key k v ≡ some x
    → bound_to key ((k, v) ∷ fields) ≡ lookup x.1 x.0
unfolding bound_to
bound_to_at key k v fields x e = rw (e, bound_to) refl

lookup_other :
    (key : ℤ) (k j : Key) (v w : Value) (fields : Fields)
    → is_key key k ≡ true
    → is_key key j ≡ false
    → lookup j ((k, v) ∷ fields) ≡ lookup j ((k, w) ∷ fields)
unfolding lookup
lookup_other key k j v w fields here other = elim (Bool-cases (k == j)) [
  | inl same ↦
      let here' : is_key key j ≡ true = subst (λ i. is_key key i ≡ true) (beq→eq k j same) here in
      ground arith
  | inr differ ↦ rw differ refl
]

substituted :
    (key : ℤ) (bytes : Bytes) (fields : Fields)
    → Substituted key bytes fields (substitute_dict_target key (some bytes) fields)
unfolding substitute_dict_target has_target
substituted key bytes [] = (λ bad. ground arith, λ k other. refl)
substituted key bytes ((k, v) ∷ fields) =
    option_cases {B = Option Fields} (Substituted key bytes ((k, v) ∷ fields)) (dict_at key k v)
      (λ e. before_rest-Substituted key bytes k v fields _ e (substituted key bytes fields))
      λ x e.
        let (here, first) = dict_at_found key k v x e in
        let bound = insert x.1 (bytes_leaf bytes) x.0 in
        (
          λ _.
              bound_to_at key k (dict bound) fields (bound, x.1)
                (dict_at-insert key k (bytes_leaf bytes) x.0 x.1 here first)
              ∙ (lookup-insert x.1 x.1 (bytes_leaf bytes) x.0 ∙ rw (beq_refl x.1) refl),
          λ j other. lookup_other key k j (dict bound) v fields here other,
        )

unbound :
    (key : ℤ) (fields : Fields)
    → has_target key fields ≡ true
    → substitute_dict_target key none fields ≡ none
unfolding substitute_dict_target has_target
unbound key [] h = ground arith
unbound key ((k, v) ∷ fields) h =
    option_cases {B = Option Fields} (λ o. o ≡ none) (dict_at key k v)
      (λ e. ap (before_rest k v) (unbound key fields (ground arith))) (λ x e. refl)

-- The rest of the closure after the one dict.
abbrev both : Cache → Bytes → Option Fields → Option Fields
both c h o =
    let after : Option Fields = elim o [
      | none ↦ none
      | some fields ↦ rewrite_dicts c [] h fields
    ] in
    elim after [ none ↦ none | some fields ↦ some (rewrite_reply c none h fields) ]

both_passes : (c : Cache) (h : Bytes) (o : Option Fields) → both c h o ≡ o
unfolding rewrite_dicts rewrite_reply
both_passes c h none = refl
both_passes c h (some fields) = refl

rewrite_for_one :
    (c : Cache) (key : ℤ) (b : ℕ) (h : Bytes) (fields : Fields)
    → rewrite_for c (record { dicts = (key, b) ∷ []; reply = none }) h fields
      ≡ substitute_dict_target key (raw_view c b h) fields
unfolding rewrite_for rewrite_dicts rewrite_reply
rewrite_for_one c key b h fields =
    both_passes c h (substitute_dict_target key (raw_view c b h) fields)

found_bound :
    (key : ℤ) (bytes : Bytes) (fields : Fields) (o : Option Fields)
    → has_target key fields ≡ true
    → Substituted key bytes fields o
    → (out : Fields) × (o ≡ some out)
      × (bound_to key out ≡ some (bytes_leaf bytes))
      × ((k : Key) → is_key key k ≡ false → lookup k out ≡ lookup k fields)
found_bound key bytes fields none there s = absurd s
found_bound key bytes fields (some out) there s = (out, refl, s.0 there, s.1)

-- A message whose one target is the dict of a field, at a bubble: a recipient without a view of the bubble
-- is skipped; for one with a view, the field is bound to exactly that view, and every field whose key reads
-- as another number stays as it is.
pub rewrite_for_binds :
    (c : Cache) (key : ℤ) (b : ℕ) (h : Bytes) (fields : Fields)
    → has_target key fields ≡ true
    → let t : Targets = record { dicts = (key, b) ∷ []; reply = none } in
      ((raw_view c b h ≡ none) × (rewrite_for c t h fields ≡ none))
      ⊎ ((bytes : Bytes) × (out : Fields) × (raw_view c b h ≡ some bytes)
          × (rewrite_for c t h fields ≡ some out)
          × (bound_to key out ≡ some (bytes_leaf bytes))
          × ((k : Key) → is_key key k ≡ false → lookup k out ≡ lookup k fields))
rewrite_for_binds c key b h fields there = elim (Option-cases (raw_view c b h)) [
  | inl e ↦ inl (
    e,
    rewrite_for_one c key b h fields
        ∙ (ap (λ raw. substitute_dict_target key raw fields) e ∙ unbound key fields there),
  )
  | inr (bytes, e) ↦
      let (out, found, bound, kept) =
        found_bound key bytes fields (substitute_dict_target key (some bytes) fields) there
          (substituted key bytes fields) in
      inr (
        bytes,
        out,
        e,
        rewrite_for_one c key b h fields
            ∙ (ap (λ raw. substitute_dict_target key raw fields) e ∙ found),
        bound,
        kept,
      )
]
