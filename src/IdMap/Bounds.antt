-- ===== src/IdMap/Bounds.antt =====
-- Proofs on internal/idmap/idmap.go: what the index holds, and its size.
use reticulum_group_chat.Base.{
  ℕ, zero, suc, ◌≤◌, ◌<◌, ◌≡◌, refl, sym, ap, subst, ◌∙◌, true, false, not, none, some, List, [],
  ◌∷◌, ◌++◌, ◌||◌, ◌⊎◌, ltb, nat_beq, ◌==◌, if◌then◌else◌, keep, length, nat_eq, arith, if_cases,
  Bool-cases, inl, inr, ltb→ge, nat_beq_iff, beq_refl, beq→eq, length-keep-le, list_cases,
}
use reticulum_group_chat.Base.Maps.{
  Map, lookup, insert, delete, values, contains, lookup-insert, lookup-delete,
}
use reticulum_group_chat.Base.Text.{Bytes, bytes_eq}
use reticulum_group_chat.IdMap.{
  Bubble, Cache, delete_each, unlisted, views_of, remove_bubble, is_expired, evict_expired_in,
  enforce_cap_in, enforce_cap, move_to_front, add_view,
}

-- Each key of the index leads to a bubble of the list that has the key as a view.
pub record IsIndexed (c : Cache) : Type 0 where
  pub listed : (k : Bytes) (b : ℕ) → lookup k c.by_msg_id ≡ some b → contains c.lru b ≡ true
  pub viewed :
      (k : Bytes) (b : ℕ)
      → lookup k c.by_msg_id ≡ some b
      → contains (values (views_of c b)) k ≡ true

pub contains-unlisted :
    (b a : ℕ) (l : List ℕ) → contains (unlisted b l) a ≡ (if b == a then false else contains l a)
unfolding unlisted keep contains
contains-unlisted b a [] = ground arith
contains-unlisted b a (x ∷ l) =
    ground (arith, contains-unlisted b a l, nat_beq_iff b a, nat_beq_iff x a, nat_beq_iff x b)

length-unlisted : (b : ℕ) (l : List ℕ) → length (unlisted b (b ∷ l)) ≤ length l
unfolding unlisted keep
length-unlisted b l = rw (beq_refl b) (length-keep-le (λ a. not (a == b)) l)

contains-append : (b a : ℕ) (m : List ℕ) → contains (m ++ (b ∷ [])) a ≡ (contains m a || b == a)
unfolding contains
contains-append b a [] = ground arith
contains-append b a (x ∷ m) = ground (arith, contains-append b a m)

pub contains-move_to_front :
    (b a : ℕ) (l : List ℕ)
    → contains (move_to_front b l) a ≡ (if b == a then true else contains l a)
unfolding move_to_front
contains-move_to_front b a l =
    ground (arith, contains-append b a (unlisted b l), contains-unlisted b a l)

lookup-delete_each :
    (k : Bytes) (ids : List Bytes) (m : Map Bytes ℕ)
    → lookup k (delete_each ids m) ≡ (if contains ids k then none else lookup k m)
unfolding delete_each contains
lookup-delete_each k [] m = refl
lookup-delete_each k (id ∷ ids) m =
    ground (arith, lookup-delete_each k ids (delete id m), lookup-delete id k m)

-- A new view keeps the views of the other recipients.
contains-values-insert :
    (h id k : Bytes) (m : Map Bytes Bytes)
    → lookup h m ≡ none
    → contains (values (insert h id m)) k ≡ (contains (values m) k || id == k)
unfolding contains values insert lookup
contains-values-insert h id k [] e = ground arith
contains-values-insert h id k ((j, v) ∷ m) e = ground (arith, contains-values-insert h id k m)

pub remove_bubble-IsIndexed : (c : Cache) (b : ℕ) → IsIndexed c → IsIndexed (remove_bubble c b)
unfolding remove_bubble views_of
remove_bubble-IsIndexed c b i = record {
  listed = λ k a e.
      let e' = kept k a e in
      contains-unlisted b a c.lru ∙ elim (Bool-cases (b == a)) [
        | inl same ↦ absurd (gone k a e same)
        | inr other ↦ rw other (i.listed k a e')
      ];
  viewed = λ k a e. i.viewed k a (kept k a e);
}
  where
    kept :
        (k : Bytes) (a : ℕ)
        → lookup k (remove_bubble c b).by_msg_id ≡ some a
        → lookup k c.by_msg_id ≡ some a
    kept k a e = ground (arith, lookup-delete_each k (values (views_of c b)) c.by_msg_id)

    gone :
        (k : Bytes) (a : ℕ) → lookup k (remove_bubble c b).by_msg_id ≡ some a → (b == a) ≡ true → ⊥
    gone k a e same =
        let v =
          subst (λ x. contains (values (views_of c x)) k ≡ true) (sym (beq→eq b a same))
            (i.viewed k a (kept k a e)) in
        ground (arith, lookup-delete_each k (values (views_of c b)) c.by_msg_id)

-- What each removal keeps, the loops keep.
pub evict_expired_in-kept :
    (P : Cache → Type 0)
    → ((c : Cache) (b : ℕ) → P c → P (remove_bubble c b))
    → (n : ℕ) (c : Cache) (now : ℕ) → P c
    → P (evict_expired_in n c now)
unfolding evict_expired_in
evict_expired_in-kept P step zero c now p = p
evict_expired_in-kept P step (suc n) c now p =
    list_cases P c.lru (λ _. p)
      λ b l _.
        if_cases P (is_expired c now b)
          (λ _. evict_expired_in-kept P step n (remove_bubble c b) now (step c b p)) (λ _. p)

pub enforce_cap_in-kept :
    (P : Cache → Type 0)
    → ((c : Cache) (b : ℕ) → P c → P (remove_bubble c b))
    → (n : ℕ) (c : Cache) → P c
    → P (enforce_cap_in n c)
unfolding enforce_cap_in
enforce_cap_in-kept P step zero c p = p
enforce_cap_in-kept P step (suc n) c p =
    list_cases P c.lru (λ _. p)
      λ b l _.
        if_cases P (ltb c.max_size (length c.by_msg_id))
          (λ _. enforce_cap_in-kept P step n (remove_bubble c b) (step c b p)) (λ _. p)

pub enforce_cap-IsIndexed : (c : Cache) → IsIndexed c → IsIndexed (enforce_cap c)
unfolding enforce_cap
enforce_cap-IsIndexed c i =
    if_cases IsIndexed (nat_beq c.max_size 0) (λ _. i)
      (λ _. enforce_cap_in-kept IsIndexed remove_bubble-IsIndexed (length c.lru) c i)

lookup_first : (k : Bytes) (b : ℕ) (m : Map Bytes ℕ) → lookup k ((k, b) ∷ m) ≡ some b
unfolding lookup
lookup_first k b m = rw (beq_refl k) refl

none_in : (b : ℕ) → contains [] b ≡ true → ⊥
unfolding contains
none_in b h = ground arith

-- With an empty list the index is empty.
unlisted_empty : (c : Cache) → IsIndexed c → c.lru ≡ [] → length c.by_msg_id ≤ c.max_size
unlisted_empty c i e = elim (entry c.by_msg_id) [
  | inl h ↦ rw h (omega arith)
  | inr (k, b, found) ↦
      let there : contains [] b ≡ true = subst (λ l. contains l b ≡ true) e (i.listed k b found) in
      absurd (none_in b there)
]
  where
    entry : (m : Map Bytes ℕ) → (m ≡ []) ⊎ ((k : Bytes) × (b : ℕ) × (lookup k m ≡ some b))
    entry [] = inl refl
    entry ((k, b) ∷ m) = inr (k, b, lookup_first k b m)

left_over :
    (n : ℕ) (c : Cache) (b : ℕ) (l : List ℕ)
    → c.lru ≡ b ∷ l
    → length c.lru ≤ suc n
    → length (remove_bubble c b).lru ≤ n
unfolding remove_bubble
left_over n c b l e le =
    let short : length (unlisted b c.lru) ≤ length l =
      subst (λ m. length (unlisted b m) ≤ length l) (sym e) (length-unlisted b l) in
    let long : length c.lru ≡ suc (length l) = ap length e in omega arith

-- Run on the length of the list, the loop ends at the cap.
length-enforce_cap_in-le :
    (n : ℕ) (c : Cache)
    → length c.lru ≤ n
    → IsIndexed c
    → length (enforce_cap_in n c).by_msg_id ≤ c.max_size
unfolding enforce_cap_in remove_bubble
length-enforce_cap_in-le zero c le i = unlisted_empty c i (empty c.lru le)
  where
    empty : (l : List ℕ) → length l ≤ 0 → l ≡ []
    empty [] le' = refl
    empty (x ∷ l) le' = absurd (omega arith)
length-enforce_cap_in-le (suc n) c le i =
    list_cases {B = Cache} (λ d. length d.by_msg_id ≤ c.max_size) c.lru (λ e. unlisted_empty c i e)
      λ b l e.
        if_cases {A = Cache} (λ d. length d.by_msg_id ≤ c.max_size)
          (ltb c.max_size (length c.by_msg_id))
          (λ _.
            length-enforce_cap_in-le n (remove_bubble c b) (shorter b l e)
              (remove_bubble-IsIndexed c b i))
          (λ within. ltb→ge c.max_size (length c.by_msg_id) within)
  where
    shorter : (b : ℕ) (l : List ℕ) → c.lru ≡ b ∷ l → length (remove_bubble c b).lru ≤ n
    shorter b l e = left_over n c b l e le

pub length-enforce_cap-le :
    (c : Cache) → 0 < c.max_size → IsIndexed c → length (enforce_cap c).by_msg_id ≤ c.max_size
unfolding enforce_cap
length-enforce_cap-le c capped i =
    if_cases {A = Cache} (λ d. length d.by_msg_id ≤ c.max_size) (nat_beq c.max_size 0)
      (λ off. ground arith) (λ _. length-enforce_cap_in-le (length c.lru) c (omega arith) i)

views_of-add_view :
    (c : Cache) (b a : ℕ) (bubble : Bubble) (h id : Bytes)
    → views_of (add_view c b bubble h id) a
      ≡ (if b == a then insert h id bubble.views else views_of c a)
unfolding add_view views_of
views_of-add_view c b a bubble h id =
    ground (arith, lookup-insert b a (record bubble { views = insert h id bubble.views }) c.bubbles)

pub views_of_found :
    (c : Cache) (b : ℕ) (bubble : Bubble)
    → lookup b c.bubbles ≡ some bubble
    → views_of c b ≡ bubble.views
unfolding views_of
views_of_found c b bubble e = rw (e, views_of) refl

pub add_view-IsIndexed :
    (c : Cache) (b : ℕ) (bubble : Bubble) (h id : Bytes)
    → lookup b c.bubbles ≡ some bubble
    → lookup h bubble.views ≡ none
    → IsIndexed c
    → IsIndexed (add_view c b bubble h id)
unfolding add_view
add_view-IsIndexed c b bubble h id there new i = record {
  listed = λ k a e. contains-move_to_front b a c.lru ∙ elim (Bool-cases (b == a)) [
    | inl same ↦ rw same refl
    | inr other ↦ rw other (i.listed k a (before k a e other))
  ];
  viewed = λ k a e.
      ap (λ m. contains (values m) k) (views_of-add_view c b a bubble h id)
      ∙ elim (Bool-cases (b == a)) [
        | inl same ↦ rw same (own_view k a e same)
        | inr other ↦ rw other (i.viewed k a (before k a e other))
      ];
}
  where
    before :
        (k : Bytes) (a : ℕ)
        → lookup k (insert id b c.by_msg_id) ≡ some a
        → (b == a) ≡ false
        → lookup k c.by_msg_id ≡ some a
    before k a e other = ground (arith, lookup-insert id k b c.by_msg_id, nat_beq_iff b a)

    old_view : (k : Bytes) → lookup k c.by_msg_id ≡ some b → contains (values bubble.views) k ≡ true
    old_view k e =
        subst (λ m. contains (values m) k ≡ true) (views_of_found c b bubble there) (i.viewed k b e)

    own_view :
        (k : Bytes) (a : ℕ)
        → lookup k (insert id b c.by_msg_id) ≡ some a
        → (b == a) ≡ true
        → contains (values (insert h id bubble.views)) k ≡ true
    own_view k a e same =
        let same' : b ≡ a = beq→eq b a same in
        ground (
          arith,
          contains-values-insert h id k bubble.views new,
          lookup-insert id k b c.by_msg_id,
          old_view k,
        )
