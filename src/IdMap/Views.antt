-- ===== src/IdMap/Views.antt =====
-- Proofs on internal/idmap/idmap.go: the caches that the operations reach, each recipient registered
-- once for a bubble, as the fan-out does.
use reticulum_group_chat.Base.{
  ℕ, ◌+◌, ◌≤◌, ◌<◌, ◌≡◌, refl, sym, ap, subst, ◌∙◌, true, Option, none, some, List, [], ◌∷◌,
  nat_beq, ◌==◌, length, nat_eq, arith, if_cases, option_cases, nat_beq_iff,
}
use reticulum_group_chat.Base.Int.{ℤ}
use reticulum_group_chat.Base.Maps.{
  Map, lookup, insert, delete, values, contains, lookup-insert, length-insert, length-delete-le,
}
use reticulum_group_chat.Base.Text.{Bytes, bytes_eq}
use reticulum_group_chat.IdMap.{
  Bubble, Cache, new_cache, new_bubble, delete_each, views_of, remove_bubble, is_expired,
  evict_expired, enforce_cap, move_to_front, add_view, register_view, lookup_bubble, view_for,
}
use reticulum_group_chat.IdMap.Bounds.{
  IsIndexed, remove_bubble-IsIndexed, contains-move_to_front, evict_expired_in-kept,
  enforce_cap_in-kept, enforce_cap-IsIndexed, length-enforce_cap-le, add_view-IsIndexed,
}

-- The caches of a run in which each recipient of a bubble is registered once.
pub data Reachable : Cache → Type 0 where
  created : (ttl : ℕ) (max_size : ℤ) → Reachable (new_cache ttl max_size)
  relayed : (c : Cache) (ttl now : ℕ) → Reachable c → Reachable (new_bubble c ttl now).0
  registered :
      (c : Cache) (b : ℕ) (h id : Bytes) (now : ℕ)
      → Reachable c
      → ((bubble : Bubble) → lookup b c.bubbles ≡ some bubble → view_for bubble h ≡ none)
      → Reachable (register_view c b h id now)
  looked_up :
      (c : Cache) (id : Bytes) (now : ℕ) → Reachable c → Reachable (lookup_bubble c id now).0

abbrev IsNumbered : Cache → Type 0
IsNumbered c = (b : ℕ) → length c.bubbles ≤ b → lookup b c.bubbles ≡ none

record IsSound (c : Cache) : Type 0 where
  pub indexed : IsIndexed c
  pub numbered : IsNumbered c
  pub capped : 0 < c.max_size → length c.by_msg_id ≤ c.max_size

new_cache-IsSound : (ttl : ℕ) (max_size : ℤ) → IsSound (new_cache ttl max_size)
unfolding new_cache lookup
new_cache-IsSound ttl max_size = record {
  indexed = record { listed = λ k b e. ground arith; viewed = λ k b e. ground arith };
  numbered = λ b le. refl;
  capped = λ _. omega arith;
}

pub length-delete_each-le :
    (ids : List Bytes) (m : Map Bytes ℕ) → length (delete_each ids m) ≤ length m
unfolding delete_each
length-delete_each-le [] m = omega arith
length-delete_each-le (id ∷ ids) m =
    omega (arith, length-delete_each-le ids (delete id m), length-delete-le id m)

remove_bubble-IsSound : (c : Cache) (b : ℕ) → IsSound c → IsSound (remove_bubble c b)
unfolding remove_bubble
remove_bubble-IsSound c b s = record {
  indexed = indexed_still;
  numbered = s.numbered;
  capped = λ on.
      let before = s.capped on in
      omega (arith, length-delete_each-le (values (views_of c b)) c.by_msg_id);
}
  where
    indexed_still : IsIndexed (remove_bubble c b)
    indexed_still = remove_bubble-IsIndexed c b s.indexed

views_of-new_bubble :
    (c : Cache) (ttl now b : ℕ) → IsNumbered c → views_of (new_bubble c ttl now).0 b ≡ views_of c b
unfolding new_bubble views_of
views_of-new_bubble c ttl now b n = ground (
  arith,
  nat_beq_iff (length c.bubbles) b,
  n (length c.bubbles) (omega arith),
  lookup-insert (length c.bubbles) b (record { views = []; expires_at = now + ttl }) c.bubbles,
)

new_bubble-IsSound : (c : Cache) (ttl now : ℕ) → IsSound c → IsSound (new_bubble c ttl now).0
unfolding new_bubble
new_bubble-IsSound c ttl now s = record {
  indexed = record {
    listed = s.indexed.listed;
    viewed = λ k b e.
        ap (λ m. contains (values m) k) (views_of-new_bubble c ttl now b s.numbered)
        ∙ s.indexed.viewed k b e;
  };
  numbered = λ b le.
      let next = length c.bubbles in
      ground (
        arith,
        nat_beq_iff next b,
        s.numbered b,
        s.numbered next (omega arith),
        lookup-insert next b (record { views = []; expires_at = now + ttl }) c.bubbles,
        length-insert next (record { views = []; expires_at = now + ttl }) c.bubbles,
      );
  capped = s.capped;
}

remove_bubble-IsNumbered : (c : Cache) (b : ℕ) → IsNumbered c → IsNumbered (remove_bubble c b)
unfolding remove_bubble
remove_bubble-IsNumbered c b n = n

max_size-remove_bubble :
    (m : ℕ) (c : Cache) (b : ℕ) → c.max_size ≡ m → (remove_bubble c b).max_size ≡ m
unfolding remove_bubble
max_size-remove_bubble m c b e = e

enforce_cap-IsSound : (c : Cache) → IsIndexed c → IsNumbered c → IsSound (enforce_cap c)
unfolding enforce_cap
enforce_cap-IsSound c i n = record {
  indexed = enforce_cap-IsIndexed c i;
  numbered =
      if_cases IsNumbered (nat_beq c.max_size 0) (λ _. n)
        (λ _. enforce_cap_in-kept IsNumbered remove_bubble-IsNumbered (length c.lru) c n);
  capped = λ on.
      subst (λ m. length (enforce_cap c).by_msg_id ≤ m) (sym same_max)
        (length-enforce_cap-le c (subst (λ m. 0 < m) same_max on) i);
}
  where
    same_max : (enforce_cap c).max_size ≡ c.max_size
    same_max =
        if_cases {A = Cache} (λ d. d.max_size ≡ c.max_size) (nat_beq c.max_size 0) (λ _. refl)
          (λ _.
            enforce_cap_in-kept (λ d. d.max_size ≡ c.max_size) (max_size-remove_bubble c.max_size)
              (length c.lru) c refl)

view_added-IsSound :
    (c : Cache) (b : ℕ) (bubble : Bubble) (h id : Bytes)
    → lookup b c.bubbles ≡ some bubble
    → view_for bubble h ≡ none
    → IsSound c
    → IsSound (enforce_cap (add_view c b bubble h id))
unfolding add_view view_for
view_added-IsSound c b bubble h id there new s =
    enforce_cap-IsSound (add_view c b bubble h id)
      (add_view-IsIndexed c b bubble h id there new s.indexed)
      λ a le. ground (
        arith,
        nat_beq_iff b a,
        s.numbered a,
        s.numbered b,
        lookup-insert b a (record bubble { views = insert h id bubble.views }) c.bubbles,
        length-insert b (record bubble { views = insert h id bubble.views }) c.bubbles,
      )

register_view-IsSound :
    (c : Cache) (b : ℕ) (h id : Bytes) (now : ℕ)
    → ((bubble : Bubble) → lookup b c.bubbles ≡ some bubble → view_for bubble h ≡ none)
    → IsSound c
    → IsSound (register_view c b h id now)
unfolding register_view evict_expired remove_bubble
register_view-IsSound c b h id now new s =
    if_cases IsSound (id == []) (λ _. s)
      λ _.
        option_cases IsSound (lookup b c.bubbles) (λ _. s)
          λ bubble there.
            let kept =
              evict_expired_in-kept (λ d. IsSound d × (d.bubbles ≡ c.bubbles))
                (λ d a p. (remove_bubble-IsSound d a p.0, p.1)) (length c.lru) c now (s, refl) in
            view_added-IsSound (evict_expired c now) b bubble h id (ap (lookup b) kept.1 ∙ there)
              (new bubble there) kept.0

moved-IsSound :
    (c : Cache) (b : ℕ)
    → contains c.lru b ≡ true
    → IsSound c
    → IsSound (record c { lru = move_to_front b c.lru })
unfolding views_of
moved-IsSound c b here s = record {
  indexed = record {
    listed = λ k a e. ground (arith, contains-move_to_front b a c.lru, s.indexed.listed k a e);
    viewed = s.indexed.viewed;
  };
  numbered = s.numbered;
  capped = s.capped;
}

lookup_bubble-IsSound :
    (c : Cache) (id : Bytes) (now : ℕ) → IsSound c → IsSound (lookup_bubble c id now).0
unfolding lookup_bubble
lookup_bubble-IsSound c id now s =
    option_cases {B = Cache × Option ℕ} (λ x. IsSound x.0) (lookup id c.by_msg_id) (λ _. s)
      λ b _.
        if_cases {A = Cache × Option ℕ} (λ x. IsSound x.0) (is_expired c now b)
          (λ _. remove_bubble-IsSound c b s)
          λ _.
            if_cases {A = Cache × Option ℕ} (λ x. IsSound x.0) (contains c.lru b)
              (λ here. moved-IsSound c b here s) (λ _. s)

Reachable-IsSound : (c : Cache) → Reachable c → IsSound c
Reachable-IsSound _ (created ttl max_size) = new_cache-IsSound ttl max_size
Reachable-IsSound _ (relayed c ttl now r) = new_bubble-IsSound c ttl now (Reachable-IsSound c r)
Reachable-IsSound _ (registered c b h id now r new) =
    register_view-IsSound c b h id now new (Reachable-IsSound c r)
Reachable-IsSound _ (looked_up c id now r) = lookup_bubble-IsSound c id now (Reachable-IsSound c r)

-- Of a cache that was created with a positive cap, and in which each recipient of a bubble was registered
-- once, the index never has more ids than the cap, and each of its ids is a view of the bubble that it
-- leads to, which is in the eviction list.
pub Reachable-capped :
    (c : Cache)
    → Reachable c
    → 0 < c.max_size
    → (length c.by_msg_id ≤ c.max_size)
      × ((k : Bytes) (b : ℕ)
          → lookup k c.by_msg_id ≡ some b
          → (contains c.lru b ≡ true) × (contains (values (views_of c b)) k ≡ true))
Reachable-capped c r on =
    let s = Reachable-IsSound c r in
    (s.capped on, λ k b e. (s.indexed.listed k b e, s.indexed.viewed k b e))
