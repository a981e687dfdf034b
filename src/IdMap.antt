-- ===== src/IdMap.antt =====
-- internal/idmap/idmap.go: the views that the recipients of a relayed message have of its id.
-- A pointer to a bubble is a number, `bubbles` the bubbles that exist. `lru` goes from the oldest to
-- the newest, so its first element is `lru.Back()`; a bubble's own `lru` is nil where the list does not
-- contain it. The two loops stop when the list is empty, and run on its length.
pub mod Bounds
pub mod Views
pub mod Expiry
use reticulum_group_chat.Base.{
  ℕ, zero, suc, ◌+◌, Bool, true, false, not, Option, none, some, List, [], ◌∷◌, ◌++◌, ltb, leb,
  nat_beq, ◌==◌, if◌then◌else◌, keep, length, nat_eq,
}
use reticulum_group_chat.Base.Int.{ℤ, pos, negsuc}
use reticulum_group_chat.Base.Maps.{Map, lookup, insert, delete, values, contains}
use reticulum_group_chat.Base.Text.{Bytes, bytes_eq}

pub record Bubble : Type 0 where
  pub views : Map Bytes Bytes
  pub expires_at : ℕ

pub record Cache : Type 0 where
  pub ttl : ℕ
  pub max_size : ℕ
  pub bubbles : Map ℕ Bubble
  pub by_msg_id : Map Bytes ℕ
  pub lru : List ℕ

abbrev pub at_least_zero : ℤ → ℕ
at_least_zero (pos n) = n
at_least_zero (negsuc n) = 0

unfoldable pub new_cache : ℕ → ℤ → Cache
new_cache ttl max_size = record {
  ttl = ttl;
  max_size = at_least_zero max_size;
  bubbles = [];
  by_msg_id = [];
  lru = [];
}

-- The new bubble is the one with the next number.
unfoldable pub new_bubble : Cache → ℕ → ℕ → Cache × ℕ
new_bubble c ttl now =
    let b = length c.bubbles in
    (record c { bubbles = insert b (record { views = []; expires_at = now + ttl }) c.bubbles }, b)

unfoldable pub view_for : Bubble → Bytes → Option Bytes
view_for b recipient_hex = lookup recipient_hex b.views

unfoldable pub delete_each : List Bytes → Map Bytes ℕ → Map Bytes ℕ
delete_each [] m = m
delete_each (id ∷ ids) m = delete_each ids (delete id m)

-- The list without `b`.
unfoldable pub unlisted : ℕ → List ℕ → List ℕ
unlisted b l = keep (λ a. not (a == b)) l

unfoldable pub views_of : Cache → ℕ → Map Bytes Bytes
views_of c b = elim (lookup b c.bubbles) [ none ↦ [] | some bubble ↦ bubble.views ]

unfoldable pub remove_bubble : Cache → ℕ → Cache
remove_bubble c b = record c {
  by_msg_id = delete_each (values (views_of c b)) c.by_msg_id;
  lru = unlisted b c.lru;
}

-- `now.After(b.expiresAt)`
unfoldable pub is_expired : Cache → ℕ → ℕ → Bool
is_expired c now b = elim (lookup b c.bubbles) [
  | none ↦ false
  | some bubble ↦ ltb bubble.expires_at now
]

unfoldable pub evict_expired_in : ℕ → Cache → ℕ → Cache
evict_expired_in zero c now = c
evict_expired_in (suc n) c now = elim c.lru [
  | [] ↦ c
  | b ∷ _ ↦
      let rest = evict_expired_in n (remove_bubble c b) now in
      if is_expired c now b then rest else c
]

unfoldable pub evict_expired : Cache → ℕ → Cache
unfolding evict_expired_in
evict_expired c now = evict_expired_in (length c.lru) c now

unfoldable pub enforce_cap_in : ℕ → Cache → Cache
enforce_cap_in zero c = c
enforce_cap_in (suc n) c = elim c.lru [
  | [] ↦ c
  | b ∷ _ ↦
      let rest = enforce_cap_in n (remove_bubble c b) in
      if ltb c.max_size (length c.by_msg_id) then rest else c
]

unfoldable pub enforce_cap : Cache → Cache
unfolding enforce_cap_in
enforce_cap c = if nat_beq c.max_size 0 then c else enforce_cap_in (length c.lru) c

unfoldable pub move_to_front : ℕ → List ℕ → List ℕ
unfolding unlisted
move_to_front b l = unlisted b l ++ (b ∷ [])

-- `b.views[recipientHex] = msgIDHex`, `c.byMsgID[msgIDHex] = b` and the move in the list.
unfoldable pub add_view : Cache → ℕ → Bubble → Bytes → Bytes → Cache
add_view c b bubble recipient_hex msg_id_hex = record c {
  bubbles =
      insert b (record bubble { views = insert recipient_hex msg_id_hex bubble.views }) c.bubbles;
  by_msg_id = insert msg_id_hex b c.by_msg_id;
  lru = move_to_front b c.lru;
}

unfoldable pub register_view : Cache → ℕ → Bytes → Bytes → ℕ → Cache
unfolding add_view evict_expired enforce_cap
register_view c b recipient_hex msg_id_hex now =
    if msg_id_hex == [] then c else elim (lookup b c.bubbles) [
      | none ↦ c
      | some bubble ↦ enforce_cap (add_view (evict_expired c now) b bubble recipient_hex msg_id_hex)
    ]

unfoldable pub lookup_bubble : Cache → Bytes → ℕ → Cache × Option ℕ
lookup_bubble c msg_id_hex now = elim (lookup msg_id_hex c.by_msg_id) [
  | none ↦ (c, none)
  | some b ↦
      if is_expired c now b
      then (remove_bubble c b, none)
      else if contains c.lru b
      then (record c { lru = move_to_front b c.lru }, some b)
      else (c, some b)
]
