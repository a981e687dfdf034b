-- ===== src/Roster/Model.antt =====
-- The types of roster.go and store.go, reading the state file and writing it.
use reticulum_group_chat.Base.{
  ℕ, Bool, true, false, not, Option, none, some, List, [], ◌∷◌, length, ltb, nat_beq, is_some,
  if◌then◌else◌,
}
use reticulum_group_chat.Base.Maps.{Map, insert, keys}
use reticulum_group_chat.Base.Text.{Bytes, bytes_eq, to_lower, bytes_ltb, sort}
use reticulum_group_chat.Hex.{encode}

pub record User : Type 0 where
  pub hash : Bytes
  pub nickname : Bytes
  pub joined_at : ℕ
  pub last_announce_at : ℕ
  pub last_message_at : ℕ
  pub last_command_at : ℕ
  pub paused : Bool
  pub text_only : Bool
  pub invited : Bool
  pub role : Bytes

-- The fields that `&User{Hash: h, JoinedAt: now}` leaves out are zero.
unfoldable pub new_user : Bytes → ℕ → User
new_user h now = record {
  hash = h;
  nickname = [];
  joined_at = now;
  last_announce_at = 0;
  last_message_at = 0;
  last_command_at = 0;
  paused = false;
  text_only = false;
  invited = false;
  role = [];
}

-- a.After(b) on times picks the later one.
abbrev later : ℕ → ℕ → ℕ
later last t = if ltb last t then t else last

unfoldable pub last_seen : User → ℕ
last_seen u =
    later (later (later u.joined_at u.last_message_at) u.last_announce_at) u.last_command_at

unfoldable pub last_spoke : User → ℕ
last_spoke u = later u.joined_at u.last_message_at

-- What the state file holds.
pub record State : Type 0 where
  pub users : Map Bytes User
  pub banlist : List Bytes

pub data Error : Type 0 where
  bad_hash_length : ℕ → Error
  not_in_roster : Error
  invalid_role : Bytes → Error
  empty_query : Error
  ambiguous : Bytes → List User → Error
  no_match : Bytes → Error
  io : Bytes → Error

abbrev pub Save : Type 0
Save = State → Option Error

-- `store` is none where the pointer is nil, and otherwise what the file holds.
pub record Roster : Type 0 where
  pub users : Map Bytes User
  pub banlist : Map Bytes (Unit {0})
  pub store : Option State
  pub dirty : Bool

unfoldable pub restore_users : Map Bytes User → Map Bytes User
restore_users [] = []
restore_users ((h, u) ∷ m) = (h, record u { hash = h }) ∷ restore_users m

unfoldable pub restore_banlist : Map Bytes (Unit {0}) → List Bytes → Map Bytes (Unit {0})
restore_banlist bans [] = bans
restore_banlist bans (h ∷ hs) = restore_banlist (insert (to_lower h) tt bans) hs

-- `New` over a store whose file was read. The error of a read is the caller's.
unfoldable pub load : State → Roster
unfolding restore_users restore_banlist
load st = record {
  users = restore_users st.users;
  banlist = restore_banlist [] st.banlist;
  store = some st;
  dirty = false;
}

-- What `persistLocked` hands to the store.
unfoldable pub snapshot : Roster → State
snapshot r = record { users = r.users; banlist = sort bytes_ltb (keys r.banlist) }

written : State → Roster → Option Error → Roster × Option Error
written st r none = (record r { dirty = false; store = some st }, none)
written st r (some e) = (record r { dirty = false }, some e)

-- persistLocked
unfoldable pub persist : Save → Roster → Roster × Option Error
unfolding written
persist save r = elim r.store [
  | none ↦ (r, none)
  | some _ ↦ written (snapshot r) r (save (snapshot r))
]

-- deferPersistLocked
unfoldable pub defer_persist : Roster → Roster
defer_persist r = if is_some r.store then record r { dirty = true } else r

-- Flush
unfoldable pub flush : Save → Roster → Roster × Option Error
flush save r = if not r.dirty then (r, none) else persist save r

unfoldable pub normalize_hash : Bytes → Option Bytes
normalize_hash b = if nat_beq (length b) 16 then some (encode b) else none

abbrev pub put_user : Bytes → User → Roster → Roster
put_user h u r = record r { users = insert h u r.users }

abbrev pub persisted : Bool → Roster × Option Error → Roster × Bool × Option Error
persisted b (r, e) = (r, b, e)
