-- ===== src/Commands/Model.antt =====
-- The types of internal/commands/handlers.go, and who a caller is.
-- A reply is a constructor for each message of the source, with the values that its text shows;
-- the wording is not modelled, except for the replies whose length the code measures.
use reticulum_group_chat.Base.{
  ℕ, Bool, true, false, Option, none, some, List, ltb, if◌then◌else◌, ◌==◌,
}
use reticulum_group_chat.Base.Maps.{contains}
use reticulum_group_chat.Base.Text.{Bytes, bytes_eq, text, to_lower}
use reticulum_group_chat.Hex.{must_hex_bytes}
use reticulum_group_chat.Roster.Model.{User, Roster, Save}
use reticulum_group_chat.Roster.Members.{has_member, get}
use reticulum_group_chat.GroupInfo.Store.{Store, SaveFile}

pub data Role : Type 0 where
  role_user role_mod role_admin : Role

-- The value of the constant, for `<` and `>`.
abbrev pub rank : Role → ℕ
rank role_user = 0
rank role_mod = 1
rank role_admin = 2

abbrev pub at_least_mod : Role → Bool
at_least_mod role_user = false
at_least_mod role_mod = true
at_least_mod role_admin = true

abbrev pub is_admin_role : Role → Bool
is_admin_role role_admin = true
is_admin_role _ = false

abbrev pub is_user_role : Role → Bool
is_user_role role_user = true
is_user_role _ = false

-- `hash_bytes` is none where the slice is nil.
pub record Caller : Type 0 where
  pub hash : Bytes
  pub hash_bytes : Option Bytes
  pub role : Role
  pub member : Bool
  pub paused : Bool
  pub text_only : Bool

pub record PathInfo : Type 0 where
  pub known : Bool
  pub last_seen : ℕ
  pub hops : ℕ
  pub next_hop_hex : Bytes
  pub link_active : Bool

-- The part of config.Config that the commands read. A cap of 0 is no cap.
pub record Config : Type 0 where
  pub admins : List Bytes
  pub mods : List Bytes
  pub locked : Bool
  pub max_members : ℕ
  pub display_name : Bytes

-- The Dispatcher's settings and hooks, with the time and the outcomes of the writes at this call.
-- A hook that is nil is none or false; `announce` has the error that the hook returns, if any.
-- `single_packet_reply_bytes` is what the LXMF library admits in one packet.
pub record Env : Type 0 where
  pub cfg : Config
  pub now : ℕ
  pub save : Save
  pub save_info : SaveFile
  pub announce : Option (Option Bytes)
  pub path_lookup : Option (Bytes → PathInfo)
  pub lookup_announced_name : Option (Bytes → Bytes)
  pub on_join : Bool
  pub on_admin_add : Bool
  pub max_reply_content_bytes : ℕ
  pub single_packet_reply_bytes : ℕ

-- Calls of the hooks OnJoin, OnAdminAdd and Announce, in their order.
pub data Event : Type 0 where
  told_join told_admin_add : Bytes → Event
  told_announce : Event

-- What the commands change. `info` is none where the store is not wired.
pub record Chat : Type 0 where
  pub roster : Roster
  pub info : Option Store
  pub events : List Event

unfoldable pub parse_role : Bytes → Role
parse_role s =
    if s == text "admin" then role_admin else if s == text "mod" then role_mod else role_user

unfoldable pub role_name : Role → Bytes
role_name role_admin = text "admin"
role_name role_mod = text "mod"
role_name role_user = text "user"

-- Config.IsAdmin, Config.IsMod
abbrev is_admin : Config → Bytes → Bool
is_admin cfg h = contains cfg.admins (to_lower h)

abbrev is_mod : Config → Bytes → Bool
is_mod cfg h = contains cfg.mods (to_lower h)

unfoldable pub config_role : Config → Bytes → Role
config_role cfg h =
    if is_admin cfg h then role_admin else if is_mod cfg h then role_mod else role_user

-- `if rr > c.Role { c.Role = rr }`
abbrev pub raise_role : Role → Role → Role
raise_role floor granted = if ltb (rank floor) (rank granted) then granted else floor

of_member : Caller → Option User → Caller
unfolding parse_role
of_member c none = c
of_member c (some u) = record c {
  paused = u.paused;
  text_only = u.text_only;
  role = raise_role c.role (parse_role u.role);
}

abbrev is_known : Roster → Option Bytes → Bool
is_known r none = false
is_known r (some b) = has_member r b

unfoldable pub derive_caller : Config → Roster → Bytes → Caller
unfolding of_member
derive_caller cfg r sender =
    let sh = to_lower sender in
    let c : Caller = record {
      hash = sh;
      hash_bytes = must_hex_bytes sh;
      role = config_role cfg sh;
      member = is_known r (must_hex_bytes sh);
      paused = false;
      text_only = false;
    } in
    if c.member then of_member c (get r sh) else c
