-- ===== src/Commands/Moderation.antt =====
-- /nick, /usermode, /adduser, /removeuser, /kick, /ban, /unban of internal/commands/handlers.go.
use reticulum_group_chat.Base.{
  ℕ, Bool, true, false, ◌||◌, ◌&&◌, not, Option, none, some, List, [], ◌∷◌, ltb, if◌then◌else◌,
  ◌==◌, keep,
}
use reticulum_group_chat.Base.Maps.{contains}
use reticulum_group_chat.Base.Text.{Bytes, bytes_eq, text, to_lower, trim_space, has_prefix}
use reticulum_group_chat.Hex.{must_hex_bytes}
use reticulum_group_chat.Roster.Model.{User, Error}
use reticulum_group_chat.Roster.Members.{add_invited, remove, has_member, len}
use reticulum_group_chat.Roster.Settings.{set_nickname, set_role}
use reticulum_group_chat.Roster.Listing.{resolve, Found, found, failed}
use reticulum_group_chat.Roster.Bans.{is_banned, ban, unban, banned_hashes}
use reticulum_group_chat.Commands.Nickname.{is_nickname}
use reticulum_group_chat.Commands.Membership.{
  adopt_announced_name, put_roster, tell, is_full, answer,
}
use reticulum_group_chat.Commands.Model.{
  Env, Chat, Caller, Role, role_admin, told_admin_add, at_least_mod, is_admin_role, rank,
  parse_role, config_role, raise_role,
}

-- The replies of these commands, in the order of the source.
pub data Reply : Type 0 where
  nick_usage : Reply
  join_first : Reply
  bad_nickname : Reply
  couldnt_nick : Error → Reply
  nick_is : Bytes → Reply
  no_spaces : Reply
  error : Error → Reply
  nick_set : User → Bytes → Reply
  nick_usage_mod : Reply
  admins_only usermode_usage bad_role own_admin_role : Reply
  couldnt_set_role : Error → Reply
  floor_wins : User → Role → Role → Reply
  role_set : User → Role → Reply
  mods_only : Reply
  usage : Reply
  bad_address : Reply
  target_banned : Bytes → Reply
  already_in_group : Bytes → Reply
  group_full : ℕ → ℕ → Reply
  couldnt_add : Error → Reply
  added_unheard added_welcomed : Bytes → Reply
  couldnt_remove : Error → Reply
  was_not_in : User → Reply
  removed_for_good removed : User → Reply
  banned : User → Reply
  couldnt_ban : Error → Reply
  couldnt_unban : Error → Reply
  unbanned : Bytes → Reply
  not_banned : Bytes → Reply
  unbanned_plain : Reply
  many_banned : Bytes → List Bytes → Reply

unfoldable pub nick_self : Env → Chat → Caller → Bytes → Chat × Reply
nick_self env chat c nick =
    if not c.member
    then (chat, join_first)
    else if not (is_nickname nick)
    then (chat, bad_nickname)
    else answer chat (set_nickname env.save chat.roster c.hash nick) (nick_is nick) couldnt_nick

unfoldable pub nick_other : Env → Chat → Bytes → Found → Chat × Reply
nick_other env chat nick (failed e) = (chat, error e)
nick_other env chat nick (found target) =
    if not (is_nickname nick)
    then (chat, bad_nickname)
    else answer chat (set_nickname env.save chat.roster target.hash nick) (nick_set target nick)
        couldnt_nick

unfoldable pub handle_nick : Env → Chat → Caller → List Bytes → Chat × Reply
unfolding nick_self nick_other
handle_nick env chat c [] = (chat, nick_usage)
handle_nick env chat c (nick ∷ []) = nick_self env chat c nick
handle_nick env chat c (who ∷ nick ∷ []) =
    if not (at_least_mod c.role)
    then (chat, no_spaces)
    else nick_other env chat nick (resolve chat.roster who)
handle_nick env chat c _ =
    if not (at_least_mod c.role) then (chat, no_spaces) else (chat, nick_usage_mod)

-- What the reply says once the role is stored.
unfoldable pub usermode_reply : Env → User → Role → Reply
usermode_reply env target wanted =
    let floor = config_role env.cfg target.hash in
    let effective = raise_role wanted floor in
    if ltb (rank wanted) (rank effective)
    then floor_wins target floor effective
    else role_set target effective

unfoldable pub usermode_target : Env → Chat → Caller → Bytes → Found → Chat × Reply
unfolding usermode_reply
usermode_target env chat c requested (failed e) = (chat, error e)
usermode_target env chat c requested (found target) =
    let wanted = parse_role requested in
    if target.hash == c.hash
      && (ltb (rank wanted) (rank role_admin)
          && ltb (rank (config_role env.cfg c.hash)) (rank role_admin))
    then (chat, own_admin_role)
    else answer chat
        (set_role env.save chat.roster target.hash
          (if requested == text "user" then [] else requested))
        (usermode_reply env target wanted) couldnt_set_role

unfoldable pub handle_user_mode : Env → Chat → Caller → List Bytes → Chat × Reply
unfolding usermode_target
handle_user_mode env chat c (arg ∷ who ∷ []) =
    let requested = to_lower arg in
    if not (is_admin_role c.role)
    then (chat, admins_only)
    else if requested == text "admin" || (requested == text "mod" || requested == text "user")
    then usermode_target env chat c requested (resolve chat.roster who)
    else (chat, bad_role)
handle_user_mode env chat c _ =
    if not (is_admin_role c.role) then (chat, admins_only) else (chat, usermode_usage)

-- The reply tells whether the new member was heard from.
unfoldable pub added_reply : Env → Bytes → Reply
added_reply env hash = elim env.path_lookup [
  | none ↦ added_welcomed hash
  | some path ↦ if not (path hash).known then added_unheard hash else added_welcomed hash
]

unfoldable pub add_member : Env → Chat → Bytes → Bytes → Chat × Reply
unfolding added_reply
add_member env chat hash hb =
    let (r, _, e) = add_invited env.save chat.roster hb env.now in
    elim e [
      | some err ↦ (put_roster chat r, couldnt_add err)
      | none ↦ (
        tell env.on_admin_add (told_admin_add hash)
            (put_roster chat (adopt_announced_name env hash hb r)),
        added_reply env hash,
      )
    ]

unfoldable pub add_checked : Env → Chat → Bytes → Option Bytes → Chat × Reply
unfolding add_member
add_checked env chat hash none = (chat, bad_address)
add_checked env chat hash (some hb) =
    if is_banned chat.roster hb
    then (chat, target_banned hash)
    else if has_member chat.roster hb
    then (chat, already_in_group hash)
    else if is_full env chat.roster
    then (chat, group_full (len chat.roster) env.cfg.max_members)
    else add_member env chat hash hb

unfoldable pub handle_add_user : Env → Chat → Role → List Bytes → Chat × Reply
unfolding add_checked
handle_add_user env chat role (arg ∷ []) =
    let hash = to_lower (trim_space arg) in
    if not (at_least_mod role)
    then (chat, mods_only)
    else add_checked env chat hash (must_hex_bytes hash)
handle_add_user env chat role _ =
    if not (at_least_mod role) then (chat, mods_only) else (chat, usage)

-- `removed` is false if the user was not there.
unfoldable pub removal_reply : Bool → User → Bool → Reply
removal_reply locked target false = was_not_in target
removal_reply locked target true = if locked then removed_for_good target else removed target

unfoldable pub remove_target : Env → Chat → Bool → Found → Chat × Reply
unfolding removal_reply
remove_target env chat locked (failed e) = (chat, error e)
remove_target env chat locked (found target) =
    let (r, gone, e) = remove env.save chat.roster target.hash in
    answer chat (r, e) (removal_reply locked target gone) couldnt_remove

unfoldable pub handle_remove_user : Env → Chat → Role → List Bytes → Chat × Reply
unfolding remove_target
handle_remove_user env chat role (who ∷ []) =
    if not (at_least_mod role)
    then (chat, mods_only)
    else remove_target env chat env.cfg.locked (resolve chat.roster who)
handle_remove_user env chat role _ =
    if not (at_least_mod role) then (chat, mods_only) else (chat, usage)

-- A kick says of every group that the user can rejoin.
unfoldable pub handle_kick : Env → Chat → Role → List Bytes → Chat × Reply
unfolding remove_target
handle_kick env chat role (who ∷ []) =
    if not (at_least_mod role)
    then (chat, mods_only)
    else remove_target env chat false (resolve chat.roster who)
handle_kick env chat role _ = if not (at_least_mod role) then (chat, mods_only) else (chat, usage)

unfoldable pub ban_target : Env → Chat → Found → Chat × Reply
ban_target env chat (failed e) = (chat, error e)
ban_target env chat (found target) =
    answer chat (ban env.save chat.roster target.hash) (banned target) couldnt_ban

unfoldable pub handle_ban : Env → Chat → Role → List Bytes → Chat × Reply
unfolding ban_target
handle_ban env chat role (who ∷ []) =
    if not (at_least_mod role)
    then (chat, mods_only)
    else ban_target env chat (resolve chat.roster who)
handle_ban env chat role _ = if not (at_least_mod role) then (chat, mods_only) else (chat, usage)

-- Unban of one hash off the list: it is there, so the flag is true.
unfoldable pub unban_one : Env → Chat → Bytes → Chat × Reply
unban_one env chat h =
    let (r, ok, e) = unban env.save chat.roster h in
    answer chat (r, e) (if ok then unbanned h else unbanned_plain) couldnt_unban

unfoldable pub unban_matches : Env → Chat → Bytes → List Bytes → Chat × Reply
unfolding unban_one
unban_matches env chat hash [] = (chat, not_banned hash)
unban_matches env chat hash (h ∷ []) = unban_one env chat h
unban_matches env chat hash hs = (chat, many_banned hash hs)

-- The first loop takes the exact hash, which the ban list holds once; the second, prefixes.
unfoldable pub handle_unban : Env → Chat → Role → List Bytes → Chat × Reply
unfolding unban_one unban_matches
handle_unban env chat role (arg ∷ []) =
    let hash = to_lower (trim_space arg) in
    let listed = banned_hashes chat.roster in
    if not (at_least_mod role)
    then (chat, mods_only)
    else if contains listed hash
    then unban_one env chat hash
    else unban_matches env chat hash (keep (λ h. has_prefix h hash) listed)
handle_unban env chat role _ = if not (at_least_mod role) then (chat, mods_only) else (chat, usage)
