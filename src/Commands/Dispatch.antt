-- ===== src/Commands/Dispatch.antt =====
-- `Dispatch` of internal/commands/handlers.go, with /path and /announce.
use reticulum_group_chat.Base.{
  Bool, true, ◌||◌, ◌&&◌, not, none, some, List, [], ◌∷◌, if◌then◌else◌, ◌==◌,
}
use reticulum_group_chat.Base.Text.{Bytes, bytes_eq, text}
use reticulum_group_chat.Sanitize.{scrub_control_bytes}
use reticulum_group_chat.Roster.Model.{User, Error}
use reticulum_group_chat.Roster.Listing.{resolve, Found, found, failed}
use reticulum_group_chat.Commands.Parser.{Parsed}
use reticulum_group_chat.Commands.Model.{
  Env, Chat, Caller, PathInfo, Role, told_announce, at_least_mod, is_user_role, derive_caller,
}
use reticulum_group_chat.Commands.Membership
use reticulum_group_chat.Commands.Membership.{tell}
use reticulum_group_chat.Commands.Moderation
use reticulum_group_chat.Commands.Info
use reticulum_group_chat.Commands.Listing.{list_all_users, list_config_list}

pub data Command : Type 0 where
  help about info setinfo pins pin unpin users mods admins join leave pause resume textonly :
      Command
  showall nick usermode adduser removeuser kick ban unban announce path : Command
  unknown : Bytes → Command

-- The replies of the handlers, and those of the commands that stand here.
pub data Reply : Type 0 where
  help_text : Role → Bool → Reply
  about_text : Reply
  of_membership : Membership.Reply → Reply
  of_moderation : Moderation.Reply → Reply
  of_info : Info.Reply → Reply
  members_only : Reply
  listing : Bytes → Reply
  unknown_command : Bytes → Reply
  mods_only : Reply
  announce_not_wired : Reply
  announce_failed : Bytes → Reply
  announced : Reply
  path_usage : Reply
  path_not_wired : Reply
  error : Error → Reply
  path_to : User → PathInfo → Reply

-- The cases of the `switch` on the name.
unfoldable pub command_of : Bytes → Command
command_of name =
    if name == text "?" || name == text "help"
    then help
    else if name == text "about" || name == text "version"
    then about
    else if name == text "info"
    then info
    else if name == text "setinfo"
    then setinfo
    else if name == text "pins"
    then pins
    else if name == text "pin"
    then pin
    else if name == text "unpin"
    then unpin
    else if name == text "users"
    then users
    else if name == text "mods"
    then mods
    else if name == text "admin" || name == text "admins"
    then admins
    else if name == text "join"
    then join
    else if name == text "leave"
    then leave
    else if name == text "pause"
    then pause
    else if name == text "resume"
    then resume
    else if name == text "textonly"
    then textonly
    else if name == text "showall"
    then showall
    else if name == text "nick"
    then nick
    else if name == text "usermode"
    then usermode
    else if name == text "adduser"
    then adduser
    else if name == text "removeuser"
    then removeuser
    else if name == text "kick"
    then kick
    else if name == text "ban"
    then ban
    else if name == text "unban"
    then unban
    else if name == text "announce"
    then announce
    else if name == text "path"
    then path
    else unknown (scrub_control_bytes name)

unfoldable pub handle_announce : Env → Chat → Role → Chat × Reply
handle_announce env chat role =
    if not (at_least_mod role) then (chat, mods_only) else elim env.announce [
      | none ↦ (chat, announce_not_wired)
      | some (some e) ↦ (tell true told_announce chat, announce_failed e)
      | some none ↦ (tell true told_announce chat, announced)
    ]

path_reply : (Bytes → PathInfo) → Found → Reply
path_reply lookup_path (failed e) = error e
path_reply lookup_path (found target) = path_to target (lookup_path target.hash)

-- The text of the reply shows the PathInfo field by field.
unfoldable pub handle_path : Env → Chat → Role → List Bytes → Chat × Reply
unfolding path_reply
handle_path env chat role (who ∷ []) =
    if not (at_least_mod role) then (chat, mods_only) else elim env.path_lookup [
      | none ↦ (chat, path_not_wired)
      | some lookup_path ↦ (chat, path_reply lookup_path (resolve chat.roster who))
    ]
handle_path env chat role _ =
    if not (at_least_mod role) then (chat, mods_only) else (chat, path_usage)

abbrev pub wrap {ℓ} : {R : Type ℓ} → (R → Reply) → Chat × R → Chat × Reply
wrap f (chat, r) = (chat, f r)

unfoldable pub run_command : Env → Chat → Caller → List Bytes → Bytes → Command → Chat × Reply
run_command env chat c args rest help = (chat, help_text c.role c.member)
run_command env chat c args rest about = (chat, about_text)
run_command env chat c args rest info = wrap of_info (Info.handle_info env chat c)
run_command env chat c args rest setinfo = wrap of_info (Info.handle_set_info env chat c rest)
run_command env chat c args rest pins = wrap of_info (Info.handle_pins env chat c)
run_command env chat c args rest pin = wrap of_info (Info.handle_pin env chat c rest)
run_command env chat c args rest unpin = wrap of_info (Info.handle_unpin env chat c args)
run_command env chat c args rest users =
    if not c.member && is_user_role c.role
    then (chat, members_only)
    else (chat, listing (list_all_users env chat.roster))
run_command env chat c args rest mods =
    (chat, listing (list_config_list env chat.roster (text "mods") (text "Mods") env.cfg.mods))
run_command env chat c args rest admins = (
  chat,
  listing (list_config_list env chat.roster (text "admins") (text "Admins") env.cfg.admins),
)
run_command env chat c args rest join = wrap of_membership (Membership.handle_join env chat c)
run_command env chat c args rest leave = wrap of_membership (Membership.handle_leave env chat c)
run_command env chat c args rest pause = wrap of_membership (Membership.handle_pause env chat c)
run_command env chat c args rest resume = wrap of_membership (Membership.handle_resume env chat c)
run_command env chat c args rest textonly =
    wrap of_membership (Membership.handle_text_only env chat c)
run_command env chat c args rest showall =
    wrap of_membership (Membership.handle_show_all env chat c)
run_command env chat c args rest nick = wrap of_moderation (Moderation.handle_nick env chat c args)
run_command env chat c args rest usermode =
    wrap of_moderation (Moderation.handle_user_mode env chat c args)
run_command env chat c args rest adduser =
    wrap of_moderation (Moderation.handle_add_user env chat c.role args)
run_command env chat c args rest removeuser =
    wrap of_moderation (Moderation.handle_remove_user env chat c.role args)
run_command env chat c args rest kick =
    wrap of_moderation (Moderation.handle_kick env chat c.role args)
run_command env chat c args rest ban =
    wrap of_moderation (Moderation.handle_ban env chat c.role args)
run_command env chat c args rest unban =
    wrap of_moderation (Moderation.handle_unban env chat c.role args)
run_command env chat c args rest announce = handle_announce env chat c.role
run_command env chat c args rest path = handle_path env chat c.role args
run_command env chat c args rest (unknown name) = (chat, unknown_command name)

unfoldable pub dispatch : Env → Chat → Bytes → Parsed → Chat × Reply
unfolding command_of
dispatch env chat sender parsed =
    run_command env chat (derive_caller env.cfg chat.roster sender) parsed.args parsed.rest
      (command_of parsed.name)
