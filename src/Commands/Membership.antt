-- ===== src/Commands/Membership.antt =====
-- /join, /leave, /pause, /resume, /textonly, /showall of internal/commands/handlers.go.
use reticulum_group_chat.Base.{
  ℕ, Bool, true, false, ◌||◌, ◌&&◌, not, Option, none, some, [], ◌∷◌, ◌++◌, ltb, leb, if◌then◌else◌,
  ◌==◌,
}
use reticulum_group_chat.Base.Text.{Bytes, bytes_eq}
use reticulum_group_chat.Roster.Model.{Roster, Error}
use reticulum_group_chat.Roster.Members.{add_or_update, remove, get, len}
use reticulum_group_chat.Roster.Settings.{set_paused, set_text_only, set_nickname}
use reticulum_group_chat.Roster.Bans.{is_banned}
use reticulum_group_chat.Commands.Nickname.{sanitize_nickname}
use reticulum_group_chat.Commands.Model.{Env, Chat, Caller, Event, told_join, at_least_mod}

-- The replies of these commands, in the order of the source.
pub data Reply : Type 0 where
  already_member malformed_hash : Reply
  closed_group : Bytes → Reply
  you_are_banned : Reply
  full : ℕ → ℕ → Reply
  couldnt_join : Error → Reply
  joined : Reply
  not_in_chat : Reply
  couldnt_leave : Error → Reply
  left : Reply
  join_first : Reply
  already_paused : Reply
  couldnt_pause : Error → Reply
  paused : Reply
  not_paused : Reply
  couldnt_resume : Error → Reply
  resumed : Reply
  already_text_only : Reply
  couldnt_text_only : Error → Reply
  text_only_on : Reply
  already_everything : Reply
  couldnt_show_all : Error → Reply
  showing_all : Reply

-- The default nickname that /join and /adduser take from the peer's announce.
unfoldable pub adopt_announced_name : Env → Bytes → Bytes → Roster → Roster
adopt_announced_name env hash hb r = elim env.lookup_announced_name [
  | none ↦ r
  | some announced_name ↦
      let announced = announced_name hb in
      let sanitized = sanitize_nickname announced in
      if announced == [] || sanitized == [] then r else (set_nickname env.save r hash sanitized).0
]

-- /join leaves a nickname that is set alone.
unfoldable pub adopt_missing_name : Env → Bytes → Bytes → Roster → Roster
adopt_missing_name env hash hb r = elim (get r hash) [
  | none ↦ r
  | some u ↦ if u.nickname == [] then adopt_announced_name env hash hb r else r
]

abbrev pub put_roster : Chat → Roster → Chat
put_roster chat r = record chat { roster = r }

abbrev pub tell : Bool → Event → Chat → Chat
tell wired e chat = if wired then record chat { events = chat.events ++ e ∷ [] } else chat

-- `max > 0 && cur >= max`
abbrev pub is_full : Env → Roster → Bool
is_full env r = ltb 0 env.cfg.max_members && leb env.cfg.max_members (len r)

unfoldable pub add_member : Env → Chat → Caller → Bytes → Chat × Reply
add_member env chat c hb =
    let (r, _, e) = add_or_update env.save chat.roster hb env.now in
    elim e [
      | some err ↦ (put_roster chat r, couldnt_join err)
      | none ↦ (
        tell env.on_join (told_join c.hash) (put_roster chat (adopt_missing_name env c.hash hb r)),
        joined,
      )
    ]

unfoldable pub handle_join : Env → Chat → Caller → Chat × Reply
unfolding add_member
handle_join env chat c = if c.member then (chat, already_member) else elim c.hash_bytes [
  | none ↦ (chat, malformed_hash)
  | some hb ↦
      if env.cfg.locked && not (at_least_mod c.role)
      then (chat, closed_group c.hash)
      else if is_banned chat.roster hb
      then (chat, you_are_banned)
      else if is_full env chat.roster
      then (chat, full (len chat.roster) env.cfg.max_members)
      else add_member env chat c hb
]

-- A handler's two replies to a roster operation.
abbrev pub answer {ℓ} : {R : Type ℓ} → Chat → Roster × Option Error → R → (Error → R) → Chat × R
answer chat (r, none) done failed = (put_roster chat r, done)
answer chat (r, some e) done failed = (put_roster chat r, failed e)

abbrev pub without_flag : Roster × Bool × Option Error → Roster × Option Error
without_flag (r, _, e) = (r, e)

unfoldable pub handle_leave : Env → Chat → Caller → Chat × Reply
handle_leave env chat c =
    if not c.member
    then (chat, not_in_chat)
    else answer chat (without_flag (remove env.save chat.roster c.hash)) left couldnt_leave

unfoldable pub handle_pause : Env → Chat → Caller → Chat × Reply
handle_pause env chat c =
    if not c.member
    then (chat, join_first)
    else if c.paused
    then (chat, already_paused)
    else answer chat (set_paused env.save chat.roster c.hash true) paused couldnt_pause

unfoldable pub handle_resume : Env → Chat → Caller → Chat × Reply
handle_resume env chat c =
    if not c.member
    then (chat, join_first)
    else if not c.paused
    then (chat, not_paused)
    else answer chat (set_paused env.save chat.roster c.hash false) resumed couldnt_resume

unfoldable pub handle_text_only : Env → Chat → Caller → Chat × Reply
handle_text_only env chat c =
    if not c.member
    then (chat, join_first)
    else if c.text_only
    then (chat, already_text_only)
    else answer chat (set_text_only env.save chat.roster c.hash true) text_only_on couldnt_text_only

unfoldable pub handle_show_all : Env → Chat → Caller → Chat × Reply
handle_show_all env chat c =
    if not c.member
    then (chat, join_first)
    else if not c.text_only
    then (chat, already_everything)
    else answer chat (set_text_only env.save chat.roster c.hash false) showing_all couldnt_show_all
