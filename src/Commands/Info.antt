-- ===== src/Commands/Info.antt =====
-- internal/commands/info.go: /info, /setinfo, /pins, /pin, /unpin.
-- The limit of one packet is what the LXMF library admits; the model takes it as a number.
pub mod Packet
use reticulum_group_chat.Base.{
  ℕ, ◌+◌, ◌-◌, Bool, true, false, ◌||◌, ◌&&◌, not, Option, none, some, List, [], ◌∷◌, ◌++◌, ltb,
  leb, nat_beq, if◌then◌else◌, ◌==◌, length,
}
use reticulum_group_chat.Base.Text.{Bytes, bytes_eq, text, trim_space}
use reticulum_group_chat.Base.Decimal.{decimal}
use reticulum_group_chat.Base.Int.{ℤ, pos, negsuc, atoi}
use reticulum_group_chat.Sanitize.{scrub_control_bytes}
use reticulum_group_chat.Roster.Members.{get}
use reticulum_group_chat.GroupInfo.Store.{
  Store, Pin, Error, pins_full, io, set_info, add_pin, remove_pin, pin_count, max_info_bytes,
  max_pins, max_pin_bytes,
}
use reticulum_group_chat.Commands.Model.{
  Env, Chat, Caller, Config, role_user, at_least_mod, is_admin_role, is_user_role,
}

-- The replies of these commands, in the order of the source.
pub data Reply : Type 0 where
  info_not_wired : Reply
  info_text : Bytes → Reply
  setinfo_admins_only no_description : Reply
  couldnt_clear : Bytes → Reply
  cleared : Reply
  description_too_long : ℕ → Reply
  no_room : Reply
  over_packet : ℕ → ℕ → Reply
  couldnt_set : Bytes → Reply
  description_set : ℕ → ℕ → Reply
  members_only_pins : Reply
  no_pins no_pins_mod : Reply
  pin_list : List Pin → Bool → Reply
  pin_mods_only pin_usage : Reply
  pin_too_long : ℕ → Reply
  pins_are_full : Reply
  couldnt_pin : Bytes → Reply
  pinned_as : ℕ → Reply
  unpin_mods_only unpin_usage not_a_number : Reply
  couldnt_unpin : Bytes → Reply
  no_such_pin : ℤ → ℕ → Reply
  unpinned : ℤ → Pin → ℕ → Reply

-- The text between the display name and the tail.
description_part : Caller → Bytes → Bytes
description_part c info =
    if not (info == [])
    then b'\n' ∷ info
    else if is_admin_role c.role
    then text "\nNo description set — /setinfo <text> to add one."
    else text "\nNo description set."

tail_part : Config → Caller → ℕ → Bytes
tail_part cfg c pins =
    if c.member
    then (if ltb 0 pins then b'\n' ∷ decimal pins ++ text " pinned — /pins" else [])
    else if cfg.locked
    then text "\nInvite-only. Give an admin your address to be added:\n" ++ c.hash
    else text "\n/join to take part, /? for help."

unfoldable pub render_info : Config → Caller → Bytes → ℕ → Bytes
unfolding description_part tail_part
render_info cfg c info pins = cfg.display_name ++ (description_part c info ++ tail_part cfg c pins)

unfoldable pub handle_info : Env → Chat → Caller → Chat × Reply
unfolding pin_count
handle_info env chat c = elim chat.info [
  | none ↦ (chat, info_not_wired)
  | some s ↦ (chat, info_text (render_info env.cfg c s.info (pin_count s)))
]

-- The two callers that InfoOverflow measures the reply for.
abbrev stranger : Caller
stranger = record {
  hash = text "00000000000000000000000000000000";
  hash_bytes = none;
  role = role_user;
  member = false;
  paused = false;
  text_only = false;
}

abbrev member : Caller
member = record stranger { member = true }

larger : ℕ → ℕ → ℕ
larger worst n = if ltb worst n then n else worst

-- The length of the longest reply; InfoOverflow is this less the packet's limit.
unfoldable pub longest_info : Config → Bytes → ℕ
unfolding larger
longest_info cfg info =
    larger (larger 0 (length (render_info cfg stranger info max_pins)))
      (length (render_info cfg member info max_pins))

abbrev pub put_info : Chat → Store → Chat
put_info chat s = record chat { info = some s }

-- A handler's two replies to a write of the store.
answer : Chat → Store × Option Error → Reply → (Bytes → Reply) → Chat × Reply
answer chat (s, none) done failed = (put_info chat s, done)
answer chat (s, some (io e)) done failed = (put_info chat s, failed e)
answer chat (s, some pins_full) done failed = (put_info chat s, pins_are_full)

clear_info : Env → Chat → Store → Chat × Reply
unfolding answer
clear_info env chat s =
    if s.info == []
    then (chat, no_description)
    else answer chat (set_info env.save_info s []) cleared couldnt_clear

-- `over > 0` is `budget < longest`, and the room is the length less what is over.
store_info : Env → Chat → Store → Bytes → Chat × Reply
unfolding answer
store_info env chat s clean =
    let budget = env.single_packet_reply_bytes in
    let longest = longest_info env.cfg clean in
    if ltb max_info_bytes (length clean)
    then (chat, description_too_long (length clean))
    else if ltb budget longest
    then (
      chat,
      (if leb (length clean) (longest - budget)
          then no_room
          else over_packet (length clean) (length clean - (longest - budget))),
    )
    else answer chat (set_info env.save_info s clean)
        (description_set (length clean) (length clean + (budget - longest))) couldnt_set

unfoldable pub handle_set_info : Env → Chat → Caller → Bytes → Chat × Reply
unfolding clear_info store_info
handle_set_info env chat c words =
    if not (is_admin_role c.role) then (chat, setinfo_admins_only) else elim chat.info [
      | none ↦ (chat, info_not_wired)
      | some s ↦
          if trim_space words == []
          then clear_info env chat s
          else store_info env chat s (scrub_control_bytes (trim_space words))
    ]

unfoldable pub handle_pins : Env → Chat → Caller → Chat × Reply
handle_pins env chat c = elim chat.info [
  | none ↦ (chat, info_not_wired)
  | some s ↦
      if not c.member && is_user_role c.role
      then (chat, members_only_pins)
      else if nat_beq (length s.pins) 0
      then (chat, (if at_least_mod c.role then no_pins_mod else no_pins))
      else (chat, pin_list s.pins (at_least_mod c.role))
]

is_line_break : ℕ → Bool
is_line_break c = nat_beq c b'\n' || nat_beq c b'\r'

-- The loop, with what is written and `pendingBreak`; bytes and runes give the same text.
collapse_from : Bytes → Bool → Bytes → Bytes
unfolding is_line_break
collapse_from out pending [] = out
collapse_from out pending (c ∷ s) =
    let kept = if pending && ltb 0 (length out) then out ++ b' ' ∷ [] else out in
    let blank = nat_beq c b' ' || nat_beq c b'\t' in
    collapse_from
      (if is_line_break c
        then out
        else if blank
        then (if not pending then out ++ c ∷ [] else out)
        else kept ++ c ∷ [])
      (if is_line_break c then true else if blank then pending else false) s

has_line_break : Bytes → Bool
unfolding is_line_break
has_line_break [] = false
has_line_break (c ∷ s) = is_line_break c || has_line_break s

unfoldable pub collapse_lines : Bytes → Bytes
unfolding collapse_from has_line_break
collapse_lines s = if not (has_line_break s) then s else trim_space (collapse_from [] false s)

pin_words : Env → Chat → Caller → Store → Bytes → Chat × Reply
unfolding answer
pin_words env chat c s clean =
    let nick : Bytes = elim (get chat.roster c.hash) [ none ↦ [] | some u ↦ u.nickname ] in
    let (s', e) =
      add_pin env.save_info s
        (record { at = env.now; by = c.hash; by_nick = nick; words = clean }) in
    if clean == []
    then (chat, pin_usage)
    else if ltb max_pin_bytes (length clean)
    then (chat, pin_too_long (length clean))
    else answer chat (s', e) (pinned_as (pin_count s')) couldnt_pin

unfoldable pub handle_pin : Env → Chat → Caller → Bytes → Chat × Reply
unfolding pin_words collapse_lines
handle_pin env chat c words =
    if not (at_least_mod c.role) then (chat, pin_mods_only) else elim chat.info [
      | none ↦ (chat, info_not_wired)
      | some s ↦ pin_words env chat c s (collapse_lines (scrub_control_bytes (trim_space words)))
    ]

-- RemovePin refuses every index below 1, so those are all passed on as 0.
abbrev index_of : ℤ → ℕ
index_of (pos n) = n
index_of (negsuc n) = 0

removed_reply : Chat → ℤ → Store × Option Pin × Option Error → Chat × Reply
removed_reply chat n (s, p, some (io e)) = (put_info chat s, couldnt_unpin e)
removed_reply chat n (s, p, some pins_full) = (put_info chat s, pins_are_full)
removed_reply chat n (s, none, none) = (put_info chat s, no_such_pin n (pin_count s))
removed_reply chat n (s, some p, none) = (put_info chat s, unpinned n p (pin_count s))

unpin_number : Env → Chat → Store → Option ℤ → Chat × Reply
unfolding removed_reply
unpin_number env chat s none = (chat, not_a_number)
unpin_number env chat s (some n) = removed_reply chat n (remove_pin env.save_info s (index_of n))

unpin_args : Env → Chat → Store → List Bytes → Chat × Reply
unfolding unpin_number
unpin_args env chat s (arg ∷ []) = unpin_number env chat s (atoi arg)
unpin_args env chat s _ = (chat, unpin_usage)

-- The reply to a missing number words the counts 0 and 1 apart.
unfoldable pub handle_unpin : Env → Chat → Caller → List Bytes → Chat × Reply
unfolding unpin_args
handle_unpin env chat c args =
    if not (at_least_mod c.role)
    then (chat, unpin_mods_only)
    else elim chat.info [ none ↦ (chat, info_not_wired) | some s ↦ unpin_args env chat s args ]
