-- ===== src/Service/Inbox.antt =====
-- internal/service/inbox.go: what the service does with a verified message. The limits of `Inbox` come
-- from ServiceConfig, a negative one as 0; `size` is that of Attachments, `ids` gives the id of the
-- entry with a number, `render` the text of a reply of the dispatcher, empty where there is none, and
-- `save_log` the outcome of a write of the history. The dispatcher's hooks are left in its events. Errors
-- of Touch, MarkMessage and Append are only logged.
pub mod Refusals
pub mod Reach
use reticulum_group_chat.Base.{
  ℕ, zero, suc, ◌+◌, ◌-◌, Bool, true, false, not, ◌&&◌, ◌||◌, Option, none, some, List, [], ◌∷◌,
  ◌++◌, nat_eq, ltb, leb, nat_beq, ◌==◌, if◌then◌else◌, length, take,
}
use reticulum_group_chat.Base.Decimal.{decimal}
use reticulum_group_chat.Base.Text.{Bytes, bytes_eq, text, trim_right}
use reticulum_group_chat.Hex.{encode}
use reticulum_group_chat.Sanitize.{sanitize_forward}
use reticulum_group_chat.Roster.Members.{touch, mark_message, has_member, get}
use reticulum_group_chat.Roster.Settings.{is_paused}
use reticulum_group_chat.Roster.Bans.{is_banned}
use reticulum_group_chat.Commands.Model.{Env, Chat}
use reticulum_group_chat.Commands.Parser.{is_command, parse}
use reticulum_group_chat.Commands.Dispatch.{Reply, dispatch}
use reticulum_group_chat.History.{Log, SaveLog, append}
use reticulum_group_chat.IdMap.{Cache, new_bubble, register_view}
use reticulum_group_chat.Service.Dedup.{DedupCache, seen_before}
use reticulum_group_chat.Service.Fields.{Value, Fields}
use reticulum_group_chat.Service.Attachments.{AttachmentPolicy, Filtered, filter_attachments}
use reticulum_group_chat.Service.Rewrite.{
  Targets, build_rewrite, rewrite_for, is_primary_bubble, stamp_reactor_identity,
}
use reticulum_group_chat.Service.Forward.{Message, Rewrite, forward_to_roster}
use reticulum_group_chat.Service.Outbound.Queue.{OutboundQueue, enqueue_plain, enqueue_bubble}

pub record Inbound : Type 0 where
  pub source_hash : Bytes
  pub dedup_key : Bytes
  pub message_id : Bytes
  pub content : Bytes
  pub fields : Fields

pub record Inbox : Type 0 where
  pub env : Env
  pub max_inbound_chars : ℕ
  pub policy : AttachmentPolicy
  pub id_cache_ttl : ℕ
  pub size : Value → Option ℕ
  pub ids : ℕ → Bytes
  pub render : Reply → Bytes
  pub save_log : SaveLog

-- What a message can change.
pub record Service : Type 0 where
  pub chat : Chat
  pub dedup : DedupCache
  pub queue : OutboundQueue Fields
  pub log : Log

abbrev within : ℕ → ℕ → ℕ → Bool
within lo hi c = leb lo c && leb c hi

abbrev is_tail : ℕ → Bool
is_tail c = within 0x80 0xbf c

-- The bytes after the first that belong to the rune at the start, none for an invalid one.
unfoldable pub rune_tail : Bytes → ℕ
rune_tail (c ∷ d ∷ e ∷ f ∷ _) =
    if within 0xc2 0xdf c && is_tail d
    then 1
    else if ((c == 0xe0 && within 0xa0 0xbf d)
          || (within 0xe1 0xec c && is_tail d)
          || (c == 0xed && within 0x80 0x9f d)
          || (within 0xee 0xef c && is_tail d))
        && is_tail e
    then 2
    else if ((c == 0xf0 && within 0x90 0xbf d)
          || (within 0xf1 0xf3 c && is_tail d)
          || (c == 0xf4 && within 0x80 0x8f d))
        && is_tail e
        && is_tail f
    then 3
    else 0
rune_tail (c ∷ d ∷ e ∷ []) =
    if within 0xc2 0xdf c && is_tail d
    then 1
    else if ((c == 0xe0 && within 0xa0 0xbf d)
          || (within 0xe1 0xec c && is_tail d)
          || (c == 0xed && within 0x80 0x9f d)
          || (within 0xee 0xef c && is_tail d))
        && is_tail e
    then 2
    else 0
rune_tail (c ∷ d ∷ []) = if within 0xc2 0xdf c && is_tail d then 1 else 0
rune_tail _ = 0

-- The runes after the bytes that the present one still has.
unfoldable pub runes_from : ℕ → Bytes → ℕ
unfolding rune_tail
runes_from skip [] = 0
runes_from zero (c ∷ s) = suc (runes_from (rune_tail (c ∷ s)) s)
runes_from (suc skip) (c ∷ s) = runes_from skip s

-- utf8.RuneCountInString
unfoldable pub rune_count : Bytes → ℕ
unfolding runes_from
rune_count s = runes_from 0 s

unfoldable pub post : Inbox → Service → Bytes → Bytes → Service
unfolding enqueue_plain
post i s recipient body = record s {
  queue = (enqueue_plain s.queue (i.ids s.queue.next_ref) recipient body i.env.now).0;
}

unfoldable pub reply_invite : Inbox → Service → Bytes → Service
unfolding post
reply_invite i s sender = post i s sender (
    text
      "Welcome. To join this chat send /join. Send /? for help. Until you join, your messages aren't forwarded.")

unfoldable pub joined_and : List Bytes → Bytes
joined_and [] = []
joined_and (l ∷ []) = l
joined_and (l ∷ ls) = l ++ text " and " ++ joined_and ls

unfoldable pub reply_unsupported_fields : Inbox → Service → Bytes → List Bytes → Bool → Service
unfolding post joined_and
reply_unsupported_fields i s sender labels only = post i s sender (
    text "This group doesn't accept "
    ++ joined_and labels
    ++ text " attachments, so it wasn't forwarded. "
    ++ (if only
        then text "Nothing was sent, since there was no text with it."
        else text "The rest of your message was sent."))

unfoldable pub reply_paused : Inbox → Service → Bytes → Service
unfolding post
reply_paused i s sender =
    post i s sender
      (text "You're paused. Your message wasn't forwarded. Send /resume to come back.")

unfoldable pub reply_over_inbound_limit : Inbox → Service → Bytes → ℕ → Service
unfolding post
reply_over_inbound_limit i s sender char_count = post i s sender (
    text "Message rejected: limit is "
    ++ decimal i.max_inbound_chars
    ++ text " characters per message, yours was "
    ++ decimal char_count
    ++ text ". Please shorten and resend.")

-- newBubbleForForward, with the sender's view of the message registered.
unfoldable pub new_bubble_for_forward : Inbox → Option Cache → Inbound → Option Cache × Option ℕ
new_bubble_for_forward i none msg = (none, none)
new_bubble_for_forward i (some c) msg =
    if nat_beq i.id_cache_ttl 0
    then (some c, none)
    else let (c', b) = new_bubble c i.id_cache_ttl i.env.now in
      (some (register_view c' b (encode msg.source_hash) (encode msg.message_id) i.env.now), some b)

-- A map without entries is nil.
abbrev pub or_nil : Fields → Option Fields
or_nil [] = none
or_nil (e ∷ fields) = some (e ∷ fields)

abbrev entries_of : Option Fields → Fields
entries_of none = []
entries_of (some fields) = fields

abbrev kept_fields : Option Fields → Option (Option Fields)
kept_fields none = none
kept_fields (some fields) = some (some fields)

unfoldable pub rewrite_of : Option Cache → Option Targets → Rewrite Fields
rewrite_of (some c) (some t) =
    some (λ h fields. kept_fields (rewrite_for c t h (entries_of fields)))
rewrite_of _ _ = none

unfoldable pub enqueue_each :
    Inbox → OutboundQueue Fields → List (Message Fields) → Option ℕ → OutboundQueue Fields
unfolding enqueue_bubble
enqueue_each i q [] bubble = q
enqueue_each i q (m ∷ ms) bubble =
    enqueue_each i
      (enqueue_bubble q (i.ids q.next_ref) m.recipient m.body m.fields bubble i.env.now).0 ms bubble

-- The cache after the scan of the fields, and what is to be rewritten.
abbrev pub scanned : Inbox → Service → Fields → Option Cache × Option Targets
scanned i s fields = build_rewrite s.queue.idmap fields i.env.now

-- The cache with the bubble of this message, if it gets one.
abbrev pub prepared : Inbox → Service → Inbound → Bytes → Fields → Option Cache × Option ℕ
prepared i s msg content fields =
    if is_primary_bubble content fields
    then new_bubble_for_forward i (scanned i s fields).0 msg
    else ((scanned i s fields).0, none)

abbrev pub rewrite_in : Inbox → Service → Inbound → Bytes → Fields → Rewrite Fields
rewrite_in i s msg content fields =
    rewrite_of (prepared i s msg content fields).0 (scanned i s fields).1

abbrev pub stamped : Inbound → Fields → Option Fields
stamped msg fields = or_nil (stamp_reactor_identity fields msg.source_hash).0

abbrev pub fan_out : Inbox → Service → Inbound → Bytes → Bytes → Fields → List (Message Fields)
fan_out i s msg content body fields =
    forward_to_roster Fields s.chat.roster (encode msg.source_hash) body (stamped msg fields)
      (rewrite_in i s msg content fields)

-- From the rewrite on: `nick` and `content` go to the history, `body` and `fields` to the members.
unfoldable pub relay : Inbox → Service → Inbound → Bytes → Bytes → Bytes → Fields → Service
unfolding enqueue_each
relay i s msg nick content body fields =
    let (idmap, bubble) = prepared i s msg content fields in
    let messages = fan_out i s msg content body fields in
    let s' = record s {
      queue = enqueue_each i (record s.queue { idmap = idmap }) messages bubble;
    } in
    if ltb 0 (length messages) && not (content == [])
    then record s' {
      log =
          (append i.save_log s'.log (record {
            at = i.env.now;
            sender_hash = encode msg.source_hash;
            sender_nick = nick;
            content = content;
          })).0;
    }
    else s'

unfoldable pub with_notes : Bytes → List Bytes → Bytes
with_notes body [] = body
with_notes body (note ∷ notes) =
    with_notes (if body == [] then note else body ++ text " " ++ note) notes

abbrev pub nick_of : Inbox → Service → Bytes → Bytes
nick_of i s sender_hex = elim (get s.chat.roster sender_hex) [
  | none ↦ take 8 sender_hex
  | some u ↦ if u.nickname == [] then take 8 sender_hex else u.nickname
]

-- A chat message of an active member.
unfoldable pub chat_received : Inbox → Service → Inbound → Bytes → Service
unfolding relay with_notes reply_unsupported_fields
chat_received i s msg content =
    let sender = msg.source_hash in
    let chat = record s.chat { roster = (mark_message s.chat.roster sender i.env.now).0 } in
    let s' = record s { chat = chat } in
    let nick = nick_of i s' (encode sender) in
    let clean = sanitize_forward content in
    let f = filter_attachments i.size i.policy msg.fields in
    let body =
      with_notes (if clean == [] then [] else text "[" ++ nick ++ text "] " ++ clean) f.drops in
    let is_empty = body == [] && nat_beq (length f.out) 0 in
    let told =
      if ltb 0 (length f.rejected)
      then reply_unsupported_fields i s' sender f.rejected is_empty
      else s' in
    if is_empty then told else relay i told msg nick clean body f.out

unfoldable pub message_received : Inbox → Service → Inbound → Bytes → Service
unfolding rune_count reply_over_inbound_limit reply_invite reply_paused chat_received
message_received i s msg content =
    let sender = msg.source_hash in
    if ltb 0 i.max_inbound_chars && ltb i.max_inbound_chars (rune_count content)
    then reply_over_inbound_limit i s sender (rune_count content)
    else if not (has_member s.chat.roster sender)
    then reply_invite i s sender
    else if is_paused s.chat.roster (encode sender)
    then reply_paused i s sender
    else chat_received i s msg content

unfoldable pub command_received : Inbox → Service → Inbound → Bytes → Service
unfolding post
command_received i s msg content =
    let (chat, reply) = dispatch i.env s.chat (encode msg.source_hash) (parse content) in
    let s' = record s { chat = chat } in
    if i.render reply == [] then s' else post i s' msg.source_hash (i.render reply)

abbrev pub is_line_end : ℕ → Bool
is_line_end c = c == b'\r' || c == b'\n'

-- From the ban list on.
unfoldable pub accepted_message : Inbox → Service → Inbound → Service
unfolding command_received message_received
accepted_message i s msg =
    if is_banned s.chat.roster msg.source_hash
    then s
    else let chat = record s.chat { roster = (touch s.chat.roster msg.source_hash i.env.now).0 } in
      let s' = record s { chat = chat } in
      let content = trim_right is_line_end msg.content in
      if is_command content
      then command_received i s' msg content
      else message_received i s' msg content

unfoldable pub on_lxmf_received : Inbox → Service → Inbound → Service
unfolding accepted_message
on_lxmf_received i s msg =
    if nat_beq (length msg.dedup_key) 0
    then accepted_message i s msg
    else let (dedup, seen) = seen_before s.dedup (encode msg.dedup_key) i.env.now in
      let s' = record s { dedup = dedup } in if seen then s' else accepted_message i s' msg
