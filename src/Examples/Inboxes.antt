-- ===== src/Examples/Inboxes.antt =====
-- The theorems on the inbox, the attachments and the rewriting of fields at concrete inputs.
use reticulum_group_chat.Base.{
  ℕ, ◌+◌, ◌≡◌, ◌≤◌, ◌<◌, ◌⊎◌, ◌++◌, if◌then◌else◌, refl, true, false, Option, none, some, [], ◌∷◌,
  All, arith, map, length,
}
use mathlib.Core.List.{Mem}
use reticulum_group_chat.Base.Int.{pos}
use reticulum_group_chat.Base.Maps.{lookup, select, keys, insert}
use reticulum_group_chat.Base.Text.{
  Bytes, bytes_eq, bytes_beq, text, lower, to_lower, has_prefix, trim_left, trim_right,
}
use reticulum_group_chat.Hex.{encode, must_hex_bytes, decode_pairs, hex_nibble}
use reticulum_group_chat.IdMap.{Cache}
use reticulum_group_chat.Roster.Model.{load, restore_users, new_user, normalize_hash}
use reticulum_group_chat.Roster.Bans.{is_banned}
use reticulum_group_chat.Roster.Settings.{is_text_only}
use reticulum_group_chat.Service.Fields.{
  Key, unsigned, bytes_leaf, Value, leaf, dict, Fields, key_eq, is_key, int_beq,
}
use reticulum_group_chat.Service.Attachments.{
  AttachmentPolicy, IsKind, filter_attachments, is_forwarded, filter_attachments_exact,
}
use reticulum_group_chat.Roster.Members.{active_hashes, has_member}
use reticulum_group_chat.Commands.Parser.{is_command}
use reticulum_group_chat.Service.Rewrite.{
  Targets, field_reaction, raw_view, rewrite_for, dict_at, is_primary_bubble, build_rewrite,
  stamp_reactor_identity, has_reaction_field,
}
use reticulum_group_chat.Service.Rewrite.Binding.{bound_to, has_target, rewrite_for_binds}
use reticulum_group_chat.GroupInfo.Store.{Store}
use reticulum_group_chat.History.{Log, since_oldest}
use reticulum_group_chat.Service.Replay.{allow}
use reticulum_group_chat.Service.Catchup.{ReplayConfig, replayed, send_join_catchup}
use reticulum_group_chat.Service.Catchup.Pins.{as_sent, catchup, send_join_catchup_exact}
use reticulum_group_chat.Service.Forward.{Message, rewritten}
use reticulum_group_chat.Service.Outbound.Queue.{new_outbound_queue}
use reticulum_group_chat.Service.Inbox.{
  Inbound, Inbox, Service, relay, rewrite_in, rewrite_of, stamped, new_bubble_for_forward,
  on_lxmf_received,
}
use reticulum_group_chat.Service.Inbox.Refusals.{
  Untouched, IsRefused, on_lxmf_received_banned, on_lxmf_received-IsRefused,
}
use reticulum_group_chat.Service.Inbox.Reach.{as_message, relay_reaches}
use reticulum_group_chat.Examples.Rosters.{
  bob_hash, bob, raw_alice, raw_bob, at_start, at_start-WellFormed,
}
use reticulum_group_chat.Examples.Chats.{group}

-- An image of 4 bytes.
abbrev image : Fields
image = (unsigned 8 6, leaf (bytes_leaf (1 ∷ 2 ∷ 3 ∷ 4 ∷ []))) ∷ []

abbrev images_only : AttachmentPolicy
images_only = record {
  forward_attachments = true;
  max_attachment_bytes = 100;
  forwarded_fields = pos 6 ∷ [];
}

abbrev six_bytes : Value → Option ℕ
six_bytes v = some 6

filter_attachments_exact_example :
    ((filter_attachments six_bytes images_only image).out
      ≡ select (is_forwarded six_bytes images_only) image)
    × All IsKind (filter_attachments six_bytes images_only image).rejected
filter_attachments_exact_example = filter_attachments_exact six_bytes images_only image

-- A reaction to the message that `bob` has as 0xab.
abbrev reaction : Fields
reaction = (unsigned 8 64, dict ((unsigned 8 0, bytes_leaf (1 ∷ [])) ∷ [])) ∷ []

abbrev seen_by_bob : Cache
seen_by_bob = record {
  ttl = 10;
  max_size = 4;
  bubbles = (0, record { views = (bob_hash, text "ab") ∷ []; expires_at = 50 }) ∷ [];
  by_msg_id = (text "ab", 0) ∷ [];
  lru = 0 ∷ [];
}

reaction-target : has_target field_reaction reaction ≡ true
unfolding has_target is_key dict_at int_beq
reaction-target = refl

rewrite_for_binds_example :
    let t : Targets = record { dicts = (field_reaction, 0) ∷ []; reply = none } in
    ((raw_view seen_by_bob 0 bob_hash ≡ none)
      × (rewrite_for seen_by_bob t bob_hash reaction ≡ none))
    ⊎ ((bytes : Bytes) × (out : Fields) × (raw_view seen_by_bob 0 bob_hash ≡ some bytes)
        × (rewrite_for seen_by_bob t bob_hash reaction ≡ some out)
        × (bound_to field_reaction out ≡ some (bytes_leaf bytes))
        × ((k : Key) → is_key field_reaction k ≡ false → lookup k out ≡ lookup k reaction))
rewrite_for_binds_example =
    rewrite_for_binds seen_by_bob field_reaction 0 bob_hash reaction reaction-target

abbrev inbox : Inbox
inbox = record {
  env = group;
  max_inbound_chars = 500;
  policy = images_only;
  id_cache_ttl = 100;
  size = six_bytes;
  ids = λ ref. ref ∷ [];
  render = λ reply. text "ok";
  save_log = λ es. none;
}

abbrev service : Service
service = record {
  chat = record { roster = at_start; info = none; events = [] };
  dedup = record { seen = []; ttl = 100; max = 10 };
  queue = new_outbound_queue none;
  log = record { capacity = 3; entries = []; file = none };
}

abbrev from : Bytes → Inbound
from sender = record {
  source_hash = sender;
  dedup_key = 1 ∷ [];
  message_id = 2 ∷ [];
  content = text "hello";
  fields = [];
}

abbrev raw_carol : Bytes
raw_carol = 0xca ∷ 0x40 ∷ 0 ∷ 0 ∷ 0 ∷ 0 ∷ 0 ∷ 0 ∷ 0 ∷ 0 ∷ 0 ∷ 0 ∷ 0 ∷ 0 ∷ 0 ∷ 0 ∷ []

on_lxmf_received_banned_example :
    Untouched service (on_lxmf_received inbox service (from raw_carol))
unfolding is_banned normalize_hash lookup load insert bytes_beq to_lower text encode
on_lxmf_received_banned_example = on_lxmf_received_banned inbox service (from raw_carol) refl

on_lxmf_received-IsRefused_example :
    IsRefused inbox service raw_carol (on_lxmf_received inbox service (from raw_carol))
unfolding is_command has_prefix trim_left trim_right text has_member normalize_hash lookup load
    bytes_beq encode
on_lxmf_received-IsRefused_example =
    on_lxmf_received-IsRefused inbox service (from raw_carol) refl refl

-- There is room for both members.
room_left : length service.queue.pending + length (active_hashes service.chat.roster) ≤ 10000
unfolding active_hashes load keys select restore_users new_user new_outbound_queue
room_left = omega arith

-- Nothing is rewritten.
text_alone :
    rewritten Fields
      (rewrite_in inbox service (from raw_alice) (text "hello") [])
      bob_hash
      (stamped (from raw_alice) [])
    ≡ some none
unfolding rewrite_of is_primary_bubble new_bubble_for_forward build_rewrite new_outbound_queue
    stamp_reactor_identity has_reaction_field text bytes_beq
text_alone = refl

relay_reaches_example :
    Mem {A = Message Fields}
      (record { recipient = raw_bob; body = text "[Alice] hello"; fields = none })
      (map as_message
        (relay inbox service
          (from raw_alice)
          (text "Alice")
          (text "hello")
          (text "[Alice] hello")
          []).queue.pending)
unfolding lookup load bytes_beq text new_user restore_users encode must_hex_bytes decode_pairs
    hex_nibble is_text_only to_lower lower
relay_reaches_example =
    relay_reaches inbox service (from raw_alice) (text "Alice") (text "hello")
      (text "[Alice] hello") bob_hash raw_bob bob [] none at_start-WellFormed refl refl refl refl
      text_alone refl room_left

abbrev replay_all : ReplayConfig
replay_all = record { count = 3; max_age = 0; pins_on_join = true }

abbrev said : Log
said = record {
  capacity = 3;
  entries =
      (record { at = 40; sender_hash = bob_hash; sender_nick = text "Bob"; content = text "hi" })
      ∷ [];
  file = none;
}

abbrev one_pin : Store
one_pin = record {
  info = [];
  pins = (record { at = 0; by = []; by_nick = text "Bob"; words = text "be kind" }) ∷ [];
  file = record { info = []; pins = [] };
}

replay_room : length service.queue.pending + length (replayed replay_all said 50) < 10000
unfolding replayed since_oldest new_outbound_queue
replay_room = omega arith

send_join_catchup_exact_example :
    map as_sent
      (send_join_catchup replay_all
        (λ ref. ref ∷ [])
        (some one_pin)
        said
        []
        service.queue
        raw_carol
        50).1.pending
    ≡ map as_sent service.queue.pending
      ++ (if (allow [] (encode raw_carol) 50).1
          then catchup replay_all (some one_pin) said raw_carol 50
          else [])
send_join_catchup_exact_example =
    send_join_catchup_exact replay_all (λ ref. ref ∷ []) (some one_pin) said [] service.queue
      raw_carol 50 replay_room
