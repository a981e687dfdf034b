-- ===== src/Examples/Chats.antt =====
-- The commands' theorems on a group of one member, with a cap of two and one banned hash.
use reticulum_group_chat.Base.{
  ◌≡◌, ◌≤◌, refl, true, false, none, some, [], ◌∷◌, List, arith, length, Bool-cases, inl, inr, ◌==◌,
  beq→eq,
}
use reticulum_group_chat.Base.Maps.{lookup, contains}
use reticulum_group_chat.Base.Text.{Bytes, bytes_eq, bytes_beq, text, to_lower, lower, trim_space}
use reticulum_group_chat.Base.Decimal.{decimal}
use reticulum_group_chat.Sanitize.{scrub_control_bytes}
use reticulum_group_chat.GroupInfo.Store.{set_info}
use reticulum_group_chat.Hex.{must_hex_bytes, decode_pairs, hex_nibble, encode}
use reticulum_group_chat.Roster.Model.{Save, io, new_user, normalize_hash}
use reticulum_group_chat.Roster.Members.{has_member, get}
use reticulum_group_chat.Roster.Effects.{BansHold}
use reticulum_group_chat.Commands.Parser.{parse}
use reticulum_group_chat.Commands.Model.{Env, Chat, Caller, derive_caller, config_role}
use reticulum_group_chat.Commands.Dispatch.{dispatch}
use reticulum_group_chat.Commands.Info.{
  info_text, handle_info, handle_set_info, longest_info, render_info,
}
use reticulum_group_chat.Commands.Info.Packet.{set_info_fits}
use reticulum_group_chat.Commands.Privilege.{IsOwn, dispatch_unprivileged}
use reticulum_group_chat.Commands.Safety.Dispatching.{Request, dispatch_all, dispatch_all_safe}

abbrev alice_hash : Bytes
alice_hash = text "0102030405060708090a0b0c0d0e0f10"

abbrev bob_hash : Bytes
bob_hash = text "b0b00000000000000000000000000000"

abbrev carol_hash : Bytes
carol_hash = text "ca400000000000000000000000000000"

abbrev fails : Save
fails st = some (io (text "disk full"))

abbrev pub group : Env
group = record {
  cfg = record {
    admins = alice_hash ∷ [];
    mods = [];
    locked = false;
    max_members = 2;
    display_name = text "Park";
  };
  now = 1000;
  save = fails;
  save_info = λ f. none;
  announce = none;
  path_lookup = none;
  lookup_announced_name = none;
  on_join = true;
  on_admin_add = false;
  max_reply_content_bytes = 2000;
  single_packet_reply_bytes = 319;
}

abbrev chat : Chat
chat = record {
  roster = record {
    users = (alice_hash, new_user alice_hash 100) ∷ [];
    banlist = (carol_hash, tt) ∷ [];
    store = none;
    dirty = false;
  };
  info = none;
  events = [];
}

abbrev sent : Bytes → Bytes → Request
sent who words = record { env = group; sender = who; parsed = parse words }

abbrev session : List Request
session =
    sent bob_hash (text "/join")
    ∷ sent carol_hash (text "/join")
    ∷ sent alice_hash (text "/unban ca40")
    ∷ sent carol_hash (text "/join")
    ∷ []

chat-BansHold : BansHold chat.roster
unfolding text lookup bytes_beq
chat-BansHold = record {
  out = λ h e. elim (Bool-cases (carol_hash == h)) [
    | inl same ↦ rw (← beq→eq carol_hash h same) refl
    | inr other ↦ absurd (ground (arith, other))
  ];
}

dispatch_all_safe_example :
    BansHold (dispatch_all chat session).roster
    × (length (dispatch_all chat session).roster.users ≤ 2)
dispatch_all_safe_example =
    dispatch_all_safe 2 chat session (refl, (refl, (refl, (refl, tt)))) (omega arith) chat-BansHold
      (omega arith)

dispatch_unprivileged_example :
    IsOwn (to_lower bob_hash) chat (dispatch group chat bob_hash (parse (text "/kick 0102"))).0
unfolding text derive_caller config_role contains lookup bytes_beq must_hex_bytes decode_pairs
    hex_nibble to_lower lower has_member normalize_hash encode
dispatch_unprivileged_example =
    dispatch_unprivileged group chat bob_hash (parse (text "/kick 0102")) refl

abbrev described : Chat
described = record chat {
  info = some (record { info = []; pins = []; file = record { info = []; pins = [] } });
}

abbrev admin : Caller
admin = derive_caller group.cfg chat.roster alice_hash

abbrev asker : Caller
asker = derive_caller group.cfg chat.roster bob_hash

set_info_fits_example :
    (t : Bytes) × ((handle_info group
        (handle_set_info group described admin (text "Friends")).0
        asker).1
      ≡ info_text t)
    × (length t ≤ group.single_packet_reply_bytes)
unfolding text derive_caller config_role contains lookup bytes_beq must_hex_bytes decode_pairs
    hex_nibble to_lower lower has_member normalize_hash encode handle_set_info longest_info
    render_info get new_user trim_space scrub_control_bytes decimal set_info
set_info_fits_example =
    set_info_fits group described admin asker (text "Friends")
      (record { info = []; pins = []; file = record { info = []; pins = [] } }) 7 281 refl
      (omega arith) refl refl
