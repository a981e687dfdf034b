-- ===== src/Examples/Settings.antt =====
-- The theorems on the configuration at concrete inputs.
use reticulum_group_chat.Base.{◌≡◌, refl, every, false, some, [], ◌∷◌}
use reticulum_group_chat.Base.Int.{pos}
use reticulum_group_chat.Base.Maps.{contains}
use reticulum_group_chat.Base.Text.{bytes_beq, text, trim_space, to_lower, lower}
use reticulum_group_chat.Hex.{decode_pairs}
use reticulum_group_chat.Service.Fields.{int_beq}
use reticulum_group_chat.Service.Rewrite.{decode_string}
use reticulum_group_chat.Config.{
  Settings, Host, loaded, normalize, normalized, normalize_hash_list, normalize_each,
}
use reticulum_group_chat.Config.Roles.{IsRoleList, normalize-IsRoleList}

abbrev host : Host
host = record { expand_path = λ p. some p; decode_base64 = λ s. some [] }

-- One admin is listed twice, in another case and with blanks.
abbrev park : Settings
park = record {
  identity_path = text "id";
  state_path = text "state.json";
  history_path = text "history.json";
  log_path = [];
  display_name = text "Park";
  prune_interval = pos 60;
  prune_after = pos 600;
  prune_silent_after = pos 0;
  announce_interval = pos 60;
  max_inbound_chars = pos 500;
  max_members = pos 512;
  dedup_window = pos 60;
  max_attachment_bytes = pos 1024;
  inbound_stamp_cost = pos 0;
  enforce_inbound_stamps = false;
  id_cache_ttl = pos 60;
  id_cache_max = pos 100;
  forwarded_fields = pos 6 ∷ [];
  identity_b64 = [];
  interfaces = [];
  replay_count = pos 100;
  replay_max_age = pos 0;
  propagation_mode = text " Always";
  direct_attempts = pos 0;
  propagation_node = [];
  admins = text " CA400000000000000000000000000000" ∷ text "ca400000000000000000000000000000" ∷ [];
  mods = [];
}

admins-park : (normalized park).admins ≡ text "ca400000000000000000000000000000" ∷ []
unfolding normalize_hash_list normalize_each contains bytes_beq text trim_space to_lower lower
admins-park = refl

normalize-park : normalize host park ≡ loaded (normalized park)
unfolding normalize bytes_beq trim_space text int_beq to_lower every contains decode_string
    decode_pairs
normalize-park = refl

normalize-IsRoleList_example :
    IsRoleList park.admins (normalized park).admins × IsRoleList park.mods (normalized park).mods
normalize-IsRoleList_example = normalize-IsRoleList host park (normalized park) normalize-park
