-- ===== src/Config.antt =====
-- internal/config/config.go: what `Load` does with a decoded file, up to the warnings.
-- `Settings` has the fields of Config and its sections that `normalize` reads, durations in
-- nanoseconds. `Host` has what it asks the system: ExpandPath, none an error, and the decoding of base64.
-- An error is named for the message, or the messages, that it stands for.
pub mod Roles
use reticulum_group_chat.Base.{
  ℕ, Bool, true, false, not, ◌&&◌, ◌||◌, Option, none, some, List, [], ◌∷◌, ltb, nat_beq, ◌==◌,
  if◌then◌else◌, length, every, ◌>>=◌,
}
use reticulum_group_chat.Base.Int.{ℤ, pos, negsuc}
use reticulum_group_chat.Base.Maps.{contains}
use reticulum_group_chat.Base.Text.{Bytes, bytes_eq, text, to_lower, trim_space}
use reticulum_group_chat.Service.Fields.{int_eq}
use reticulum_group_chat.Service.Rewrite.{decode_string}

abbrev pub identity_hash_len : ℕ
identity_hash_len = 16

abbrev pub identity_private_key_len : ℕ
identity_private_key_len = 64

abbrev pub max_announced_stamp_cost : ℕ
max_announced_stamp_cost = 254

abbrev pub default_propagation_direct_attempts : ℤ
default_propagation_direct_attempts = pos 3

abbrev pub propagation_mode_fallback : Bytes
propagation_mode_fallback = text "fallback"

abbrev pub propagation_mode_always : Bytes
propagation_mode_always = text "always"

pub record InterfaceConfig : Type 0 where
  pub kind : Bytes
  pub addr : Bytes

pub record Settings : Type 0 where
  pub identity_path : Bytes
  pub state_path : Bytes
  pub history_path : Bytes
  pub log_path : Bytes
  pub display_name : Bytes
  pub prune_interval : ℤ
  pub prune_after : ℤ
  pub prune_silent_after : ℤ
  pub announce_interval : ℤ
  pub max_inbound_chars : ℤ
  pub max_members : ℤ
  pub dedup_window : ℤ
  pub max_attachment_bytes : ℤ
  pub inbound_stamp_cost : ℤ
  pub enforce_inbound_stamps : Bool
  pub id_cache_ttl : ℤ
  pub id_cache_max : ℤ
  pub forwarded_fields : List ℤ
  pub identity_b64 : Bytes
  pub interfaces : List InterfaceConfig
  pub replay_count : ℤ
  pub replay_max_age : ℤ
  pub propagation_mode : Bytes
  pub direct_attempts : ℤ
  pub propagation_node : Bytes
  pub admins : List Bytes
  pub mods : List Bytes

pub data ConfigError : Type 0 where
  bad_path empty_display_name bad_prune_interval bad_prune_after bad_prune_silent_after :
      ConfigError
  bad_announce_interval bad_max_inbound_chars bad_max_members bad_dedup_window : ConfigError
  bad_max_attachment_bytes bad_stamp_cost stamps_without_cost bad_id_cache_ttl : ConfigError
  bad_id_cache_max negative_field reserved_field bad_identity bad_interface no_addr : ConfigError
  bad_replay_count bad_replay_max_age bad_mode bad_direct_attempts bad_node bad_hash : ConfigError

pub record Host : Type 0 where
  pub expand_path : Bytes → Option Bytes
  pub decode_base64 : Bytes → Option Bytes

pub data Result : Type 0 where
  loaded : Settings → Result
  failed : ConfigError → Result

abbrev pub is_negative : ℤ → Bool
is_negative (pos n) = false
is_negative (negsuc n) = true

abbrev pub is_positive : ℤ → Bool
is_positive (pos n) = ltb 0 n
is_positive (negsuc n) = false

abbrev pub exceeds : ℕ → ℤ → Bool
exceeds max (pos n) = ltb max n
exceeds max (negsuc n) = false

-- The first of the tests in a row that holds returns its error.
unfoldable pub first_error : List (Bool × ConfigError) → Option ConfigError
first_error [] = none
first_error ((test, e) ∷ tests) = let rest = first_error tests in if test then some e else rest

-- What follows a check.
unfoldable pub after : Option ConfigError → Result → Result
after none rest = rest
after (some e) rest = failed e

unfoldable pub expand_paths : Host → Settings → Option Settings
expand_paths host c = do
  identity_path ← host.expand_path c.identity_path
  state_path ← host.expand_path c.state_path
  history_path ← host.expand_path c.history_path
  log_path ← host.expand_path c.log_path
  some (record c {
    identity_path = identity_path;
    state_path = state_path;
    history_path = history_path;
    log_path = log_path;
  })

unfoldable pub service_error : Settings → Option ConfigError
unfolding first_error
service_error c = first_error (
    (trim_space c.display_name == [], empty_display_name)
    ∷ (not (is_positive c.prune_interval), bad_prune_interval)
    ∷ (not (is_positive c.prune_after), bad_prune_after)
    ∷ (is_negative c.prune_silent_after, bad_prune_silent_after)
    ∷ (not (is_positive c.announce_interval), bad_announce_interval)
    ∷ (is_negative c.max_inbound_chars, bad_max_inbound_chars)
    ∷ (is_negative c.max_members, bad_max_members)
    ∷ (is_negative c.dedup_window, bad_dedup_window)
    ∷ (is_negative c.max_attachment_bytes, bad_max_attachment_bytes)
    ∷ (
      is_negative c.inbound_stamp_cost || exceeds max_announced_stamp_cost c.inbound_stamp_cost,
      bad_stamp_cost,
    )
    ∷ (c.enforce_inbound_stamps && c.inbound_stamp_cost == pos 0, stamps_without_cost)
    ∷ (is_negative c.id_cache_ttl, bad_id_cache_ttl)
    ∷ (is_negative c.id_cache_max, bad_id_cache_max)
    ∷ [])

-- 251 and 252 are the fields of the relay's own attribution.
unfoldable pub fields_error : List ℤ → Option ConfigError
fields_error [] = none
fields_error (k ∷ ks) =
    let rest = fields_error ks in
    if is_negative k
    then some negative_field
    else if k == pos 251 || k == pos 252
    then some reserved_field
    else rest

unfoldable pub has_length : ℕ → Option Bytes → Bool
has_length n none = false
has_length n (some raw) = nat_beq (length raw) n

unfoldable pub identity_error : Host → Bytes → Option ConfigError
unfolding has_length
identity_error host s =
    if s == [] || has_length identity_private_key_len (host.decode_base64 s)
    then none
    else some bad_identity

unfoldable pub interfaces_error : List InterfaceConfig → Option ConfigError
interfaces_error [] = none
interfaces_error (iface ∷ ifaces) =
    let rest = interfaces_error ifaces in
    if not (iface.kind == text "tcp_client")
    then some bad_interface
    else if trim_space iface.addr == []
    then some no_addr
    else rest

unfoldable pub replay_error : Settings → Option ConfigError
unfolding first_error
replay_error c = first_error (
    (is_negative c.replay_count, bad_replay_count)
    ∷ (is_negative c.replay_max_age, bad_replay_max_age)
    ∷ [])

unfoldable pub mode_of : Bytes → Bytes
mode_of s =
    let mode = to_lower (trim_space s) in if mode == [] then propagation_mode_fallback else mode

unfoldable pub propagation_error : Bytes → ℤ → Option ConfigError
unfolding first_error
propagation_error mode direct_attempts = first_error (
    (not (mode == propagation_mode_fallback) && not (mode == propagation_mode_always), bad_mode)
    ∷ (is_negative direct_attempts, bad_direct_attempts)
    ∷ [])

-- Whether hex.DecodeString gives the bytes of a hash.
unfoldable pub is_hash : Bytes → Bool
unfolding has_length
is_hash h = has_length identity_hash_len (decode_string h)

unfoldable pub node_error : Bytes → Option ConfigError
unfolding is_hash
node_error node = if node == [] || is_hash node then none else some bad_node

-- The loop of normalizeHashList; `seen` is the set of that name.
unfoldable pub normalize_each : List Bytes → List Bytes → List Bytes
normalize_each seen [] = []
normalize_each seen (h ∷ hs) =
    let x = to_lower (trim_space h) in
    let skipped = normalize_each seen hs in
    let rest = normalize_each (x ∷ seen) hs in
    if x == [] || contains seen x then skipped else x ∷ rest

unfoldable pub normalize_hash_list : List Bytes → List Bytes
unfolding normalize_each
normalize_hash_list hs = normalize_each [] hs

unfoldable pub validate_hashes : List Bytes → Option ConfigError
unfolding is_hash
validate_hashes hashes = if every is_hash hashes then none else some bad_hash

-- What `normalize` writes where it finds no error.
abbrev pub normalized : Settings → Settings
normalized c = record c {
  identity_b64 =
      if trim_space c.identity_b64 == [] then c.identity_b64 else trim_space c.identity_b64;
  propagation_mode = mode_of c.propagation_mode;
  direct_attempts =
      if c.direct_attempts == pos 0 then default_propagation_direct_attempts else c.direct_attempts;
  propagation_node = to_lower (trim_space c.propagation_node);
  admins = normalize_hash_list c.admins;
  mods = normalize_hash_list c.mods;
}

-- The checks after the paths.
unfoldable pub normalize_rest : Host → Settings → Result
unfolding after service_error fields_error identity_error interfaces_error replay_error mode_of
    propagation_error node_error normalize_hash_list validate_hashes
normalize_rest host c = after (service_error c) (
    after (fields_error c.forwarded_fields) (
      after (identity_error host (trim_space c.identity_b64)) (
        after (interfaces_error c.interfaces) (
          after (replay_error c) (
            after (propagation_error (mode_of c.propagation_mode) c.direct_attempts) (
              after (node_error (to_lower (trim_space c.propagation_node))) (
                after (validate_hashes (normalize_hash_list c.admins)) (
                  after (validate_hashes (normalize_hash_list c.mods))
                    (loaded (normalized c))))))))))

unfoldable pub normalize : Host → Settings → Result
unfolding expand_paths normalize_rest
normalize host c = elim (expand_paths host c) [
  | none ↦ failed bad_path
  | some c' ↦ normalize_rest host c'
]
