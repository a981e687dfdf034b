-- ===== src/IdMap/Expiry.antt =====
-- Proofs on internal/idmap/idmap.go: an id that was registered is found until its bubble expires.
use reticulum_group_chat.Base.{ℕ, suc, ◌≤◌, ◌≡◌, ◌⊎◌, some, length, nat_eq}
use reticulum_group_chat.Base.Maps.{lookup}
use reticulum_group_chat.Base.Text.{Bytes, bytes_eq}
use reticulum_group_chat.IdMap.{Bubble, Cache}

-- What an eviction keeps of the cache before it.
record IsEvicted (c d : Cache) : Type 0 where
  pub same_bubbles : d.bubbles ≡ c.bubbles
  pub same_max : d.max_size ≡ c.max_size
  pub no_longer : length d.by_msg_id ≤ length c.by_msg_id

-- Under the id stands a bubble with an expiry.
record IsFound (c : Cache) (id : Bytes) (b expires_at : ℕ) : Type 0 where
  pub under : lookup id c.by_msg_id ≡ some b
  pub bubble : Bubble
  pub there : lookup b c.bubbles ≡ some bubble
  pub expiry : bubble.expires_at ≡ expires_at

-- Room for one more id.
abbrev pub HasRoom : Cache → Type 0
HasRoom c = (c.max_size ≡ 0) ⊎ (suc (length c.by_msg_id) ≤ c.max_size)
