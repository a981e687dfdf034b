-- ===== src/Service/Catchup.antt =====
-- internal/service/replay.go: what a new member is sent.
-- The settings are those of ReplayConfig, a negative one as 0; `ids` gives the id of the queue's
-- entry with a number, and `info` is none where the pointer is nil. The queue reads the same time.
pub mod Pins
use reticulum_group_chat.Base.{
  ℕ, ◌-◌, Bool, not, ◌&&◌, Option, none, some, List, [], ◌∷◌, ◌++◌, ltb, nat_beq, ◌==◌,
  if◌then◌else◌,
}
use reticulum_group_chat.Base.Text.{Bytes, bytes_eq, text}
use reticulum_group_chat.Hex.{encode}
use reticulum_group_chat.Sanitize.{sanitize_forward}
use reticulum_group_chat.GroupInfo.Store.{Store}
use reticulum_group_chat.GroupInfo.Render.{render, humanize_age}
use reticulum_group_chat.History.{Entry, Log, since_oldest}
use reticulum_group_chat.Service.Replay.{ReplayLimiter, allow}
use reticulum_group_chat.Service.Outbound.Queue.{
  OutboundQueue, enqueue_plain, enqueue_after_earlier,
}

pub record ReplayConfig : Type 0 where
  pub count : ℕ
  pub max_age : ℕ
  pub pins_on_join : Bool

unfoldable pub pinned_text : ReplayConfig → Option Store → ℕ → Bytes
pinned_text cfg none now = []
pinned_text cfg (some s) now = if cfg.pins_on_join then render s.pins now else []

-- The entries that are replayed.
unfoldable pub replayed : ReplayConfig → Log → ℕ → List Entry
replayed cfg log now =
    if nat_beq cfg.count 0
    then []
    else since_oldest log (if ltb 0 cfg.max_age then now - cfg.max_age else 0)

unfoldable pub replay_body : ℕ → Entry → Bytes
replay_body now e =
    text "[replay "
    ++ humanize_age now e.at
    ++ text "] ["
    ++ e.sender_nick
    ++ text "] "
    ++ sanitize_forward e.content

module _ {F : Type 0} where
  unfoldable pub replay_each :
      (ℕ → Bytes) → OutboundQueue F → Bytes → List Entry → ℕ → OutboundQueue F
  unfolding enqueue_plain replay_body
  replay_each ids q joiner [] now = q
  replay_each ids q joiner (e ∷ es) now =
      replay_each ids (enqueue_plain q (ids q.next_ref) joiner (replay_body now e) now).0 joiner es
        now

  unfoldable pub send_pins : (ℕ → Bytes) → OutboundQueue F → Bytes → Bytes → ℕ → OutboundQueue F
  unfolding enqueue_after_earlier
  send_pins ids q joiner pinned now =
      if pinned == []
      then q
      else (enqueue_after_earlier q (ids q.next_ref) joiner (sanitize_forward pinned) now).0

  unfoldable pub send_join_catchup :
      ReplayConfig
      → (ℕ → Bytes)
      → Option Store
      → Log
      → ReplayLimiter
      → OutboundQueue F
      → Bytes
      → ℕ
      → ReplayLimiter × OutboundQueue F
  unfolding pinned_text replayed replay_each send_pins
  send_join_catchup cfg ids info log limit q joiner now =
      let pinned = pinned_text cfg info now in
      if nat_beq cfg.count 0 && pinned == []
      then (limit, q)
      else let (limit', allowed) = allow limit (encode joiner) now in
        if not allowed then (limit', q) else (
          limit',
          send_pins ids (replay_each ids q joiner (replayed cfg log now) now) joiner pinned now,
        )
