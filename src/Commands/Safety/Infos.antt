-- ===== src/Commands/Safety/Infos.antt =====
-- Proofs on internal/commands/info.go: the roster under the commands on description and pins.
use reticulum_group_chat.Base.{◌≡◌, List, arith}
use reticulum_group_chat.Base.Text.{Bytes}
use reticulum_group_chat.Commands.Model.{Env, Chat, Caller}
use reticulum_group_chat.Commands.Info.{
  handle_info, handle_set_info, handle_pins, handle_pin, handle_unpin,
}

module _ (env : Env) (chat : Chat) (c : Caller) where
  pub roster-handle_info : (handle_info env chat c).0.roster ≡ chat.roster
  unfolding handle_info
  roster-handle_info = ground arith

  pub roster-handle_pins : (handle_pins env chat c).0.roster ≡ chat.roster
  unfolding handle_pins
  roster-handle_pins = ground arith

  pub roster-handle_set_info : (w : Bytes) → (handle_set_info env chat c w).0.roster ≡ chat.roster
  unfolding handle_set_info
  roster-handle_set_info w = ground arith

  pub roster-handle_pin : (w : Bytes) → (handle_pin env chat c w).0.roster ≡ chat.roster
  unfolding handle_pin
  roster-handle_pin w = ground arith

  pub roster-handle_unpin :
      (args : List Bytes) → (handle_unpin env chat c args).0.roster ≡ chat.roster
  unfolding handle_unpin
  roster-handle_unpin args = ground arith
