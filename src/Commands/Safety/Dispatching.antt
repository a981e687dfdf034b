-- ===== src/Commands/Safety/Dispatching.antt =====
-- Proofs on internal/commands/handlers.go: every command, and any sequence of them.
use reticulum_group_chat.Base.{
  ℕ, ◌≡◌, ◌≤◌, ◌<◌, inl, inr, subst, sym, ◌&&◌, not, List, [], ◌∷◌, arith, length, if_cases, All,
}
use reticulum_group_chat.Base.Text.{Bytes}
use reticulum_group_chat.Roster.Model.{Roster}
use reticulum_group_chat.Roster.Effects.{BansHold}
use reticulum_group_chat.Commands.Parser.{Parsed}
use reticulum_group_chat.Commands.Model.{Env, Chat, Caller, Role, is_user_role, derive_caller}
use reticulum_group_chat.Commands.Dispatch.{
  Command, info, setinfo, pins, pin, unpin, users, join, leave, pause, resume, textonly, showall,
  nick, usermode, adduser, removeuser, kick, ban, unban, announce, path, run_command, dispatch,
  handle_announce, handle_path, command_of,
}
use reticulum_group_chat.Commands.Safety.Step.{IsSafeStep, After, unchanged, same-IsSafeStep}
use reticulum_group_chat.Commands.Safety.Members.{
  handle_join-Safe, handle_leave-Safe, handle_pause-Safe, handle_resume-Safe, handle_text_only-Safe,
  handle_show_all-Safe,
}
use reticulum_group_chat.Commands.Safety.Mods.{
  handle_nick-Safe, handle_user_mode-Safe, handle_add_user-Safe, handle_remove_user-Safe,
  handle_kick-Safe, handle_ban-Safe, handle_unban-Safe,
}
use reticulum_group_chat.Commands.Safety.Infos.{
  roster-handle_info, roster-handle_set_info, roster-handle_pins, roster-handle_pin,
  roster-handle_unpin,
}

module _ (env : Env) (chat : Chat) where
  from_same : {s : Roster} → s ≡ chat.roster → IsSafeStep env.cfg.max_members chat.roster s
  from_same e =
      subst (IsSafeStep env.cfg.max_members chat.roster) (sym e)
        (same-IsSafeStep env.cfg.max_members chat.roster)

  handle_announce-Safe : (role : Role) → After env chat (handle_announce env chat role)
  unfolding handle_announce
  handle_announce-Safe role = from_same (ground arith)

  handle_path-Safe :
      (role : Role) (args : List Bytes) → After env chat (handle_path env chat role args)
  unfolding handle_path
  handle_path-Safe role [] = from_same (ground arith)
  handle_path-Safe role (a ∷ []) = from_same (ground arith)
  handle_path-Safe role (a ∷ b ∷ as') = from_same (ground arith)

  run_command-Safe :
      (c : Caller) (args : List Bytes) (rest : Bytes) (cmd : Command)
      → After env chat (run_command env chat c args rest cmd)
  unfolding run_command
  run_command-Safe c args rest info = from_same (roster-handle_info env chat c)
  run_command-Safe c args rest setinfo = from_same (roster-handle_set_info env chat c rest)
  run_command-Safe c args rest pins = from_same (roster-handle_pins env chat c)
  run_command-Safe c args rest pin = from_same (roster-handle_pin env chat c rest)
  run_command-Safe c args rest unpin = from_same (roster-handle_unpin env chat c args)
  run_command-Safe c args rest users =
      if_cases (After env chat) (not c.member && is_user_role c.role) (λ _. unchanged env chat)
        (λ _. unchanged env chat)
  run_command-Safe c args rest join = handle_join-Safe env chat c
  run_command-Safe c args rest leave = handle_leave-Safe env chat c
  run_command-Safe c args rest pause = handle_pause-Safe env chat c
  run_command-Safe c args rest resume = handle_resume-Safe env chat c
  run_command-Safe c args rest textonly = handle_text_only-Safe env chat c
  run_command-Safe c args rest showall = handle_show_all-Safe env chat c
  run_command-Safe c args rest nick = handle_nick-Safe env chat c args
  run_command-Safe c args rest usermode = handle_user_mode-Safe env chat c args
  run_command-Safe c args rest adduser = handle_add_user-Safe env chat c.role args
  run_command-Safe c args rest removeuser = handle_remove_user-Safe env chat c.role args
  run_command-Safe c args rest kick = handle_kick-Safe env chat c.role args
  run_command-Safe c args rest ban = handle_ban-Safe env chat c.role args
  run_command-Safe c args rest unban = handle_unban-Safe env chat c.role args
  run_command-Safe c args rest announce = handle_announce-Safe c.role
  run_command-Safe c args rest path = handle_path-Safe c.role args
  run_command-Safe c args rest _ = unchanged env chat

  pub dispatch-IsSafeStep :
      (sender : Bytes) (parsed : Parsed)
      → IsSafeStep env.cfg.max_members chat.roster (dispatch env chat sender parsed).0.roster
  unfolding dispatch
  dispatch-IsSafeStep sender parsed =
      run_command-Safe (derive_caller env.cfg chat.roster sender) parsed.args parsed.rest
        (command_of parsed.name)

-- A command as it comes in, with the settings and the time at that moment.
pub record Request : Type 0 where
  pub env : Env
  pub sender : Bytes
  pub parsed : Parsed

unfoldable pub dispatch_all : Chat → List Request → Chat
dispatch_all chat [] = chat
dispatch_all chat (q ∷ qs) = dispatch_all (dispatch q.env chat q.sender q.parsed).0 qs

-- With a member cap above 0: from a roster without banned members that is within the cap, any sequence
-- of commands, of whatever senders and with failing writes too, leads to such a roster.
pub dispatch_all_safe :
    (cap : ℕ) (chat : Chat) (qs : List Request)
    → All (λ q. q.env.cfg.max_members ≡ cap) qs
    → 0 < cap
    → BansHold chat.roster
    → length chat.roster.users ≤ cap
    → BansHold (dispatch_all chat qs).roster × (length (dispatch_all chat qs).roster.users ≤ cap)
unfolding dispatch_all
dispatch_all_safe cap chat [] caps pos b n = (b, n)
dispatch_all_safe cap chat (q ∷ qs) caps pos b n =
    let step : IsSafeStep cap chat.roster (dispatch q.env chat q.sender q.parsed).0.roster =
      subst (λ x. IsSafeStep x chat.roster (dispatch q.env chat q.sender q.parsed).0.roster) caps.0
        (dispatch-IsSafeStep q.env chat q.sender q.parsed) in
    dispatch_all_safe cap (dispatch q.env chat q.sender q.parsed).0 qs caps.1 pos (step.bans b)
      (elim (step.capped pos) [ inl x ↦ omega (arith, x) | inr x ↦ x ])
