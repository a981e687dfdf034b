-- ===== src/Commands/Safety/Members.antt =====
-- Proofs on internal/commands/handlers.go: /join, /leave and the flags of the caller.
use reticulum_group_chat.Base.{◌≡◌, Bool, false, ◌&&◌, not, if_cases, option_cases, if◌then◌else◌}
use reticulum_group_chat.Base.Text.{Bytes, bytes_eq}
use reticulum_group_chat.Roster.Model.{User, Error}
use reticulum_group_chat.Roster.Members.{add_or_update, remove}
use reticulum_group_chat.Roster.Bans.{is_banned}
use reticulum_group_chat.Roster.Settings.{set_paused, set_text_only, update_user}
use reticulum_group_chat.Roster.Effects.{update_user-Within, remove-Within}
use reticulum_group_chat.Commands.Model.{Env, Chat, Caller, at_least_mod}
use reticulum_group_chat.Commands.Membership
use reticulum_group_chat.Commands.Membership.{
  adopt_announced_name, adopt_missing_name, answer, tell, is_full, put_roster, without_flag,
}
use reticulum_group_chat.Commands.Safety.Step.{
  After, unchanged, answer-Safe, flag-answer, admit-Safe, then-Within, roster-tell,
  adopt_missing_name-Within,
}

module _ (env : Env) (chat : Chat) where
  join_member-Safe :
      (c : Caller) (hb : Bytes)
      → is_banned chat.roster hb ≡ false
      → is_full env chat.roster ≡ false
      → After env chat (Membership.add_member env chat c hb)
  unfolding Membership.add_member
  join_member-Safe c hb free room =
      let a = admit-Safe env chat hb free room in
      option_cases (After env chat) (add_or_update env.save chat.roster hb env.now).2
        (λ _. rw (roster-tell env chat) (then-Within a (adopt_missing_name-Within env c.hash hb _)))
        (λ err _. a)

  pub handle_join-Safe : (c : Caller) → After env chat (Membership.handle_join env chat c)
  unfolding Membership.handle_join
  handle_join-Safe c =
      if_cases (After env chat) c.member (λ _. unchanged env chat)
        λ _.
          option_cases (After env chat) c.hash_bytes (λ _. unchanged env chat)
            λ hb _.
              if_cases (After env chat) (env.cfg.locked && not (at_least_mod c.role))
                (λ _. unchanged env chat)
                λ _.
                  if_cases (After env chat) (is_banned chat.roster hb) (λ _. unchanged env chat)
                    λ free.
                      if_cases (After env chat) (is_full env chat.roster) (λ _. unchanged env chat)
                        λ room. join_member-Safe c hb free room

  pub handle_leave-Safe : (c : Caller) → After env chat (Membership.handle_leave env chat c)
  unfolding Membership.handle_leave
  handle_leave-Safe c =
      if_cases (After env chat) (not c.member) (λ _. unchanged env chat)
        λ _.
          flag-answer env chat (remove env.save chat.roster c.hash) _ _
            (remove-Within env.save chat.roster c.hash)

  -- The four commands that set a flag of the caller's own entry.
  flag_command-Safe :
      {R : Type 0} (a b : Bool) (x y : R) (h : Bytes) (f : User → User) (done : R)
      (failed' : Error → R)
      → After env chat (
          if a
          then (chat, x)
          else if b
          then (chat, y)
          else answer chat (update_user env.save chat.roster h f) done failed')
  flag_command-Safe a b x y h f done failed' =
      if_cases (After env chat) a (λ _. unchanged env chat)
        λ _.
          if_cases (After env chat) b (λ _. unchanged env chat)
            λ _.
              answer-Safe env chat (update_user env.save chat.roster h f) done failed'
                (update_user-Within env.save chat.roster h f)

  pub handle_pause-Safe : (c : Caller) → After env chat (Membership.handle_pause env chat c)
  unfolding Membership.handle_pause set_paused
  handle_pause-Safe c = flag_command-Safe (not c.member) c.paused _ _ _ _ _ _

  pub handle_resume-Safe : (c : Caller) → After env chat (Membership.handle_resume env chat c)
  unfolding Membership.handle_resume set_paused
  handle_resume-Safe c = flag_command-Safe (not c.member) (not c.paused) _ _ _ _ _ _

  pub handle_text_only-Safe : (c : Caller) → After env chat (Membership.handle_text_only env chat c)
  unfolding Membership.handle_text_only set_text_only
  handle_text_only-Safe c = flag_command-Safe (not c.member) c.text_only _ _ _ _ _ _

  pub handle_show_all-Safe : (c : Caller) → After env chat (Membership.handle_show_all env chat c)
  unfolding Membership.handle_show_all set_text_only
  handle_show_all-Safe c = flag_command-Safe (not c.member) (not c.text_only) _ _ _ _ _ _
