-- ===== src/Commands/Safety/Mods.antt =====
-- Proofs on internal/commands/handlers.go: the commands of mods and admins, and /nick.
use reticulum_group_chat.Base.{
  ◌≡◌, Bool, false, ◌||◌, ◌&&◌, Option, none, some, List, [], ◌∷◌, inl, not, if_cases, option_cases,
  ◌==◌, if◌then◌else◌, ltb, keep,
}
use reticulum_group_chat.Base.Maps.{contains}
use reticulum_group_chat.Base.Text.{Bytes, bytes_eq, text, to_lower, trim_space, has_prefix}
use reticulum_group_chat.Hex.{must_hex_bytes}
use reticulum_group_chat.Roster.Members.{add_invited, remove, has_member}
use reticulum_group_chat.Roster.Listing.{resolve, Found, found, failed}
use reticulum_group_chat.Roster.Bans.{ban, unban, is_banned, banned_hashes}
use reticulum_group_chat.Roster.Settings.{set_nickname, set_role}
use reticulum_group_chat.Roster.Effects.{
  ban-BansHold, length-ban-le, set_nickname-Within, set_role-Within, remove-Within, unban-Within,
}
use reticulum_group_chat.Commands.Nickname.{is_nickname}
use reticulum_group_chat.Commands.Model.{
  Env, Chat, Caller, Role, at_least_mod, rank, parse_role, config_role, is_admin_role,
}
use reticulum_group_chat.Commands.Membership.{is_full, without_flag}
use reticulum_group_chat.Commands.Moderation
use reticulum_group_chat.Commands.Safety.Step.{
  After, unchanged, answer-Safe, invite-Safe, then-Within, roster-tell, adopt_announced_name-Within,
  roster-answer,
}

module _ (env : Env) (chat : Chat) where
  nick_self-Safe :
      (c : Caller) (nick : Bytes) → After env chat (Moderation.nick_self env chat c nick)
  unfolding Moderation.nick_self
  nick_self-Safe c nick =
      if_cases (After env chat) (not c.member) (λ _. unchanged env chat)
        λ _.
          if_cases (After env chat) (not (is_nickname nick)) (λ _. unchanged env chat)
            λ _.
              answer-Safe env chat (set_nickname env.save chat.roster c.hash nick) _ _
                (set_nickname-Within env.save chat.roster c.hash nick)

  nick_other-Safe :
      (nick : Bytes) (f : Found) → After env chat (Moderation.nick_other env chat nick f)
  unfolding Moderation.nick_other
  nick_other-Safe nick (failed e) = unchanged env chat
  nick_other-Safe nick (found t) =
      if_cases (After env chat) (not (is_nickname nick)) (λ _. unchanged env chat)
        λ _.
          answer-Safe env chat (set_nickname env.save chat.roster t.hash nick) _ _
            (set_nickname-Within env.save chat.roster t.hash nick)

  pub handle_nick-Safe :
      (c : Caller) (args : List Bytes) → After env chat (Moderation.handle_nick env chat c args)
  unfolding Moderation.handle_nick
  handle_nick-Safe c [] = unchanged env chat
  handle_nick-Safe c (nick ∷ []) = nick_self-Safe c nick
  handle_nick-Safe c (who ∷ nick ∷ []) =
      if_cases (After env chat) (not (at_least_mod c.role)) (λ _. unchanged env chat)
        λ _. nick_other-Safe nick (resolve chat.roster who)
  handle_nick-Safe c (who ∷ nick ∷ x ∷ xs) =
      if_cases (After env chat) (not (at_least_mod c.role)) (λ _. unchanged env chat)
        (λ _. unchanged env chat)

  usermode_target-Safe :
      (c : Caller) (requested : Bytes) (f : Found)
      → After env chat (Moderation.usermode_target env chat c requested f)
  unfolding Moderation.usermode_target
  usermode_target-Safe c requested (failed e) = unchanged env chat
  usermode_target-Safe c requested (found t) =
      if_cases (After env chat)
        (t.hash == c.hash
          && (ltb (rank (parse_role requested)) 2 && ltb (rank (config_role env.cfg c.hash)) 2))
        (λ _. unchanged env chat)
        λ _.
          answer-Safe env chat
            (set_role env.save chat.roster t.hash
              (if requested == text "user" then [] else requested))
            _ _ (set_role-Within env.save chat.roster t.hash _)

  pub handle_user_mode-Safe :
      (c : Caller) (args : List Bytes)
      → After env chat (Moderation.handle_user_mode env chat c args)
  unfolding Moderation.handle_user_mode
  handle_user_mode-Safe c (arg ∷ who ∷ []) =
      let requested = to_lower arg in
      if_cases (After env chat) (not (is_admin_role c.role)) (λ _. unchanged env chat)
        λ _.
          if_cases (After env chat)
            (requested == text "admin" || (requested == text "mod" || requested == text "user"))
            (λ _. usermode_target-Safe c requested (resolve chat.roster who))
            (λ _. unchanged env chat)
  handle_user_mode-Safe c _ =
      if_cases (After env chat) (not (is_admin_role c.role)) (λ _. unchanged env chat)
        (λ _. unchanged env chat)

  add_member-Safe :
      (hash hb : Bytes)
      → is_banned chat.roster hb ≡ false
      → is_full env chat.roster ≡ false
      → After env chat (Moderation.add_member env chat hash hb)
  unfolding Moderation.add_member
  add_member-Safe hash hb free room =
      let a = invite-Safe env chat hb free room in
      option_cases (After env chat) (add_invited env.save chat.roster hb env.now).2
        (λ _. rw (roster-tell env chat) (then-Within a (adopt_announced_name-Within env hash hb _)))
        (λ err _. a)

  add_checked-Safe :
      (hash : Bytes) (o : Option Bytes) → After env chat (Moderation.add_checked env chat hash o)
  unfolding Moderation.add_checked
  add_checked-Safe hash none = unchanged env chat
  add_checked-Safe hash (some hb) =
      if_cases (After env chat) (is_banned chat.roster hb) (λ _. unchanged env chat)
        λ free.
          if_cases (After env chat) (has_member chat.roster hb) (λ _. unchanged env chat)
            λ _.
              if_cases (After env chat) (is_full env chat.roster) (λ _. unchanged env chat)
                λ room. add_member-Safe hash hb free room

  -- The shape of the commands of one argument for mods.
  mod_only-Safe {ℓ} :
      {R : Type ℓ} (role : Role) (x : R) (y : Chat × R)
      → After env chat y
      → After env chat (if not (at_least_mod role) then (chat, x) else y)
  mod_only-Safe role x y a =
      if_cases (After env chat) (not (at_least_mod role)) (λ _. unchanged env chat) (λ _. a)

  pub handle_add_user-Safe :
      (role : Role) (args : List Bytes)
      → After env chat (Moderation.handle_add_user env chat role args)
  unfolding Moderation.handle_add_user
  handle_add_user-Safe role (arg ∷ []) =
      mod_only-Safe role _ _
        (add_checked-Safe (to_lower (trim_space arg)) (must_hex_bytes (to_lower (trim_space arg))))
  handle_add_user-Safe role _ = mod_only-Safe role _ _ (unchanged env chat)

  remove_target-Safe :
      (locked : Bool) (f : Found) → After env chat (Moderation.remove_target env chat locked f)
  unfolding Moderation.remove_target
  remove_target-Safe locked (failed e) = unchanged env chat
  remove_target-Safe locked (found t) =
      answer-Safe env chat (without_flag (remove env.save chat.roster t.hash)) _ _
        (remove-Within env.save chat.roster t.hash)

  pub handle_remove_user-Safe :
      (role : Role) (args : List Bytes)
      → After env chat (Moderation.handle_remove_user env chat role args)
  unfolding Moderation.handle_remove_user
  handle_remove_user-Safe role (who ∷ []) =
      mod_only-Safe role _ _ (remove_target-Safe env.cfg.locked (resolve chat.roster who))
  handle_remove_user-Safe role _ = mod_only-Safe role _ _ (unchanged env chat)

  pub handle_kick-Safe :
      (role : Role) (args : List Bytes) → After env chat (Moderation.handle_kick env chat role args)
  unfolding Moderation.handle_kick
  handle_kick-Safe role (who ∷ []) =
      mod_only-Safe role _ _ (remove_target-Safe false (resolve chat.roster who))
  handle_kick-Safe role _ = mod_only-Safe role _ _ (unchanged env chat)

  ban_target-Safe : (f : Found) → After env chat (Moderation.ban_target env chat f)
  unfolding Moderation.ban_target
  ban_target-Safe (failed e) = unchanged env chat
  ban_target-Safe (found t) = rw (roster-answer chat (ban env.save chat.roster t.hash)) (record {
    bans = ban-BansHold env.save chat.roster t.hash;
    capped = λ _. inl (length-ban-le env.save chat.roster t.hash);
  })

  pub handle_ban-Safe :
      (role : Role) (args : List Bytes) → After env chat (Moderation.handle_ban env chat role args)
  unfolding Moderation.handle_ban
  handle_ban-Safe role (who ∷ []) =
      mod_only-Safe role _ _ (ban_target-Safe (resolve chat.roster who))
  handle_ban-Safe role _ = mod_only-Safe role _ _ (unchanged env chat)

  unban_one-Safe : (h : Bytes) → After env chat (Moderation.unban_one env chat h)
  unfolding Moderation.unban_one
  unban_one-Safe h =
      answer-Safe env chat (without_flag (unban env.save chat.roster h)) _ _
        (unban-Within env.save chat.roster h)

  unban_matches-Safe :
      (hash : Bytes) (hs : List Bytes) → After env chat (Moderation.unban_matches env chat hash hs)
  unfolding Moderation.unban_matches
  unban_matches-Safe hash [] = unchanged env chat
  unban_matches-Safe hash (h ∷ []) = unban_one-Safe h
  unban_matches-Safe hash (h ∷ h' ∷ hs) = unchanged env chat

  pub handle_unban-Safe :
      (role : Role) (args : List Bytes)
      → After env chat (Moderation.handle_unban env chat role args)
  unfolding Moderation.handle_unban
  handle_unban-Safe role (arg ∷ []) =
      let hash = to_lower (trim_space arg) in
      mod_only-Safe role _ _ (
        if_cases (After env chat) (contains (banned_hashes chat.roster) hash)
          (λ _. unban_one-Safe hash)
          (λ _.
            unban_matches-Safe hash (keep (λ h. has_prefix h hash) (banned_hashes chat.roster))))
  handle_unban-Safe role _ = mod_only-Safe role _ _ (unchanged env chat)
