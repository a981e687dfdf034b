-- ===== src/Commands/Privilege.antt =====
-- Proofs on internal/commands/handlers.go: the commands of callers without the rights of a mod.
use reticulum_group_chat.Base.{
  nat_beq, length, ◌≡◌, refl, sym, ap, ◌∙◌, subst, Bool, true, false, ◌||◌, ◌&&◌, Option, none,
  some, List, [], ◌∷◌, arith, not, ◌==◌, if◌then◌else◌, if_cases, option_cases,
}
use reticulum_group_chat.Base.Text.{Bytes, bytes_eq, to_lower, to_lower_idem}
use reticulum_group_chat.Hex.{must_hex_bytes, encode-must_hex_bytes}
use reticulum_group_chat.Roster.Model.{User, Roster, Error, normalize_hash}
use reticulum_group_chat.Roster.Members.{add_or_update, remove, get}
use reticulum_group_chat.Roster.Settings.{update_user, set_paused, set_text_only, set_nickname}
use reticulum_group_chat.Roster.Bans
use reticulum_group_chat.Commands.Parser.{Parsed}
use reticulum_group_chat.Commands.Nickname.{sanitize_nickname, is_nickname}
use reticulum_group_chat.Commands.Model.{
  Env, Chat, Caller, role_user, Config, Event, told_join, at_least_mod, derive_caller, is_user_role,
}
use reticulum_group_chat.Commands.Membership
use reticulum_group_chat.Commands.Membership.{
  adopt_announced_name, adopt_missing_name, answer, tell, is_full, put_roster, without_flag,
}
use reticulum_group_chat.Commands.Moderation
use reticulum_group_chat.Commands.Info
use reticulum_group_chat.Commands.Dispatch
use reticulum_group_chat.Commands.Dispatch.{
  Command, help, about, info, setinfo, pins, pin, unpin, users, mods, admins, join, leave, pause,
  resume, textonly, showall, nick, usermode, adduser, removeuser, kick, ban, unban, announce, path,
  unknown, run_command, dispatch, command_of, Reply, wrap,
}
use reticulum_group_chat.Roster.OnlySelf.{
  OnlySelf, OnlySelf-refl, update_user-OnlySelf, add_or_update-OnlySelf, remove-OnlySelf,
}

adopt_announced_name-OnlySelf :
    (env : Env) (h hb : Bytes) (r s : Roster)
    → to_lower h ≡ h
    → OnlySelf h r s
    → OnlySelf h r (adopt_announced_name env h hb s)
unfolding adopt_announced_name set_nickname
adopt_announced_name-OnlySelf env h hb r s low o =
    option_cases (OnlySelf h r) env.lookup_announced_name (λ _. o)
      λ f _.
        if_cases (OnlySelf h r) (f hb == [] || sanitize_nickname (f hb) == []) (λ _. o)
          λ _. update_user-OnlySelf env.save h r s _ low (λ u. refl) o

adopt_missing_name-OnlySelf :
    (env : Env) (h hb : Bytes) (r s : Roster)
    → to_lower h ≡ h
    → OnlySelf h r s
    → OnlySelf h r (adopt_missing_name env h hb s)
unfolding adopt_missing_name
adopt_missing_name-OnlySelf env h hb r s low o =
    option_cases (OnlySelf h r) (get s h) (λ _. o)
      λ u _.
        if_cases (OnlySelf h r) (u.nickname == [])
          (λ _. adopt_announced_name-OnlySelf env h hb r s low o) (λ _. o)

-- A caller as `deriveCaller` makes it: a lower-case hash, and its bytes if it is one.
pub record IsCaller (c : Caller) : Type 0 where
  pub low : to_lower c.hash ≡ c.hash
  pub decoded : (b : Bytes) → c.hash_bytes ≡ some b → normalize_hash b ≡ some c.hash

-- A result of a handler that leaves all else alone.
pub record IsOwn (h : Bytes) (a b : Chat) : Type 0 where
  pub roster : OnlySelf h a.roster b.roster
  pub info : b.info ≡ a.info

module _ (env : Env) (chat : Chat) (c : Caller) (valid : IsCaller c) where
  abbrev Own {ℓ} : {R : Type ℓ} → Chat × R → Type 0
  Own x = IsOwn c.hash chat x.0

  untouched : IsOwn c.hash chat chat
  untouched = record { roster = OnlySelf-refl c.hash chat.roster; info = refl }

  answer-Own {ℓ} :
      {R : Type ℓ} (x : Roster × Option Error) (done : R) (f : Error → R)
      → OnlySelf c.hash chat.roster x.0
      → Own (answer chat x done f)
  answer-Own (r, none) done f o = record { roster = o; info = refl }
  answer-Own (r, some e) done f o = record { roster = o; info = refl }

  flag_answer-Own {ℓ} :
      {R : Type ℓ} (x : Roster × Bool × Option Error) (done : R) (f : Error → R)
      → OnlySelf c.hash chat.roster x.0
      → Own (answer chat (without_flag x) done f)
  flag_answer-Own (r, b, e) done f o = answer-Own (r, e) done f o

  tell-Own :
      (wired : Bool) (e : Event) (r : Roster)
      → OnlySelf c.hash chat.roster r
      → IsOwn c.hash chat (tell wired e (put_roster chat r))
  tell-Own true e r o = record { roster = o; info = refl }
  tell-Own false e r o = record { roster = o; info = refl }

  pub handle_join-Own : Own (Membership.handle_join env chat c)
  unfolding Membership.handle_join Membership.add_member
  handle_join-Own =
      if_cases Own c.member (λ _. untouched)
        λ _.
          option_cases Own c.hash_bytes (λ _. untouched)
            λ hb e.
              if_cases Own (env.cfg.locked && not (at_least_mod c.role)) (λ _. untouched)
                λ _.
                  if_cases Own (Bans.is_banned chat.roster hb) (λ _. untouched)
                    λ _.
                      if_cases Own (is_full env chat.roster) (λ _. untouched)
                        λ _.
                          let a =
                            add_or_update-OnlySelf env.save chat.roster hb c.hash env.now
                              (valid.decoded hb e) in
                          option_cases Own (add_or_update env.save chat.roster hb env.now).2
                            (λ _.
                              tell-Own env.on_join (told_join c.hash) _ (
                                adopt_missing_name-OnlySelf env c.hash hb chat.roster _ valid.low
                                  a))
                            (λ err _. record { roster = a; info = refl })

  handle_leave-Own : Own (Membership.handle_leave env chat c)
  unfolding Membership.handle_leave
  handle_leave-Own =
      if_cases Own (not c.member) (λ _. untouched)
        λ _.
          flag_answer-Own (remove env.save chat.roster c.hash) _ _
            (remove-OnlySelf env.save chat.roster c.hash valid.low)

  -- A command that changes the caller's own entry, behind two tests.
  update_self-Own :
      {R : Type 0} (a b : Bool) (x y : R) (f : User → User) (done : R) (failed : Error → R)
      → ((u : User) → (f u).role ≡ u.role)
      → Own (
          if a
          then (chat, x)
          else if b
          then (chat, y)
          else answer chat (update_user env.save chat.roster c.hash f) done failed)
  update_self-Own a b x y f done failed keeps =
      if_cases Own a (λ _. untouched)
        λ _.
          if_cases Own b (λ _. untouched)
            λ _. answer-Own (update_user env.save chat.roster c.hash f) done failed (
              update_user-OnlySelf env.save c.hash chat.roster chat.roster f valid.low keeps
                (OnlySelf-refl c.hash chat.roster))

  handle_pause-Own : Own (Membership.handle_pause env chat c)
  unfolding Membership.handle_pause set_paused
  handle_pause-Own = update_self-Own (not c.member) c.paused _ _ _ _ _ (λ u. refl)

  handle_resume-Own : Own (Membership.handle_resume env chat c)
  unfolding Membership.handle_resume set_paused
  handle_resume-Own = update_self-Own (not c.member) (not c.paused) _ _ _ _ _ (λ u. refl)

  handle_text_only-Own : Own (Membership.handle_text_only env chat c)
  unfolding Membership.handle_text_only set_text_only
  handle_text_only-Own = update_self-Own (not c.member) c.text_only _ _ _ _ _ (λ u. refl)

  handle_show_all-Own : Own (Membership.handle_show_all env chat c)
  unfolding Membership.handle_show_all set_text_only
  handle_show_all-Own = update_self-Own (not c.member) (not c.text_only) _ _ _ _ _ (λ u. refl)

  module _ (plain : c.role ≡ role_user) where
    -- A command for mods does nothing for a user.
    for_mods-Own {ℓ} :
        {R : Type ℓ} (x : R) (y : Chat × R)
        → Own (if not (at_least_mod c.role) then (chat, x) else y)
    for_mods-Own x y = rw plain untouched

    handle_nick-Own : (args : List Bytes) → Own (Moderation.handle_nick env chat c args)
    unfolding Moderation.handle_nick Moderation.nick_self set_nickname
    handle_nick-Own [] = untouched
    handle_nick-Own (name' ∷ []) =
        update_self-Own (not c.member) (not (is_nickname name')) _ _ _ _ _ (λ u. refl)
    handle_nick-Own (who ∷ name' ∷ []) = for_mods-Own _ _
    handle_nick-Own (who ∷ name' ∷ x ∷ xs) = for_mods-Own _ _

    handle_user_mode-Own : (args : List Bytes) → Own (Moderation.handle_user_mode env chat c args)
    unfolding Moderation.handle_user_mode
    handle_user_mode-Own (arg ∷ who ∷ []) = rw plain untouched
    handle_user_mode-Own _ = rw plain untouched

    handle_add_user-Own :
        (args : List Bytes) → Own (Moderation.handle_add_user env chat c.role args)
    unfolding Moderation.handle_add_user
    handle_add_user-Own (arg ∷ []) = for_mods-Own _ _
    handle_add_user-Own _ = for_mods-Own _ _

    handle_remove_user-Own :
        (args : List Bytes) → Own (Moderation.handle_remove_user env chat c.role args)
    unfolding Moderation.handle_remove_user
    handle_remove_user-Own (arg ∷ []) = for_mods-Own _ _
    handle_remove_user-Own _ = for_mods-Own _ _

    handle_kick-Own : (args : List Bytes) → Own (Moderation.handle_kick env chat c.role args)
    unfolding Moderation.handle_kick
    handle_kick-Own (arg ∷ []) = for_mods-Own _ _
    handle_kick-Own _ = for_mods-Own _ _

    handle_ban-Own : (args : List Bytes) → Own (Moderation.handle_ban env chat c.role args)
    unfolding Moderation.handle_ban
    handle_ban-Own (arg ∷ []) = for_mods-Own _ _
    handle_ban-Own _ = for_mods-Own _ _

    handle_unban-Own : (args : List Bytes) → Own (Moderation.handle_unban env chat c.role args)
    unfolding Moderation.handle_unban
    handle_unban-Own (arg ∷ []) = for_mods-Own _ _
    handle_unban-Own _ = for_mods-Own _ _

    handle_path-Own : (args : List Bytes) → Own (Dispatch.handle_path env chat c.role args)
    unfolding Dispatch.handle_path
    handle_path-Own (arg ∷ []) = for_mods-Own _ _
    handle_path-Own _ = for_mods-Own _ _

    reads-Own {ℓ} : {R : Type ℓ} (x : Chat × R) → x.0 ≡ chat → Own x
    reads-Own x e = subst (IsOwn c.hash chat) (sym e) untouched

    handle_info-Own : Own (Info.handle_info env chat c)
    unfolding Info.handle_info
    handle_info-Own = option_cases Own chat.info (λ _. untouched) (λ s _. untouched)

    handle_set_info-Own : (w : Bytes) → Own (Info.handle_set_info env chat c w)
    unfolding Info.handle_set_info
    handle_set_info-Own w = rw plain untouched

    handle_pins-Own : Own (Info.handle_pins env chat c)
    unfolding Info.handle_pins
    handle_pins-Own =
        option_cases Own chat.info (λ _. untouched)
          λ s _.
            if_cases Own (not c.member && is_user_role c.role) (λ _. untouched)
              λ _. if_cases Own (nat_beq (length s.pins) 0) (λ _. untouched) (λ _. untouched)

    run_command-Own :
        (args : List Bytes) (rest : Bytes) (cmd : Command)
        → Own (run_command env chat c args rest cmd)
    unfolding run_command Dispatch.handle_announce Info.handle_pin Info.handle_unpin
    run_command-Own args rest info = handle_info-Own
    run_command-Own args rest setinfo = handle_set_info-Own rest
    run_command-Own args rest pins = handle_pins-Own
    run_command-Own args rest pin = rw plain untouched
    run_command-Own args rest unpin = rw plain untouched
    run_command-Own args rest users =
        if_cases Own (not c.member && is_user_role c.role) (λ _. untouched) (λ _. untouched)
    run_command-Own args rest join = handle_join-Own
    run_command-Own args rest leave = handle_leave-Own
    run_command-Own args rest pause = handle_pause-Own
    run_command-Own args rest resume = handle_resume-Own
    run_command-Own args rest textonly = handle_text_only-Own
    run_command-Own args rest showall = handle_show_all-Own
    run_command-Own args rest nick = handle_nick-Own args
    run_command-Own args rest usermode = handle_user_mode-Own args
    run_command-Own args rest adduser = handle_add_user-Own args
    run_command-Own args rest removeuser = handle_remove_user-Own args
    run_command-Own args rest kick = handle_kick-Own args
    run_command-Own args rest ban = handle_ban-Own args
    run_command-Own args rest unban = handle_unban-Own args
    run_command-Own args rest announce = for_mods-Own _ _
    run_command-Own args rest path = handle_path-Own args
    run_command-Own args rest _ = untouched

hash-derive_caller :
    (cfg : Config) (r : Roster) (sender : Bytes)
    → ((derive_caller cfg r sender).hash ≡ to_lower sender)
      × ((derive_caller cfg r sender).hash_bytes ≡ must_hex_bytes (to_lower sender))
unfolding derive_caller
hash-derive_caller cfg r sender = ground arith

derive_caller-IsCaller :
    (cfg : Config) (r : Roster) (sender : Bytes) → IsCaller (derive_caller cfg r sender)
unfolding normalize_hash
derive_caller-IsCaller cfg r sender =
    let (h, hb) = hash-derive_caller cfg r sender in
    record {
      low = rw h (to_lower_idem sender);
      decoded = λ b e.
          let (p, n) =
            encode-must_hex_bytes (to_lower sender) b (sym hb ∙ e) (to_lower_idem sender) in
          rw n (ap some (p ∙ sym h));
    }

-- Whatever a caller without the rights of a mod sends, only the caller's own entry can change: all
-- other members' entries, the ban list, the description and the pins stay, and the caller gains no
-- role; that holds when writes fail too.
pub dispatch_unprivileged :
    (env : Env) (chat : Chat) (sender : Bytes) (parsed : Parsed)
    → (derive_caller env.cfg chat.roster sender).role ≡ role_user
    → IsOwn (to_lower sender) chat (dispatch env chat sender parsed).0
unfolding dispatch
dispatch_unprivileged env chat sender parsed plain =
    let c = derive_caller env.cfg chat.roster sender in
    subst (λ h. IsOwn h chat (dispatch env chat sender parsed).0)
      (hash-derive_caller env.cfg chat.roster sender).0
      (run_command-Own env chat c (derive_caller-IsCaller env.cfg chat.roster sender) plain
        parsed.args parsed.rest (command_of parsed.name))
