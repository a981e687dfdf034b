-- ===== src/Service/Inbox/Refusals.antt =====
-- Proofs on internal/service/inbox.go: what does not reach the group.
use reticulum_group_chat.Base.{
  ℕ, ◌≡◌, refl, sym, ap, ◌∙◌, Bool, true, false, not, ◌&&◌, Option, none, some, ltb, nat_beq, ◌==◌,
  length, if_cases, option_cases, Bool-cases, Option-cases, inl, inr, ◌⊎◌, arith, beq→eq, is_some,
}
use reticulum_group_chat.Base.Maps.{lookup, lookup-insert}
use reticulum_group_chat.Base.Text.{Bytes, bytes_eq, to_lower, trim_right}
use reticulum_group_chat.Hex.{encode}
use reticulum_group_chat.Roster.Model.{Error, User, Roster, normalize_hash, put_user, defer_persist}
use reticulum_group_chat.Roster.Members.{touch, has_member}
use reticulum_group_chat.Roster.Settings.{is_paused}
use reticulum_group_chat.Roster.Bans.{is_banned}
use reticulum_group_chat.Commands.Parser.{is_command}
use reticulum_group_chat.Service.Dedup.{seen_before}
use reticulum_group_chat.Service.Outbound.Queue.{enqueue_plain}
use reticulum_group_chat.Service.Inbox.{
  Inbound, Inbox, Service, rune_count, post, reply_invite, reply_paused, reply_over_inbound_limit,
  message_received, is_line_end, accepted_message, on_lxmf_received,
}

-- Nothing but the duplicate table differs.
abbrev pub Untouched : Service → Service → Type 0
Untouched s s' = (s'.chat ≡ s.chat) × ((s'.queue ≡ s.queue) × (s'.log ≡ s.log))

-- A message of a banned sender changes nothing but the duplicate table: no reply, no forward, no entry in the
-- history, and no change to the roster.
pub on_lxmf_received_banned :
    (i : Inbox) (s : Service) (msg : Inbound)
    → is_banned s.chat.roster msg.source_hash ≡ true
    → Untouched s (on_lxmf_received i s msg)
unfolding on_lxmf_received accepted_message
on_lxmf_received_banned i s msg banned =
    if_cases {A = Service} (Untouched s) (nat_beq (length msg.dedup_key) 0)
      (λ _.
        if_cases {A = Service} (Untouched s) (is_banned s.chat.roster msg.source_hash)
          (λ _. (refl, (refl, refl))) (λ bad. ground arith))
      λ _.
        if_cases {A = Service} (Untouched s)
          (seen_before s.dedup (encode msg.dedup_key) i.env.now).1 (λ _. (refl, (refl, refl)))
          λ _.
            if_cases {A = Service} (Untouched s) (is_banned s.chat.roster msg.source_hash)
              (λ _. (refl, (refl, refl))) (λ bad. ground arith)

abbrev paused_of : Option User → Option Bool
paused_of none = none
paused_of (some u) = some u.paused

users-defer_persist : (r : Roster) → (defer_persist r).users ≡ r.users
unfolding defer_persist
users-defer_persist r =
    if_cases {A = Roster} (λ q. q.users ≡ r.users) (is_some r.store) (λ _. refl) (λ _. refl)

rewritten_entry :
    (r : Roster) (h k : Bytes) (u u' : User)
    → lookup k r.users ≡ some u
    → u'.paused ≡ u.paused
    → paused_of (lookup h (defer_persist (put_user k u' r)).users) ≡ paused_of (lookup h r.users)
rewritten_entry r h k u u' e same =
    ap (λ us. paused_of (lookup h us)) (users-defer_persist (put_user k u' r))
    ∙ (ap paused_of (lookup-insert k h u' r.users) ∙ elim (Bool-cases (k == h)) [
      | inl at ↦ rw at (
          ap some same
          ∙ (sym (ap paused_of e) ∙ ap (λ j. paused_of (lookup j r.users)) (beq→eq k h at)))
      | inr other ↦ rw other refl
    ])

-- Presence changes neither who is a member nor who is paused.
lookup-touch :
    (r : Roster) (b h : Bytes) (now : ℕ)
    → paused_of (lookup h (touch r b now).0.users) ≡ paused_of (lookup h r.users)
unfolding touch
lookup-touch r b h now =
    option_cases {B = Roster × Bool × Option Error}
      (λ x. paused_of (lookup h x.0.users) ≡ paused_of (lookup h r.users)) (normalize_hash b)
      (λ _. refl)
      λ k _.
        option_cases {B = Roster × Bool × Option Error}
          (λ x. paused_of (lookup h x.0.users) ≡ paused_of (lookup h r.users)) (lookup k r.users)
          (λ _. refl) (λ u e. rewritten_entry r h k u _ e refl)

is_paused-touch :
    (r : Roster) (b h : Bytes) (now : ℕ) → is_paused (touch r b now).0 h ≡ is_paused r h
unfolding is_paused
is_paused-touch r b h now = ground (arith, lookup-touch r b (to_lower h) now)

has_member-touch :
    (r : Roster) (b : Bytes) (now : ℕ) → has_member (touch r b now).0 b ≡ has_member r b
unfolding has_member
has_member-touch r b now = elim (Option-cases (normalize_hash b)) [
  | inl e ↦ rw (e, has_member) refl
  | inr (k, e) ↦ rw (e, has_member) (ground (arith, lookup-touch r b k now))
]

-- The queue is as it was, or has a message to the sender more; the rest of the chat but the roster, and the
-- history, are as they were.
pub record IsRefused (i : Inbox) (s : Service) (sender : Bytes) (s' : Service) : Type 0 where
  pub same_log : s'.log ≡ s.log
  pub same_info : s'.chat.info ≡ s.chat.info
  pub same_events : s'.chat.events ≡ s.chat.events
  pub only_reply :
      (s'.queue ≡ s.queue)
      ⊎ ((body : Bytes) × (s'.queue
            ≡ (enqueue_plain s.queue (i.ids s.queue.next_ref) sender body i.env.now).0))

message_received-IsRefused :
    (i : Inbox) (s : Service) (msg : Inbound) (content : Bytes)
    → (has_member s.chat.roster msg.source_hash
        && not (is_paused s.chat.roster (encode msg.source_hash)))
      ≡ false
    → IsRefused i s msg.source_hash (message_received i s msg content)
unfolding message_received reply_over_inbound_limit reply_invite reply_paused post
message_received-IsRefused i s msg content out =
    if_cases {A = Service} (IsRefused i s msg.source_hash)
      (ltb 0 i.max_inbound_chars && ltb i.max_inbound_chars (rune_count content))
      (λ _. record {
        same_log = refl;
        same_info = refl;
        same_events = refl;
        only_reply = inr (_, refl);
      })
      λ _.
        if_cases {A = Service} (IsRefused i s msg.source_hash)
          (not (has_member s.chat.roster msg.source_hash))
          (λ _. record {
            same_log = refl;
            same_info = refl;
            same_events = refl;
            only_reply = inr (_, refl);
          })
          λ member.
            if_cases {A = Service} (IsRefused i s msg.source_hash)
              (is_paused s.chat.roster (encode msg.source_hash))
              (λ _. record {
                same_log = refl;
                same_info = refl;
                same_events = refl;
                only_reply = inr (_, refl);
              })
              (λ active. absurd (contradiction member active))
  where
    contradiction :
        not (has_member s.chat.roster msg.source_hash) ≡ false
        → is_paused s.chat.roster (encode msg.source_hash) ≡ false
        → ⊥
    contradiction member active = ground arith

as_it_was : (i : Inbox) (s : Service) (sender : Bytes) → IsRefused i s sender s
as_it_was i s sender = record {
  same_log = refl;
  same_info = refl;
  same_events = refl;
  only_reply = inl refl;
}

accepted_message-IsRefused :
    (i : Inbox) (s : Service) (msg : Inbound)
    → is_command (trim_right is_line_end msg.content) ≡ false
    → (has_member s.chat.roster msg.source_hash
        && not (is_paused s.chat.roster (encode msg.source_hash)))
      ≡ false
    → IsRefused i s msg.source_hash (accepted_message i s msg)
unfolding accepted_message
accepted_message-IsRefused i s msg text_only out =
    if_cases {A = Service} (IsRefused i s msg.source_hash) (is_banned s.chat.roster msg.source_hash)
      (λ _. as_it_was i s msg.source_hash)
      λ _.
        if_cases {A = Service} (IsRefused i s msg.source_hash)
          (is_command (trim_right is_line_end msg.content)) (λ bad. absurd (clash bad))
          λ _.
            let r =
              message_received-IsRefused i
                (record s {
                  chat = record s.chat {
                    roster = (touch s.chat.roster msg.source_hash i.env.now).0;
                  };
                })
                msg (trim_right is_line_end msg.content) still_out in
            record {
              same_log = r.same_log;
              same_info = r.same_info;
              same_events = r.same_events;
              only_reply = r.only_reply;
            }
  where
    clash : is_command (trim_right is_line_end msg.content) ≡ true → ⊥
    clash bad = ground arith

    still_out :
        (has_member (touch s.chat.roster msg.source_hash i.env.now).0 msg.source_hash
          && not (
              is_paused (touch s.chat.roster msg.source_hash i.env.now).0 (encode msg.source_hash)))
        ≡ false
    still_out =
        rw
          (
            has_member-touch s.chat.roster msg.source_hash i.env.now,
            is_paused-touch s.chat.roster msg.source_hash (encode msg.source_hash) i.env.now,
          )
          out

-- A message that is no command, of a sender who is not a member or is paused, is not forwarded: the queue
-- gets at most one message more, which is for the sender, and the history, the description and pins and the
-- hooks' events stay as they are.
pub on_lxmf_received-IsRefused :
    (i : Inbox) (s : Service) (msg : Inbound)
    → is_command (trim_right is_line_end msg.content) ≡ false
    → (has_member s.chat.roster msg.source_hash
        && not (is_paused s.chat.roster (encode msg.source_hash)))
      ≡ false
    → IsRefused i s msg.source_hash (on_lxmf_received i s msg)
unfolding on_lxmf_received
on_lxmf_received-IsRefused i s msg text_only out =
    if_cases {A = Service} (IsRefused i s msg.source_hash) (nat_beq (length msg.dedup_key) 0)
      (λ _. accepted_message-IsRefused i s msg text_only out)
      λ _.
        if_cases {A = Service} (IsRefused i s msg.source_hash)
          (seen_before s.dedup (encode msg.dedup_key) i.env.now).1
          (λ _. record {
            same_log = refl;
            same_info = refl;
            same_events = refl;
            only_reply = inl refl;
          })
          λ _.
            let r =
              accepted_message-IsRefused i
                (record s { dedup = (seen_before s.dedup (encode msg.dedup_key) i.env.now).0 }) msg
                text_only out in
            record {
              same_log = r.same_log;
              same_info = r.same_info;
              same_events = r.same_events;
              only_reply = r.only_reply;
            }
