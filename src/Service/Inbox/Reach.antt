-- ===== src/Service/Inbox/Reach.antt =====
-- Proofs on internal/service/inbox.go and forward.go: a relayed message is queued for the members.
use reticulum_group_chat.Base.{
  ℕ, suc, ◌+◌, ◌≤◌, ◌<◌, ◌≡◌, refl, sym, ap, subst, ◌∙◌, false, not, ◌&&◌, Option, none, some, List,
  [], ◌∷◌, ◌++◌, map, ltb, leb, ◌==◌, length, length-append, if_cases, arith, is_some,
  if◌then◌else◌,
}
use mathlib.Core.List.{Mem, mem-append_right, append-nil, append_assoc}
use reticulum_group_chat.Base.Maps.{lookup}
use reticulum_group_chat.Base.Text.{Bytes, bytes_eq}
use reticulum_group_chat.Hex.{encode, must_hex_bytes}
use reticulum_group_chat.Roster.Model.{User}
use reticulum_group_chat.Roster.Members.{active_hashes}
use reticulum_group_chat.Roster.Settings.{is_text_only}
use reticulum_group_chat.Roster.Laws.{WellFormed}
use reticulum_group_chat.Service.Fields.{Fields}
use reticulum_group_chat.Service.Forward.{Message, rewritten, forward_to_roster_complete}
use reticulum_group_chat.Service.Outbound.Queue.{
  OutboundMessage, OutboundQueue, mark_dirty, max_pending_messages, enqueue, enqueue_bubble,
}
use reticulum_group_chat.Service.Inbox.{
  Inbound, Inbox, Service, prepared, rewrite_in, stamped, fan_out, enqueue_each, relay,
}

-- What the queue has of a message for its recipient.
abbrev pub as_message : OutboundMessage Fields → Message Fields
as_message m = record { recipient = m.recipient; body = m.body; fields = m.fields }

map-append_one :
    (l : List (OutboundMessage Fields)) (m : OutboundMessage Fields)
    → map as_message (l ++ (m ∷ [])) ≡ map as_message l ++ (as_message m ∷ [])
map-append_one [] m = refl
map-append_one (x ∷ l) m = λ i. as_message x ∷ map-append_one l m i

enqueue_bubble_room :
    (q : OutboundQueue Fields) (id : Bytes) (m : Message Fields) (bubble : Option ℕ) (now : ℕ)
    → length q.pending < max_pending_messages
    → let q' = (enqueue_bubble q id m.recipient m.body m.fields bubble now).0 in
      (map as_message q'.pending ≡ map as_message q.pending ++ (m ∷ []))
      × (length q'.pending ≡ suc (length q.pending))
unfolding enqueue_bubble enqueue mark_dirty
enqueue_bubble_room q id m bubble now room =
    let full : leb max_pending_messages (length q.pending) ≡ false = ground arith in
    rw (full, enqueue_bubble, enqueue)
      (if_cases {A = OutboundQueue Fields}
        (λ q'.
          (map as_message q'.pending ≡ map as_message q.pending ++ (m ∷ []))
          × (length q'.pending ≡ suc (length q.pending)))
        (is_some q.store) (λ _. grown) (λ _. grown))
  where
    grown :
        (map as_message (
            q.pending
            ++ (record {
              ref = q.next_ref;
              id = id;
              recipient = m.recipient;
              body = m.body;
              fields = m.fields;
              bubble = bubble;
              attempts = 0;
              next_attempt = 0;
              enqueued_at = now;
              propagated = q.propagation_always;
              after_earlier = false;
            }
                ∷ []))
          ≡ map as_message q.pending ++ (m ∷ []))
        × (length (
              q.pending
              ++ (record {
                ref = q.next_ref;
                id = id;
                recipient = m.recipient;
                body = m.body;
                fields = m.fields;
                bubble = bubble;
                attempts = 0;
                next_attempt = 0;
                enqueued_at = now;
                propagated = q.propagation_always;
                after_earlier = false;
              }
                  ∷ []))
            ≡ suc (length q.pending))
    grown = (map-append_one q.pending _, omega (arith, length-append q.pending _))

enqueue_each_room :
    (i : Inbox) (q : OutboundQueue Fields) (ms : List (Message Fields)) (bubble : Option ℕ)
    → length q.pending + length ms ≤ max_pending_messages
    → map as_message (enqueue_each i q ms bubble).pending ≡ map as_message q.pending ++ ms
unfolding enqueue_each
enqueue_each_room i q [] bubble room = sym (append-nil (map as_message q.pending))
enqueue_each_room i q (m ∷ ms) bubble room =
    let q' = (enqueue_bubble q (i.ids q.next_ref) m.recipient m.body m.fields bubble i.env.now).0 in
    let (shown, longer) =
      enqueue_bubble_room q (i.ids q.next_ref) m bubble i.env.now (omega arith) in
    enqueue_each_room i q' ms bubble (omega arith)
    ∙ (ap (λ l. l ++ ms) shown ∙ append_assoc (map as_message q.pending) (m ∷ []) ms)

queue-relay :
    (i : Inbox) (s : Service) (msg : Inbound) (nick content body : Bytes) (fields : Fields)
    → (relay i s msg nick content body fields).queue
      ≡ enqueue_each i
          (record s.queue { idmap = (prepared i s msg content fields).0 })
          (fan_out i s msg content body fields)
          (prepared i s msg content fields).1
unfolding relay
queue-relay i s msg nick content body fields =
    if_cases {A = Service}
      (λ s'.
        s'.queue
        ≡ enqueue_each i (record s.queue { idmap = (prepared i s msg content fields).0 })
            (fan_out i s msg content body fields) (prepared i s msg content fields).1)
      (ltb 0 (length (fan_out i s msg content body fields)) && not (content == [])) (λ _. refl)
      (λ _. refl)

-- From a well-formed roster and with room in the queue for all active members, a relayed message is queued
-- for each active member with a valid address other than the sender whom the rewrite does not skip, with
-- its body and the fields that the rewrite gives for that member. A member on text only gets the body
-- without fields, if there is a body.
pub relay_reaches :
    (i : Inbox) (s : Service) (msg : Inbound) (nick content body h raw : Bytes) (u : User)
    (fields : Fields) (fields' : Option Fields)
    → WellFormed s.chat.roster
    → lookup h s.chat.roster.users ≡ some u
    → u.paused ≡ false
    → (h == encode msg.source_hash) ≡ false
    → must_hex_bytes h ≡ some raw
    → rewritten Fields (rewrite_in i s msg content fields) h (stamped msg fields) ≡ some fields'
    → (is_text_only s.chat.roster h && body == []) ≡ false
    → length s.queue.pending + length (active_hashes s.chat.roster) ≤ 10000
    → Mem
        (record {
          recipient = raw;
          body = body;
          fields = if is_text_only s.chat.roster h then none else fields';
        })
        (map as_message (relay i s msg nick content body fields).queue.pending)
relay_reaches i s msg nick content body h raw u fields fields' w there active other address goes
      full room =
    let (sent, few) =
      forward_to_roster_complete Fields s.chat.roster (encode msg.source_hash) body
        (stamped msg fields) (rewrite_in i s msg content fields) h raw fields' u w there active
        other address goes full in
    let shown =
      enqueue_each_room i (record s.queue { idmap = (prepared i s msg content fields).0 })
        (fan_out i s msg content body fields) (prepared i s msg content fields).1 (omega arith) in
    subst
      (Mem (record {
        recipient = raw;
        body = body;
        fields = if is_text_only s.chat.roster h then none else fields';
      }))
      (sym
        (ap (λ q. map as_message q.pending) (queue-relay i s msg nick content body fields) ∙ shown))
      (mem-append_right (map as_message s.queue.pending) sent)
