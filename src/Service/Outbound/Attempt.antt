-- ===== src/Service/Outbound/Attempt.antt =====
-- internal/service/outbound.go: one attempt to send a message, and what its outcome does to the queue.
-- A send takes place between `begin_attempt` and `finish_attempt`, outside the lock. The message of an
-- attempt is in flight, so no other worker changes it meanwhile. The sender is a parameter, its errors
-- told apart as the queue tells them apart; its path request changes nothing of the queue.
use reticulum_group_chat.Base.{
  ℕ, zero, suc, ◌+◌, ◌-◌, ◌*◌, Bool, true, false, not, ◌&&◌, Option, none, some, List, [], ◌∷◌, ltb,
  leb, nat_beq, ◌==◌, if◌then◌else◌, keep,
}
use reticulum_group_chat.Base.Text.{Bytes, bytes_eq}
use reticulum_group_chat.Hex.{encode}
use reticulum_group_chat.IdMap.{Cache, register_view}
use reticulum_group_chat.Service.Outbound.Queue.{
  OutboundMessage, OutboundQueue, max_retry_backoff, mark_dirty,
}
use reticulum_group_chat.Service.Outbound.Pick.{pick_due}

-- What a send gives: the message id in the recipient's view, or an error.
pub data Outcome : Type 0 where
  delivered : Bytes → Outcome
  no_propagation_node stamp_workers_busy stamp_cost_too_high recipient_unknown other_error : Outcome

-- outboundSender
pub record OutboundSender (F : Type 0) : Type 0 where
  pub send_lxmf : Bytes → Bytes → Option F → Outcome
  pub send_lxmf_propagated : Bytes → Bytes → Option F → Outcome
  pub has_propagation_node : Bool
  pub last_announce_for : Bytes → Option ℕ

-- What a turn of `processOnce` finds: whether its context is cancelled, the clock when it picks a message
-- and when the send is over, and the sender as it answers in this turn.
pub record Turn (F : Type 0) : Type 0 where
  pub cancelled : Bool
  pub picked_at : ℕ
  pub sent_at : ℕ
  pub sender : OutboundSender F

-- The doubling, for the attempts that are left.
unfoldable pub doubled : ℕ → ℕ → ℕ
doubled zero wait = wait
doubled (suc n) wait =
    let more = doubled n (wait * 2) in if ltb wait max_retry_backoff then more else wait

unfoldable pub capped_wait : ℕ → ℕ
capped_wait wait = if ltb max_retry_backoff wait then max_retry_backoff else wait

module _ {F : Type 0} where
  unfoldable pub backoff_wait : OutboundQueue F → ℕ → ℕ
  unfolding doubled capped_wait
  backoff_wait q attempts = capped_wait (doubled (attempts - 1) q.retry_wait)

  unfoldable pub direct_budget : OutboundQueue F → ℕ
  direct_budget q =
      if ltb 0 q.direct_attempts && ltb q.direct_attempts q.max_attempts
      then q.direct_attempts
      else q.max_attempts

  unfoldable pub replace_message :
      OutboundMessage F → List (OutboundMessage F) → List (OutboundMessage F)
  replace_message m [] = []
  replace_message m (x ∷ xs) =
      let rest = replace_message m xs in if nat_beq x.ref m.ref then m ∷ xs else x ∷ rest

  unfoldable pub remove_message : ℕ → List (OutboundMessage F) → List (OutboundMessage F)
  remove_message ref [] = []
  remove_message ref (x ∷ xs) =
      let rest = remove_message ref xs in if nat_beq x.ref ref then xs else x ∷ rest

  -- The message of the attempt: one more attempt on the shared entry.
  abbrev pub begun : OutboundMessage F → OutboundMessage F
  begun m = record m { attempts = suc m.attempts }

  unfoldable pub begin_attempt : OutboundQueue F → OutboundMessage F → OutboundQueue F
  unfolding replace_message
  begin_attempt q m = record q { pending = replace_message (begun m) q.pending }

  -- A failed send: another route, the end of the budget, or another attempt later.
  unfoldable pub retried :
      OutboundQueue F → OutboundMessage F → Bool → ℕ → Bool → Option (OutboundMessage F)
  unfolding backoff_wait direct_budget
  retried q m unknown now has_node =
      if q.propagation_fallback && not m.propagated && leb (direct_budget q) m.attempts && has_node
      then some (record m { propagated = true; attempts = 0; next_attempt = now + q.retry_wait })
      else if leb q.max_attempts m.attempts
      then none
      else if unknown && ltb q.pathless_tries m.attempts
      then some (record m { next_attempt = now + q.path_wait })
      else some (record m { next_attempt = now + backoff_wait q m.attempts })

  -- What the outcome makes of the message, none where it leaves the queue.
  unfoldable pub settled :
      OutboundQueue F → OutboundMessage F → Outcome → ℕ → Bool → Option (OutboundMessage F)
  unfolding retried
  settled q m (delivered id) now has_node = none
  settled q m no_propagation_node now has_node =
      some (record m { attempts = m.attempts - 1; next_attempt = now + q.retry_wait })
  settled q m stamp_workers_busy now has_node =
      some (record m { attempts = m.attempts - 1; next_attempt = now + q.retry_wait })
  settled q m stamp_cost_too_high now has_node = none
  settled q m recipient_unknown now has_node = retried q m true now has_node
  settled q m other_error now has_node = retried q m false now has_node

  -- The recipient's view of the message is registered with its bubble.
  unfoldable pub with_view : Option Cache → OutboundMessage F → Outcome → ℕ → Option Cache
  with_view (some c) m (delivered (x ∷ id)) now = elim m.bubble [
    | none ↦ some c
    | some b ↦ some (register_view c b (encode m.recipient) (encode (x ∷ id)) now)
  ]
  with_view idmap m outcome now = idmap

  unfoldable pub placed :
      OutboundMessage F
      → Option (OutboundMessage F)
      → List (OutboundMessage F)
      → List (OutboundMessage F)
  unfolding replace_message remove_message
  placed m none l = remove_message m.ref l
  placed m (some m') l = replace_message m' l

  unfoldable pub after_send :
      OutboundQueue F → OutboundMessage F → Outcome → ℕ → Bool → OutboundQueue F
  unfolding settled with_view placed
  after_send q m outcome now has_node = record q {
    pending = placed m (settled q m outcome now has_node) q.pending;
    in_flight = keep (λ id. not (id == m.id)) q.in_flight;
    idmap = with_view q.idmap m outcome now;
  }

  -- Every branch marks the queue.
  unfoldable pub finish_attempt :
      OutboundQueue F → OutboundMessage F → Outcome → ℕ → Bool → OutboundQueue F
  unfolding after_send mark_dirty
  finish_attempt q m outcome now has_node = mark_dirty (after_send q m outcome now has_node)

  abbrev pub send : OutboundSender F → OutboundMessage F → Outcome
  send s m =
      if m.propagated
      then s.send_lxmf_propagated m.recipient m.body m.fields
      else s.send_lxmf m.recipient m.body m.fields

  -- `now` is the clock once the send is over.
  unfoldable pub attempt :
      OutboundSender F → OutboundQueue F → OutboundMessage F → ℕ → OutboundQueue F
  unfolding begin_attempt finish_attempt
  attempt s q m now =
      finish_attempt (begin_attempt q m) (begun m) (send s (begun m)) now s.has_propagation_node

  -- `processOnce` on fuel, over its turns; the result is whether the loop returned.
  unfoldable pub process_once : ℕ → (ℕ → Turn F) → OutboundQueue F → OutboundQueue F × Bool
  unfolding attempt pick_due
  process_once zero turns q = (q, false)
  process_once (suc n) turns q =
      let t = turns 0 in
      if t.cancelled
      then (q, true)
      else let (q', due) = pick_due q t.picked_at t.sender.last_announce_for in
        elim due [
          | none ↦ (q', true)
          | some m ↦ process_once n (λ k. turns (suc k)) (attempt t.sender q' m t.sent_at)
        ]
