-- ===== src/Service/Outbound/Numbering.antt =====
-- Proofs on internal/service/outbound.go: in any run the entries stand in the order of their numbers, so
-- an entry was queued before another just if it has the smaller number.
use reticulum_group_chat.Base.{
  ℕ, suc, ◌+◌, ◌≤◌, ◌<◌, Bool, true, false, not, ◌&&◌, Option, none, some, List, [], ◌∷◌, ◌++◌, ltb,
  leb, nat_beq, length, keep, arith, if_cases, option_cases, is_some, ◌||◌, All,
}
use reticulum_group_chat.Base.Text.{Bytes}
use reticulum_group_chat.Service.Outbound.Queue.{
  OutboundMessage, StoredMessage, OutboundQueue, max_pending_messages, mark_dirty, enqueue,
  begin_flush, finish_flush, load_each, load, identity_hash_len,
}
use reticulum_group_chat.Service.Outbound.Pick.{is_expired, reap, marked, pick_due}
use reticulum_group_chat.Service.Outbound.Attempt.{
  Outcome, replace_message, begun, begin_attempt, settled, placed, finish_attempt, after_send,
}
use reticulum_group_chat.Service.Outbound.Order.{
  IsOrdered, All-keep, All-replace_message, All-remove_message, keep-IsOrdered,
  replace_message-IsOrdered, remove_message-IsOrdered,
}
use reticulum_group_chat.Service.Outbound.Steps.{
  Working, Reached, started, enqueued, picked, began, finished, flushing, flushed,
}

module _ {F : Type 0} where
  -- In order, and all numbers below the one of the next entry.
  abbrev IsBelow : ℕ → List (OutboundMessage F) → Type 0
  IsBelow next l = IsOrdered l × All (λ x. x.ref < next) l

  abbrev pub IsNumbered : OutboundQueue F → Type 0
  IsNumbered q = IsBelow q.next_ref q.pending

  append-IsBelow :
      (l : List (OutboundMessage F)) (m : OutboundMessage F)
      → IsBelow m.ref l
      → IsBelow (suc m.ref) (l ++ (m ∷ []))
  append-IsBelow [] m b = ((tt, tt), (omega arith, tt))
  append-IsBelow (x ∷ l) m ((first, o), (lt, a)) =
      let (o', a') = append-IsBelow l m (o, a) in ((All-one l first, o'), (omega arith, a'))
    where
      All-one :
          (k : List (OutboundMessage F))
          → All (λ y. x.ref < y.ref) k
          → All (λ y. x.ref < y.ref) (k ++ (m ∷ []))
      All-one [] h = (lt, tt)
      All-one (y ∷ k) h = (h.0, All-one k h.1)

  All-weaker :
      (P Q : ℕ → Type 0) (l : List (OutboundMessage F))
      → ((r : ℕ) → P r → Q r)
      → All (λ x. P x.ref) l
      → All (λ x. Q x.ref) l
  All-weaker P Q [] f a = tt
  All-weaker P Q (x ∷ l) f a = (f x.ref a.0, All-weaker P Q l f a.1)

  replace_message-IsBelow :
      (n : ℕ) (m : OutboundMessage F) (l : List (OutboundMessage F))
      → IsBelow n l
      → IsBelow n (replace_message m l)
  replace_message-IsBelow n m l (o, a) =
      (replace_message-IsOrdered m l o, All-replace_message (λ r. r < n) m l a)

  placed-IsBelow :
      (n : ℕ) (m : OutboundMessage F) (o : Option (OutboundMessage F))
      (l : List (OutboundMessage F))
      → IsBelow n l
      → IsBelow n (placed m o l)
  unfolding placed
  placed-IsBelow n m none l (o, a) =
      (remove_message-IsOrdered m.ref l o, All-remove_message (λ x. x.ref < n) m.ref l a)
  placed-IsBelow n m (some m') l b = replace_message-IsBelow n m' l b

  mark_dirty-IsNumbered : (q : OutboundQueue F) → IsNumbered q → IsNumbered (mark_dirty q)
  unfolding mark_dirty
  mark_dirty-IsNumbered q b =
      if_cases {A = OutboundQueue F} IsNumbered (is_some q.store) (λ _. b) (λ _. b)

  enqueue-IsNumbered :
      (q : OutboundQueue F) (id recipient body : Bytes) (fields : Option F) (bubble : Option ℕ)
      (after_earlier : Bool) (now : ℕ)
      → IsNumbered q
      → IsNumbered (enqueue q id recipient body fields bubble after_earlier now).0
  unfolding enqueue
  enqueue-IsNumbered q id recipient body fields bubble after_earlier now b =
      if_cases {A = OutboundQueue F × Bytes} (λ x. IsNumbered x.0)
        (leb max_pending_messages (length q.pending)) (λ _. b)
        (λ _. mark_dirty-IsNumbered _ (append-IsBelow q.pending _ b))

  reap-IsNumbered : (q : OutboundQueue F) (now : ℕ) → IsNumbered q → IsNumbered (reap q now)
  unfolding reap
  reap-IsNumbered q now (o, a) =
      let stays = λ (m : OutboundMessage F). not (is_expired q.in_flight now m) in
      if_cases {A = OutboundQueue F} IsNumbered
        (ltb 0 (length (keep (is_expired q.in_flight now) q.pending)))
        (λ _.
          mark_dirty-IsNumbered (record q { pending = keep stays q.pending })
            (
              keep-IsOrdered stays q.pending o,
              All-keep (λ x. x.ref < q.next_ref) stays q.pending a,
            ))
        (λ _. (o, a))

  marked-IsNumbered :
      (q : OutboundQueue F) (o : Option (OutboundMessage F))
      → IsNumbered q
      → IsNumbered (marked q o)
  unfolding marked
  marked-IsNumbered q none b = b
  marked-IsNumbered q (some m) b = b

  pick_due-IsNumbered :
      (q : OutboundQueue F) (now : ℕ) (last_announce : Bytes → Option ℕ)
      → IsNumbered q
      → IsNumbered (pick_due q now last_announce).0
  unfolding pick_due
  pick_due-IsNumbered q now last_announce b =
      marked-IsNumbered (reap q now) _ (reap-IsNumbered q now b)

  finish_attempt-IsNumbered :
      (q : OutboundQueue F) (m : OutboundMessage F) (outcome : Outcome) (now : ℕ) (has_node : Bool)
      → IsNumbered q
      → IsNumbered (finish_attempt q m outcome now has_node)
  unfolding finish_attempt after_send
  finish_attempt-IsNumbered q m outcome now has_node b =
      mark_dirty-IsNumbered (after_send q m outcome now has_node)
        (placed-IsBelow q.next_ref m (settled q m outcome now has_node) q.pending b)

  pub Reached-IsNumbered :
      (start : OutboundQueue F) (w : Working F)
      → IsNumbered start
      → Reached start w
      → IsNumbered w.queue
  unfolding begin_attempt begin_flush finish_flush
  Reached-IsNumbered start _ b started = b
  Reached-IsNumbered start _ b (enqueued w id recipient body fields bubble after_earlier now r) =
      enqueue-IsNumbered w.queue id recipient body fields bubble after_earlier now
        (Reached-IsNumbered start w b r)
  Reached-IsNumbered start _ b (picked w now last_announce r) =
      pick_due-IsNumbered w.queue now last_announce (Reached-IsNumbered start w b r)
  Reached-IsNumbered start _ b (began w m r _) =
      replace_message-IsBelow w.queue.next_ref (begun m) w.queue.pending
        (Reached-IsNumbered start w b r)
  Reached-IsNumbered start _ b (finished w m outcome now has_node r) =
      finish_attempt-IsNumbered w.queue m outcome now has_node (Reached-IsNumbered start w b r)
  Reached-IsNumbered start _ b (flushing w r _) =
      let before = Reached-IsNumbered start w b r in
      if_cases {A = OutboundQueue F × Option (List StoredMessage)} (λ x. IsNumbered x.0)
        (is_some w.queue.store && w.queue.dirty) (λ _. before) (λ _. before)
  Reached-IsNumbered start _ b (flushed w snapshot true r _) = Reached-IsNumbered start w b r
  Reached-IsNumbered start _ b (flushed w snapshot false r _) = Reached-IsNumbered start w b r

load_each-IsBelow :
    (F : Type 0) (ref : ℕ) (on : Bool) (ss : List StoredMessage)
    → IsBelow (ref + length ss) (load_each {F = F} ref on ss)
      × All (λ x. ref ≤ x.ref) (load_each {F = F} ref on ss)
unfolding load_each
load_each-IsBelow F ref on [] = ((tt, tt), tt)
load_each-IsBelow F ref on (s ∷ ss) =
    let ((o, a), above) = load_each-IsBelow F (suc ref) on ss in
    let rest = load_each {F = F} (suc ref) on ss in
    let a' =
      All-weaker (λ r. r < suc ref + length ss) (λ r. r < ref + suc (length ss)) rest
        (λ r lt. omega arith) a in
    if_cases {A = List (OutboundMessage F)}
      (λ l. IsBelow (ref + suc (length ss)) l × All (λ x. ref ≤ x.ref) l)
      (nat_beq (length s.recipient) identity_hash_len)
      (λ _. (
        (
          (All-weaker (λ r. suc ref ≤ r) (λ r. ref < r) rest (λ r le. omega arith) above, o),
          (omega arith, a'),
        ),
        (
          omega arith,
          All-weaker (λ r. suc ref ≤ r) (λ r. ref ≤ r) rest (λ r le. omega arith) above,
        ),
      ))
      (λ _.
        ((o, a'), All-weaker (λ r. suc ref ≤ r) (λ r. ref ≤ r) rest (λ r le. omega arith) above))

-- What a start loads is numbered.
pub load-IsNumbered :
    {F : Type 0} (q : OutboundQueue F) (readable : Bool)
    → IsNumbered q
    → IsNumbered (load q readable).0
unfolding load
load-IsNumbered {F = F} q readable b =
    option_cases {B = OutboundQueue F × Bool} (λ x. IsNumbered x.0) q.store (λ _. b)
      λ ss _.
        if_cases {A = OutboundQueue F × Bool} (λ x. IsNumbered x.0) readable
          (λ _.
            (load_each-IsBelow F q.next_ref (q.propagation_fallback || q.propagation_always) ss).0)
          (λ _. b)
