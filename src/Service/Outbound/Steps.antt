-- ===== src/Service/Outbound/Steps.antt =====
-- internal/service/outbound.go: the steps of the workers and of the flush loop in any order, and
-- proofs on the length of the queue.
use reticulum_group_chat.Base.{
  ℕ, ◌≤◌, ◌≡◌, refl, sym, subst, Bool, true, false, not, ◌&&◌, Option, none, some, List, [], ◌∷◌,
  ltb, leb, length, keep, arith, if_cases, leb→gt, length-append, length-keep-le, is_some,
}
use reticulum_group_chat.Base.Text.{Bytes, bytes_eq}
use reticulum_group_chat.Service.Outbound.Queue.{
  OutboundMessage, StoredMessage, OutboundQueue, max_pending_messages, mark_dirty, with_entry,
  enqueue, begin_flush, finish_flush,
}
use reticulum_group_chat.Service.Outbound.Pick.{is_expired, reap, marked, pick_due, is_in_flight}
use reticulum_group_chat.Service.Outbound.Attempt.{
  Outcome, replace_message, remove_message, begun, begin_attempt, settled, placed, finish_attempt,
  after_send,
}

-- The queue, and what the flush loop is writing at the moment.
pub record Working (F : Type 0) : Type 0 where
  pub queue : OutboundQueue F
  pub writing : Option (List StoredMessage)

module _ {F : Type 0} where
  abbrev pub idle : OutboundQueue F → Working F
  idle q = record { queue = q; writing = none }

  -- The states of a run of the workers and of the one flush loop.
  pub data Reached (start : OutboundQueue F) : Working F → Type 0 where
    started : Reached start (idle start)
    enqueued :
        (w : Working F) (id recipient body : Bytes) (fields : Option F) (bubble : Option ℕ)
        (after_earlier : Bool) (now : ℕ)
        → Reached start w
        → Reached start (record w {
          queue = (enqueue w.queue id recipient body fields bubble after_earlier now).0;
        })
    picked :
        (w : Working F) (now : ℕ) (last_announce : Bytes → Option ℕ)
        → Reached start w
        → Reached start (record w { queue = (pick_due w.queue now last_announce).0 })
    began :
        (w : Working F) (m : OutboundMessage F)
        → Reached start w
        → is_in_flight w.queue.in_flight m ≡ true
        → Reached start (record w { queue = begin_attempt w.queue m })
    finished :
        (w : Working F) (m : OutboundMessage F) (outcome : Outcome) (now : ℕ) (has_node : Bool)
        → Reached start w
        → Reached start (record w { queue = finish_attempt w.queue m outcome now has_node })
    flushing :
        (w : Working F)
        → Reached start w
        → w.writing ≡ none
        → Reached start
            (record { queue = (begin_flush w.queue).0; writing = (begin_flush w.queue).1 })
    flushed :
        (w : Working F) (snapshot : List StoredMessage) (written : Bool)
        → Reached start w
        → w.writing ≡ some snapshot
        → Reached start (idle (finish_flush w.queue snapshot written))

  pending-mark_dirty : (q : OutboundQueue F) → (mark_dirty q).pending ≡ q.pending
  unfolding mark_dirty
  pending-mark_dirty q =
      if_cases (λ (r : OutboundQueue F). r.pending ≡ q.pending) (is_some q.store) (λ _. refl)
        (λ _. refl)

  pub length-replace_message :
      (m : OutboundMessage F) (l : List (OutboundMessage F))
      → length (replace_message m l) ≡ length l
  unfolding replace_message
  length-replace_message m [] = refl
  length-replace_message m (x ∷ l) = ground (arith, length-replace_message m l)

  length-remove_message-le :
      (ref : ℕ) (l : List (OutboundMessage F)) → length (remove_message ref l) ≤ length l
  unfolding remove_message
  length-remove_message-le ref [] = omega arith
  length-remove_message-le ref (x ∷ l) = ground (arith, length-remove_message-le ref l)

  length-placed-le :
      (m : OutboundMessage F) (o : Option (OutboundMessage F)) (l : List (OutboundMessage F))
      → length (placed m o l) ≤ length l
  unfolding placed
  length-placed-le m none l = length-remove_message-le m.ref l
  length-placed-le m (some m') l = omega (arith, length-replace_message m' l)

  abbrev Fits : OutboundQueue F → Type 0
  Fits q = length q.pending ≤ max_pending_messages

  mark_dirty-Fits : (q : OutboundQueue F) → Fits q → Fits (mark_dirty q)
  mark_dirty-Fits q f = subst (λ l. length l ≤ max_pending_messages) (sym (pending-mark_dirty q)) f

  with_entry-Fits :
      (q : OutboundQueue F) (m : OutboundMessage F)
      → leb max_pending_messages (length q.pending) ≡ false
      → Fits (mark_dirty (with_entry q m))
  with_entry-Fits q m room =
      let lt = leb→gt max_pending_messages (length q.pending) room in
      mark_dirty-Fits (with_entry q m) (omega (arith, length-append q.pending (m ∷ [])))

  enqueue-Fits :
      (q : OutboundQueue F) (id recipient body : Bytes) (fields : Option F) (bubble : Option ℕ)
      (after_earlier : Bool) (now : ℕ)
      → Fits q
      → Fits (enqueue q id recipient body fields bubble after_earlier now).0
  unfolding enqueue
  enqueue-Fits q id recipient body fields bubble after_earlier now f =
      if_cases {A = OutboundQueue F × Bytes} (λ x. Fits x.0)
        (leb max_pending_messages (length q.pending)) (λ _. f) (λ room. with_entry-Fits q _ room)

  reap-Fits : (q : OutboundQueue F) (now : ℕ) → Fits q → Fits (reap q now)
  unfolding reap
  reap-Fits q now f =
      let left = keep (λ m. not (is_expired q.in_flight now m)) q.pending in
      let shorter = length-keep-le (λ m. not (is_expired q.in_flight now m)) q.pending in
      if_cases Fits (ltb 0 (length (keep (is_expired q.in_flight now) q.pending)))
        (λ _. mark_dirty-Fits (record q { pending = left }) (omega arith)) (λ _. f)

  marked-Fits : (q : OutboundQueue F) (o : Option (OutboundMessage F)) → Fits q → Fits (marked q o)
  unfolding marked
  marked-Fits q none f = f
  marked-Fits q (some m) f = f

  pick_due-Fits :
      (q : OutboundQueue F) (now : ℕ) (last_announce : Bytes → Option ℕ)
      → Fits q
      → Fits (pick_due q now last_announce).0
  unfolding pick_due
  pick_due-Fits q now last_announce f = marked-Fits (reap q now) _ (reap-Fits q now f)

  finish_attempt-Fits :
      (q : OutboundQueue F) (m : OutboundMessage F) (outcome : Outcome) (now : ℕ) (has_node : Bool)
      → Fits q
      → Fits (finish_attempt q m outcome now has_node)
  unfolding finish_attempt after_send
  finish_attempt-Fits q m outcome now has_node f =
      let shorter = length-placed-le m (settled q m outcome now has_node) q.pending in
      mark_dirty-Fits (after_send q m outcome now has_node) (omega arith)

  -- From a queue within the bound, whatever the workers and the flush loop do, the queue never holds more
  -- than 10000 messages.
  pub Reached-Fits :
      (start : OutboundQueue F) (w : Working F)
      → length start.pending ≤ 10000
      → Reached start w
      → length w.queue.pending ≤ 10000
  unfolding begin_attempt begin_flush finish_flush
  Reached-Fits start _ f started = f
  Reached-Fits start _ f (enqueued w id recipient body fields bubble after_earlier now r) =
      enqueue-Fits w.queue id recipient body fields bubble after_earlier now
        (Reached-Fits start w f r)
  Reached-Fits start _ f (picked w now last_announce r) =
      pick_due-Fits w.queue now last_announce (Reached-Fits start w f r)
  Reached-Fits start _ f (began w m r _) =
      let before = Reached-Fits start w f r in
      omega (arith, length-replace_message (begun m) w.queue.pending)
  Reached-Fits start _ f (finished w m outcome now has_node r) =
      finish_attempt-Fits w.queue m outcome now has_node (Reached-Fits start w f r)
  Reached-Fits start _ f (flushing w r _) =
      let before = Reached-Fits start w f r in
      if_cases {A = OutboundQueue F × Option (List StoredMessage)} (λ x. Fits x.0)
        (is_some w.queue.store && w.queue.dirty) (λ _. before) (λ _. before)
  Reached-Fits start _ f (flushed w snapshot true r _) = Reached-Fits start w f r
  Reached-Fits start _ f (flushed w snapshot false r _) = Reached-Fits start w f r
