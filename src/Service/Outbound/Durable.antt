-- ===== src/Service/Outbound/Durable.antt =====
-- Proofs on internal/service/outbound.go: what the file holds while the workers and the flush loop run.
use reticulum_group_chat.Base.{
  ℕ, ◌≡◌, refl, sym, subst, Bool, true, false, not, ◌&&◌, Option, none, some, List, [], ◌∷◌, map,
  ltb, leb, nat_beq, length, keep, arith, if_cases, inl, inr, ◌⊎◌, is_some,
}
use reticulum_group_chat.Base.Maps.{contains}
use reticulum_group_chat.Base.Text.{Bytes, bytes_eq}
use reticulum_group_chat.Service.Outbound.Queue.{
  OutboundMessage, StoredMessage, OutboundQueue, max_pending_messages, mark_dirty, stored,
  with_entry, overwritten, enqueue, begin_flush, finish_flush,
}
use reticulum_group_chat.Service.Outbound.Pick.{is_expired, reap, marked, pick_due, is_in_flight}
use reticulum_group_chat.Service.Outbound.Attempt.{
  replace_message, begun, begin_attempt, after_send, finish_attempt,
}
use reticulum_group_chat.Service.Outbound.Steps.{
  Working, Reached, started, enqueued, picked, began, finished, flushing, flushed,
}

-- What the file holds, or will hold when the present write ends.
abbrev newest : List StoredMessage → Option (List StoredMessage) → List StoredMessage
newest file none = file
newest file (some snapshot) = snapshot

module _ {F : Type 0} where
  -- Entry by entry, the file has what the queue has, or the entry is in flight.
  abbrev Matches : List Bytes → List (OutboundMessage F) → List StoredMessage → Type 0
  Matches in_flight [] [] = Unit
  Matches in_flight (m ∷ ms) (s ∷ ss) =
      ((is_in_flight in_flight m ≡ true) ⊎ (stored m ≡ s)) × Matches in_flight ms ss
  Matches in_flight _ _ = ⊥

  Matches-stored :
      (in_flight : List Bytes) (l : List (OutboundMessage F)) → Matches in_flight l (map stored l)
  Matches-stored in_flight [] = tt
  Matches-stored in_flight (m ∷ l) = (inr refl, Matches-stored in_flight l)

  Matches-cons :
      (id : Bytes) (in_flight : List Bytes) (l : List (OutboundMessage F)) (ss : List StoredMessage)
      → Matches in_flight l ss
      → Matches (id ∷ in_flight) l ss
  unfolding contains
  Matches-cons id in_flight [] [] h = tt
  Matches-cons id in_flight [] (s ∷ ss) h = h
  Matches-cons id in_flight (m ∷ l) [] h = h
  Matches-cons id in_flight (m ∷ l) (s ∷ ss) (inl flying, h) =
      (inl (ground arith), Matches-cons id in_flight l ss h)
  Matches-cons id in_flight (m ∷ l) (s ∷ ss) (inr same, h) =
      (inr same, Matches-cons id in_flight l ss h)

  Matches-replace_message :
      (m : OutboundMessage F) (in_flight : List Bytes) (l : List (OutboundMessage F))
      (ss : List StoredMessage)
      → is_in_flight in_flight m ≡ true
      → Matches in_flight l ss
      → Matches in_flight (replace_message m l) ss
  unfolding replace_message
  Matches-replace_message m in_flight [] [] flying h = tt
  Matches-replace_message m in_flight [] (s ∷ ss) flying h = h
  Matches-replace_message m in_flight (x ∷ l) [] flying h = absurd h
  Matches-replace_message m in_flight (x ∷ l) (s ∷ ss) flying (same, h) =
      if_cases (λ r. Matches in_flight r (s ∷ ss)) (nat_beq x.ref m.ref) (λ _. (inl flying, h))
        (λ _. (same, Matches-replace_message m in_flight l ss flying h))

  -- With the in-flight entries out of it, a match is equality.
  Matches-idle :
      (l : List (OutboundMessage F)) (ss : List StoredMessage) → Matches [] l ss → ss ≡ map stored l
  unfolding contains
  Matches-idle [] [] h = refl
  Matches-idle [] (s ∷ ss) h = absurd h
  Matches-idle (m ∷ l) [] h = absurd h
  Matches-idle (m ∷ l) (s ∷ ss) (inl bad, h) = ground arith
  Matches-idle (m ∷ l) (s ∷ ss) (inr same, h) = λ i. sym same i ∷ Matches-idle l ss h i

  abbrev IsSaved : OutboundQueue F → Option (List StoredMessage) → Type 0
  IsSaved q writing =
      (file : List StoredMessage)
      → q.store ≡ some file
      → q.dirty ≡ false
      → Matches q.in_flight q.pending (newest file writing)

  mark_dirty-IsSaved :
      (q : OutboundQueue F) (writing : Option (List StoredMessage)) → IsSaved (mark_dirty q) writing
  unfolding mark_dirty
  mark_dirty-IsSaved q writing =
      if_cases {A = OutboundQueue F} (λ r. IsSaved r writing) (is_some q.store)
        (λ _ file _ bad. absurd (true_is_false bad))
        (λ no_store file e _. absurd (stored_anyway file no_store e))
    where
      true_is_false : true ≡ false → ⊥
      true_is_false bad = ground arith

      stored_anyway :
          (file : List StoredMessage) → is_some q.store ≡ false → q.store ≡ some file → ⊥
      stored_anyway file no_store e = ground arith

  marked-IsSaved :
      (q : OutboundQueue F) (o : Option (OutboundMessage F)) (writing : Option (List StoredMessage))
      → IsSaved q writing
      → IsSaved (marked q o) writing
  unfolding marked
  marked-IsSaved q none writing h = h
  marked-IsSaved q (some m) writing h =
      λ file e clean. Matches-cons m.id q.in_flight q.pending (newest file writing) (h file e clean)

  reap-IsSaved :
      (q : OutboundQueue F) (now : ℕ) (writing : Option (List StoredMessage))
      → IsSaved q writing
      → IsSaved (reap q now) writing
  unfolding reap
  reap-IsSaved q now writing h =
      if_cases {A = OutboundQueue F} (λ r. IsSaved r writing)
        (ltb 0 (length (keep (is_expired q.in_flight now) q.pending)))
        (λ _.
          mark_dirty-IsSaved
            (record q { pending = keep (λ m. not (is_expired q.in_flight now m)) q.pending })
            writing)
        (λ _. h)

  enqueue-IsSaved :
      (q : OutboundQueue F) (id recipient body : Bytes) (fields : Option F) (bubble : Option ℕ)
      (after_earlier : Bool) (now : ℕ) (writing : Option (List StoredMessage))
      → IsSaved q writing
      → IsSaved (enqueue q id recipient body fields bubble after_earlier now).0 writing
  unfolding enqueue
  enqueue-IsSaved q id recipient body fields bubble after_earlier now writing h =
      if_cases {A = OutboundQueue F × Bytes} (λ x. IsSaved x.0 writing)
        (leb max_pending_messages (length q.pending)) (λ _. h)
        (λ _. mark_dirty-IsSaved (with_entry q _) writing)

  begin_flush-IsSaved :
      (q : OutboundQueue F) → IsSaved q none → IsSaved (begin_flush q).0 (begin_flush q).1
  unfolding begin_flush
  begin_flush-IsSaved q h =
      if_cases {A = OutboundQueue F × Option (List StoredMessage)} (λ x. IsSaved x.0 x.1)
        (is_some q.store && q.dirty) (λ _ file _ _. Matches-stored q.in_flight q.pending) (λ _. h)

  after_write :
      (q : OutboundQueue F) (snapshot file : List StoredMessage) (o : Option (List StoredMessage))
      → q.store ≡ o
      → overwritten o snapshot ≡ some file
      → q.dirty ≡ false
      → IsSaved q (some snapshot)
      → Matches q.in_flight q.pending file
  after_write q snapshot file none e bad clean h = absurd (nothing bad)
    where
      nothing : none ≡ some file → ⊥
      nothing bad' = cc
  after_write q snapshot file (some old) e same clean h =
      let same' : snapshot ≡ file = cc in
      subst (Matches q.in_flight q.pending) same' (h old e clean)

  finish_flush-IsSaved :
      (q : OutboundQueue F) (snapshot : List StoredMessage) (written : Bool)
      → IsSaved q (some snapshot)
      → IsSaved (finish_flush q snapshot written) none
  unfolding finish_flush
  finish_flush-IsSaved q snapshot true h =
      λ file e clean. after_write q snapshot file q.store refl e clean h
  finish_flush-IsSaved q snapshot false h = λ file e bad. absurd (dirty_is_clean bad)
    where
      dirty_is_clean : true ≡ false → ⊥
      dirty_is_clean bad' = ground arith

  Reached-IsSaved :
      (start : OutboundQueue F) (w : Working F)
      → ((file : List StoredMessage) → start.store ≡ some file → file ≡ map stored start.pending)
      → Reached start w
      → IsSaved w.queue w.writing
  unfolding pick_due begin_attempt finish_attempt
  Reached-IsSaved start _ s started = λ file e _.
      subst (Matches start.in_flight start.pending) (sym (s file e))
        (Matches-stored start.in_flight start.pending)
  Reached-IsSaved start _ s (enqueued w id recipient body fields bubble after_earlier now r) =
      enqueue-IsSaved w.queue id recipient body fields bubble after_earlier now w.writing
        (Reached-IsSaved start w s r)
  Reached-IsSaved start _ s (picked w now last_announce r) =
      marked-IsSaved (reap w.queue now) _ w.writing
        (reap-IsSaved w.queue now w.writing (Reached-IsSaved start w s r))
  Reached-IsSaved start _ s (began w m r flying) = λ file e clean.
      Matches-replace_message (begun m) w.queue.in_flight w.queue.pending (newest file w.writing)
        flying (Reached-IsSaved start w s r file e clean)
  Reached-IsSaved start _ s (finished w m outcome now has_node r) =
      mark_dirty-IsSaved (after_send w.queue m outcome now has_node) w.writing
  Reached-IsSaved start _ s (flushing w r e) =
      begin_flush-IsSaved w.queue (subst (IsSaved w.queue) e (Reached-IsSaved start w s r))
  Reached-IsSaved start _ s (flushed w snapshot written r e) =
      finish_flush-IsSaved w.queue snapshot written
        (subst (IsSaved w.queue) e (Reached-IsSaved start w s r))

  -- Started with a file that agrees with the queue, and run with one flush loop: when nothing is in flight,
  -- no write is under way and the queue is not marked dirty, the file holds the messages of the queue, in
  -- their order and with their attempts, waits and routes, whatever writes failed before.
  pub Reached-IsDurable :
      (start : OutboundQueue F) (w : Working F) (file : List StoredMessage)
      → ((old : List StoredMessage) → start.store ≡ some old → old ≡ map stored start.pending)
      → Reached start w
      → w.writing ≡ none
      → w.queue.in_flight ≡ []
      → w.queue.dirty ≡ false
      → w.queue.store ≡ some file
      → file ≡ map stored w.queue.pending
  Reached-IsDurable start w file s r still idle_now clean e =
      let saved = subst (IsSaved w.queue) still (Reached-IsSaved start w s r) in
      Matches-idle w.queue.pending file
        (subst (λ ids. Matches ids w.queue.pending file) idle_now (saved file e clean))
