-- ===== src/Service/Outbound/Pick.antt =====
-- internal/service/outbound.go: which message a worker takes next.
-- `last_announce` stands for the sender's LastAnnounceFor, none where the recipient has not been heard. An
-- entry is in the slice once, so removing the expired ones keeps the others in their order.
use reticulum_group_chat.Base.{
  ℕ, ◌-◌, Bool, true, false, not, ◌&&◌, ◌||◌, Option, none, some, List, [], ◌∷◌, ◌++◌, ltb, nat_beq,
  ◌==◌, if◌then◌else◌, length, keep,
}
use reticulum_group_chat.Base.Maps.{contains}
use reticulum_group_chat.Base.Text.{Bytes, bytes_eq}
use reticulum_group_chat.Service.Outbound.Queue.{
  OutboundMessage, OutboundQueue, max_queue_age, mark_dirty,
}

-- Whether an entry last announced at the first time takes the place of the best so far.
unfoldable pub is_better : Option ℕ → Option ℕ → Bool
is_better none best_seen = false
is_better (some seen) none = true
is_better (some seen) (some best_seen) = ltb best_seen seen

module _ {F : Type 0} where
  abbrev pub is_in_flight : List Bytes → OutboundMessage F → Bool
  is_in_flight in_flight m = contains in_flight m.id

  unfoldable pub is_too_old : ℕ → OutboundMessage F → Bool
  is_too_old now m = not (nat_beq m.enqueued_at 0) && ltb max_queue_age (now - m.enqueued_at)

  unfoldable pub is_expired : List Bytes → ℕ → OutboundMessage F → Bool
  unfolding is_too_old
  is_expired in_flight now m = not (is_in_flight in_flight m) && is_too_old now m

  unfoldable pub reap : OutboundQueue F → ℕ → OutboundQueue F
  unfolding is_expired mark_dirty
  reap q now =
      let expired = keep (is_expired q.in_flight now) q.pending in
      let left = keep (λ m. not (is_expired q.in_flight now m)) q.pending in
      if ltb 0 (length expired) then mark_dirty (record q { pending = left }) else q

  unfoldable pub has_earlier_for : List (OutboundMessage F) → Bytes → Bool
  has_earlier_for [] recipient = false
  has_earlier_for (m ∷ ahead) recipient =
      m.recipient == recipient || has_earlier_for ahead recipient

  -- The three tests that skip an entry, `ahead` being the entries before it.
  unfoldable pub is_due : List Bytes → ℕ → List (OutboundMessage F) → OutboundMessage F → Bool
  unfolding has_earlier_for
  is_due in_flight now ahead m =
      not (is_in_flight in_flight m)
      && not (not (nat_beq m.next_attempt 0) && ltb now m.next_attempt)
      && not (m.after_earlier && has_earlier_for ahead m.recipient)

  unfoldable pub better :
      (Bytes → Option ℕ)
      → OutboundMessage F
      → Option (OutboundMessage F)
      → Option (OutboundMessage F)
  unfolding is_better
  better last_announce m none = some m
  better last_announce m (some best) =
      if is_better (last_announce m.recipient) (last_announce best.recipient)
      then some m
      else some best

  unfoldable pub pick_best :
      List Bytes
      → ℕ
      → (Bytes → Option ℕ)
      → List (OutboundMessage F)
      → Option (OutboundMessage F)
      → List (OutboundMessage F)
      → Option (OutboundMessage F)
  unfolding is_due better
  pick_best in_flight now last_announce ahead best [] = best
  pick_best in_flight now last_announce ahead best (m ∷ ms) =
      pick_best in_flight now last_announce (ahead ++ (m ∷ []))
        (if is_due in_flight now ahead m then better last_announce m best else best) ms

  -- The entry that is taken, marked in flight.
  unfoldable pub marked : OutboundQueue F → Option (OutboundMessage F) → OutboundQueue F
  marked q none = q
  marked q (some m) = record q { in_flight = m.id ∷ q.in_flight }

  unfoldable pub pick_due :
      OutboundQueue F → ℕ → (Bytes → Option ℕ) → OutboundQueue F × Option (OutboundMessage F)
  unfolding reap pick_best marked
  pick_due q now last_announce =
      let q' = reap q now in
      let best = pick_best q'.in_flight now last_announce [] none q'.pending in
      (marked q' best, best)
