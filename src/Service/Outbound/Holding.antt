-- ===== src/Service/Outbound/Holding.antt =====
-- Proofs on internal/service/outbound.go: a message of EnqueueAfterEarlier waits for the earlier ones.
use reticulum_group_chat.Base.{
  ℕ, ◌+◌, ◌≤◌, ◌<◌, ◌≡◌, refl, sym, subst, ◌∙◌, Bool, true, false, not, ◌⊎◌, inl, inr, Option, none,
  some, List, [], ◌∷◌, ◌++◌, ltb, length, keep, ◌==◌, arith, if_cases, All, beq_refl, is_some,
}
use reticulum_group_chat.Base.Maps.{contains}
use reticulum_group_chat.Base.Text.{Bytes, bytes_eq}
use reticulum_group_chat.Service.Outbound.Queue.{
  OutboundMessage, OutboundQueue, max_queue_age, mark_dirty,
}
use reticulum_group_chat.Service.Outbound.Pick.{
  is_too_old, is_expired, reap, has_earlier_for, is_due, pick_due,
}
use reticulum_group_chat.Service.Outbound.Fairness.{IsDueIn, pick_due_fair}
use reticulum_group_chat.Service.Outbound.Steps.{Working, Reached}
use reticulum_group_chat.Service.Outbound.Numbering.{IsNumbered, Reached-IsNumbered}
use reticulum_group_chat.Service.Outbound.Order.{IsOrdered, keep-IsOrdered}

module _ {F : Type 0} where
  -- An entry that no attempt holds, and that is past the age at which it leaves the queue.
  abbrev pub IsTooOld : OutboundQueue F → ℕ → OutboundMessage F → Type 0
  IsTooOld q now x =
      (contains q.in_flight x.id ≡ false)
      × (0 < x.enqueued_at)
      × (x.enqueued_at + max_queue_age < now)

  -- An entry that does not stand in the way of `m`: `m` itself or a later one, one for another recipient, or
  -- one that is past its age.
  abbrev pub IsNoHindrance : OutboundQueue F → ℕ → OutboundMessage F → OutboundMessage F → Type 0
  IsNoHindrance q now m x = ((m.ref ≤ x.ref) ⊎ (x.recipient ≡ m.recipient → ⊥)) ⊎ IsTooOld q now x

  expired-IsTooOld :
      (q : OutboundQueue F) (now : ℕ) (x : OutboundMessage F)
      → is_expired q.in_flight now x ≡ true
      → IsTooOld q now x
  unfolding is_expired is_too_old
  expired-IsTooOld q now x e = (ground arith, ground arith, ground arith)

  -- What holds of the entries that are left, or else an entry was not kept.
  kept_or_not :
      (P : OutboundMessage F → Type 0) (p : OutboundMessage F → Bool) (l : List (OutboundMessage F))
      → All P (keep p l)
      → All (λ x. P x ⊎ (p x ≡ false)) l
  unfolding keep
  kept_or_not P p [] a = tt
  kept_or_not P p (x ∷ l) a =
      if_cases {A = List (OutboundMessage F)}
        (λ k. All P k → (P x ⊎ (p x ≡ false)) × All (λ y. P y ⊎ (p y ≡ false)) l) (p x)
        (λ _ b. (inl b.0, kept_or_not P p l b.1)) (λ goes b. (inr goes, kept_or_not P p l b)) a

  All-map :
      (P Q : OutboundMessage F → Type 0) (l : List (OutboundMessage F))
      → ((x : OutboundMessage F) → P x → Q x)
      → All P l
      → All Q l
  All-map P Q [] f a = tt
  All-map P Q (x ∷ l) f a = (f x a.0, All-map P Q l f a.1)

  -- Around an entry before which none is for its recipient.
  around :
      (m : OutboundMessage F) (ahead behind : List (OutboundMessage F))
      → IsOrdered (ahead ++ (m ∷ behind))
      → has_earlier_for ahead m.recipient ≡ false
      → All (λ x. (m.ref ≤ x.ref) ⊎ (x.recipient ≡ m.recipient → ⊥)) (ahead ++ (m ∷ behind))
  unfolding has_earlier_for
  around m [] behind o h = (
    inl (omega arith),
    All-map (λ y. m.ref < y.ref) (λ x. (m.ref ≤ x.ref) ⊎ (x.recipient ≡ m.recipient → ⊥)) behind
        (λ y lt. inl (omega arith)) o.0,
  )
  around m (x ∷ ahead) behind o h =
      (inr (λ e. let same = to_beq e in ground arith), around m ahead behind o.1 (ground arith))
    where
      to_beq : x.recipient ≡ m.recipient → (x.recipient == m.recipient) ≡ true
      to_beq e = rw e (beq_refl m.recipient)

  -- What reaping leaves is in order, and what it takes out was too old.
  abbrev IsReaped : OutboundQueue F → ℕ → OutboundQueue F → Type 1
  IsReaped q now r =
      (IsOrdered q.pending → IsOrdered r.pending)
      × ((P : OutboundMessage F → Type 0)
          → All P r.pending
          → All (λ x. P x ⊎ IsTooOld q now x) q.pending)

  pending-mark_dirty : (q : OutboundQueue F) → (mark_dirty q).pending ≡ q.pending
  unfolding mark_dirty
  pending-mark_dirty q =
      if_cases {A = OutboundQueue F} (λ r. r.pending ≡ q.pending) (is_some q.store) (λ _. refl)
        (λ _. refl)

  not_expired :
      (q : OutboundQueue F) (now : ℕ) (x : OutboundMessage F)
      → not (is_expired q.in_flight now x) ≡ false
      → IsTooOld q now x
  not_expired q now x e = expired-IsTooOld q now x (ground arith)

  reap-IsReaped : (q : OutboundQueue F) (now : ℕ) → IsReaped q now (reap q now)
  unfolding reap
  reap-IsReaped q now =
      let left = keep (λ m. not (is_expired q.in_flight now m)) q.pending in
      if_cases {A = OutboundQueue F} (IsReaped q now)
        (ltb 0 (length (keep (is_expired q.in_flight now) q.pending)))
        (λ _.
          let e = pending-mark_dirty (record q { pending = left }) in
          (
            λ o.
                subst IsOrdered (sym e)
                  (keep-IsOrdered (λ m. not (is_expired q.in_flight now m)) q.pending o),
            λ P a.
                All-map (λ x. P x ⊎ (not (is_expired q.in_flight now x) ≡ false))
                  (λ x. P x ⊎ IsTooOld q now x) q.pending
                  (λ x. elim [ inl p ↦ inl p | inr g ↦ inr (not_expired q now x g) ])
                  (kept_or_not P (λ m. not (is_expired q.in_flight now m)) q.pending
                    (subst (All P) e a)),
          ))
        (λ _. (λ o. o, λ P a. All-map P (λ x. P x ⊎ IsTooOld q now x) q.pending (λ x p. inl p) a))

  is_due_alone :
      (in_flight : List Bytes) (now : ℕ) (ahead : List (OutboundMessage F)) (m : OutboundMessage F)
      → is_due in_flight now ahead m ≡ true
      → m.after_earlier ≡ true
      → has_earlier_for ahead m.recipient ≡ false
  unfolding is_due
  is_due_alone in_flight now ahead m due held = ground arith

  held_alone :
      (q : OutboundQueue F) (now : ℕ) (last_announce : Bytes → Option ℕ) (m : OutboundMessage F)
      → IsOrdered q.pending
      → (pick_due q now last_announce).1 ≡ some m
      → m.after_earlier ≡ true
      → All (IsNoHindrance q now m) q.pending
  held_alone q now last_announce m o e held = elim (pick_due_fair last_announce q now) [
    | inl (n, _) ↦ absurd (some_is_none (sym e ∙ n))
    | inr (m', e', _, d) ↦
        let same : m' ≡ m = cc in
        let d' = subst (IsDueIn (reap q now).in_flight now (reap q now).pending) same d in
        let (ordered, back) = reap-IsReaped q now in
        back (λ x. (m.ref ≤ x.ref) ⊎ (x.recipient ≡ m.recipient → ⊥))
          (subst (All (λ x. (m.ref ≤ x.ref) ⊎ (x.recipient ≡ m.recipient → ⊥))) (sym d'.split) (
            around m d'.ahead d'.behind (subst IsOrdered d'.split (ordered o))
              (is_due_alone (reap q now).in_flight now d'.ahead m d'.due held)))
  ]
    where
      some_is_none : some m ≡ none → ⊥
      some_is_none bad = cc

  -- In any run of the workers and the flush loop from a queue whose entries are numbered, a message that
  -- waits for the earlier ones is taken only when every entry that was queued before it is for another
  -- recipient, or is past the age at which it leaves the queue and not in flight.
  pub pick_due_after_earlier :
      (start : OutboundQueue F) (w : Working F) (now : ℕ) (last_announce : Bytes → Option ℕ)
      (m : OutboundMessage F)
      → IsNumbered start
      → Reached start w
      → (pick_due w.queue now last_announce).1 ≡ some m
      → m.after_earlier ≡ true
      → All (IsNoHindrance w.queue now m) w.queue.pending
  pick_due_after_earlier start w now last_announce m b r e held =
      held_alone w.queue now last_announce m (Reached-IsNumbered start w b r).0 e held
