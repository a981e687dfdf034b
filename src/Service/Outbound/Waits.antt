-- ===== src/Service/Outbound/Waits.antt =====
-- Proofs on internal/service/outbound.go: what is left of a message after an attempt waits, and so it
-- can wait less long until it is past its age.
use reticulum_group_chat.Base.{
  ℕ, zero, suc, ◌+◌, ◌*◌, ◌-◌, ◌≤◌, ◌<◌, ◌≡◌, refl, sym, subst, Bool, true, false, not, ◌&&◌,
  Option, none, some, List, ltb, leb, arith, if_cases, All,
}
use reticulum_group_chat.Service.Outbound.Queue.{OutboundMessage, OutboundQueue, max_queue_age}
use reticulum_group_chat.Service.Outbound.Attempt.{
  Outcome, delivered, no_propagation_node, stamp_workers_busy, stamp_cost_too_high,
  recipient_unknown, other_error, replace_message, doubled, capped_wait, backoff_wait,
  direct_budget, retried, settled, placed,
}
use reticulum_group_chat.Service.Outbound.Order.{
  IsOrdered, Contains, All-Contains, total, put-All, All-remove_message, replace_message-IsOrdered,
  remove_message-IsOrdered, replaced, removed,
}

doubled-grows : (n wait : ℕ) → wait ≤ doubled n wait
unfolding doubled
doubled-grows zero wait = omega arith
doubled-grows (suc n) wait = ground (arith, doubled-grows n (wait * 2))

fewer : (a b x y : ℕ) → a + x ≡ b + y → y < x → a < b
fewer a b x y e lt = omega arith

module _ {F : Type 0} where
  backoff_wait_positive :
      (q : OutboundQueue F) (attempts : ℕ) → 0 < q.retry_wait → 0 < backoff_wait q attempts
  unfolding backoff_wait capped_wait
  backoff_wait_positive q attempts on = ground (arith, doubled-grows (attempts - 1) q.retry_wait)

  -- How long a message can still wait before it is past its age.
  abbrev pub span : OutboundMessage F → ℕ
  span m = suc (m.enqueued_at + max_queue_age) - m.next_attempt

  -- What is left of a message keeps its number and its age, and waits beyond `now`.
  abbrev pub Waits : ℕ → OutboundMessage F → Option (OutboundMessage F) → Type 0
  Waits now m none = Unit
  Waits now m (some m') =
      (m'.ref ≡ m.ref) × (m'.enqueued_at ≡ m.enqueued_at) × (now < m'.next_attempt)

  module _ (q : OutboundQueue F) (on : 0 < q.retry_wait) (path_on : 0 < q.path_wait) where
    retried-Waits :
        (m : OutboundMessage F) (unknown : Bool) (now : ℕ) (has_node : Bool)
        → Waits now m (retried q m unknown now has_node)
    unfolding retried
    retried-Waits m unknown now has_node =
        if_cases (Waits now m)
          (q.propagation_fallback
            && not m.propagated
            && leb (direct_budget q) m.attempts
            && has_node)
          (λ _. (refl, refl, omega arith))
          λ _.
            if_cases (Waits now m) (leb q.max_attempts m.attempts) (λ _. tt)
              λ _.
                if_cases (Waits now m) (unknown && ltb q.pathless_tries m.attempts)
                  (λ _. (refl, refl, omega arith))
                  (λ _. let lt = backoff_wait_positive q m.attempts on in (refl, refl, omega arith))

    pub settled-Waits :
        (m : OutboundMessage F) (o : Outcome) (now : ℕ) (has_node : Bool)
        → Waits now m (settled q m o now has_node)
    unfolding settled
    settled-Waits m (delivered id) now has_node = tt
    settled-Waits m no_propagation_node now has_node = (refl, refl, omega arith)
    settled-Waits m stamp_workers_busy now has_node = (refl, refl, omega arith)
    settled-Waits m stamp_cost_too_high now has_node = tt
    settled-Waits m recipient_unknown now has_node = retried-Waits m true now has_node
    settled-Waits m other_error now has_node = retried-Waits m false now has_node

  -- The entries stand in order, and each has the time at which it was queued.
  pub record AreTimed (l : List (OutboundMessage F)) : Type 0 where
    pub ordered : IsOrdered l
    pub timed : All (λ m. 0 < m.enqueued_at) l

  -- An entry whose wait is over, and which is not past its age.
  abbrev pub IsPickable : ℕ → OutboundMessage F → Type 0
  IsPickable now m = (m.next_attempt ≤ now) × (now ≤ m.enqueued_at + max_queue_age)

  shorter :
      (m m' : OutboundMessage F) (now later : ℕ)
      → IsPickable now m
      → now ≤ later
      → m'.enqueued_at ≡ m.enqueued_at
      → later < m'.next_attempt
      → span m' < span m
  shorter m m' now later p le same lt = omega (arith, p.0, p.1)

  pub placed-shorter :
      (m : OutboundMessage F) (o : Option (OutboundMessage F)) (l : List (OutboundMessage F))
      (now later : ℕ)
      → Waits later m o
      → AreTimed l
      → Contains l m
      → IsPickable now m
      → now ≤ later
      → AreTimed (placed m o l) × (total span (placed m o l) < total span l)
  unfolding placed
  placed-shorter m none l now later w t c p le =
      let count = removed m l span t.ordered c in
      (
        record {
          ordered = remove_message-IsOrdered m.ref l t.ordered;
          timed = All-remove_message (λ y. 0 < y.enqueued_at) m.ref l t.timed;
        },
        omega (arith, p.0, p.1),
      )
  placed-shorter m (some m') l now later w t c p le =
      let count = (replaced m' m l t.ordered c (sym w.0)).1 span in
      let since = All-Contains (λ y. 0 < y.enqueued_at) l m t.timed c in
      (
        record {
          ordered = replace_message-IsOrdered m' l t.ordered;
          timed =
              put-All (λ y. 0 < y.enqueued_at) m' l (subst (λ a. 0 < a) (sym w.1) since) t.timed;
        },
        fewer (total span (replace_message m' l)) (total span l) (span m) (span m') count
            (shorter m m' now later p le w.1 w.2),
      )
