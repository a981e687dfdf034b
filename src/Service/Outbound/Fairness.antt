-- ===== src/Service/Outbound/Fairness.antt =====
-- Proofs on internal/service/outbound.go: which message `pickDue` takes.
use reticulum_group_chat.Base.{
  ℕ, suc, ◌≤◌, ◌<◌, ◌≡◌, refl, sym, subst, ◌∙◌, true, Option, none, some, List, [], ◌∷◌, ◌++◌, ltb,
  if◌then◌else◌, All, arith, if_cases, Bool-cases, inl, inr, ◌⊎◌, ltb→lt, ltb→ge,
}
use mathlib.Core.List.{append_assoc}
use reticulum_group_chat.Base.Text.{Bytes, bytes_eq}
use reticulum_group_chat.Service.Outbound.Queue.{OutboundMessage, OutboundQueue}
use reticulum_group_chat.Service.Outbound.Pick.{
  reap, is_due, is_better, better, pick_best, pick_due,
}

-- How early an entry's turn comes: the last announce of the recipient, before all others those heard.
abbrev pub heard : Option ℕ → ℕ
heard none = 0
heard (some at) = suc at

is_better-heard : (a b : Option ℕ) → is_better a b ≡ ltb (heard b) (heard a)
unfolding is_better
is_better-heard none none = refl
is_better-heard none (some b) = ground arith
is_better-heard (some a) none = ground arith
is_better-heard (some a) (some b) = ground arith

module _ {F : Type 0} where
  -- The entries that are due, `ahead` being those before the list.
  unfoldable pub candidates :
      List Bytes
      → ℕ
      → List (OutboundMessage F)
      → List (OutboundMessage F)
      → List (OutboundMessage F)
  candidates in_flight now ahead [] = []
  candidates in_flight now ahead (m ∷ ms) =
      let rest = candidates in_flight now (ahead ++ (m ∷ [])) ms in
      if is_due in_flight now ahead m then m ∷ rest else rest

  -- The entry stands in the list, and is due with the entries that stand before it.
  pub record IsDueIn (in_flight : List Bytes) (now : ℕ) (l : List (OutboundMessage F))
      (m : OutboundMessage F) : Type 0 where
    pub ahead : List (OutboundMessage F)
    pub behind : List (OutboundMessage F)
    pub split : l ≡ ahead ++ (m ∷ behind)
    pub due : is_due in_flight now ahead m ≡ true

  candidates-IsDueIn :
      (in_flight : List Bytes) (now : ℕ) (ahead l : List (OutboundMessage F))
      → All (IsDueIn in_flight now (ahead ++ l)) (candidates in_flight now ahead l)
  unfolding candidates
  candidates-IsDueIn in_flight now ahead [] = tt
  candidates-IsDueIn in_flight now ahead (m ∷ ms) =
      let rest : All (IsDueIn in_flight now (ahead ++ (m ∷ ms)))
          (candidates in_flight now (ahead ++ (m ∷ [])) ms) =
        subst (λ w. All (IsDueIn in_flight now w) (candidates in_flight now (ahead ++ (m ∷ [])) ms))
          (append_assoc ahead (m ∷ []) ms)
          (candidates-IsDueIn in_flight now (ahead ++ (m ∷ [])) ms) in
      if_cases (All (IsDueIn in_flight now (ahead ++ (m ∷ ms)))) (is_due in_flight now ahead m)
        (λ due. (record { ahead = ahead; behind = ms; split = refl; due = due }, rest)) (λ _. rest)

  module _ (last_announce : Bytes → Option ℕ) where
    abbrev pub recency : OutboundMessage F → ℕ
    recency m = heard (last_announce m.recipient)

    -- The message is the first of those of the list that were heard latest.
    abbrev pub IsFirst : List (OutboundMessage F) → OutboundMessage F → Type 0
    IsFirst [] m = ⊥
    IsFirst (x ∷ l) m =
        ((x ≡ m) × All (λ y. recency y ≤ recency m) l) ⊎ ((recency x < recency m) × IsFirst l m)

    -- A later entry that is no better changes nothing.
    pass_over :
        (b x m : OutboundMessage F) (l : List (OutboundMessage F))
        → recency x ≤ recency b
        → IsFirst (b ∷ l) m
        → IsFirst (b ∷ x ∷ l) m
    pass_over b x m l le (inl (e, later)) =
        inl (e, (subst (λ y. recency x ≤ recency y) e le, later))
    pass_over b x m l le (inr (lt, f)) = inr (lt, inr (omega arith, f))

    -- A better entry takes the place.
    take_over :
        (b x m : OutboundMessage F) (l : List (OutboundMessage F))
        → recency b < recency x
        → IsFirst (x ∷ l) m
        → IsFirst (b ∷ x ∷ l) m
    take_over b x m l lt (inl (e, later)) =
        inr (subst (λ y. recency b < recency y) e lt, inl (e, later))
    take_over b x m l lt (inr (lt', f)) = inr (omega arith, inr (lt', f))

    IsFirst-All :
        (P : OutboundMessage F → Type 0) (l : List (OutboundMessage F)) (m : OutboundMessage F)
        → IsFirst l m
        → All P l
        → P m
    IsFirst-All P [] m bad a = absurd bad
    IsFirst-All P (x ∷ l) m (inl (e, _)) a = subst P e a.0
    IsFirst-All P (x ∷ l) m (inr (_, f)) a = IsFirst-All P l m f a.1

    module _ (in_flight : List Bytes) (now : ℕ) where
      -- What the loop ends with, started with a best entry.
      abbrev Ends : List (OutboundMessage F) → Option (OutboundMessage F) → Type 0
      Ends l o = (m : OutboundMessage F) × (o ≡ some m) × IsFirst l m

      pick_best-Ends :
          (ahead : List (OutboundMessage F)) (b : OutboundMessage F) (l : List (OutboundMessage F))
          → Ends
              (b ∷ candidates in_flight now ahead l)
              (pick_best in_flight now last_announce ahead (some b) l)
      unfolding candidates pick_best better
      pick_best-Ends ahead b [] = (b, refl, inl (refl, tt))
      pick_best-Ends ahead b (x ∷ l) =
          let after = ahead ++ (x ∷ []) in
          elim (Bool-cases (is_due in_flight now ahead x)) [
            | inr skip ↦ rw skip (pick_best-Ends after b l)
            | inl due ↦
                elim (Bool-cases
                  (is_better (last_announce x.recipient) (last_announce b.recipient))) [
                    | inl yes' ↦
                        let (m, e, f) = pick_best-Ends after x l in
                        rw (due, yes')
                          (
                            m,
                            e,
                            take_over b x m (candidates in_flight now after l)
                                (ltb→lt (recency b) (recency x) (
                                  sym (
                                    is_better-heard (last_announce x.recipient)
                                      (last_announce b.recipient))
                                  ∙ yes'))
                                f,
                          )
                    | inr no' ↦
                        let (m, e, f) = pick_best-Ends after b l in
                        rw (due, no')
                          (
                            m,
                            e,
                            pass_over b x m (candidates in_flight now after l)
                                (ltb→ge (recency b) (recency x) (
                                  sym (
                                    is_better-heard (last_announce x.recipient)
                                      (last_announce b.recipient))
                                  ∙ no'))
                                f,
                          )
                  ]
          ]

      abbrev Chosen : List (OutboundMessage F) → Option (OutboundMessage F) → Type 0
      Chosen l o = ((o ≡ none) × (l ≡ [])) ⊎ Ends l o

      pick_best-Chosen :
          (ahead l : List (OutboundMessage F))
          → Chosen
              (candidates in_flight now ahead l)
              (pick_best in_flight now last_announce ahead none l)
      unfolding candidates pick_best better
      pick_best-Chosen ahead [] = inl (refl, refl)
      pick_best-Chosen ahead (x ∷ l) =
          let after = ahead ++ (x ∷ []) in
          elim (Bool-cases (is_due in_flight now ahead x)) [
            | inr skip ↦ rw skip (pick_best-Chosen after l)
            | inl due ↦ rw due (inr (pick_best-Ends after x l))
          ]

    -- The message that is taken is due where it stands in the queue that reaping left, and is the first of
    -- the due ones whose recipients were heard latest, one never heard counting as the oldest; none is taken
    -- only if none is due.
    pub pick_due_fair :
        (q : OutboundQueue F) (now : ℕ)
        → let left = reap q now in
          let due = candidates left.in_flight now [] left.pending in
          (((pick_due q now last_announce).1 ≡ none) × (due ≡ []))
          ⊎ ((m : OutboundMessage F) × ((pick_due q now last_announce).1 ≡ some m)
              × IsFirst due m
              × IsDueIn left.in_flight now left.pending m)
    unfolding pick_due
    pick_due_fair q now =
        let left = reap q now in
        elim (pick_best-Chosen left.in_flight now [] left.pending) [
          | inl h ↦ inl h
          | inr (m, e, f) ↦ inr (
            m,
            e,
            f,
            IsFirst-All (IsDueIn left.in_flight now left.pending)
                (candidates left.in_flight now [] left.pending) m f
                (candidates-IsDueIn left.in_flight now [] left.pending),
          )
        ]
