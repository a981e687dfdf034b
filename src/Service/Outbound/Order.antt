-- ===== src/Service/Outbound/Order.antt =====
-- Proofs on internal/service/outbound.go: the entries stand in the order of their numbers, and how
-- replacing and removing one changes a sum over them.
use reticulum_group_chat.Base.{
  ℕ, ◌+◌, ◌≤◌, ◌<◌, ◌≡◌, refl, ap, subst, ◌∙◌, Bool, true, false, List, [], ◌∷◌, ◌++◌, nat_beq,
  nat_beq_iff, keep, arith, if_cases, inl, inr, ◌⊎◌, All,
}
use reticulum_group_chat.Service.Outbound.Queue.{OutboundMessage}
use reticulum_group_chat.Service.Outbound.Attempt.{replace_message, remove_message}

module _ {F : Type 0} where
  abbrev pub IsOrdered : List (OutboundMessage F) → Type 0
  IsOrdered [] = Unit
  IsOrdered (x ∷ l) = All (λ y. x.ref < y.ref) l × IsOrdered l

  abbrev pub Contains : List (OutboundMessage F) → OutboundMessage F → Type 0
  Contains [] m = ⊥
  Contains (x ∷ l) m = (x ≡ m) ⊎ Contains l m

  pub Contains-append :
      (ahead behind : List (OutboundMessage F)) (m : OutboundMessage F)
      → Contains (ahead ++ (m ∷ behind)) m
  Contains-append [] behind m = inl refl
  Contains-append (x ∷ ahead) behind m = inr (Contains-append ahead behind m)

  pub All-Contains :
      (P : OutboundMessage F → Type 0) (l : List (OutboundMessage F)) (m : OutboundMessage F)
      → All P l
      → Contains l m
      → P m
  All-Contains P [] m a c = absurd c
  All-Contains P (x ∷ l) m a (inl e) = subst P e a.0
  All-Contains P (x ∷ l) m a (inr c) = All-Contains P l m a.1 c

  -- The sum of the weights.
  abbrev pub total : (OutboundMessage F → ℕ) → List (OutboundMessage F) → ℕ
  total w [] = 0
  total w (m ∷ l) = w m + total w l

  pub total-keep-le :
      (w : OutboundMessage F → ℕ) (p : OutboundMessage F → Bool) (l : List (OutboundMessage F))
      → total w (keep p l) ≤ total w l
  unfolding keep
  total-keep-le w p [] = omega arith
  total-keep-le w p (m ∷ l) = ground (arith, total-keep-le w p l)

  pub All-keep :
      (P : OutboundMessage F → Type 0) (p : OutboundMessage F → Bool) (l : List (OutboundMessage F))
      → All P l
      → All P (keep p l)
  unfolding keep
  All-keep P p [] a = tt
  All-keep P p (m ∷ l) a =
      if_cases {A = List (OutboundMessage F)} (All P) (p m) (λ _. (a.0, All-keep P p l a.1))
        (λ _. All-keep P p l a.1)

  pub keep-IsOrdered :
      (p : OutboundMessage F → Bool) (l : List (OutboundMessage F))
      → IsOrdered l
      → IsOrdered (keep p l)
  unfolding keep
  keep-IsOrdered p [] o = tt
  keep-IsOrdered p (m ∷ l) o =
      if_cases {A = List (OutboundMessage F)} IsOrdered (p m)
        (λ _. (All-keep (λ y. m.ref < y.ref) p l o.0, keep-IsOrdered p l o.1))
        (λ _. keep-IsOrdered p l o.1)

  pub All-replace_message :
      (P : ℕ → Type 0) (m : OutboundMessage F) (l : List (OutboundMessage F))
      → All (λ y. P y.ref) l
      → All (λ y. P y.ref) (replace_message m l)
  unfolding replace_message
  All-replace_message P m [] a = tt
  All-replace_message P m (x ∷ l) a =
      if_cases {A = List (OutboundMessage F)} (All (λ y. P y.ref)) (nat_beq x.ref m.ref)
        (λ same. (subst P ((nat_beq_iff x.ref m.ref).0 same) a.0, a.1))
        (λ _. (a.0, All-replace_message P m l a.1))

  pub put-All :
      (P : OutboundMessage F → Type 0) (m : OutboundMessage F) (l : List (OutboundMessage F))
      → P m
      → All P l
      → All P (replace_message m l)
  unfolding replace_message
  put-All P m [] h a = tt
  put-All P m (x ∷ l) h a =
      if_cases {A = List (OutboundMessage F)} (All P) (nat_beq x.ref m.ref) (λ _. (h, a.1))
        (λ _. (a.0, put-All P m l h a.1))

  pub replace_message-IsOrdered :
      (m : OutboundMessage F) (l : List (OutboundMessage F))
      → IsOrdered l
      → IsOrdered (replace_message m l)
  unfolding replace_message
  replace_message-IsOrdered m [] o = tt
  replace_message-IsOrdered m (x ∷ l) o =
      if_cases {A = List (OutboundMessage F)} IsOrdered (nat_beq x.ref m.ref)
        (λ same. (subst (λ r. All (λ y. r < y.ref) l) ((nat_beq_iff x.ref m.ref).0 same) o.0, o.1))
        (λ _. (All-replace_message (λ r. x.ref < r) m l o.0, replace_message-IsOrdered m l o.1))

  pub All-remove_message :
      (P : OutboundMessage F → Type 0) (ref : ℕ) (l : List (OutboundMessage F))
      → All P l
      → All P (remove_message ref l)
  unfolding remove_message
  All-remove_message P ref [] a = tt
  All-remove_message P ref (x ∷ l) a =
      if_cases {A = List (OutboundMessage F)} (All P) (nat_beq x.ref ref) (λ _. a.1)
        (λ _. (a.0, All-remove_message P ref l a.1))

  pub remove_message-IsOrdered :
      (ref : ℕ) (l : List (OutboundMessage F)) → IsOrdered l → IsOrdered (remove_message ref l)
  unfolding remove_message
  remove_message-IsOrdered ref [] o = tt
  remove_message-IsOrdered ref (x ∷ l) o =
      if_cases {A = List (OutboundMessage F)} IsOrdered (nat_beq x.ref ref) (λ _. o.1)
        (λ _.
          (All-remove_message (λ y. x.ref < y.ref) ref l o.0, remove_message-IsOrdered ref l o.1))

  -- An entry before `x` has another number.
  not_yet :
      (y x : OutboundMessage F) (ref : ℕ) (l : List (OutboundMessage F))
      → All (λ z. y.ref < z.ref) l
      → Contains l x
      → x.ref ≡ ref
      → nat_beq y.ref ref ≡ false
  not_yet y x ref l a c e =
      let lt = All-Contains (λ z. y.ref < z.ref) l x a c in ground (arith, nat_beq_iff y.ref ref)

  -- A message in the place of the entry of its number.
  pub replaced :
      (m x : OutboundMessage F) (l : List (OutboundMessage F))
      → IsOrdered l
      → Contains l x
      → x.ref ≡ m.ref
      → Contains (replace_message m l) m
        × ((w : OutboundMessage F → ℕ) → total w (replace_message m l) + w x ≡ total w l + w m)
  unfolding replace_message
  replaced m x [] o c e = absurd c
  replaced m x (y ∷ l) o (inl same) e =
      let here : nat_beq y.ref m.ref ≡ true =
        (nat_beq_iff y.ref m.ref).1 (ap (λ z. z.ref) same ∙ e) in
      rw here (
        inl refl,
        λ w. subst (λ z. w m + total w l + w z ≡ w y + total w l + w m) same (omega arith),
      )
  replaced m x (y ∷ l) o (inr c) e =
      let rest = replaced m x l o.1 c e in
      rw (not_yet y x m.ref l o.0 c e) (inr rest.0, λ w. omega (arith, rest.1 w))

  pub removed :
      (x : OutboundMessage F) (l : List (OutboundMessage F)) (w : OutboundMessage F → ℕ)
      → IsOrdered l
      → Contains l x
      → total w (remove_message x.ref l) + w x ≡ total w l
  unfolding remove_message
  removed x [] w o c = absurd c
  removed x (y ∷ l) w o (inl same) =
      let here : nat_beq y.ref x.ref ≡ true = (nat_beq_iff y.ref x.ref).1 (ap (λ z. z.ref) same) in
      rw here (subst (λ z. total w l + w z ≡ w y + total w l) same (omega arith))
  removed x (y ∷ l) w o (inr c) =
      rw (not_yet y x x.ref l o.0 c refl) (omega (arith, removed x l w o.1 c))
