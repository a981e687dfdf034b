-- ===== src/Service/Forward.antt =====
-- internal/service/forward.go: the fan-out of one message to the members.
-- A field map is a value of a type that is left open, none where it is nil; a rewrite gives none where
-- it skips the recipient. The result is the messages handed to the queue, in the order of the members.
-- `hex.DecodeString` with a result of 16 bytes accepts what `must_hex_bytes` accepts.
use reticulum_group_chat.Base.{
  ◌≤◌, length-append, ◌≡◌, refl, sym, ◌∙◌, ap, subst, true, false, not, ◌&&◌, Option, none, some,
  List, [], ◌∷◌, if◌then◌else◌, ◌==◌, if_cases, option_cases, Bool-cases, inl, inr, All, is_some,
  ◌++◌, arith, beq→eq, beq_refl, length,
}
use mathlib.Core.List.{Mem, mem-cons_self, mem-append_left, mem-append_right}
use reticulum_group_chat.Base.Maps.{
  Map, lookup, keys, select, Distinct, lookup-select, contains, contains-keys,
}
use reticulum_group_chat.Base.Text.{Bytes, bytes_eq}
use reticulum_group_chat.Hex.{must_hex_bytes}
use reticulum_group_chat.Roster.Model.{User, Roster}
use reticulum_group_chat.Roster.Members.{active_hashes}
use reticulum_group_chat.Roster.Settings.{is_text_only}
use reticulum_group_chat.Roster.Laws.{WellFormed}

All-append {ℓ κ} :
    {A : Type ℓ} (P : A → Type κ) (xs ys : List A) → All P xs → All P ys → All P (xs ++ ys)
All-append P [] ys h k = k
All-append P (x ∷ xs) ys h k = (h.0, All-append P xs ys h.1 k)

-- The hashes that are not paused, among entries that are found.
active_members :
    (m all : Map Bytes User)
    → Distinct m
    → ((h : Bytes) (u : User) → lookup h m ≡ some u → lookup h all ≡ some u)
    → All
        (λ h. (u : User) × (lookup h all ≡ some u) × (u.paused ≡ false))
        (keys (select (λ _ u. not u.paused) m))
unfolding lookup select keys
active_members [] all d f = tt
active_members ((h, u) ∷ m) all d f = elim (Bool-cases u.paused) [
  | inl p ↦ rw p (active_members m all d.1 (λ j v e. f j v (later j v e)))
  | inr p ↦ rw p (
    (u, f h u (rw (beq_refl h) refl), p),
    active_members m all d.1 (λ j v e. f j v (later j v e)),
  )
]
  where
    later :
        (j : Bytes) (v : User)
        → lookup j m ≡ some v
        → (if h == j then some u else lookup j m) ≡ some v
    later j v e = elim (Bool-cases (h == j)) [
      | inl same ↦
          let there : lookup h m ≡ some v = rw (beq→eq h j same) e in
          let none_there = d.0 in ground arith
      | inr other ↦ rw other e
    ]

module _ (F : Type 0) where
  pub record Message : Type 0 where
    pub recipient : Bytes
    pub body : Bytes
    pub fields : Option F

  -- opts.rewrite
  abbrev pub Rewrite : Type 0
  Rewrite = Option (Bytes → Option F → Option (Option F))

  -- The fields for `h` after the rewrite; none skips the recipient.
  abbrev pub rewritten : Rewrite → Bytes → Option F → Option (Option F)
  rewritten none h fields = some fields
  rewritten (some f) h fields = f h fields

  -- A text-only member gets the text alone, and nothing if there is none.
  unfoldable pub addressed : Roster → Bytes → Bytes → Bytes → Option F → List Message
  addressed r h raw body fields =
      if is_text_only r h
      then if body == [] then [] else (record { recipient = raw; body = body; fields = none }) ∷ []
      else (record { recipient = raw; body = body; fields = fields }) ∷ []

  -- One turn of the loop.
  unfoldable pub forward_one : Roster → Bytes → Bytes → Option F → Rewrite → Bytes → List Message
  unfolding addressed
  forward_one r sender_hex body fields rewrite h =
      if h == sender_hex then [] else elim (must_hex_bytes h) [
        | none ↦ []
        | some raw ↦ elim (rewritten rewrite h fields) [
          | none ↦ []
          | some fields' ↦ addressed r h raw body fields'
        ]
      ]

  unfoldable pub forward_each :
      Roster → Bytes → Bytes → Option F → Rewrite → List Bytes → List Message
  unfolding forward_one
  forward_each r sender_hex body fields rewrite [] = []
  forward_each r sender_hex body fields rewrite (h ∷ hs) =
      forward_one r sender_hex body fields rewrite h
      ++ forward_each r sender_hex body fields rewrite hs

  unfoldable pub forward_to_roster : Roster → Bytes → Bytes → Option F → Rewrite → List Message
  unfolding forward_each
  forward_to_roster r sender_hex body fields rewrite =
      forward_each r sender_hex body fields rewrite (active_hashes r)

  -- The message is for a member other than the sender who is not paused, with the body as it is and,
  -- for a text-only member, no fields.
  pub record IsDue (r : Roster) (sender_hex body : Bytes) (m : Message) : Type 0 where
    pub hash : Bytes
    pub user : User
    pub there : lookup hash r.users ≡ some user
    pub active : user.paused ≡ false
    pub other : (hash == sender_hex) ≡ false
    pub address : must_hex_bytes hash ≡ some m.recipient
    pub same_body : m.body ≡ body
    pub stripped : is_text_only r hash ≡ true → (is_some m.fields ≡ false) × ((body == []) ≡ false)

  module _ (r : Roster) (sender_hex body : Bytes) (fields : Option F) (rewrite : Rewrite) where
    addressed-IsDue :
        (h raw : Bytes) (u : User) (fields' : Option F)
        → lookup h r.users ≡ some u
        → u.paused ≡ false
        → (h == sender_hex) ≡ false
        → must_hex_bytes h ≡ some raw
        → All (IsDue r sender_hex body) (addressed r h raw body fields')
    unfolding addressed
    addressed-IsDue h raw u fields' e a o d = elim (Bool-cases (is_text_only r h)) [
      | inl t ↦ rw t (
          if_cases (All (IsDue r sender_hex body)) (body == []) (λ _. tt)
            λ ne. (
              record {
                hash = h;
                user = u;
                there = e;
                active = a;
                other = o;
                address = d;
                same_body = refl;
                stripped = λ _. (refl, ne);
              },
              tt,
            ))
      | inr t ↦ rw t (
        record {
          hash = h;
          user = u;
          there = e;
          active = a;
          other = o;
          address = d;
          same_body = refl;
          stripped = λ t'. absurd (true_is_false (sym t' ∙ t));
        },
        tt,
      )
    ]
      where
        true_is_false : true ≡ false → ⊥
        true_is_false bad = ground arith

    forward_one-IsDue :
        (h : Bytes) (u : User)
        → lookup h r.users ≡ some u
        → u.paused ≡ false
        → All (IsDue r sender_hex body) (forward_one r sender_hex body fields rewrite h)
    unfolding forward_one
    forward_one-IsDue h u e a =
        if_cases (All (IsDue r sender_hex body)) (h == sender_hex) (λ _. tt)
          λ o.
            option_cases (All (IsDue r sender_hex body)) (must_hex_bytes h) (λ _. tt)
              λ raw d.
                option_cases (All (IsDue r sender_hex body)) (rewritten rewrite h fields) (λ _. tt)
                  λ fields' _. addressed-IsDue h raw u fields' e a o d

    forward_each-IsDue :
        (hs : List Bytes)
        → All (λ h. (u : User) × (lookup h r.users ≡ some u) × (u.paused ≡ false)) hs
        → All (IsDue r sender_hex body) (forward_each r sender_hex body fields rewrite hs)
    unfolding forward_each
    forward_each-IsDue [] a = tt
    forward_each-IsDue (h ∷ hs) ((u, e, p), a) =
        All-append (IsDue r sender_hex body) (forward_one r sender_hex body fields rewrite h)
          (forward_each r sender_hex body fields rewrite hs) (forward_one-IsDue h u e p)
          (forward_each-IsDue hs a)

    -- From a well-formed roster, each message of a fan-out is due to a member who is not paused and not
    -- the sender, at that member's address, with the body as it is; a text-only member gets no fields, and
    -- nothing without a body.
    pub forward_to_roster-IsDue :
        WellFormed r
        → All (IsDue r sender_hex body) (forward_to_roster r sender_hex body fields rewrite)
    unfolding forward_to_roster active_hashes
    forward_to_roster-IsDue w =
        forward_each-IsDue (active_hashes r)
          (active_members r.users r.users w.distinct (λ h u e. e))

    length-forward_one-le :
        (h : Bytes) → length (forward_one r sender_hex body fields rewrite h) ≤ 1
    unfolding forward_one addressed
    length-forward_one-le h =
        if_cases {A = List Message} (λ ms. length ms ≤ 1) (h == sender_hex) (λ _. omega arith)
          λ _.
            option_cases {B = List Message} (λ ms. length ms ≤ 1) (must_hex_bytes h)
              (λ _. omega arith)
              λ raw _.
                option_cases {B = List Message} (λ ms. length ms ≤ 1) (rewritten rewrite h fields)
                  (λ _. omega arith)
                  λ fields' _.
                    if_cases {A = List Message} (λ ms. length ms ≤ 1) (is_text_only r h)
                      (λ _.
                        if_cases {A = List Message} (λ ms. length ms ≤ 1) (body == [])
                          (λ _. omega arith) (λ _. omega arith))
                      (λ _. omega arith)

    length-forward_each-le :
        (hs : List Bytes) → length (forward_each r sender_hex body fields rewrite hs) ≤ length hs
    unfolding forward_each
    length-forward_each-le [] = omega arith
    length-forward_each-le (h ∷ hs) = omega (
      arith,
      length-append (forward_one r sender_hex body fields rewrite h)
          (forward_each r sender_hex body fields rewrite hs),
      length-forward_one-le h,
      length-forward_each-le hs,
    )

    module _ (h raw : Bytes) (fields' : Option F) where
      -- What the loop sends to `h`: no fields to a text-only member.
      abbrev pub sent : Message
      sent = record {
        recipient = raw;
        body = body;
        fields = if is_text_only r h then none else fields';
      }

      forward_one-sent :
          (h == sender_hex) ≡ false
          → must_hex_bytes h ≡ some raw
          → rewritten rewrite h fields ≡ some fields'
          → (is_text_only r h && body == []) ≡ false
          → forward_one r sender_hex body fields rewrite h ≡ sent ∷ []
      unfolding forward_one addressed
      forward_one-sent o d w t = elim (Bool-cases (is_text_only r h)) [
        | inl only ↦
            let words : (body == []) ≡ false = ground arith in
            rw (o, d, w, only, words, forward_one, addressed) refl
        | inr all' ↦ rw (o, d, w, all', forward_one, addressed) refl
      ]

      sent-forward_each :
          (hs : List Bytes)
          → contains hs h ≡ true
          → forward_one r sender_hex body fields rewrite h ≡ sent ∷ []
          → Mem sent (forward_each r sender_hex body fields rewrite hs)
      unfolding forward_each contains
      sent-forward_each [] m e = ground arith
      sent-forward_each (j ∷ hs) m e = elim (Bool-cases (j == h)) [
        | inl same ↦ mem-append_left (forward_each r sender_hex body fields rewrite hs) (
            subst (Mem sent)
              (sym (ap (forward_one r sender_hex body fields rewrite) (beq→eq j h same) ∙ e))
              mem-cons_self)
        | inr other ↦
            mem-append_right (forward_one r sender_hex body fields rewrite j)
              (sent-forward_each hs (ground arith) e)
      ]

      -- From a well-formed roster, each member with a valid address who is not paused and not the sender is sent
      -- the body, with the fields that the rewrite gives for that member, or without fields where the member is
      -- on text only and there is a body; the fan-out has no more messages than there are members who are not
      -- paused.
      pub forward_to_roster_complete :
          (u : User)
          → WellFormed r
          → lookup h r.users ≡ some u
          → u.paused ≡ false
          → (h == sender_hex) ≡ false
          → must_hex_bytes h ≡ some raw
          → rewritten rewrite h fields ≡ some fields'
          → (is_text_only r h && body == []) ≡ false
          → Mem sent (forward_to_roster r sender_hex body fields rewrite)
            × (length (forward_to_roster r sender_hex body fields rewrite)
                ≤ length (active_hashes r))
      unfolding forward_to_roster active_hashes
      forward_to_roster_complete u w e a o d f t = (
        sent-forward_each (active_hashes r) (listed w.distinct) (forward_one-sent o d f t),
        length-forward_each-le (active_hashes r),
      )
        where
          listed : Distinct r.users → contains (active_hashes r) h ≡ true
          listed distinct =
              contains-keys h (select (λ _ v. not v.paused) r.users)
              ∙ (rw (lookup-select (λ _ v. not v.paused) h r.users distinct, e, a) refl)
