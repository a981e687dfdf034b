-- ===== src/Commands/Info/Packet.antt =====
-- Proofs on the length of the replies of internal/commands/info.go.
use reticulum_group_chat.Base.{
  ℕ, ◌+◌, ◌≤◌, ◌≡◌, refl, sym, subst, Bool, true, false, not, Option, none, some, [], ◌∷◌, ◌++◌,
  ltb, length, length-append, if_cases, option_cases, if◌then◌else◌, ◌==◌, arith, Bool-cases, inl,
  inr, nat_beq, ltb→ge, ◌⊎◌,
}
use reticulum_group_chat.Base.Text.{Bytes, bytes_eq, bytes_beq, text, trim_space}
use reticulum_group_chat.Base.Decimal.{decimal, length-decimal_below_ten}
use reticulum_group_chat.Sanitize.{scrub_control_bytes, length-scrub_control_bytes}
use reticulum_group_chat.GroupInfo.Truncate.{truncate_text_of_fits}
use reticulum_group_chat.GroupInfo.Store.{
  Store, Error, SaveFile, io, pins_full, set_info, persist, pin_count, max_info_bytes,
}
use reticulum_group_chat.Commands.Model.{Env, Chat, Caller, Config, is_admin_role}
use reticulum_group_chat.Commands.Info.{
  Reply, info_text, description_set, render_info, handle_info, handle_set_info, longest_info,
  description_part, tail_part, stranger, member, larger, answer, clear_info, store_info, cleared,
  couldnt_clear, no_room, over_packet,
}

length-decimal-pins : (n : ℕ) → n ≤ 10 → length (decimal n) ≤ 2
unfolding decimal
length-decimal-pins n h = elim (Bool-cases (nat_beq n 10)) [
  | inl e ↦
      let ten : n ≡ 10 = ground arith in subst (λ i. length (decimal i) ≤ 2) (sym ten) (omega arith)
  | inr e ↦ let small : n ≤ 9 = ground arith in omega (arith, length-decimal_below_ten n small)
]

length-decimal-ten : length (decimal 10) ≡ 2
unfolding decimal
length-decimal-ten = refl

length-stranger : length stranger.hash ≡ 32
unfolding text
length-stranger = refl

-- For a caller, the tail is no longer than the one that is measured.
length-tail-le :
    (cfg : Config) (c : Caller) (n : ℕ)
    → length c.hash ≡ 32
    → n ≤ 10
    → (length (tail_part cfg c n) ≤ length (tail_part cfg stranger 10))
      ⊎ (length (tail_part cfg c n) ≤ length (tail_part cfg member 10))
unfolding tail_part
length-tail-le cfg c n h le =
    if_cases {A = Bytes}
      (λ t.
        (length t ≤ length (tail_part cfg stranger 10))
        ⊎ (length t ≤ length (tail_part cfg member 10)))
      c.member (λ _. inr (pointer (ltb 0 n))) (λ _. inl (invitation cfg.locked))
  where
    pointer :
        (b : Bool)
        → length (if b then b'\n' ∷ decimal n ++ text " pinned — /pins" else [])
          ≤ length (tail_part cfg member 10)
    pointer true = omega (
      arith,
      length-append (decimal n) (text " pinned — /pins"),
      length-append (decimal 10) (text " pinned — /pins"),
      length-decimal-pins n le,
      length-decimal-ten,
    )
    pointer false = omega arith

    invitation :
        (b : Bool)
        → length (
            if b
            then text "\nInvite-only. Give an admin your address to be added:\n" ++ c.hash
            else text "\n/join to take part, /? for help.")
          ≤ length (
              if b
              then text "\nInvite-only. Give an admin your address to be added:\n" ++ stranger.hash
              else text "\n/join to take part, /? for help.")
    invitation true = omega (
      arith,
      length-append (text "\nInvite-only. Give an admin your address to be added:\n") c.hash,
      length-append (text "\nInvite-only. Give an admin your address to be added:\n") stranger.hash,
      length-stranger,
      h,
    )
    invitation false = omega arith

length-render_info :
    (cfg : Config) (c : Caller) (words : Bytes) (n : ℕ)
    → (words == []) ≡ false
    → length (render_info cfg c words n)
      ≡ length cfg.display_name + (1 + length words + length (tail_part cfg c n))
unfolding render_info description_part
length-render_info cfg c words n ne = rw ne (
    omega (
      arith,
      length-append cfg.display_name ((b'\n' ∷ words) ++ tail_part cfg c n),
      length-append (b'\n' ∷ words) (tail_part cfg c n),
    ))

larger-left : (a b : ℕ) → a ≤ larger a b
unfolding larger
larger-left a b = ground arith

larger-right : (a b : ℕ) → b ≤ larger a b
unfolding larger
larger-right a b = ground arith

-- The reply with a description that is not empty is no longer than the longest that is measured.
length-render_info-le :
    (cfg : Config) (c : Caller) (words : Bytes) (n : ℕ)
    → (words == []) ≡ false
    → length c.hash ≡ 32
    → n ≤ 10
    → length (render_info cfg c words n) ≤ longest_info cfg words
unfolding longest_info
length-render_info-le cfg c words n ne h le =
    let one = length (render_info cfg stranger words 10) in
    let other = length (render_info cfg member words 10) in
    let size = length-render_info cfg c words n ne in
    let size_one = length-render_info cfg stranger words 10 ne in
    let size_other = length-render_info cfg member words 10 ne in
    let left = larger-left (larger 0 one) other in
    let mid = larger-right 0 one in
    let right = larger-right (larger 0 one) other in
    elim (length-tail-le cfg c n h le) [ inl t ↦ omega arith | inr t ↦ omega arith ]

-- What /info answers to `c'` fits one packet.
abbrev Fits : Env → Caller → Chat → Type 0
Fits env c' chat =
    (t : Bytes) × ((handle_info env chat c').1 ≡ info_text t)
    × (length t ≤ env.single_packet_reply_bytes)

stored-Fits :
    (env : Env) (chat : Chat) (c' : Caller) (s : Store)
    → chat.info ≡ some s
    → (s.info == []) ≡ false
    → length c'.hash ≡ 32
    → length s.pins ≤ 10
    → longest_info env.cfg s.info ≤ env.single_packet_reply_bytes
    → Fits env c' chat
unfolding handle_info pin_count
stored-Fits env chat c' s e ne h few fits = (
  render_info env.cfg c' s.info (length s.pins),
  rw e refl,
  omega (arith, length-render_info-le env.cfg c' s.info (length s.pins) ne h few),
)

nonempty : (s t : Bytes) → length t ≡ length s → (s == []) ≡ false → (t == []) ≡ false
unfolding bytes_beq
nonempty [] [] e f = f
nonempty (b ∷ s) [] e f = absurd (omega arith)
nonempty s (b ∷ t) e f = refl

answer-Fits :
    (env : Env) (chat : Chat) (c' : Caller) (x : Store × Option Error) (done : Reply)
    (f : Bytes → Reply)
    → (x.0.info == []) ≡ false
    → length c'.hash ≡ 32
    → length x.0.pins ≤ 10
    → longest_info env.cfg x.0.info ≤ env.single_packet_reply_bytes
    → Fits env c' (answer chat x done f).0
unfolding answer
answer-Fits env chat c' (s, none) done f ne h few fits = stored-Fits env _ c' s refl ne h few fits
answer-Fits env chat c' (s, some (io e)) done f ne h few fits =
    stored-Fits env _ c' s refl ne h few fits
answer-Fits env chat c' (s, some pins_full) done f ne h few fits =
    stored-Fits env _ c' s refl ne h few fits

-- A description that needs no cut is stored as it is, and the pins stay.
set_info_lem :
    (save : SaveFile) (s : Store) (clean : Bytes)
    → length clean ≤ max_info_bytes
    → ((set_info save s clean).0.info ≡ clean) × ((set_info save s clean).0.pins ≡ s.pins)
unfolding set_info persist
set_info_lem save s clean short =
    let e = truncate_text_of_fits clean max_info_bytes short in (ground arith, ground arith)

module _ (env : Env) (chat : Chat) (c' : Caller) (h : length c'.hash ≡ 32) (a b : ℕ) where
  -- If the reply is that a description is set, then /info fits.
  abbrev Answers : Chat × Reply → Type 0
  Answers x = x.1 ≡ description_set a b → Fits env c' x.0

  refused : (t : Bool) (n m : ℕ) → Answers (chat, (if t then no_room else over_packet n m))
  refused true n m e = cc
  refused false n m e = cc

  store_info-Answers :
      (s : Store) (clean : Bytes)
      → length s.pins ≤ 10
      → (clean == []) ≡ false
      → Answers (store_info env chat s clean)
  unfolding store_info
  store_info-Answers s clean few ne =
      if_cases {A = Chat × Reply} Answers (ltb max_info_bytes (length clean)) (λ _ e. cc)
        λ short.
          if_cases {A = Chat × Reply} Answers
            (ltb env.single_packet_reply_bytes (longest_info env.cfg clean)) (λ _. refused _ _ _)
            λ fits e.
              let (i, p) =
                set_info_lem env.save_info s clean (ltb→ge max_info_bytes (length clean) short) in
              answer-Fits env chat c' (set_info env.save_info s clean) _ _ (rw i ne) h (rw p few)
                (rw i (ltb→ge env.single_packet_reply_bytes (longest_info env.cfg clean) fits))

  clears : (x : Store × Option Error) → Answers (answer chat x cleared couldnt_clear)
  unfolding answer
  clears (s, none) e = cc
  clears (s, some (io x)) e = cc
  clears (s, some pins_full) e = cc

  clear_info-Answers : (s : Store) → Answers (clear_info env chat s)
  unfolding clear_info
  clear_info-Answers s =
      if_cases {A = Chat × Reply} Answers (s.info == []) (λ _ e. cc)
        (λ _. clears (set_info env.save_info s []))

  handle_set_info-Answers :
      (c : Caller) (words : Bytes)
      → ((s : Store) → chat.info ≡ some s → length s.pins ≤ 10)
      → Answers (handle_set_info env chat c words)
  unfolding handle_set_info
  handle_set_info-Answers c words few =
      if_cases {A = Chat × Reply} Answers (not (is_admin_role c.role)) (λ _ e. cc)
        λ _.
          option_cases {B = Chat × Reply} Answers chat.info (λ _ e. cc)
            λ s i.
              if_cases {A = Chat × Reply} Answers (trim_space words == [])
                (λ _. clear_info-Answers s)
                λ ne. store_info-Answers s (scrub_control_bytes (trim_space words)) (few s i) (
                  nonempty (trim_space words) (scrub_control_bytes (trim_space words))
                    (length-scrub_control_bytes (trim_space words)) ne)

-- When /setinfo replies that a description is set, and at most ten pins are held, then whoever asks
-- /info with the same configuration, a stranger, a member or an admin whose hash has its 32 digits, gets
-- a reply that fits one packet.
pub set_info_fits :
    (env : Env) (chat : Chat) (c c' : Caller) (words : Bytes) (s : Store) (size room : ℕ)
    → chat.info ≡ some s
    → length s.pins ≤ 10
    → length c'.hash ≡ 32
    → (handle_set_info env chat c words).1 ≡ description_set size room
    → (t : Bytes) × ((handle_info env (handle_set_info env chat c words).0 c').1 ≡ info_text t)
      × (length t ≤ env.single_packet_reply_bytes)
set_info_fits env chat c c' words s size room i few h e =
    handle_set_info-Answers env chat c' h size room c words (λ s' i'. ground arith) e
