-- ===== src/Commands/Nickname.antt =====
-- Nicknames: `nickRE` and `SanitizeNickname` of internal/commands/handlers.go.
-- The loop of the source goes over runes and writes one `_` for a run of them that are not allowed;
-- going over bytes gives the same text, since no byte of a longer rune is allowed.
use mathlib.Core.List.{reverse, reverse-cons}
use reticulum_group_chat.Base.{
  ℕ, zero, suc, ◌≡◌, ◌≤◌, refl, ◌⊎◌, inl, inr, Bool, true, false, ◌&&◌, ◌||◌, not, [], ◌∷◌, ◌++◌,
  arith, ltb, leb, nat_beq, if◌then◌else◌, length, take, every, length-take-le,
}
use reticulum_group_chat.Base.Text.{Bytes, trim, trim_left}

is_alnum_or_dash : ℕ → Bool
is_alnum_or_dash c =
    (leb b'A' c && leb c b'Z')
    || ((leb b'a' c && leb c b'z') || ((leb b'0' c && leb c b'9') || nat_beq c b'-'))

-- [A-Za-z0-9_-]
unfoldable pub is_nick_byte : ℕ → Bool
unfolding is_alnum_or_dash
is_nick_byte c = is_alnum_or_dash c || nat_beq c b'_'

-- nickRE.MatchString
unfoldable pub is_nickname : Bytes → Bool
unfolding is_nick_byte
is_nickname s = leb 1 (length s) && (leb (length s) 24 && every is_nick_byte s)

-- One round of the loop: what is written so far, and `prevUnderscore`. The cases of the `switch`
-- for white space and for any other rune have one body.
sanitize_round : Bytes → Bool → ℕ → Bytes × Bool
unfolding is_alnum_or_dash
sanitize_round out prev c =
    if is_alnum_or_dash c
    then (out ++ c ∷ [], false)
    else if not prev && ltb 0 (length out)
    then (out ++ b'_' ∷ [], true)
    else (out, prev)

sanitize_from : Bytes → Bool → Bytes → Bytes
unfolding sanitize_round
sanitize_from out prev [] = out
sanitize_from out prev (c ∷ s) =
    let (out', prev') = sanitize_round out prev c in
    let rest = sanitize_from out' prev' s in if leb 24 (length out') then out' else rest

is_edge : ℕ → Bool
is_edge c = nat_beq c b'_' || nat_beq c b'-'

unfoldable pub sanitize_nickname : Bytes → Bytes
unfolding sanitize_from is_edge
sanitize_nickname raw =
    let out = trim is_edge (sanitize_from [] false raw) in
    if ltb 24 (length out) then take 24 out else out

-- `every` along the functions that the sanitizer is made of.
module _ (p : ℕ → Bool) where
  every-append : (xs ys : Bytes) → every p xs ≡ true → every p ys ≡ true → every p (xs ++ ys) ≡ true
  unfolding every
  every-append [] ys h k = k
  every-append (x ∷ xs) ys h k = ground (arith, every-append xs ys)

  every-reverse : (xs : Bytes) → every p xs ≡ true → every p (reverse xs) ≡ true
  unfolding every
  every-reverse [] h = refl
  every-reverse (x ∷ xs) h =
      rw (reverse-cons x xs)
        (every-append (reverse xs) (x ∷ []) (every-reverse xs (ground arith)) (ground arith))

  every-trim_left :
      (t : ℕ → Bool) (xs : Bytes) → every p xs ≡ true → every p (trim_left t xs) ≡ true
  unfolding every trim_left
  every-trim_left t [] h = refl
  every-trim_left t (x ∷ xs) h = ground (arith, every-trim_left t xs)

  every-trim : (t : ℕ → Bool) (xs : Bytes) → every p xs ≡ true → every p (trim t xs) ≡ true
  unfolding trim
  every-trim t xs h =
      every-reverse _ (every-trim_left t _ (every-reverse _ (every-trim_left t xs h)))

  every-take : (n : ℕ) (xs : Bytes) → every p xs ≡ true → every p (take n xs) ≡ true
  unfolding every take
  every-take zero xs h = refl
  every-take (suc n) [] h = refl
  every-take (suc n) (x ∷ xs) h = ground (arith, every-take n xs)

sanitize_round-nick :
    (out : Bytes) (prev : Bool) (c : ℕ)
    → every is_nick_byte out ≡ true
    → every is_nick_byte (sanitize_round out prev c).0 ≡ true
unfolding sanitize_round every is_nick_byte
sanitize_round-nick out prev c h =
    ground
      (arith, every-append is_nick_byte out (c ∷ []), every-append is_nick_byte out (b'_' ∷ []))

sanitize_from-nick :
    (out : Bytes) (prev : Bool) (s : Bytes)
    → every is_nick_byte out ≡ true
    → every is_nick_byte (sanitize_from out prev s) ≡ true
unfolding sanitize_from
sanitize_from-nick out prev [] h = h
sanitize_from-nick out prev (c ∷ s) h = ground (
  arith,
  sanitize_round-nick out prev c h,
  sanitize_from-nick (sanitize_round out prev c).0 (sanitize_round out prev c).1 s,
)

short_nickname :
    (s : Bytes) → every is_nick_byte s ≡ true → length s ≤ 24 → (s ≡ []) ⊎ (is_nickname s ≡ true)
unfolding is_nickname
short_nickname [] h n = inl refl
short_nickname (c ∷ s) h n = inr (ground arith)

sanitize_nickname-nick : (raw : Bytes) → every is_nick_byte (sanitize_nickname raw) ≡ true
unfolding sanitize_nickname
sanitize_nickname-nick raw =
    let out = trim is_edge (sanitize_from [] false raw) in
    let h =
      every-trim is_nick_byte is_edge _ (sanitize_from-nick [] false raw (unfold every in refl)) in
    ground (arith, h, every-take is_nick_byte 24 out h)

length-sanitize_nickname : (raw : Bytes) → length (sanitize_nickname raw) ≤ 24
unfolding sanitize_nickname
length-sanitize_nickname raw =
    ground (arith, length-take-le 24 (trim is_edge (sanitize_from [] false raw)))

-- A display name, whatever its bytes, becomes a nickname that /nick would accept, or nothing.
pub sanitize_nickname_valid :
    (raw : Bytes) → (sanitize_nickname raw ≡ []) ⊎ (is_nickname (sanitize_nickname raw) ≡ true)
sanitize_nickname_valid raw =
    short_nickname (sanitize_nickname raw) (sanitize_nickname-nick raw)
      (length-sanitize_nickname raw)
