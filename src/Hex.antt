-- ===== src/Hex.antt =====
-- Hashes as text: encoding/hex, and `mustHexBytes` of internal/commands/handlers.go.
use reticulum_group_chat.Base.{
  ℕ, ◌+◌, ◌-◌, ◌*◌, ◌/◌, ◌%◌, ◌<◌, ◌≡◌, refl, ◌&&◌, Option, none, some, [], ◌∷◌, subst,
  Option-cases, Bool-cases, nat_beq_iff, inl, inr, arith, length, ltb, leb, nat_beq, All,
  if◌then◌else◌,
}
use reticulum_group_chat.Base.Text.{Bytes, to_lower, lower}

-- One digit of hex.EncodeToString.
hex_digit : ℕ → ℕ
hex_digit n = if ltb n 10 then b'0' + n else b'a' + (n - 10)

-- hex.EncodeToString
unfoldable pub encode : Bytes → Bytes
unfolding hex_digit
encode [] = []
encode (b ∷ s) = hex_digit (b / 16) ∷ hex_digit (b % 16) ∷ encode s

-- `none` is the result -1.
unfoldable pub hex_nibble : ℕ → Option ℕ
hex_nibble c =
    if leb b'0' c && leb c b'9'
    then some (c - b'0')
    else if leb b'a' c && leb c b'f'
    then some (c - b'a' + 10)
    else if leb b'A' c && leb c b'F'
    then some (c - b'A' + 10)
    else none

abbrev join_nibbles : Option ℕ → Option ℕ → Option Bytes → Option Bytes
join_nibbles (some hi) (some lo) (some rest) = some ((hi * 16 + lo) ∷ rest)
join_nibbles _ _ _ = none

-- The loop of `mustHexBytes`, two digits a round.
unfoldable pub decode_pairs : Bytes → Option Bytes
unfolding hex_nibble
decode_pairs (h ∷ l ∷ s) = join_nibbles (hex_nibble h) (hex_nibble l) (decode_pairs s)
decode_pairs _ = some []

-- `none` is nil.
unfoldable pub must_hex_bytes : Bytes → Option Bytes
unfolding decode_pairs
must_hex_bytes h = if nat_beq (length h) 32 then decode_pairs h else none

abbrev pub IsByte : ℕ → Type 0
IsByte b = b < 256

pub length-encode : (s : Bytes) → length (encode s) ≡ 2 * length s
unfolding encode
length-encode [] = omega arith
length-encode (b ∷ s) = omega (arith, length-encode s)

hex_nibble-hex_digit : (n : ℕ) → n < 16 → hex_nibble (hex_digit n) ≡ some n
unfolding hex_nibble hex_digit
hex_nibble-hex_digit n h = ground arith

decode_pairs-encode : (s : Bytes) → All IsByte s → decode_pairs (encode s) ≡ some s
unfolding decode_pairs encode
decode_pairs-encode [] h = refl
decode_pairs-encode (b ∷ s) h =
    ground (
      arith,
      hex_nibble-hex_digit (b / 16),
      hex_nibble-hex_digit (b % 16),
      decode_pairs-encode s h.1,
    )

-- The text of a 16-byte hash decodes to that hash.
pub must_hex_bytes-encode :
    (s : Bytes) → length s ≡ 16 → All IsByte s → must_hex_bytes (encode s) ≡ some s
unfolding must_hex_bytes
must_hex_bytes-encode s n h =
    let e : length (encode s) ≡ 32 = omega (arith, length-encode s) in
    rw e (decode_pairs-encode s h)

hex_digit-hex_nibble :
    (c n : ℕ) → hex_nibble c ≡ some n → lower c ≡ c → (hex_digit n ≡ c) × (n < 16)
unfolding hex_nibble hex_digit lower
hex_digit-hex_nibble c n e l = ground arith

hex_digits-nibbles :
    (h t hi lo : ℕ)
    → hex_nibble h ≡ some hi
    → hex_nibble t ≡ some lo
    → lower h ≡ h
    → lower t ≡ t
    → (hex_digit ((hi * 16 + lo) / 16) ≡ h) × (hex_digit ((hi * 16 + lo) % 16) ≡ t)
hex_digits-nibbles h t hi lo e f l m =
    let (p, a) = hex_digit-hex_nibble h hi e l in
    let (q, b) = hex_digit-hex_nibble t lo f m in
    let up : (hi * 16 + lo) / 16 ≡ hi = omega arith in
    let down : (hi * 16 + lo) % 16 ≡ lo = omega arith in (rw up p, rw down q)

-- A lower-case text that decodes is the text of its bytes.
encode-decode_pairs :
    (s b : Bytes) (k : ℕ)
    → length s ≡ 2 * k
    → decode_pairs s ≡ some b
    → to_lower s ≡ s
    → (encode b ≡ s) × (length b ≡ k)
unfolding decode_pairs encode to_lower
encode-decode_pairs [] b k n e l =
    let empty : [] ≡ b = ground arith in
    subst (λ x. (encode x ≡ []) × (length x ≡ k)) empty (refl, omega arith)
encode-decode_pairs (h ∷ []) b k n e l = absurd (omega arith)
encode-decode_pairs (h ∷ t ∷ s) b k n e l = elim (Option-cases (hex_nibble h)) [
  | inl x ↦ cc (rw x at e)
  | inr (hi, x) ↦ elim (Option-cases (hex_nibble t)) [
    | inl y ↦ cc (rw (x, y) at e)
    | inr (lo, y) ↦ elim (Option-cases (decode_pairs s)) [
      | inl z ↦ cc (rw (x, y, z) at e)
      | inr (r, z) ↦
          let same : (hi * 16 + lo) ∷ r ≡ b = ground arith in
          let (p, q) = encode-decode_pairs s r (k - 1) (omega arith) z (ground arith) in
          let (u, v) = hex_digits-nibbles h t hi lo x y (ground arith) (ground arith) in
          subst (λ d. (encode d ≡ h ∷ t ∷ s) × (length d ≡ k)) same (cc (u, v, p), omega (arith, q))
    ]
  ]
]

-- What `mustHexBytes` makes of a lower-case hash is 16 bytes, whose text is that hash.
pub encode-must_hex_bytes :
    (h b : Bytes) → must_hex_bytes h ≡ some b → to_lower h ≡ h → (encode b ≡ h) × (length b ≡ 16)
unfolding must_hex_bytes
encode-must_hex_bytes h b e l = elim (Bool-cases (nat_beq (length h) 32)) [
  | inl n ↦ encode-decode_pairs h b 16 ((nat_beq_iff (length h) 32).0 n) (rw n at e) l
  | inr n ↦ cc (rw n at e)
]
