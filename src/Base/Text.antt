-- ===== src/Base/Text.antt =====
-- Go strings as the lists of their bytes, with the functions of Go's standard library that the
-- program applies to them. `to_lower`, `trim_space` and `fields` are those of `strings` on ASCII:
-- bytes from 0x80 on are neither letters nor white space here.
use Prim.Native.Nat.{ℕ, suc, ◌+◌, ◌/◌, ◌%◌}
use Prim.Native.Char.{code}
use Prim.Native.String.{String}
use mathlib.Core.Path.{◌≡◌, refl}
use mathlib.Core.Logic.{◌↔◌}
use mathlib.Core.Bool.{Bool, true, false, ◌&&◌, ◌||◌}
use mathlib.Core.List.{List, [], ◌∷◌, ◌++◌, reverse}
use native.Mathlib.Omega.{arith}
use reticulum_group_chat.Base.Tests.{Eq, ltb, leb, nat_beq, nat_beq_iff, if◌then◌else◌}
use reticulum_group_chat.Base.Lists.{length, drop}

abbrev pub Bytes : Type 0
Bytes = List ℕ

unfoldable pub bytes_beq : Bytes → Bytes → Bool
bytes_beq [] [] = true
bytes_beq (a ∷ s) (b ∷ t) = nat_beq a b && bytes_beq s t
bytes_beq _ _ = false

bytes_beq→eq : (s t : Bytes) → bytes_beq s t ≡ true → s ≡ t
unfolding bytes_beq
bytes_beq→eq [] [] h = refl
bytes_beq→eq (a ∷ s) (b ∷ t) h = ground (arith, bytes_beq→eq s t, nat_beq_iff a b)
bytes_beq→eq [] (b ∷ t) h = cc
bytes_beq→eq (a ∷ s) [] h = cc

bytes_beq_refl : (s : Bytes) → bytes_beq s s ≡ true
unfolding bytes_beq
bytes_beq_refl [] = refl
bytes_beq_refl (a ∷ s) = ground (arith, bytes_beq_refl s)

eq→bytes_beq : (s t : Bytes) → s ≡ t → bytes_beq s t ≡ true
eq→bytes_beq s t h = rw (← h) (bytes_beq_refl s)

pub bytes_beq_iff : (s t : Bytes) → (bytes_beq s t ≡ true) ↔ (s ≡ t)
bytes_beq_iff s t = (bytes_beq→eq s t, eq→bytes_beq s t)

instance abbrev pub bytes_eq : Eq Bytes
bytes_eq = record { beq = bytes_beq; beq_iff = bytes_beq_iff }

-- The UTF-8 bytes of one code point, and of a literal.
utf8 : ℕ → Bytes
utf8 c =
    if ltb c 0x80
    then c ∷ []
    else if ltb c 0x800
    then (0xc0 + c / 64) ∷ (0x80 + c % 64) ∷ []
    else if ltb c 0x1_0000
    then (0xe0 + c / 4096) ∷ (0x80 + c / 64 % 64) ∷ (0x80 + c % 64) ∷ []
    else (0xf0 + c / 262144) ∷ (0x80 + c / 4096 % 64) ∷ (0x80 + c / 64 % 64) ∷ (0x80 + c % 64) ∷ []

unfoldable pub text : String → Bytes
unfolding utf8
text String.[] = []
text (String.◌∷◌ c s) = utf8 (code c) ++ text s

-- strings.ToLower
unfoldable pub lower : ℕ → ℕ
lower c = if leb b'A' c && leb c b'Z' then c + 32 else c

unfoldable pub to_lower : Bytes → Bytes
unfolding lower
to_lower [] = []
to_lower (c ∷ s) = lower c ∷ to_lower s

pub to_lower_idem : (s : Bytes) → to_lower (to_lower s) ≡ to_lower s
unfolding to_lower
to_lower_idem [] = refl
to_lower_idem (c ∷ s) = ground (arith, to_lower_idem s)

pub length-to_lower : (s : Bytes) → length (to_lower s) ≡ length s
unfolding to_lower
length-to_lower [] = refl
length-to_lower (c ∷ s) = omega (arith, length-to_lower s)

-- unicode.IsSpace
unfoldable pub is_space : ℕ → Bool
is_space c = (leb 9 c && leb c 13) || nat_beq c 32

-- strings.TrimLeft, by the set of bytes that a test accepts
unfoldable pub trim_left : (ℕ → Bool) → Bytes → Bytes
trim_left p [] = []
trim_left p (c ∷ s) = let rest = trim_left p s in if p c then rest else c ∷ s

-- strings.TrimRight
unfoldable pub trim_right : (ℕ → Bool) → Bytes → Bytes
unfolding trim_left
trim_right p s = reverse (trim_left p (reverse s))

-- strings.Trim
unfoldable pub trim : (ℕ → Bool) → Bytes → Bytes
unfolding trim_right
trim p s = trim_right p (trim_left p s)

unfoldable pub trim_space : Bytes → Bytes
unfolding trim is_space
trim_space s = trim is_space s

-- strings.HasPrefix
unfoldable pub has_prefix : Bytes → Bytes → Bool
has_prefix s [] = true
has_prefix [] (p ∷ ps) = false
has_prefix (c ∷ s) (p ∷ ps) = nat_beq c p && has_prefix s ps

-- strings.TrimPrefix
unfoldable pub trim_prefix : Bytes → Bytes → Bytes
unfolding has_prefix drop
trim_prefix s p = if has_prefix s p then drop (length p) s else s

cons_word : Bytes → List Bytes → List Bytes
cons_word [] ws = ws
cons_word w ws = w ∷ ws

-- The word under way, reversed, and the bytes that are left.
fields_from : Bytes → Bytes → List Bytes
unfolding cons_word is_space
fields_from w [] = cons_word (reverse w) []
fields_from w (c ∷ s) =
    let next = fields_from [] s in
    let longer = fields_from (c ∷ w) s in if is_space c then cons_word (reverse w) next else longer

-- strings.Fields
unfoldable pub fields : Bytes → List Bytes
unfolding fields_from
fields s = fields_from [] s

-- The order of `<` on strings.
unfoldable pub bytes_ltb : Bytes → Bytes → Bool
bytes_ltb s [] = false
bytes_ltb [] (b ∷ t) = true
bytes_ltb (a ∷ s) (b ∷ t) = ltb a b || (nat_beq a b && bytes_ltb s t)

-- sort.Strings, sort.Slice: by insertion, which leaves equal elements in their order.
module _ {ℓ} {A : Type ℓ} (less : A → A → Bool) where
  unfoldable pub insert_sorted : A → List A → List A
  insert_sorted x [] = x ∷ []
  insert_sorted x (y ∷ ys) = if less x y then x ∷ y ∷ ys else y ∷ insert_sorted x ys

  unfoldable pub sort : List A → List A
  unfolding insert_sorted
  sort [] = []
  sort (x ∷ xs) = insert_sorted x (sort xs)

  pub length-insert_sorted : (x : A) (xs : List A) → length (insert_sorted x xs) ≡ suc (length xs)
  unfolding insert_sorted
  length-insert_sorted x [] = refl
  length-insert_sorted x (y ∷ ys) = ground (arith, length-insert_sorted x ys)

  pub length-sort : (xs : List A) → length (sort xs) ≡ length xs
  unfolding sort
  length-sort [] = refl
  length-sort (x ∷ xs) = omega (arith, length-insert_sorted x (sort xs), length-sort xs)

text_ascii : text "ab" ≡ 97 ∷ 98 ∷ []
unfolding text
text_ascii = refl

text_dash : text "—" ≡ 0xe2 ∷ 0x80 ∷ 0x94 ∷ []
unfolding text
text_dash = refl

fields_example : fields (text " /nick  a b ") ≡ text "/nick" ∷ text "a" ∷ text "b" ∷ []
unfolding fields text
fields_example = refl

trim_example : trim_space (text "  a b\n") ≡ text "a b"
unfolding trim_space text
trim_example = refl
