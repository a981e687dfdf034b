-- ===== src/Base/Int.antt =====
-- Signed numbers, and strconv.Atoi on a 64-bit int.
use Prim.Native.Nat.{ℕ, ◌+◌, ◌-◌, ◌*◌, ◌^◌}
use mathlib.Core.Path.{◌≡◌, refl}
use mathlib.Core.Bool.{◌&&◌}
use mathlib.Core.Option.{Option, none, some}
use mathlib.Core.List.{[], ◌∷◌}
use reticulum_group_chat.Base.Tests.{ltb, leb, nat_beq, if◌then◌else◌}
use reticulum_group_chat.Base.Text.{Bytes, text}

-- `negsuc n` is -(n + 1).
pub data ℤ : Type 0 where
  pos : ℕ → ℤ
  negsuc : ℕ → ℤ

-- The value of the digits, if there are only digits.
value_from : ℕ → Bytes → Option ℕ
value_from n [] = some n
value_from n (c ∷ s) =
    let rest = value_from (n * 10 + (c - b'0')) s in if leb b'0' c && leb c b'9' then rest else none

digits_value : Bytes → Option ℕ
unfolding value_from
digits_value [] = none
digits_value (c ∷ s) = value_from 0 (c ∷ s)

abbrev non_negative : Option ℕ → Option ℤ
non_negative none = none
non_negative (some n) = if ltb n (2 ^ 63) then some (pos n) else none

abbrev negated : Option ℕ → Option ℤ
negated none = none
negated (some n) =
    if nat_beq n 0 then some (pos 0) else if leb n (2 ^ 63) then some (negsuc (n - 1)) else none

-- `none` is an error: no digits, another byte, or out of range.
unfoldable pub atoi : Bytes → Option ℤ
unfolding digits_value
atoi [] = none
atoi (c ∷ s) =
    if nat_beq c b'-'
    then negated (digits_value s)
    else if nat_beq c b'+'
    then non_negative (digits_value s)
    else non_negative (digits_value (c ∷ s))

atoi_example : atoi (text "-12") ≡ some (negsuc 11)
unfolding atoi text
atoi_example = refl
