-- ===== src/Base/Decimal.antt =====
-- The decimal digits of a number, as fmt prints `%d`.
use Prim.Native.Nat.{ℕ, zero, suc, ◌+◌, ◌/◌, ◌%◌, ◌≤◌}
use mathlib.Core.Path.{◌≡◌, refl}
use mathlib.Core.List.{[], ◌∷◌, ◌++◌}
use native.Mathlib.Omega.{arith}
use reticulum_group_chat.Base.Tests.{ltb, if◌then◌else◌}
use reticulum_group_chat.Base.Lists.{length}
use reticulum_group_chat.Base.Text.{Bytes, text}

-- The fuel is above the number of digits.
digits_from : ℕ → ℕ → Bytes
digits_from zero n = []
digits_from (suc f) n =
    let more = digits_from f (n / 10) in
    if ltb n 10 then (b'0' + n) ∷ [] else more ++ (b'0' + n % 10) ∷ []

unfoldable pub decimal : ℕ → Bytes
unfolding digits_from
decimal n = digits_from (suc n) n

decimal_example : decimal 1050 ≡ text "1050"
unfolding decimal text
decimal_example = refl

-- One digit below ten.
pub length-decimal_below_ten : (n : ℕ) → n ≤ 9 → length (decimal n) ≡ 1
unfolding decimal
length-decimal_below_ten n h = ground arith
