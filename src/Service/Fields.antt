-- ===== src/Service/Fields.antt =====
-- The fields of an LXMF message as msgpack decodes them, for internal/service/attachments.go and
-- internal/service/rewrite.go. A key keeps the width of its integer type, since Go holds keys of two
-- types apart; `opaque` stands for each other key and value, told apart by a number. What stands
-- inside a value that is itself a map is opaque where it is neither bytes nor a string.
use reticulum_group_chat.Base.{
  ℕ, ◌-◌, ◌≡◌, ◌↔◌, refl, subst, Bool, true, false, ◌&&◌, Option, none, some, arith, ltb, nat_beq,
  nat_beq_iff, Eq, ◌==◌, if◌then◌else◌,
}
use Prim.Native.Nat.{◌^◌}
use reticulum_group_chat.Base.Int.{ℤ, pos, negsuc, atoi}
use reticulum_group_chat.Base.Maps.{Map}
use reticulum_group_chat.Base.Text.{Bytes, bytes_eq, bytes_beq, bytes_beq_iff}

pub data Key : Type 0 where
  signed : ℕ → ℤ → Key
  unsigned : ℕ → ℕ → Key
  str : Bytes → Key
  opaque : ℕ → Key

pub data Leaf : Type 0 where
  bytes_leaf str_leaf : Bytes → Leaf
  opaque_leaf : ℕ → Leaf

pub data Value : Type 0 where
  leaf : Leaf → Value
  dict : Map Key Leaf → Value

abbrev pub Fields : Type 0
Fields = Map Key Value

unfoldable pub int_beq : ℤ → ℤ → Bool
int_beq (pos m) (pos n) = nat_beq m n
int_beq (negsuc m) (negsuc n) = nat_beq m n
int_beq _ _ = false

int_beq→eq : (i j : ℤ) → int_beq i j ≡ true → i ≡ j
unfolding int_beq
int_beq→eq (pos m) (pos n) h = ground (arith, nat_beq_iff m n)
int_beq→eq (negsuc m) (negsuc n) h = ground (arith, nat_beq_iff m n)
int_beq→eq (pos m) (negsuc n) h = cc
int_beq→eq (negsuc m) (pos n) h = cc

int_beq_refl : (i : ℤ) → int_beq i i ≡ true
unfolding int_beq
int_beq_refl (pos n) = ground arith
int_beq_refl (negsuc n) = ground arith

pub int_beq_iff : (i j : ℤ) → (int_beq i j ≡ true) ↔ (i ≡ j)
int_beq_iff i j = (int_beq→eq i j, λ e. subst (λ k. int_beq i k ≡ true) e (int_beq_refl i))

instance abbrev pub int_eq : Eq ℤ
int_eq = record { beq = int_beq; beq_iff = int_beq_iff }

unfoldable pub key_beq : Key → Key → Bool
unfolding int_beq
key_beq (signed v i) (signed w j) = nat_beq v w && int_beq i j
key_beq (unsigned v m) (unsigned w n) = nat_beq v w && nat_beq m n
key_beq (str s) (str t) = bytes_beq s t
key_beq (opaque m) (opaque n) = nat_beq m n
key_beq _ _ = false

key_beq→eq : (j k : Key) → key_beq j k ≡ true → j ≡ k
unfolding key_beq
key_beq→eq (signed v i) (signed w j) h = ground (arith, nat_beq_iff v w, int_beq→eq i j)
key_beq→eq (unsigned v m) (unsigned w n) h = ground (arith, nat_beq_iff v w, nat_beq_iff m n)
key_beq→eq (str s) (str t) h = ground (arith, bytes_beq_iff s t)
key_beq→eq (opaque m) (opaque n) h = ground (arith, nat_beq_iff m n)
key_beq→eq (signed v i) (unsigned w n) h = cc
key_beq→eq (signed v i) (str t) h = cc
key_beq→eq (signed v i) (opaque n) h = cc
key_beq→eq (unsigned v m) (signed w j) h = cc
key_beq→eq (unsigned v m) (str t) h = cc
key_beq→eq (unsigned v m) (opaque n) h = cc
key_beq→eq (str s) (signed w j) h = cc
key_beq→eq (str s) (unsigned w n) h = cc
key_beq→eq (str s) (opaque n) h = cc
key_beq→eq (opaque m) (signed w j) h = cc
key_beq→eq (opaque m) (unsigned w n) h = cc
key_beq→eq (opaque m) (str t) h = cc

key_beq_refl : (k : Key) → key_beq k k ≡ true
unfolding key_beq
key_beq_refl (signed v i) = ground (arith, int_beq_refl i)
key_beq_refl (unsigned v m) = ground arith
key_beq_refl (str s) = (bytes_beq_iff s s).1 refl
key_beq_refl (opaque m) = ground arith

pub key_beq_iff : (j k : Key) → (key_beq j k ≡ true) ↔ (j ≡ k)
key_beq_iff j k = (key_beq→eq j k, λ e. subst (λ i. key_beq j i ≡ true) e (key_beq_refl j))

instance abbrev pub key_eq : Eq Key
key_eq = record { beq = key_beq; beq_iff = key_beq_iff }

-- `int(v)` on a 64-bit machine.
unfoldable pub wrapped : ℕ → ℤ
wrapped n = if ltb n (2 ^ 63) then pos n else negsuc (2 ^ 64 - 1 - n)

-- keyAsInt: none where the source has false.
unfoldable pub key_as_int : Key → Option ℤ
unfolding wrapped
key_as_int (signed w i) = some i
key_as_int (unsigned w n) = some (wrapped n)
key_as_int (str s) = atoi s
key_as_int (opaque n) = none

-- Whether the key reads as the number.
unfoldable pub is_key : ℤ → Key → Bool
unfolding key_as_int
is_key i k = elim (key_as_int k) [ none ↦ false | some j ↦ j == i ]
