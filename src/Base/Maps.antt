-- ===== src/Base/Maps.antt =====
-- Go's `map` as an association list. A write goes to the key's place, or to the end; Go leaves
-- the order of an iteration open, and the theorems that use `keys` and `values` do not depend on it.
use Prim.Native.Nat.{◌+◌, ◌≤◌}
use mathlib.Core.Path.{◌≡◌, refl, sym, subst}
use mathlib.Core.Logic.{inl, inr}
use mathlib.Core.Bool.{Bool, true, false, ◌||◌}
use mathlib.Core.Option.{Option, none, some}
use mathlib.Core.List.{List, [], ◌∷◌}
use native.Mathlib.Omega.{arith}
use reticulum_group_chat.Base.Tests.{beq→eq, Bool-cases, Eq, ◌==◌, is_some, if◌then◌else◌}
use reticulum_group_chat.Base.Lists.{length}

unfoldable pub contains {ℓ} : {K : Type ℓ} ⦃e : Eq K⦄ → List K → K → Bool
contains [] k = false
contains (j ∷ l) k = j == k || contains l k

abbrev pub Map {ℓ} : Type ℓ → Type ℓ → Type ℓ
Map K V = List (K × V)

module _ {ℓ} {K V : Type ℓ} ⦃e : Eq K⦄ where
  -- m[k]
  unfoldable pub lookup : K → Map K V → Option V
  lookup key [] = none
  lookup key ((j, v) ∷ rest) = if j == key then some v else lookup key rest

  -- _, ok := m[k]
  abbrev pub has : K → Map K V → Bool
  has k m = is_some (lookup k m)

  -- m[k] = v
  unfoldable pub insert : K → V → Map K V → Map K V
  insert key v [] = (key, v) ∷ []
  insert key v ((j, old) ∷ rest) = if j == key then (j, v) ∷ rest else (j, old) ∷ insert key v rest

  -- delete(m, k)
  unfoldable pub delete : K → Map K V → Map K V
  delete k [] = []
  delete k ((j, v) ∷ m) = let rest = delete k m in if j == k then rest else (j, v) ∷ rest

  pub lookup-insert :
      (k asked : K) (v : V) (m : Map K V)
      → lookup asked (insert k v m) ≡ (if k == asked then some v else lookup asked m)
  unfolding lookup insert
  lookup-insert k asked v [] = refl
  lookup-insert k asked v ((i, w) ∷ m) =
      ground (arith, e.beq_iff i asked, e.beq_iff i k, e.beq_iff k asked, lookup-insert k asked v m)

  pub lookup-delete :
      (k j : K) (m : Map K V) → lookup j (delete k m) ≡ (if k == j then none else lookup j m)
  unfolding lookup delete
  lookup-delete k j [] = ground arith
  lookup-delete k j ((i, w) ∷ m) =
      ground (arith, e.beq_iff k j, e.beq_iff i k, e.beq_iff i j, lookup-delete k j m)

  -- A write to a key that is there keeps the size, any other adds one.
  pub length-insert :
      (k : K) (v : V) (m : Map K V)
      → length (insert k v m) ≡ (if has k m then length m else length m + 1)
  unfolding lookup insert
  length-insert k v [] = refl
  length-insert k v ((i, w) ∷ m) = ground (arith, length-insert k v m)

  pub length-delete-le : (k : K) (m : Map K V) → length (delete k m) ≤ length m
  unfolding delete
  length-delete-le k [] = omega arith
  length-delete-le k ((i, w) ∷ m) = ground (arith, length-delete-le k m)

  pub length-insert-delete-le :
      (k : K) (v : V) (m : Map K V) → has k m ≡ true → length (insert k v m) ≡ length m
  length-insert-delete-le k v m h = ground (arith, length-insert k v m)

  unfoldable pub keys : Map K V → List K
  keys [] = []
  keys ((j, v) ∷ m) = j ∷ keys m

  unfoldable pub values : Map K V → List V
  values [] = []
  values ((j, v) ∷ m) = v ∷ values m

  pub contains-keys : (k : K) (m : Map K V) → contains (keys m) k ≡ has k m
  unfolding contains keys lookup
  contains-keys k [] = refl
  contains-keys k ((j, v) ∷ m) = ground (arith, contains-keys k m)

  -- Each key stands once: what a Go map has by itself.
  abbrev pub Distinct : Map K V → Type 0
  Distinct [] = Unit {0}
  Distinct ((j, v) ∷ m) = (has j m ≡ false) × Distinct m

  pub insert-Distinct : (k : K) (v : V) (m : Map K V) → Distinct m → Distinct (insert k v m)
  unfolding insert lookup
  insert-Distinct k v [] d = (refl, tt)
  insert-Distinct k v ((i, w) ∷ m) d =
      ground (arith, insert-Distinct k v m d.1, lookup-insert k i v m, e.beq_iff k i, e.beq_iff i k)

  pub delete-Distinct : (k : K) (m : Map K V) → Distinct m → Distinct (delete k m)
  unfolding delete
  delete-Distinct k [] d = tt
  delete-Distinct k ((i, w) ∷ m) d = ground (arith, delete-Distinct k m d.1, lookup-delete k i m)

  -- The entries that a test on key and value accepts.
  unfoldable pub select : (K → V → Bool) → Map K V → Map K V
  select p [] = []
  select p ((j, v) ∷ m) = let rest = select p m in if p j v then (j, v) ∷ rest else rest

  abbrev pub accepted : (K → V → Bool) → K → Option V → Option V
  accepted p k none = none
  accepted p k (some v) = if p k v then some v else none

  select-missing :
      (p : K → V → Bool) (k : K) (m : Map K V) → lookup k m ≡ none → lookup k (select p m) ≡ none
  unfolding select lookup
  select-missing p k [] h = refl
  select-missing p k ((i, w) ∷ m) h = ground (arith, select-missing p k m)

  pub lookup-select :
      (p : K → V → Bool) (k : K) (m : Map K V)
      → Distinct m
      → lookup k (select p m) ≡ accepted p k (lookup k m)
  unfolding select lookup
  lookup-select p k [] d = refl
  lookup-select p k ((i, w) ∷ m) d =
      ground (arith, e.beq_iff i k, lookup-select p k m d.1, select-missing p k m)

  -- An entry that the test accepts stays found.
  pub lookup-select-kept :
      (p : K → V → Bool) (k : K) (v : V) (m : Map K V)
      → lookup k m ≡ some v
      → p k v ≡ true
      → lookup k (select p m) ≡ some v
  unfolding select lookup
  lookup-select-kept p k v [] h a = ground arith
  lookup-select-kept p k v ((i, w) ∷ m) h a =
      ground (arith, e.beq_iff i k, lookup-select-kept p k v m)

  pub select-Distinct : (p : K → V → Bool) (m : Map K V) → Distinct m → Distinct (select p m)
  unfolding select
  select-Distinct p [] d = tt
  select-Distinct p ((i, w) ∷ m) d = ground (arith, select-Distinct p m d.1, select-missing p i m)

  pub length-select-le : (p : K → V → Bool) (m : Map K V) → length (select p m) ≤ length m
  unfolding select
  length-select-le p [] = omega arith
  length-select-le p ((i, w) ∷ m) = ground (arith, length-select-le p m)

  -- A predicate at every entry.
  abbrev pub Entries {κ} : (K → V → Type κ) → Map K V → Type κ
  Entries P [] = Unit
  Entries P ((j, v) ∷ m) = P j v × Entries P m

  module _ {κ} (P : K → V → Type κ) where
    pub insert-Entries :
        (k : K) (v : V) (m : Map K V) → P k v → Entries P m → Entries P (insert k v m)
    unfolding insert
    insert-Entries k v [] p d = (p, tt)
    insert-Entries k v ((i, w) ∷ m) p d = elim (Bool-cases (i == k)) [
      | inl eq ↦ rw eq (subst (λ x. P x v) (sym (beq→eq i k eq)) p, d.1)
      | inr ne ↦ rw ne (d.0, insert-Entries k v m p d.1)
    ]

    pub select-Entries : (t : K → V → Bool) (m : Map K V) → Entries P m → Entries P (select t m)
    unfolding select
    select-Entries t [] d = tt
    select-Entries t ((i, w) ∷ m) d = elim (Bool-cases (t i w)) [
      | inl e ↦ rw e (d.0, select-Entries t m d.1)
      | inr e ↦ rw e (select-Entries t m d.1)
    ]

    pub delete-Entries : (k : K) (m : Map K V) → Entries P m → Entries P (delete k m)
    unfolding delete
    delete-Entries k [] d = tt
    delete-Entries k ((i, w) ∷ m) d = elim (Bool-cases (i == k)) [
      | inl eq ↦ rw eq (delete-Entries k m d.1)
      | inr ne ↦ rw ne (d.0, delete-Entries k m d.1)
    ]

    pub lookup-Entries : (k : K) (v : V) (m : Map K V) → Entries P m → lookup k m ≡ some v → P k v
    unfolding lookup
    lookup-Entries k v [] d h = cc
    lookup-Entries k v ((i, w) ∷ m) d h = elim (Bool-cases (i == k)) [
      | inl eq ↦
          let same : w ≡ v = ground arith in
          subst (λ x. P x v) (beq→eq i k eq) (subst (λ y. P i y) same d.0)
      | inr ne ↦ lookup-Entries k v m d.1 (ground arith)
    ]
