-- ===== src/GroupInfo/Truncate.antt =====
-- `TruncateText` of internal/groupinfo/groupinfo.go, with proofs on where it cuts.
use reticulum_group_chat.Base.{
  ℕ, zero, suc, ◌/◌, ◌≡◌, ◌<◌, ◌≤◌, refl, sym, ap, ◌∙◌, Bool, true, false, ◌||◌, Option, none, some,
  List, [], ◌∷◌, ◌++◌, arith, leb, nat_beq, if◌then◌else◌, All, length, take, get_elem?,
  length-take-le, Bool-cases, inl, inr, ◌⊎◌, leb→le, leb→gt, ◌+◌, length-append,
}
use reticulum_group_chat.Base.Text.{Bytes}

-- c & 0xC0 == 0x80, for a byte
unfoldable pub is_continuation : ℕ → Bool
is_continuation c = nat_beq (c / 64) 2

abbrev continues_at : Option ℕ → Bool
continues_at none = false
continues_at (some c) = is_continuation c

-- for cut > 0 && s[cut]&0xC0 == 0x80 { cut-- }
unfoldable pub back_off : Bytes → ℕ → ℕ
back_off s zero = zero
back_off s (suc n) = if continues_at (get_elem? s (suc n)) then back_off s n else suc n

unfoldable pub truncate_text : Bytes → ℕ → Bytes
unfolding back_off
truncate_text s max = if nat_beq max 0 || leb (length s) max then s else take (back_off s max) s

back_off-le : (s : Bytes) (n : ℕ) → back_off s n ≤ n
unfolding back_off
back_off-le s zero = omega arith
back_off-le s (suc n) = ground (arith, back_off-le s n)

-- With a limit, what is left fits it.
pub length-truncate_text-le : (s : Bytes) (max : ℕ) → 0 < max → length (truncate_text s max) ≤ max
unfolding truncate_text
length-truncate_text-le s max h =
    ground (arith, back_off-le s max, length-take-le (back_off s max) s)

pub truncate_text_of_fits : (s : Bytes) (max : ℕ) → length s ≤ max → truncate_text s max ≡ s
unfolding truncate_text
truncate_text_of_fits s max h = ground arith

-- The cut is at the start of the text, or where no character goes on.
back_off-stops :
    (s : Bytes) (n : ℕ) → (back_off s n ≡ 0) ⊎ (continues_at (get_elem? s (back_off s n)) ≡ false)
unfolding back_off
back_off-stops s zero = inl refl
back_off-stops s (suc n) = elim (Bool-cases (continues_at (get_elem? s (suc n)))) [
  | inl e ↦ rw e (back_off-stops s n)
  | inr e ↦ rw e (inr e)
]

-- A character of UTF-8: a first byte, and bytes that go on.
abbrev pub IsCharacter : Bytes → Type 0
IsCharacter [] = ⊥
IsCharacter (c ∷ rest) = (is_continuation c ≡ false) × All (λ b. is_continuation b ≡ true) rest

unfoldable pub joined : List Bytes → Bytes
joined [] = []
joined (c ∷ cs) = c ++ joined cs

-- A place where no character goes on is past the bytes of a character that go on.
take-rest :
    (n : ℕ) (rest s : Bytes)
    → All (λ b. is_continuation b ≡ true) rest
    → continues_at (get_elem? (rest ++ s) n) ≡ false
    → (m : ℕ) × (take n (rest ++ s) ≡ rest ++ take m s) × (continues_at (get_elem? s m) ≡ false)
unfolding take get_elem?
take-rest n [] s h e = (n, refl, e)
take-rest zero (b ∷ rest) s h e = cc (h.0)
take-rest (suc n) (b ∷ rest) s h e =
    let (m, t, f) = take-rest n rest s h.1 e in (m, ap (◌∷◌ b) t, f)

-- Where no character goes on, the bytes before are whole characters.
take-joined :
    (p : ℕ) (cs : List Bytes)
    → All IsCharacter cs
    → continues_at (get_elem? (joined cs) p) ≡ false
    → (k : ℕ) × (take p (joined cs) ≡ joined (take k cs))
unfolding joined take get_elem?
take-joined zero cs h e = (0, refl)
take-joined (suc n) [] h e = (0, refl)
take-joined (suc n) ([] ∷ cs) h e = absurd h.0
take-joined (suc n) ((b ∷ rest) ∷ cs) h e =
    let (m, t, f) = take-rest n rest (joined cs) h.0.1 e in
    let (k, q) = take-joined m cs h.1 f in (suc k, ap (◌∷◌ b) (t ∙ ap (◌++◌ rest) q))

take-all : (cs : List Bytes) → take (length cs) cs ≡ cs
unfolding take
take-all [] = refl
take-all (c ∷ cs) = ap (◌∷◌ c) (take-all cs)

-- No place up to `n` where no character goes on is after the cut.
back_off-greatest :
    (s : Bytes) (p n : ℕ) → p ≤ n → continues_at (get_elem? s p) ≡ false → p ≤ back_off s n
unfolding back_off
back_off-greatest s p zero le e = le
back_off-greatest s p (suc n) le e = elim (Bool-cases (continues_at (get_elem? s (suc n)))) [
  | inl f ↦
      let other : (p ≡ suc n) → true ≡ false = λ same. sym f ∙ (rw (← same) e) in
      rw f (back_off-greatest s p n (ground (arith, other)) e)
  | inr f ↦ rw f le
]

get-past : (xs ys : Bytes) (n : ℕ) → get_elem? (xs ++ ys) (length xs + n) ≡ get_elem? ys n
unfolding get_elem?
get-past [] ys n = let e : 0 + n ≡ n = omega arith in ap (get_elem? ys) e
get-past (x ∷ xs) ys n =
    let e : length (x ∷ xs) + n ≡ suc (length xs + n) = omega arith in
    ap (get_elem? (x ∷ (xs ++ ys))) e ∙ get-past xs ys n

-- After whole characters another one begins, or the text ends.
at_character :
    (cs : List Bytes) (j : ℕ)
    → All IsCharacter cs
    → continues_at (get_elem? (joined cs) (length (joined (take j cs)))) ≡ false
unfolding joined take get_elem?
at_character [] zero h = refl
at_character [] (suc j) h = refl
at_character ([] ∷ cs) j h = absurd h.0
at_character ((b ∷ rest) ∷ cs) zero h = h.0.0
at_character ((b ∷ rest) ∷ cs) (suc j) h =
    ap (λ i. continues_at (get_elem? ((b ∷ rest) ++ joined cs) i))
      (length-append (b ∷ rest) (joined (take j cs)))
    ∙ (ap continues_at (get-past (b ∷ rest) (joined cs) (length (joined (take j cs))))
        ∙ at_character cs j h.1)

length-joined-take-le : (cs : List Bytes) (j : ℕ) → length (joined (take j cs)) ≤ length (joined cs)
unfolding joined take
length-joined-take-le cs zero = omega arith
length-joined-take-le [] (suc j) = omega arith
length-joined-take-le (c ∷ cs) (suc j) = omega (
  arith,
  length-append c (joined (take j cs)),
  length-append c (joined cs),
  length-joined-take-le cs j,
)

length-take : (n : ℕ) (s : Bytes) → n ≤ length s → length (take n s) ≡ n
unfolding take
length-take zero s h = refl
length-take (suc n) [] h = absurd (omega arith)
length-take (suc n) (b ∷ s) h = ap suc (length-take n s (omega arith))

-- With a limit above 0, a text of whole characters is cut to a number of its first characters,
-- which fit the limit, and no longer run of its first characters fits.
pub truncate_text_characters :
    (cs : List Bytes) (max : ℕ)
    → All IsCharacter cs
    → 0 < max
    → (k : ℕ) × (truncate_text (joined cs) max ≡ joined (take k cs))
      × (length (joined (take k cs)) ≤ max)
      × ((j : ℕ)
          → length (joined (take j cs)) ≤ max
          → length (joined (take j cs)) ≤ length (joined (take k cs)))
unfolding truncate_text joined take
truncate_text_characters cs max h pos = elim (Bool-cases (leb (length (joined cs)) max)) [
  | inl e ↦ (
    length cs,
    (truncate_text_of_fits (joined cs) max (leb→le _ _ e) ∙ ap joined (sym (take-all cs))),
    rw (take-all cs) (leb→le _ _ e),
    λ j _. rw (take-all cs) (length-joined-take-le cs j),
  )
  | inr e ↦
      let (k, q) = cut_at in
      let t : truncate_text (joined cs) max ≡ joined (take k cs) = ground arith in
      let short = leb→gt (length (joined cs)) max e in
      let size : length (joined (take k cs)) ≡ back_off (joined cs) max =
        ap length (sym q)
        ∙ length-take (back_off (joined cs) max) (joined cs)
            (omega (arith, back_off-le (joined cs) max)) in
      (
        k,
        t,
        rw (← t) (length-truncate_text-le (joined cs) max pos),
        λ j le. rw size (
            back_off-greatest (joined cs) (length (joined (take j cs))) max le
              (at_character cs j h)),
      )
]
  where
    cut_at : (k : ℕ) × (take (back_off (joined cs) max) (joined cs) ≡ joined (take k cs))
    cut_at = elim (back_off-stops (joined cs) max) [
      | inl z ↦ (0, ap (λ x. take x (joined cs)) z)
      | inr f ↦ take-joined (back_off (joined cs) max) cs h f
    ]
