-- ===== src/GroupInfo/Bounds.antt =====
-- Proofs on internal/groupinfo/groupinfo.go: the limits on what is stored, and the removal of a
-- pin.
use reticulum_group_chat.Base.{
  ℕ, zero, suc, ◌+◌, ◌-◌, ◌≡◌, ◌<◌, ◌≤◌, refl, false, ◌||◌, some, List, [], ◌∷◌, ◌++◌, arith, ltb,
  leb, if◌then◌else◌, All, length, take, drop, get_elem?, map, length-take-le, length-append,
  Bool-cases, Option-cases, inl, inr, length-drop, ap, ◌∙◌,
}
use reticulum_group_chat.Base.Text.{Bytes}
use reticulum_group_chat.GroupInfo.Truncate.{length-truncate_text-le}
use reticulum_group_chat.GroupInfo.Store.{
  Pin, File, Store, SaveFile, load, persist, set_info, add_pin, remove_pin, max_pins,
  max_info_bytes, max_pin_bytes, truncate_pin,
}

abbrev pub IsShort : Pin → Type 0
IsShort p = length p.words ≤ max_pin_bytes

pub record IsBounded (s : Store) : Type 0 where
  pub info_fits : length s.info ≤ max_info_bytes
  pub pins_fit : length s.pins ≤ max_pins
  pub each_fits : All IsShort s.pins

pub data Op : Type 0 where
  sets_info : Bytes → Op
  pins : Pin → Op
  unpins : ℕ → Op

unfoldable pub apply : SaveFile → Store → Op → Store
apply save s (sets_info words) = (set_info save s words).0
apply save s (pins p) = (add_pin save s p).0
apply save s (unpins n) = (remove_pin save s n).0

unfoldable pub run : Store → List (SaveFile × Op) → Store
run s [] = s
run s ((save, o) ∷ ops) = run (apply save s o) ops

module _ (save : SaveFile) (s : Store) where
  info-persist : (persist save s).0.info ≡ s.info
  unfolding persist
  info-persist = ground arith

  pins-persist : (persist save s).0.pins ≡ s.pins
  unfolding persist
  pins-persist = ground arith

persist-IsBounded : (save : SaveFile) (s : Store) → IsBounded s → IsBounded (persist save s).0
persist-IsBounded save s b = record {
  info_fits = rw (info-persist save s) b.info_fits;
  pins_fit = rw (pins-persist save s) b.pins_fit;
  each_fits = rw (pins-persist save s) b.each_fits;
}

All-append : (xs ys : List Pin) → All IsShort xs → All IsShort ys → All IsShort (xs ++ ys)
All-append [] ys h k = k
All-append (x ∷ xs) ys h k = (h.0, All-append xs ys h.1 k)

All-take : (n : ℕ) (xs : List Pin) → All IsShort xs → All IsShort (take n xs)
unfolding take
All-take zero xs h = tt
All-take (suc n) [] h = tt
All-take (suc n) (x ∷ xs) h = (h.0, All-take n xs h.1)

All-drop : (n : ℕ) (xs : List Pin) → All IsShort xs → All IsShort (drop n xs)
unfolding drop
All-drop zero xs h = h
All-drop (suc n) [] h = tt
All-drop (suc n) (x ∷ xs) h = All-drop n xs h.1

truncate_pin-IsShort : (p : Pin) → IsShort (truncate_pin p)
truncate_pin-IsShort p = length-truncate_text-le p.words max_pin_bytes (omega arith)

truncated-IsShort : (ps : List Pin) → All IsShort (map truncate_pin ps)
truncated-IsShort [] = tt
truncated-IsShort (p ∷ ps) = (truncate_pin-IsShort p, truncated-IsShort ps)

length-truncated : (ps : List Pin) → length (map truncate_pin ps) ≡ length ps
length-truncated [] = refl
length-truncated (p ∷ ps) = ap suc (length-truncated ps)

load-IsBounded : (f : File) → IsBounded (load f)
unfolding load
load-IsBounded f = record {
  info_fits = length-truncate_text-le f.info max_info_bytes (omega arith);
  pins_fit =
      let kept = if ltb max_pins (length f.pins) then take max_pins f.pins else f.pins in
      rw (length-truncated kept) (ground (arith, length-take-le max_pins f.pins));
  each_fits = truncated-IsShort _;
}

set_info-IsBounded :
    (save : SaveFile) (s : Store) (words : Bytes)
    → IsBounded s
    → IsBounded (set_info save s words).0
unfolding set_info
set_info-IsBounded save s words b = persist-IsBounded save _ (record {
  info_fits = length-truncate_text-le words max_info_bytes (omega arith);
  pins_fit = b.pins_fit;
  each_fits = b.each_fits;
})

add_pin-IsBounded :
    (save : SaveFile) (s : Store) (p : Pin) → IsBounded s → IsBounded (add_pin save s p).0
unfolding add_pin
add_pin-IsBounded save s p b = elim (Bool-cases (leb max_pins (length s.pins))) [
  | inl e ↦ rw e b
  | inr e ↦ rw e (
      persist-IsBounded save _ (record {
        info_fits = b.info_fits;
        pins_fit = rw (length-append s.pins (truncate_pin p ∷ [])) (ground arith);
        each_fits = All-append s.pins _ b.each_fits (truncate_pin-IsShort p, tt);
      }))
]

remove_pin-IsBounded :
    (save : SaveFile) (s : Store) (n : ℕ) → IsBounded s → IsBounded (remove_pin save s n).0
unfolding remove_pin
remove_pin-IsBounded save s n b = elim (Bool-cases (ltb n 1 || ltb (length s.pins) n)) [
  | inl e ↦ rw e b
  | inr e ↦ elim (Option-cases (get_elem? s.pins (n - 1))) [
    | inl f ↦ rw (e, f, remove_pin) b
    | inr (p, f) ↦
        rw (e, f, remove_pin)
          (persist-IsBounded save _ (record {
            info_fits = b.info_fits;
            pins_fit =
                rw (length-append (take (n - 1) s.pins) (drop n s.pins), length-drop n s.pins)
                  (ground (arith, length-take-le (n - 1) s.pins));
            each_fits =
                All-append (take (n - 1) s.pins) (drop n s.pins)
                  (All-take (n - 1) s.pins b.each_fits) (All-drop n s.pins b.each_fits);
          }))
  ]
]

apply-IsBounded : (save : SaveFile) (s : Store) (o : Op) → IsBounded s → IsBounded (apply save s o)
unfolding apply
apply-IsBounded save s (sets_info words) b = set_info-IsBounded save s words b
apply-IsBounded save s (pins p) b = add_pin-IsBounded save s p b
apply-IsBounded save s (unpins n) b = remove_pin-IsBounded save s n b

run-IsBounded : (s : Store) (ops : List (SaveFile × Op)) → IsBounded s → IsBounded (run s ops)
unfolding run
run-IsBounded s [] b = b
run-IsBounded s ((save, o) ∷ ops) b =
    run-IsBounded (apply save s o) ops (apply-IsBounded save s o b)

-- From any file, hand-edited or not, and after any operations, failed writes included: the
-- description has at most 256 bytes, there are at most ten pins, and each has at most 200 bytes.
pub run-load-IsBounded : (f : File) (ops : List (SaveFile × Op)) → IsBounded (run (load f) ops)
run-load-IsBounded f ops = run-IsBounded (load f) ops (load-IsBounded f)

get-split :
    (n : ℕ) (ps : List Pin)
    → n < length ps
    → (p : Pin) × (get_elem? ps n ≡ some p)
      × (ps ≡ take n ps ++ p ∷ drop (suc n) ps)
      × (length (take n ps) ≡ n)
unfolding get_elem? take drop
get-split n [] h = elim h [ ]
get-split zero (p ∷ ps) h = (p, refl, refl, refl)
get-split (suc n) (q ∷ ps) h =
    let (p, e, f, g) = get-split n ps (omega arith) in (p, e, ap (◌∷◌ q) f, ap suc g)

-- For n from 1 to the number of pins, the n-th pin is returned and taken out, and the others keep
-- their order, however the write ends.
pub remove_pin_exact :
    (save : SaveFile) (s : Store) (n : ℕ)
    → 0 < n
    → n ≤ length s.pins
    → (p : Pin) × (front : List Pin) × (back : List Pin) × (s.pins ≡ front ++ p ∷ back)
      × (length front + 1 ≡ n)
      × ((remove_pin save s n).1 ≡ some p)
      × ((remove_pin save s n).0.pins ≡ front ++ back)
unfolding remove_pin
remove_pin_exact save s zero pos le = elim pos [ ]
remove_pin_exact save s (suc m) pos le =
    let (p, e, f, g) = get-split m s.pins le in
    let at : suc m - 1 ≡ m = omega arith in
    let in_range : (ltb (suc m) 1 || ltb (length s.pins) (suc m)) ≡ false = ground arith in
    let there : get_elem? s.pins (suc m - 1) ≡ some p = ap (get_elem? s.pins) at ∙ e in
    let left = ap (λ i. take i s.pins ++ drop (suc m) s.pins) at in
    (
      p,
      take m s.pins,
      drop (suc m) s.pins,
      f,
      omega (arith, g),
      rw (in_range, there) refl,
      rw (in_range, there) (pins-persist save _ ∙ left),
    )
