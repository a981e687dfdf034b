-- ===== src/Sanitize.antt =====
-- Control bytes: `scrub` of internal/groupinfo/render.go, `scrubControlBytes` of
-- internal/commands/handlers.go, and `sanitizeForward` of internal/service/sanitize.go.
use reticulum_group_chat.Base.{
  ℕ, ◌≡◌, refl, suc, sym, ap, ◌∙◌, Bool, true, false, ◌||◌, ◌&&◌, not, [], ◌∷◌, ◌++◌, arith, ltb,
  nat_beq, if◌then◌else◌, All, length, map, Bool-cases, inl, inr,
}
use reticulum_group_chat.Base.Text.{Bytes}
use mathlib.Core.List.{append-nil, append_assoc}

-- (c < 0x20 && c != '\t' && c != '\n' && c != '\r') || c == 0x7F
unfoldable pub is_control : ℕ → Bool
is_control c =
    (ltb c 0x20 && (not (nat_beq c 9) && (not (nat_beq c 10) && not (nat_beq c 13))))
    || nat_beq c 0x7f

-- The first loop: is every byte clean?
is_clean : Bytes → Bool
is_clean [] = true
is_clean (c ∷ s) = not (is_control c) && is_clean s

replace_controls : Bytes → Bytes
replace_controls [] = []
replace_controls (c ∷ s) = (if is_control c then b'?' else c) ∷ replace_controls s

-- scrub, which overwrites a copy
unfoldable pub scrub : Bytes → Bytes
unfolding is_clean replace_controls is_control
scrub s = if is_clean s then s else replace_controls s

-- scrubControlBytes, which fills a new slice
unfoldable pub scrub_control_bytes : Bytes → Bytes
unfolding is_clean replace_controls is_control
scrub_control_bytes s = if is_clean s then s else replace_controls s

needs_sanitize : Bytes → Bool
needs_sanitize [] = false
needs_sanitize (c ∷ s) =
    (ltb c 0x20 && (not (nat_beq c 9) && (not (nat_beq c 10) && not (nat_beq c 13))))
    || (nat_beq c 0x7f || needs_sanitize s)

-- The loop that writes to a builder.
sanitized_from : Bytes → Bytes → Bytes
sanitized_from out [] = out
sanitized_from out (c ∷ s) =
    sanitized_from (if is_control c then out ++ b'?' ∷ [] else out ++ c ∷ []) s

unfoldable pub sanitize_forward : Bytes → Bytes
unfolding needs_sanitize sanitized_from is_control
sanitize_forward s = if not (needs_sanitize s) then s else sanitized_from [] s

-- What one byte becomes, independent of the loops.
abbrev pub shown : ℕ → ℕ
shown c = if is_control c then b'?' else c

replace_controls_lem : (s : Bytes) → replace_controls s ≡ map shown s
unfolding replace_controls
replace_controls_lem [] = refl
replace_controls_lem (c ∷ s) = ap (◌∷◌ (shown c)) (replace_controls_lem s)

map-shown_clean : (s : Bytes) → is_clean s ≡ true → map shown s ≡ s
unfolding is_clean
map-shown_clean [] h = refl
map-shown_clean (c ∷ s) h = ground (arith, map-shown_clean s)

needs_sanitize_lem : (s : Bytes) → needs_sanitize s ≡ not (is_clean s)
unfolding needs_sanitize is_clean is_control
needs_sanitize_lem [] = refl
needs_sanitize_lem (c ∷ s) = ground (arith, needs_sanitize_lem s)

sanitized_from_lem : (out s : Bytes) → sanitized_from out s ≡ out ++ map shown s
unfolding sanitized_from
sanitized_from_lem out [] = simp append-nil
sanitized_from_lem out (c ∷ s) = elim (Bool-cases (is_control c)) [
  | inl e ↦
      rw e (sanitized_from_lem (out ++ b'?' ∷ []) s ∙ append_assoc out (b'?' ∷ []) (map shown s))
  | inr e ↦ rw e (sanitized_from_lem (out ++ c ∷ []) s ∙ append_assoc out (c ∷ []) (map shown s))
]

scrub_lem : (s : Bytes) → scrub s ≡ map shown s
unfolding scrub
scrub_lem s = ground (arith, map-shown_clean s, replace_controls_lem s)

scrub_control_bytes_lem : (s : Bytes) → scrub_control_bytes s ≡ map shown s
unfolding scrub_control_bytes
scrub_control_bytes_lem s = ground (arith, map-shown_clean s, replace_controls_lem s)

sanitize_forward_lem : (s : Bytes) → sanitize_forward s ≡ map shown s
unfolding sanitize_forward
sanitize_forward_lem s =
    ground (arith, map-shown_clean s, needs_sanitize_lem s, sanitized_from_lem [] s)

-- No byte is a control byte.
abbrev pub IsPrintable : Bytes → Type 0
IsPrintable = All λ c. is_control c ≡ false

shown-IsPrintable : (s : Bytes) → IsPrintable (map shown s)
unfolding is_control
shown-IsPrintable [] = tt
shown-IsPrintable (c ∷ s) = (ground arith, shown-IsPrintable s)

length-shown : (s : Bytes) → length (map shown s) ≡ length s
length-shown [] = refl
length-shown (c ∷ s) = ap suc (length-shown s)

-- The three copies of the scrubber give one result: as long as the text, without control bytes, and
-- the same text byte for byte except that each control byte is a question mark.
pub scrubs_agree :
    (s : Bytes)
    → (scrub s ≡ scrub_control_bytes s)
      × (sanitize_forward s ≡ scrub_control_bytes s)
      × (scrub_control_bytes s ≡ map shown s)
      × IsPrintable (scrub_control_bytes s)
      × (length (scrub_control_bytes s) ≡ length s)
scrubs_agree s = (
  scrub_lem s ∙ sym (scrub_control_bytes_lem s),
  sanitize_forward_lem s ∙ sym (scrub_control_bytes_lem s),
  scrub_control_bytes_lem s,
  rw (scrub_control_bytes_lem s) (shown-IsPrintable s),
  rw (scrub_control_bytes_lem s) (length-shown s),
)

pub length-scrub_control_bytes : (s : Bytes) → length (scrub_control_bytes s) ≡ length s
length-scrub_control_bytes s = (scrubs_agree s).4
