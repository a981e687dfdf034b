-- ===== src/Commands/Listing.antt =====
-- /users, /mods, /admin and the truncation of their replies, of internal/commands/handlers.go.
use mathlib.Core.List.{append-nil}
use reticulum_group_chat.Base.{
  ℕ, suc, ◌+◌, ◌-◌, ◌≡◌, ◌≤◌, ◌<◌, sym, ap, ◌∙◌, Bool, false, ◌||◌, ◌&&◌, none, some, List, [], ◌∷◌,
  ◌++◌, arith, ltb, leb, nat_beq, if◌then◌else◌, ◌==◌, length, length-append, take, map, Bool-cases,
  inl, inr,
}
use reticulum_group_chat.Base.Text.{Bytes, bytes_eq, text, sort, bytes_ltb}
use reticulum_group_chat.Base.Decimal.{decimal}
use reticulum_group_chat.Roster.Model.{User, Roster}
use reticulum_group_chat.Roster.Members.{get}
use reticulum_group_chat.Roster.Listing.{list_users}
use reticulum_group_chat.Commands.Model.{Env}

abbrev pub max_listed_users : ℕ
max_listed_users = 200

-- "\n  ...and %d more (see operator log)"
unfoldable pub footer : ℕ → Bytes
footer n = b'\n' ∷ (text "  ...and " ++ (decimal n ++ text " more (see operator log)"))

-- strings.Join(lines, "\n") behind the header.
unfoldable pub lines_after : Bytes → List Bytes → Bytes
lines_after out [] = out
lines_after out (line ∷ lines) = lines_after (out ++ b'\n' ∷ line) lines

-- The loop, with what is written so far; its length is `used`.
unfoldable pub fit_from : ℕ → Bytes → List Bytes → Bytes
fit_from max out [] = out
fit_from max out (line ∷ lines) =
    let more = length lines in
    let need = 1 + length line in
    let next = fit_from max (out ++ b'\n' ∷ line) lines in
    if (ltb max (length out + need + length (footer more)) && ltb 0 more)
      || ltb max (length out + need)
    then out ++ footer (suc more)
    else next

-- If the loop keeps every line it has written the full text.
unfoldable pub fit_list : ℕ → Bytes → List Bytes → Bytes
unfolding lines_after fit_from
fit_list max header lines =
    let full = lines_after header lines in
    if nat_beq max 0 || leb (length full) max then full else fit_from max header lines

-- The line of one member.
user_line : User → Bytes
user_line u =
    text "  "
    ++ ((if u.nickname == [] then text "(no nick)" else u.nickname)
        ++ (text " — " ++ (take 8 u.hash ++ (if u.paused then text " [paused]" else []))))

unfoldable pub list_all_users : Env → Roster → Bytes
unfolding user_line fit_list
list_all_users env r =
    let users = list_users r in
    let n = length users in
    let header = text "Users (" ++ (decimal n ++ text "):") in
    let shown =
      map user_line (if ltb max_listed_users n then take max_listed_users users else users) in
    let note =
      if ltb max_listed_users n
      then (text "  … and " ++ (decimal (n - max_listed_users) ++ text " more")) ∷ []
      else [] in
    if nat_beq n 0
    then text "No users."
    else fit_list env.max_reply_content_bytes header (shown ++ note)

role_line : Roster → Bytes → Bytes
role_line r h = elim (get r h) [
  | none ↦ text "  " ++ take 8 h
  | some u ↦
      if u.nickname == []
      then text "  " ++ take 8 h
      else text "  " ++ (u.nickname ++ (text " — " ++ take 8 h))
]

-- listConfigList, with the label as it stands in the empty reply and, capitalised, in the header
unfoldable pub list_config_list : Env → Roster → Bytes → Bytes → List Bytes → Bytes
unfolding role_line fit_list
list_config_list env r label title hashes =
    if nat_beq (length hashes) 0
    then text "No " ++ (label ++ text " configured.")
    else fit_list env.max_reply_content_bytes
        (title ++ (text " (" ++ (decimal (length hashes) ++ text "):")))
        (map (role_line r) (sort bytes_ltb hashes))

-- The note on the lines after the first `k` of `n`.
abbrev rest_note : ℕ → ℕ → Bytes
rest_note n k = if leb n k then [] else footer (n - k)

rest_note-suc : (n k : ℕ) → rest_note n k ≡ rest_note (suc n) (suc k)
rest_note-suc n k = ground arith

rest_note-zero : (n : ℕ) → footer (suc n) ≡ rest_note (suc n) 0
rest_note-zero n = ground arith

-- The text with the first `k` lines and the note on the others.
abbrev pub noted : Bytes → ℕ → List Bytes → Bytes
noted out k lines = lines_after out (take k lines) ++ rest_note (length lines) k

module _ (max : ℕ) where
  -- Either nothing is left to write, or the note on what is left still fits.
  abbrev HasRoom : Bytes → List Bytes → Type 0
  HasRoom out [] = length out ≤ max
  HasRoom out (line ∷ lines) = length out + length (footer (suc (length lines))) ≤ max

  next_room :
      (out line : Bytes) (lines : List Bytes)
      → ((ltb max (length out + (1 + length line) + length (footer (length lines)))
            && ltb 0 (length lines))
          || ltb max (length out + (1 + length line)))
        ≡ false
      → HasRoom (out ++ b'\n' ∷ line) lines
  next_room out line [] h = ground (arith, length-append out (b'\n' ∷ line))
  next_room out line (l ∷ lines) h = ground (arith, length-append out (b'\n' ∷ line))

  length-fit_from-le :
      (out : Bytes) (lines : List Bytes) → HasRoom out lines → length (fit_from max out lines) ≤ max
  unfolding fit_from
  length-fit_from-le out [] h = h
  length-fit_from-le out (line ∷ lines) h = ground (
    arith,
    length-append out (footer (suc (length lines))),
    next_room out line lines,
    length-fit_from-le (out ++ b'\n' ∷ line) lines,
  )

  abbrev stops : Bytes → Bytes → List Bytes → Bool
  stops out line lines =
      (ltb max (length out + (1 + length line) + length (footer (length lines)))
        && ltb 0 (length lines))
      || ltb max (length out + (1 + length line))

  fit_from-noted :
      (out : Bytes) (lines : List Bytes)
      → (k : ℕ) × (k ≤ length lines) × (fit_from max out lines ≡ noted out k lines)
  unfolding fit_from lines_after take
  fit_from-noted out [] = (0, omega arith, sym (append-nil out))
  fit_from-noted out (line ∷ lines) = elim (Bool-cases (stops out line lines)) [
    | inl e ↦ (0, omega arith, rw e (ap (◌++◌ out) (rest_note-zero (length lines))))
    | inr e ↦
        let (k, h, q) = fit_from-noted (out ++ b'\n' ∷ line) lines in
        (
          suc k,
          omega arith,
          rw e (
              q
              ∙ ap (◌++◌ (lines_after (out ++ b'\n' ∷ line) (take k lines)))
                  (rest_note-suc (length lines) k)),
        )
  ]

  all_noted :
      (out : Bytes) (lines : List Bytes) → lines_after out lines ≡ noted out (length lines) lines
  unfolding lines_after take
  all_noted out [] = sym (append-nil out)
  all_noted out (line ∷ lines) =
      all_noted (out ++ b'\n' ∷ line) lines
      ∙ ap (◌++◌ (lines_after (out ++ b'\n' ∷ line) (take (length lines) lines)))
          (rest_note-suc (length lines) (length lines))

  -- With a limit above 0, into which the header and the note on all lines fit, a list reply fits
  -- the limit and holds the header, whole lines from the first on, and, where lines are left out,
  -- a note with their number.
  pub fit_list_bounds :
      (header : Bytes) (lines : List Bytes)
      → 0 < max
      → length header + length (footer (length lines)) ≤ max
      → (k : ℕ) × (k ≤ length lines)
        × (fit_list max header lines ≡ noted header k lines)
        × (length (fit_list max header lines) ≤ max)
  unfolding fit_list
  fit_list_bounds header lines pos h =
      elim (Bool-cases (leb (length (lines_after header lines)) max)) [
        | inl e ↦
            (length lines, omega arith, ground (arith, all_noted header lines), ground (arith))
        | inr e ↦
            let (k, le, q) = fit_from-noted header lines in
            (
              k,
              le,
              ground (arith, q),
              ground (arith, length-fit_from-le header lines (room lines h)),
            )
      ]
    where
      room :
          (ls : List Bytes) → length header + length (footer (length ls)) ≤ max → HasRoom header ls
      room [] r = omega arith
      room (l ∷ ls) r = r
