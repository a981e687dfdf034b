-- ===== src/Examples/Limits.antt =====
-- The theorems on texts, lists and the service's limiters at concrete inputs.
use reticulum_group_chat.Base.{
  ℕ, ◌+◌, ◌≡◌, ◌<◌, ◌≤◌, ◌⊎◌, refl, true, false, none, some, List, [], ◌∷◌, ◌++◌, All, arith,
  length, map, take,
}
use mathlib.Core.List.{Mem}
use reticulum_group_chat.Base.Maps.{lookup, insert, select}
use reticulum_group_chat.Base.Text.{Bytes, bytes_eq, bytes_beq, text}
use reticulum_group_chat.Hex.{IsByte}
use reticulum_group_chat.Sanitize.{
  scrub, scrub_control_bytes, sanitize_forward, shown, IsPrintable, scrubs_agree,
}
use reticulum_group_chat.GroupInfo.Truncate.{
  truncate_text, joined, is_continuation, truncate_text_characters,
}
use reticulum_group_chat.Commands.Nickname.{sanitize_nickname, is_nickname, sanitize_nickname_valid}
use reticulum_group_chat.Commands.Listing.{footer, fit_list, noted, fit_list_bounds}
use reticulum_group_chat.Base.Decimal.{decimal}
use reticulum_group_chat.History.{
  Entry, SaveLog, open_log, append, append_all, appended, last_entries, append_all-open_log,
  append-open_log, persist_log,
}
use reticulum_group_chat.Service.Dedup.{DedupCache, new_dedup_cache, seen_before, run, Call}
use reticulum_group_chat.Service.Dedup.Once.{forwarded_once}
use reticulum_group_chat.Service.Dedup.Memory.{seen_before_sound}
use reticulum_group_chat.Service.Replay.{allow, run_allow, allow_spaced, swept}

abbrev raw : Bytes
raw = 0 ∷ 1 ∷ 2 ∷ 3 ∷ 4 ∷ 5 ∷ 6 ∷ 7 ∷ 8 ∷ 9 ∷ 10 ∷ 11 ∷ 12 ∷ 13 ∷ 14 ∷ 255 ∷ []

abbrev raw_hex : Bytes
raw_hex = text "000102030405060708090a0b0c0d0eff"

raw_bytes : All IsByte raw
raw_bytes = (
  omega arith,
  (
    omega arith,
    (
      omega arith,
      (
        omega arith,
        (
          omega arith,
          (
            omega arith,
            (
              omega arith,
              (
                omega arith,
                (
                  omega arith,
                  (
                    omega arith,
                    (
                      omega arith,
                      (omega arith, (omega arith, (omega arith, (omega arith, (omega arith, tt))))),
                    ),
                  ),
                ),
              ),
            ),
          ),
        ),
      ),
    ),
  ),
)

abbrev dirty_text : Bytes
dirty_text = 27 ∷ 91 ∷ 10 ∷ 72 ∷ 105 ∷ 127 ∷ []

scrubs_agree_example :
    (scrub dirty_text ≡ scrub_control_bytes dirty_text)
    × (sanitize_forward dirty_text ≡ scrub_control_bytes dirty_text)
    × (scrub_control_bytes dirty_text ≡ map shown dirty_text)
    × IsPrintable (scrub_control_bytes dirty_text)
    × (length (scrub_control_bytes dirty_text) ≡ length dirty_text)
scrubs_agree_example = scrubs_agree dirty_text

-- "aé€" as UTF-8, in characters.
abbrev letters : List Bytes
letters = (97 ∷ []) ∷ (195 ∷ 169 ∷ []) ∷ (226 ∷ 130 ∷ 172 ∷ []) ∷ []

truncate_text_characters_example :
    (k : ℕ) × (truncate_text (joined letters) 4 ≡ joined (take k letters))
    × (length (joined (take k letters)) ≤ 4)
    × ((j : ℕ)
        → length (joined (take j letters)) ≤ 4
        → length (joined (take j letters)) ≤ length (joined (take k letters)))
unfolding is_continuation
truncate_text_characters_example =
    truncate_text_characters letters 4
      ((refl, tt), ((refl, (refl, tt)), ((refl, (refl, (refl, tt))), tt))) (omega arith)

sanitize_nickname_valid_example :
    (sanitize_nickname (text " Zoë Smith ") ≡ [])
    ⊎ (is_nickname (sanitize_nickname (text " Zoë Smith ")) ≡ true)
sanitize_nickname_valid_example = sanitize_nickname_valid (text " Zoë Smith ")

abbrev lines : List Bytes
lines = text "  alice" ∷ text "  bob" ∷ text "  carol" ∷ []

fit_list_bounds_example :
    (k : ℕ) × (k ≤ 3)
    × (fit_list 60 (text "users (3):") lines ≡ noted (text "users (3):") k lines)
    × (length (fit_list 60 (text "users (3):") lines) ≤ 60)
unfolding text footer decimal
fit_list_bounds_example = fit_list_bounds 60 (text "users (3):") lines (omega arith) (omega arith)

abbrev said : ℕ → Entry
said t = record { at = t; sender_hash = raw_hex; sender_nick = text "alice"; content = text "hi" }

abbrev writes : SaveLog
writes es = none

abbrev fails : SaveLog
fails es = some (text "disk full")

abbrev appends : List (SaveLog × Entry)
appends = (writes, said 3) ∷ (fails, said 4) ∷ []

append_all-open_log_example :
    (append_all (open_log (some (said 1 ∷ said 2 ∷ [])) 2) appends).entries
    ≡ last_entries 2 ((said 1 ∷ said 2 ∷ []) ++ appended appends)
append_all-open_log_example = append_all-open_log (some (said 1 ∷ said 2 ∷ [])) 2 appends

append-open_log_example :
    (open_log
      (append writes
        (append_all (open_log (some (said 1 ∷ said 2 ∷ [])) 2) appends)
        (said 5)).0.file
      2).entries
    ≡ (append writes
        (append_all (open_log (some (said 1 ∷ said 2 ∷ [])) 2) appends)
        (said 5)).0.entries
unfolding append persist_log
append-open_log_example =
    append-open_log (some (said 1 ∷ said 2 ∷ [])) 2 appends writes (said 5) refl

abbrev msg_a : Bytes
msg_a = 1 ∷ []

abbrev msg_b : Bytes
msg_b = 2 ∷ []

abbrev cache : DedupCache
cache = record { seen = []; ttl = 100; max = 3 }

forwarded_once_example :
    (seen_before (run (seen_before cache msg_a 10).0 ((msg_b, 20) ∷ (msg_a, 30) ∷ [])) msg_a 109).1
    ≡ true
unfolding seen_before lookup
forwarded_once_example =
    forwarded_once cache msg_a 10 109 ((msg_b, 20) ∷ (msg_a, 30) ∷ []) (omega arith) refl
      (omega arith) (omega arith, (omega arith, tt)) (omega arith)

seen_before_sound_example :
    (t : ℕ) × Mem {A = Call} (msg_a, t) ((msg_a, 10) ∷ (msg_b, 20) ∷ []) × (30 < t + 100)
unfolding seen_before lookup insert bytes_beq new_dedup_cache run
seen_before_sound_example = seen_before_sound 100 3 ((msg_a, 10) ∷ (msg_b, 20) ∷ []) msg_a 30 refl

allow_spaced_example :
    (allow (run_allow (allow [] raw 1000).0 ((msg_a, 2000) ∷ (raw, 3000) ∷ [])) raw 600000000999).1
    ≡ false
unfolding allow swept lookup select
allow_spaced_example =
    allow_spaced [] raw 1000 600000000999 ((msg_a, 2000) ∷ (raw, 3000) ∷ []) refl
      (omega arith, (omega arith, tt)) (omega arith)
