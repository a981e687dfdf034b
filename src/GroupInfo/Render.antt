-- ===== src/GroupInfo/Render.antt =====
-- internal/groupinfo/render.go and humanizeAge of internal/service/replay.go: the pin list as text.
-- Times are nanoseconds, 0 the zero time. `now.Sub` stops at the greatest duration; a duration in hours
-- is not rounded here. `scrub` is in Sanitize.
use reticulum_group_chat.Base.{
  ℕ, suc, ◌-◌, ◌*◌, ◌&&◌, ◌≡◌, refl, List, [], ◌∷◌, ◌++◌, ltb, leb, nat_beq, ◌==◌, if◌then◌else◌,
  length, take,
}
use Prim.Native.Nat.{◌/◌}
use reticulum_group_chat.Base.Decimal.{decimal}
use reticulum_group_chat.Base.Text.{Bytes, bytes_eq, text}
use reticulum_group_chat.Sanitize.{scrub}
use reticulum_group_chat.GroupInfo.Store.{Pin}

abbrev second : ℕ
second = 1000000000

abbrev minute : ℕ
minute = 60 * second

abbrev hour : ℕ
hour = 3600 * second

abbrev max_duration : ℕ
max_duration = 9223372036854775807

-- The time since `at`, 0 where it is to come.
abbrev elapsed : ℕ → ℕ → ℕ
elapsed now at = if ltb max_duration (now - at) then max_duration else now - at

unfoldable pub human_age : ℕ → Bytes
human_age d =
    if ltb d minute
    then decimal (d / second) ++ text "s"
    else if ltb d hour
    then decimal (d / minute) ++ text "m"
    else if ltb d (24 * hour)
    then decimal (d / hour) ++ text "h"
    else decimal (d / (24 * hour)) ++ text "d"

-- humanizeAge, of the time from `at` to `now`: a negative one keeps its sign.
unfoldable pub humanize_age : ℕ → ℕ → Bytes
unfolding human_age
humanize_age now at =
    if ltb now at && leb second (elapsed at now)
    then text "-" ++ decimal (elapsed at now / second) ++ text "s"
    else human_age (elapsed now at)

unfoldable pub pinned_by : Pin → Bytes
pinned_by p = if p.by_nick == [] && leb 8 (length p.by) then take 8 p.by else p.by_nick

unfoldable pub pin_label : Pin → ℕ → Bytes
unfolding pinned_by human_age
pin_label p now =
    let who = pinned_by p in
    let age = human_age (elapsed now p.at) in
    if who == [] && nat_beq p.at 0
    then []
    else if who == []
    then text "[" ++ age ++ text "] "
    else if nat_beq p.at 0
    then text "[" ++ who ++ text "] "
    else text "[" ++ who ++ text ", " ++ age ++ text "] "

unfoldable pub render_from : ℕ → List Pin → ℕ → Bytes
unfolding pin_label
render_from n [] now = []
render_from n (p ∷ pins) now =
    text "\n"
    ++ decimal n
    ++ text ". "
    ++ pin_label p now
    ++ scrub p.words
    ++ render_from (suc n) pins now

unfoldable pub render : List Pin → ℕ → Bytes
unfolding render_from
render [] now = []
render (p ∷ pins) now =
    text "Pinned (" ++ decimal (suc (length pins)) ++ text "):" ++ render_from 1 (p ∷ pins) now

humanize_age_example : humanize_age (90 * minute) 0 ≡ text "1h"
unfolding humanize_age text decimal
humanize_age_example = refl
