-- ===== src/Roster/Listing.antt =====
-- roster.go: `List`, and finding a member by nickname or hash prefix.
use reticulum_group_chat.Base.{
  Bool, true, false, ◌&&◌, ◌||◌, not, List, [], ◌∷◌, length, leb, keep, every, ◌==◌, if◌then◌else◌,
}
use reticulum_group_chat.Base.Maps.{values}
use reticulum_group_chat.Base.Text.{
  Bytes, bytes_eq, to_lower, trim_space, has_prefix, bytes_ltb, sort,
}
use reticulum_group_chat.Roster.Model.{User, Roster, Error, empty_query, ambiguous, no_match}

-- The comparison of `List`: by nickname, those without one last, by hash.
unfoldable pub listed_before : User → User → Bool
listed_before a b =
    let ni = to_lower a.nickname in
    let nj = to_lower b.nickname in
    if ni == [] && not (nj == [])
    then false
    else if not (ni == []) && nj == []
    then true
    else if not (ni == nj)
    then bytes_ltb ni nj
    else bytes_ltb a.hash b.hash

-- List
unfoldable pub list_users : Roster → List User
unfolding listed_before
list_users r = sort listed_before (values r.users)

unfoldable pub is_hex_prefix : Bytes → Bool
is_hex_prefix = every (λ c. (leb b'0' c && leb c b'9') || (leb b'a' c && leb c b'f'))

pub data Found : Type 0 where
  found : User → Found
  failed : Error → Found

unfoldable pub by_nick : Bytes → Roster → List User
by_nick q r = keep (λ u. to_lower u.nickname == q) (values r.users)

unfoldable pub by_hash : Bytes → Roster → List User
by_hash q r = keep (λ u. has_prefix u.hash q) (values r.users)

unfoldable pub resolve_hash : Bytes → Bytes → List User → Found
resolve_hash query q [] = failed (no_match query)
resolve_hash query q (u ∷ []) = found u
resolve_hash query q us = failed (ambiguous q us)

unfoldable pub resolve_nick : Bytes → Bytes → Roster → List User → Found
unfolding resolve_hash by_hash
resolve_nick query q r (u ∷ []) = found u
resolve_nick query q r [] =
    if is_hex_prefix q && leb 4 (length q)
    then resolve_hash query q (by_hash q r)
    else failed (no_match query)
resolve_nick query q r us = failed (ambiguous q us)

unfoldable pub resolve : Roster → Bytes → Found
unfolding resolve_nick by_nick
resolve r query =
    let q = to_lower (trim_space query) in
    if q == [] then failed empty_query else resolve_nick query q r (by_nick q r)
