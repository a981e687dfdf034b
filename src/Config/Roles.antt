-- ===== src/Config/Roles.antt =====
-- Proofs on internal/config/config.go: the admins and mods of a configuration that was accepted.
use reticulum_group_chat.Base.{
  ◌≡◌, refl, sym, ap, subst, ◌∙◌, Bool, true, false, ◌||◌, Option, none, some, List, [], ◌∷◌, ◌==◌,
  if_cases, option_cases, every, ◌>>=◌, All, arith, Bool-cases, inl, inr, beq_refl, beq→eq,
}
use reticulum_group_chat.Base.Maps.{contains}
use reticulum_group_chat.Base.Text.{Bytes, bytes_eq, to_lower, to_lower_idem, trim_space}
use reticulum_group_chat.Config.{
  Settings, ConfigError, Host, Result, bad_path, loaded, failed, after, expand_paths, service_error,
  fields_error, identity_error, interfaces_error, replay_error, mode_of, propagation_error, is_hash,
  node_error, normalize_each, normalize_hash_list, validate_hashes, normalized, normalize_rest,
  normalize,
}

-- No hash stands twice.
abbrev pub IsDistinct : List Bytes → Type 0
IsDistinct [] = Unit {0}
IsDistinct (h ∷ hs) = (contains hs h ≡ false) × IsDistinct hs

abbrev pub IsLower : Bytes → Type 0
IsLower h = to_lower h ≡ h

-- Empty, or one of the list.
abbrev pub is_kept : List Bytes → Bytes → Bool
is_kept hashes h = h == [] || contains hashes h

-- A list of roles that `listed` gave: hashes in lower case, no one twice, and all that were listed.
pub record IsRoleList (listed hashes : List Bytes) : Type 0 where
  pub lower : All IsLower hashes
  pub valid : All (λ h. is_hash h ≡ true) hashes
  pub distinct : IsDistinct hashes
  pub complete : All (λ h. is_kept hashes (to_lower (trim_space h)) ≡ true) listed

-- Not among those that were seen.
abbrev Unseen : List Bytes → List Bytes → Type 0
Unseen seen = All (λ h. contains seen h ≡ false)

beq_comm : (a b : Bytes) → (a == b) ≡ (b == a)
beq_comm a b = elim (Bool-cases (a == b)) [
  | inl same ↦ same ∙ sym (turned same)
  | inr other ↦ elim (Bool-cases (b == a)) [
    | inl same ↦ absurd (ground (arith, other, turned' same))
    | inr other' ↦ other ∙ sym other'
  ]
]
  where
    turned : (a == b) ≡ true → (b == a) ≡ true
    turned same = rw (beq→eq a b same) (beq_refl b)

    turned' : (b == a) ≡ true → (a == b) ≡ true
    turned' same = rw (beq→eq b a same) (beq_refl a)

seen-less :
    (x : Bytes) (seen hs : List Bytes)
    → Unseen (x ∷ seen) hs
    → (contains hs x ≡ false) × Unseen seen hs
unfolding contains
seen-less x seen [] a = (refl, tt)
seen-less x seen (h ∷ hs) (a, as') =
    let (p, q) = seen-less x seen hs as' in
    (ground (arith, a, p, beq_comm h x), (ground (arith, a), q))

normalize_each-Unseen :
    (seen hs : List Bytes)
    → Unseen seen (normalize_each seen hs) × IsDistinct (normalize_each seen hs)
unfolding normalize_each
normalize_each-Unseen seen [] = (tt, tt)
normalize_each-Unseen seen (h ∷ hs) =
    let x = to_lower (trim_space h) in
    let (u, d) = normalize_each-Unseen (x ∷ seen) hs in
    let (fresh, u') = seen-less x seen (normalize_each (x ∷ seen) hs) u in
    if_cases (λ l. Unseen seen l × IsDistinct l) (x == [] || contains seen x)
      (λ _. normalize_each-Unseen seen hs) (λ f. ((ground arith, u'), (fresh, d)))

normalize_each-IsLower : (seen hs : List Bytes) → All IsLower (normalize_each seen hs)
unfolding normalize_each
normalize_each-IsLower seen [] = tt
normalize_each-IsLower seen (h ∷ hs) =
    let x = to_lower (trim_space h) in
    if_cases (All IsLower) (x == [] || contains seen x) (λ _. normalize_each-IsLower seen hs)
      (λ _. (to_lower_idem (trim_space h), normalize_each-IsLower (x ∷ seen) hs))

-- A value that is not blank is in the result, or was seen.
normalize_each_complete :
    (seen hs : List Bytes) (h : Bytes)
    → contains hs h ≡ true
    → (to_lower (trim_space h) == []) ≡ false
    → (contains seen (to_lower (trim_space h))
        || contains (normalize_each seen hs) (to_lower (trim_space h)))
      ≡ true
unfolding normalize_each contains
normalize_each_complete seen [] h bad _ = ground (arith, bad)
normalize_each_complete seen (k ∷ hs) h there full =
    let x = to_lower (trim_space h) in
    let y = to_lower (trim_space k) in
    if_cases (λ l. (contains seen x || contains l x) ≡ true) (y == [] || contains seen y)
      (λ skip. elim (Bool-cases (k == h)) [
        | inl same ↦
            let e : y ≡ x = ap (λ z. to_lower (trim_space z)) (beq→eq k h same) in
            let skip' = subst (λ z. (z == [] || contains seen z) ≡ true) e skip in
            ground (arith, skip', full)
        | inr other ↦ normalize_each_complete seen hs h (ground arith) full
      ])
      (λ _. elim (Bool-cases (k == h)) [
        | inl same ↦
            let e : y ≡ x = ap (λ z. to_lower (trim_space z)) (beq→eq k h same) in
            let here = subst (λ z. (y == z) ≡ true) e (beq_refl y) in ground (arith, here)
        | inr other ↦
            let rest = normalize_each_complete (y ∷ seen) hs h (ground arith) full in ground arith
      ])

every-All : (hs : List Bytes) → every is_hash hs ≡ true → All (λ h. is_hash h ≡ true) hs
unfolding every
every-All [] h = tt
every-All (x ∷ hs) h = (ground arith, every-All hs (ground arith))

All-contains :
    (P : Bytes → Type 0) (l : List Bytes) → ((h : Bytes) → contains l h ≡ true → P h) → All P l
unfolding contains
All-contains P [] f = tt
All-contains P (h ∷ l) f = (
  f h (let same = beq_refl h in ground (arith, same)),
  All-contains P l (λ k e. f k (ground (arith, e))),
)

validate_hashes-valid :
    (hs : List Bytes) → validate_hashes hs ≡ none → All (λ h. is_hash h ≡ true) hs
unfolding validate_hashes
validate_hashes-valid hs h = every-All hs (ground arith)

after-loaded :
    (o : Option ConfigError) (r : Result) (c : Settings)
    → after o r ≡ loaded c
    → (o ≡ none) × (r ≡ loaded c)
unfolding after
after-loaded none r c h = (refl, h)
after-loaded (some e) r c h = absurd (failed_is_loaded h)
  where
    failed_is_loaded : failed e ≡ loaded c → ⊥
    failed_is_loaded h = cc

normalize_hash_list-IsRoleList :
    (hs : List Bytes)
    → validate_hashes (normalize_hash_list hs) ≡ none
    → IsRoleList hs (normalize_hash_list hs)
unfolding normalize_hash_list contains
normalize_hash_list-IsRoleList hs valid = record {
  lower = normalize_each-IsLower [] hs;
  valid = validate_hashes-valid (normalize_hash_list hs) valid;
  distinct = (normalize_each-Unseen [] hs).1;
  complete =
      All-contains (λ h. is_kept (normalize_hash_list hs) (to_lower (trim_space h)) ≡ true) hs
        (λ h there. elim (Bool-cases (to_lower (trim_space h) == [])) [
          | inl blank ↦ ground (arith, blank)
          | inr full ↦
              let found = normalize_each_complete [] hs h there full in ground (arith, found, full)
        ]);
}

-- The roles of settings, if there are any.
abbrev HasRoles : Settings → Option Settings → Type 0
HasRoles c none = Unit {0}
HasRoles c (some c') = (c'.admins ≡ c.admins) × (c'.mods ≡ c.mods)

bind-HasRoles :
    (c : Settings) (o : Option Bytes) (f : Bytes → Option Settings)
    → ((p : Bytes) → HasRoles c (f p))
    → HasRoles c (o >>= f)
bind-HasRoles c none f h = tt
bind-HasRoles c (some p) f h = h p

expand_paths-HasRoles : (host : Host) (c : Settings) → HasRoles c (expand_paths host c)
unfolding expand_paths
expand_paths-HasRoles host c = bind-HasRoles c (host.expand_path c.identity_path) _ (λ _.
    bind-HasRoles c (host.expand_path c.state_path) _ (λ _.
      bind-HasRoles c (host.expand_path c.history_path) _
        (λ _. bind-HasRoles c (host.expand_path c.log_path) _ (λ _. (refl, refl)))))

normalize_rest-IsRoleList :
    (host : Host) (c c' : Settings)
    → normalize_rest host c ≡ loaded c'
    → IsRoleList c.admins c'.admins × IsRoleList c.mods c'.mods
unfolding normalize_rest
normalize_rest-IsRoleList host c c' h =
    let (_, a) = after-loaded (service_error c) _ c' h in
    let (_, b) = after-loaded (fields_error c.forwarded_fields) _ c' a in
    let (_, d) = after-loaded (identity_error host (trim_space c.identity_b64)) _ c' b in
    let (_, e) = after-loaded (interfaces_error c.interfaces) _ c' d in
    let (_, f) = after-loaded (replay_error c) _ c' e in
    let (_, g) =
      after-loaded (propagation_error (mode_of c.propagation_mode) c.direct_attempts) _ c' f in
    let (_, i) = after-loaded (node_error (to_lower (trim_space c.propagation_node))) _ c' g in
    let (admins, j) = after-loaded (validate_hashes (normalize_hash_list c.admins)) _ c' i in
    let (mods, k) = after-loaded (validate_hashes (normalize_hash_list c.mods)) _ c' j in
    let same : normalized c ≡ c' = loaded_inj k in
    subst (λ x. IsRoleList c.admins x.admins × IsRoleList c.mods x.mods) same
      (normalize_hash_list-IsRoleList c.admins admins, normalize_hash_list-IsRoleList c.mods mods)
  where
    loaded_inj : loaded (normalized c) ≡ loaded c' → normalized c ≡ c'
    loaded_inj k = cc

-- The admins of a configuration that was accepted are hashes of 16 bytes in lower-case hex, no one
-- twice, and have each entry of the file that is not blank, in lower case; so are the mods.
pub normalize-IsRoleList :
    (host : Host) (c c' : Settings)
    → normalize host c ≡ loaded c'
    → IsRoleList c.admins c'.admins × IsRoleList c.mods c'.mods
unfolding normalize
normalize-IsRoleList host c c' =
    option_cases {B = Result}
      (λ r. r ≡ loaded c' → IsRoleList c.admins c'.admins × IsRoleList c.mods c'.mods)
      (expand_paths host c) (λ _ bad. absurd (failed_is_loaded bad))
      (λ c'' e h.
        let (admins, mods) = normalize_rest-IsRoleList host c'' c' h in
        let (a, m) = subst (HasRoles c) e (expand_paths-HasRoles host c) in
        (subst (λ l. IsRoleList l c'.admins) a admins, subst (λ l. IsRoleList l c'.mods) m mods))
  where
    failed_is_loaded : failed bad_path ≡ loaded c' → ⊥
    failed_is_loaded h = cc
