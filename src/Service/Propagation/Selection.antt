-- ===== src/Service/Propagation/Selection.antt =====
-- Proofs on internal/service/propagation.go: the number of nodes, and which one is used.
use reticulum_group_chat.Base.{
  ℕ, zero, suc, ◌≤◌, ◌<◌, ◌≡◌, refl, sym, ap, subst, ◌∙◌, true, false, not, ◌&&◌, Option, none,
  some, List, [], ◌∷◌, ltb, leb, length, is_some, arith, if_cases, option_cases, Bool-cases, inl,
  inr, ◌⊎◌, leb→gt, beq_refl, All,
}
use mathlib.Core.List.{Mem, mem-cons_self, mem-cons_of_mem}
use reticulum_group_chat.Base.Maps.{
  Map, lookup, insert, delete, select, has, values, length-insert, length-delete-le,
}
use reticulum_group_chat.Base.Text.{Bytes, bytes_eq}
use reticulum_group_chat.Hex.{encode}
use reticulum_group_chat.Service.Propagation.{
  PropagationNodeInfo, PropagationNodeState, PropagationTracker, max_tracked_nodes, is_stale,
  oldest, make_room, evict_stale, heard_node, on_announce, is_candidate, longest_known, current,
}

has_first :
    (k j : Bytes) (n : PropagationNodeState) (m : Map Bytes PropagationNodeState)
    → j ≡ k
    → has j ((k, n) ∷ m) ≡ true
unfolding lookup
has_first k j n m e = subst (λ i. has i ((k, n) ∷ m) ≡ true) (sym e) (rw (beq_refl k) refl)

has_rest :
    (k j : Bytes) (n : PropagationNodeState) (m : Map Bytes PropagationNodeState)
    → has j m ≡ true
    → has j ((k, n) ∷ m) ≡ true
unfolding lookup
has_rest k j n m h = ground arith

-- The oldest node is a node of the map, or the one so far.
oldest-has :
    (key : Bytes) (at : ℕ) (m : Map Bytes PropagationNodeState)
    → (k : Bytes) × (t : ℕ) × (oldest (some (key, at)) m ≡ some (k, t))
      × ((k ≡ key) ⊎ (has k m ≡ true))
unfolding oldest
oldest-has key at [] = (key, at, refl, inl refl)
oldest-has key at ((k, n) ∷ m) = elim (Bool-cases (ltb n.last_heard at)) [
  | inl less ↦
      let (j, t, e, w) = oldest-has k n.last_heard m in
      rw less (
        j,
        t,
        e,
        inr (elim w [ inl same ↦ has_first k j n m same | inr there ↦ has_rest k j n m there ]),
      )
  | inr more ↦
      let (j, t, e, w) = oldest-has key at m in
      rw more (j, t, e, elim w [ inl same ↦ inl same | inr there ↦ inr (has_rest k j n m there) ])
]

delete-shorter :
    (k : Bytes) (m : Map Bytes PropagationNodeState)
    → has k m ≡ true
    → length (delete k m) < length m
unfolding delete lookup
delete-shorter k [] h = ground arith
delete-shorter k ((j, n) ∷ m) h = ground (arith, delete-shorter k m, length-delete-le k m)

-- With fuel for each node, there is room for one more.
length-make_room :
    (fuel : ℕ) (m : Map Bytes PropagationNodeState)
    → length m ≤ fuel
    → length (make_room fuel m) < max_tracked_nodes
unfolding make_room oldest
length-make_room zero m le = omega arith
length-make_room (suc fuel) [] le = omega arith
length-make_room (suc fuel) ((k, n) ∷ m) le =
    let (j, t, e, w) = oldest-has k n.last_heard m in
    let there : has j ((k, n) ∷ m) ≡ true = elim w [
      | inl same ↦ has_first k j n m same
      | inr there' ↦ has_rest k j n m there'
    ] in
    let shorter = delete-shorter j ((k, n) ∷ m) there in
    option_cases {B = Map Bytes PropagationNodeState} (λ r. length r < max_tracked_nodes)
      (oldest (some (k, n.last_heard)) m) (λ missing. absurd (some_none (j, t) (sym e ∙ missing)))
      λ x e'.
        if_cases {A = Map Bytes PropagationNodeState} (λ r. length r < max_tracked_nodes)
          (leb max_tracked_nodes (length ((k, n) ∷ m)))
          (λ _.
            let same : j ≡ x.0 = first_of (j, t) x (sym e ∙ e') in
            length-make_room fuel (delete x.0 ((k, n) ∷ m))
              (subst (λ i. length (delete i ((k, n) ∷ m)) ≤ fuel) same (omega arith)))
          (λ few. leb→gt max_tracked_nodes (length ((k, n) ∷ m)) few)
  where
    some_none : (x : Bytes × ℕ) → some x ≡ none → ⊥
    some_none x bad = cc

    first_of : (x y : Bytes × ℕ) → some x ≡ some y → x.0 ≡ y.0
    first_of x y same = let pairs : x ≡ y = cc in ap (λ p. p.0) pairs

length-evict_stale :
    (m : Map Bytes PropagationNodeState) (now : ℕ) → length (evict_stale m now) < max_tracked_nodes
unfolding evict_stale
length-evict_stale m now =
    length-make_room (length (select (λ _ n. not (is_stale now n)) m))
      (select (λ _ n. not (is_stale now n)) m) (omega arith)

length-on_announce :
    (max_stamp_cost : ℕ) (t : PropagationTracker) (dest : Bytes) (info : Option PropagationNodeInfo)
    (now : ℕ)
    → length t.nodes ≤ max_tracked_nodes
    → length (on_announce max_stamp_cost t dest info now).nodes ≤ max_tracked_nodes
unfolding on_announce
length-on_announce max_stamp_cost t dest none now le = le
length-on_announce max_stamp_cost t dest (some info) now le =
    let n = heard_node max_stamp_cost dest info now (lookup (encode dest) t.nodes) in
    if_cases (λ kept. length (insert (encode dest) n kept) ≤ max_tracked_nodes)
      (is_some (lookup (encode dest) t.nodes))
      (λ known. ground (arith, length-insert (encode dest) n t.nodes))
      (λ _. ground (
        arith,
        length-insert (encode dest) n (evict_stale t.nodes now),
        length-evict_stale t.nodes now,
      ))

-- An announce: the destination, what its data says, and the time.
pub record Announce : Type 0 where
  pub dest_hash : Bytes
  pub info : Option PropagationNodeInfo
  pub now : ℕ

unfoldable pub hear : ℕ → PropagationTracker → List Announce → PropagationTracker
hear max_stamp_cost t [] = t
hear max_stamp_cost t (a ∷ as') =
    hear max_stamp_cost (on_announce max_stamp_cost t a.dest_hash a.info a.now) as'

-- However many nodes announce, no more than 256 are kept.
length-hear-le :
    (max_stamp_cost : ℕ) (t : PropagationTracker) (announces : List Announce)
    → length t.nodes ≤ 256
    → length (hear max_stamp_cost t announces).nodes ≤ 256
unfolding hear
length-hear-le max_stamp_cost t [] le = le
length-hear-le max_stamp_cost t (a ∷ announces) le =
    length-hear-le max_stamp_cost (on_announce max_stamp_cost t a.dest_hash a.info a.now) announces
      (length-on_announce max_stamp_cost t a.dest_hash a.info a.now le)

module _ (now : ℕ) where
  -- A node that no candidate of the list has been known longer than.
  abbrev pub IsLongest : PropagationNodeState → Map Bytes PropagationNodeState → Type 0
  IsLongest n m =
      All (λ other. is_candidate now other ≡ true → n.first_heard ≤ other.first_heard) (values m)

  longest_known_from :
      (b : PropagationNodeState) (m : Map Bytes PropagationNodeState)
      → (n : PropagationNodeState) × (longest_known now (some b) m ≡ some n)
        × (n.first_heard ≤ b.first_heard)
        × IsLongest n m
        × ((n ≡ b) ⊎ (Mem n (values m) × (is_candidate now n ≡ true)))
  unfolding longest_known values
  longest_known_from b [] = (b, refl, omega arith, tt, inl refl)
  longest_known_from b ((k, x) ∷ m) =
      elim (Bool-cases (is_candidate now x && ltb x.first_heard b.first_heard)) [
        | inl better ↦
            let (n, e, le, longest, from) = longest_known_from x m in
            rw better (
              n,
              e,
              ground arith,
              (λ _. le, longest),
              inr (elim from [
                | inl same ↦
                    subst (λ y. Mem y (x ∷ values m) × (is_candidate now y ≡ true)) (sym same)
                      (mem-cons_self, ground arith)
                | inr (there, cand) ↦ (mem-cons_of_mem x there, cand)
              ]),
            )
        | inr no_better ↦
            let (n, e, le, longest, from) = longest_known_from b m in
            rw no_better (
              n,
              e,
              le,
              (λ cand. ground arith, longest),
              elim from [
                | inl same ↦ inl same
                | inr (there, cand) ↦ inr (mem-cons_of_mem x there, cand)
              ],
            )
      ]

  longest_known-none :
      (m : Map Bytes PropagationNodeState)
      → ((longest_known now none m ≡ none)
          × All (λ other. is_candidate now other ≡ false) (values m))
        ⊎ ((n : PropagationNodeState) × (longest_known now none m ≡ some n)
            × IsLongest n m
            × Mem n (values m)
            × (is_candidate now n ≡ true))
  unfolding longest_known values
  longest_known-none [] = inl (refl, tt)
  longest_known-none ((k, x) ∷ m) = elim (Bool-cases (is_candidate now x)) [
    | inl cand ↦
        let (n, e, le, longest, from) = longest_known_from x m in
        let (there, cand') : Mem n (x ∷ values m) × (is_candidate now n ≡ true) = elim from [
          | inl same ↦
              subst (λ y. Mem y (x ∷ values m) × (is_candidate now y ≡ true)) (sym same)
                (mem-cons_self, cand)
          | inr (there, cand') ↦ (mem-cons_of_mem x there, cand')
        ] in
        rw cand (inr (n, e, (λ _. le, longest), there, cand'))
    | inr skip ↦ rw skip (elim (longest_known-none m) [
      | inl (e, all_skipped) ↦ inl (e, (refl, all_skipped))
      | inr (n, e, longest, there, cand) ↦
          inr (n, e, (λ bad. ground arith, longest), mem-cons_of_mem x there, cand)
    ])
  ]

  -- Without a pinned node, the node to use is one of those that are usable and were heard in the last 30
  -- minutes, and none of them has been known longer; there is none only if no node is such. A pinned node
  -- is used whatever was heard.
  pub current-IsLongest :
      (t : PropagationTracker)
      → ((0 < length t.pinned) × (current t now ≡ some t.pinned))
        ⊎ ((length t.pinned ≡ 0)
            × (((current t now ≡ none)
                  × All (λ other. is_candidate now other ≡ false) (values t.nodes))
                ⊎ ((n : PropagationNodeState) × (current t now ≡ some n.dest_hash)
                    × IsLongest n t.nodes
                    × Mem n (values t.nodes)
                    × (is_candidate now n ≡ true))))
  unfolding current
  current-IsLongest t = elim (Bool-cases (ltb 0 (length t.pinned))) [
    | inl on ↦ inl (ground arith, rw (on, current) refl)
    | inr off ↦ inr (
      ground arith,
      rw (off, current)
          (elim (longest_known-none t.nodes) [
            | inl (e, skipped) ↦ inl (rw e refl, skipped)
            | inr (n, e, longest, there, cand) ↦ inr (n, rw e refl, longest, there, cand)
          ]),
    )
  ]
