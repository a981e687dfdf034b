-- ===== src/Service/Outbound/Loading.antt =====
-- Proofs on internal/service/outbound.go: what a start reads from the file.
use reticulum_group_chat.Base.{
  ℕ, suc, ◌≡◌, refl, Bool, true, false, ◌&&◌, ◌||◌, none, some, List, [], ◌∷◌, map, keep, nat_beq,
  length, All, arith, Bool-cases, inl, inr,
}
use reticulum_group_chat.Service.Outbound.Queue.{
  OutboundMessage, StoredMessage, OutboundQueue, stored, loaded, load_each, load,
}

-- A message goes direct again where propagation is off.
abbrev pub demoted : Bool → StoredMessage → StoredMessage
demoted true s = s
demoted false s = record s { propagated = false }

abbrev pub has_address : StoredMessage → Bool
has_address s = nat_beq (length s.recipient) 16

and_true : (b : Bool) → (b && true) ≡ b
and_true b = ground arith

and_false : (b : Bool) → (b && false) ≡ false
and_false b = ground arith

module _ (F : Type 0) where
  -- What the file does not hold is nil.
  abbrev pub IsBare : OutboundMessage F → Type 0
  IsBare m = (m.fields ≡ none) × (m.bubble ≡ none)

  stored-loaded :
      (ref : ℕ) (on : Bool) (s : StoredMessage) → stored (loaded {F = F} ref on s) ≡ demoted on s
  stored-loaded ref true s = λ i. record s { propagated = and_true s.propagated i }
  stored-loaded ref false s = λ i. record s { propagated = and_false s.propagated i }

  load_each_exact :
      (ref : ℕ) (on : Bool) (ss : List StoredMessage)
      → (map stored (load_each {F = F} ref on ss) ≡ map (demoted on) (keep has_address ss))
        × All IsBare (load_each {F = F} ref on ss)
  unfolding load_each keep
  load_each_exact ref on [] = (refl, tt)
  load_each_exact ref on (s ∷ ss) =
      let (same, bare) = load_each_exact (suc ref) on ss in
      elim (Bool-cases (has_address s)) [
        | inl fits ↦ rw fits ((λ i. stored-loaded ref on s i ∷ same i), ((refl, refl), bare))
        | inr other ↦ rw other (same, bare)
      ]

  -- After a start with a readable file, the queue holds, in order, each message of the file whose recipient
  -- has 16 bytes, as it stands there but without its fields and its bubble; where propagation is off, a
  -- message that was propagated is kept and goes direct. A file that cannot be read leaves the queue as it is.
  pub load_restores :
      (q : OutboundQueue F) (ss : List StoredMessage)
      → q.store ≡ some ss
      → let on = q.propagation_fallback || q.propagation_always in
        (map stored (load q true).0.pending ≡ map (demoted on) (keep has_address ss))
        × All IsBare (load q true).0.pending
        × (load q false ≡ (q, false))
  unfolding load
  load_restores q ss e =
      let (same, bare) =
        load_each_exact q.next_ref (q.propagation_fallback || q.propagation_always) ss in
      rw e (same, bare, refl)
