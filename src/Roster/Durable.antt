-- ===== src/Roster/Durable.antt =====
-- Proofs on the state file of internal/roster/roster.go: a restart, and a write that fails.
use reticulum_group_chat.Base.{
  ◌≡◌, subst, All, beq→eq, refl, sym, ◌∙◌, true, false, ◌||◌, none, some, List, [], ◌∷◌, arith,
  Bool-cases, inl, inr, ◌==◌, beq_refl,
}
use reticulum_group_chat.Base.Maps.{
  Map, lookup, has, insert, lookup-insert, contains, contains-keys, keys, Entries, Distinct,
  insert-Entries,
}
use reticulum_group_chat.Base.Text.{
  Bytes, bytes_eq, bytes_ltb, to_lower, to_lower_idem, sort, insert_sorted,
}
use reticulum_group_chat.Roster.Model.{
  User, Roster, State, Save, Error, load, restore_users, restore_banlist, snapshot, persist,
  defer_persist, flush,
}
use reticulum_group_chat.Roster.Laws.{
  users-persist, banlist-persist, WellFormed, IsKeyed, IsLowered,
}
use reticulum_group_chat.Roster.Steps.{
  Op, apply, run, Writes, same, at_once, later, apply-Writes, apply-WellFormed,
}

-- A restart from the file finds these members and this ban list.
pub record Restores (st : State) (r : Roster) : Type 0 where
  pub members : (load st).users ≡ r.users
  pub bans : (h : Bytes) → has h (load st).banlist ≡ has h r.banlist

restore_users_lem : (m : Map Bytes User) → Entries IsKeyed m → restore_users m ≡ m
unfolding restore_users
restore_users_lem [] k = refl
restore_users_lem ((h, u) ∷ m) k = ground (arith, restore_users_lem m k.1)

has-restore_banlist :
    (bans : Map Bytes (Unit {0})) (l : List Bytes) (h : Bytes)
    → ((j : Bytes) → contains l j ≡ true → to_lower j ≡ j)
    → has h (restore_banlist bans l) ≡ (has h bans || contains l h)
unfolding restore_banlist contains
has-restore_banlist bans [] h low = ground arith
has-restore_banlist bans (j ∷ l) h low = ground (
  arith,
  has-restore_banlist (insert (to_lower j) tt bans) l h (λ i c. low i (ground arith)),
  lookup-insert (to_lower j) h tt bans,
  low j (ground (arith, beq_refl j)),
)

contains-insert_sorted :
    (x h : Bytes) (l : List Bytes)
    → contains (insert_sorted bytes_ltb x l) h ≡ (x == h || contains l h)
unfolding contains insert_sorted
contains-insert_sorted x h [] = refl
contains-insert_sorted x h (y ∷ l) = ground (arith, contains-insert_sorted x h l)

contains-sort : (h : Bytes) (l : List Bytes) → contains (sort bytes_ltb l) h ≡ contains l h
unfolding contains sort
contains-sort h [] = refl
contains-sort h (y ∷ l) =
    ground (arith, contains-sort h l, contains-insert_sorted y h (sort bytes_ltb l))

lowered-keys :
    (m : Map Bytes (Unit {0})) (j : Bytes)
    → Entries IsLowered m
    → contains (keys m) j ≡ true
    → to_lower j ≡ j
unfolding contains keys
lowered-keys [] j l c = cc
lowered-keys ((h, u) ∷ m) j l c = elim (Bool-cases (h == j)) [
  | inl e ↦ subst (λ x. to_lower x ≡ x) (beq→eq h j e) l.0
  | inr e ↦ lowered-keys m j l.1 (ground arith)
]

-- What a well-formed roster hands to its store restores it.
snapshot-Restores : (r : Roster) → WellFormed r → Restores (snapshot r) r
unfolding snapshot load contains lookup sort
snapshot-Restores r w = record {
  members = restore_users_lem r.users w.keyed;
  bans = λ h.
      has-restore_banlist [] (sort bytes_ltb (keys r.banlist)) h
        (λ j c. lowered-keys r.banlist j w.lowered (sym (contains-sort j (keys r.banlist)) ∙ c))
      ∙ contains-sort h (keys r.banlist)
      ∙ contains-keys h r.banlist;
}

-- With no change left to write, the file restores the roster.
pub record IsDurable (r : Roster) : Type 0 where
  pub on_file : (st : State) → r.dirty ≡ false → r.store ≡ some st → Restores st r

-- Every write of this outcome succeeds.
abbrev pub Succeeds : Save → Type 0
Succeeds save = (st : State) → save st ≡ none

store-persist :
    (save : Save) (r : Roster) (st : State)
    → Succeeds save
    → (persist save r).0.store ≡ some st
    → st ≡ snapshot r
unfolding persist
store-persist save r st ok e = ground (arith, ok (snapshot r))

Restores-same :
    {st : State} {r s : Roster}
    → s.users ≡ r.users
    → s.banlist ≡ r.banlist
    → Restores st r
    → Restores st s
Restores-same u b k = record { members = rw u k.members; bans = λ h. rw b (k.bans h) }

persist-IsDurable :
    (save : Save) (r : Roster) → Succeeds save → WellFormed r → IsDurable (persist save r).0
persist-IsDurable save r ok w = record {
  on_file = λ st d e.
      Restores-same {st = st} {r = r} {s = (persist save r).0} (users-persist save r)
        (banlist-persist save r)
        (subst (λ x. Restores x r) (sym (store-persist save r st ok e)) (snapshot-Restores r w));
}

dirty-defer_persist :
    (r : Roster) (st : State) → (defer_persist r).store ≡ some st → (defer_persist r).dirty ≡ true
unfolding defer_persist
dirty-defer_persist r st e = ground arith

defer_persist-IsDurable : (r : Roster) → IsDurable (defer_persist r)
defer_persist-IsDurable r = record { on_file = λ st d e. cc (dirty-defer_persist r st e) }

Writes-IsDurable :
    {save : Save} {r s : Roster} → Succeeds save → IsDurable r → Writes save r s → IsDurable s
Writes-IsDurable ok d same = d
Writes-IsDurable {save} ok d (at_once s v e) = persist-IsDurable save s ok v
Writes-IsDurable ok d (later s v e) = defer_persist-IsDurable s

run-IsDurable :
    (r : Roster) (ops : List (Save × Op))
    → All (λ o. Succeeds o.0) ops
    → WellFormed r
    → IsDurable r
    → IsDurable (run r ops)
unfolding run
run-IsDurable r [] ok w d = d
run-IsDurable r ((save, o) ∷ ops) ok w d =
    run-IsDurable (apply save r o) ops ok.1 (apply-WellFormed save r o w)
      (Writes-IsDurable ok.0 d (apply-Writes save r w o))

has-restore_users : (m : Map Bytes User) (j : Bytes) → has j (restore_users m) ≡ has j m
unfolding restore_users lookup
has-restore_users [] j = refl
has-restore_users ((h, u) ∷ m) j = ground (arith, has-restore_users m j)

restore_users-Distinct : (m : Map Bytes User) → Distinct m → Distinct (restore_users m)
unfolding restore_users
restore_users-Distinct [] d = tt
restore_users-Distinct ((h, u) ∷ m) d = (has-restore_users m h ∙ d.0, restore_users-Distinct m d.1)

restore_users-IsKeyed : (m : Map Bytes User) → Entries IsKeyed (restore_users m)
unfolding restore_users
restore_users-IsKeyed [] = tt
restore_users-IsKeyed ((h, u) ∷ m) = (refl, restore_users-IsKeyed m)

restore_banlist-IsLowered :
    (bans : Map Bytes (Unit {0})) (l : List Bytes)
    → Entries IsLowered bans
    → Entries IsLowered (restore_banlist bans l)
unfolding restore_banlist
restore_banlist-IsLowered bans [] k = k
restore_banlist-IsLowered bans (h ∷ l) k =
    restore_banlist-IsLowered (insert (to_lower h) tt bans) l
      (insert-Entries IsLowered (to_lower h) tt bans (to_lower_idem h) k)

-- The members of a file are one object of JSON, so their keys differ; the rest the code restores.
pub load-WellFormed : (st : State) → Distinct st.users → WellFormed (load st)
unfolding load
load-WellFormed st d = record {
  distinct = restore_users-Distinct st.users d;
  keyed = restore_users-IsKeyed st.users;
  lowered = restore_banlist-IsLowered [] st.banlist tt;
}

load-IsDurable : (st : State) → IsDurable (load st)
unfolding load
load-IsDurable st = record {
  on_file = λ st' d e.
      let same_file : st ≡ st' = cc in
      subst (λ x. Restores x (load st)) same_file (record { members = refl; bans = λ h. refl });
}

-- The roster is loaded from a file whose members have different keys, and any operations follow,
-- each of whose writes succeeds. Then, if no change is deferred, a restart from the file that was
-- written last finds the same members and the same ban list.
pub run-load-IsDurable :
    (st : State) (ops : List (Save × Op))
    → Distinct st.users
    → All (λ o. Succeeds o.0) ops
    → IsDurable (run (load st) ops)
run-load-IsDurable st ops d ok =
    run-IsDurable (load st) ops ok (load-WellFormed st d) (load-IsDurable st)

-- With a deferred change and a state file, a flush whose write fails reports the error and drops
-- the change from the list of what is to be written: the next flush, whatever its write would
-- give, writes nothing and reports no error, the file stays as it was, and the members are
-- unchanged in memory.
pub flush-flush_failed :
    (save retry : Save) (r : Roster) (old : State) (e : Error)
    → r.dirty ≡ true
    → r.store ≡ some old
    → save (snapshot r) ≡ some e
    → ((flush save r).1 ≡ some e)
      × (flush retry (flush save r).0 ≡ ((flush save r).0, none))
      × ((flush save r).0.store ≡ some old)
      × ((flush save r).0.users ≡ r.users)
unfolding flush persist
flush-flush_failed save retry r old e d s f =
    (ground arith, ground arith, ground arith, ground arith)
