-- ===== src/History.antt =====
-- internal/history/log.go: the bounded log of the messages that a new member is shown.
-- A write of the file is a parameter: it gives the error, if any. A file that is missing or empty is
-- none; one that does not parse makes `New` fail, and there is no log.
use reticulum_group_chat.Base.{
  ℕ, zero, suc, ◌-◌, ◌+◌, ◌≤◌, ◌≡◌, refl, ap, sym, ◌∙◌, not, Option, none, some, List, [], ◌∷◌,
  ◌++◌, ltb, nat_beq, length, drop, keep, if◌then◌else◌, if_cases, ltb→ge, arith, length-drop,
  length-append, option_cases,
}
use mathlib.Core.List.{append-nil, append_assoc}
use reticulum_group_chat.Base.Text.{Bytes}

pub record Entry : Type 0 where
  pub at : ℕ
  pub sender_hash : Bytes
  pub sender_nick : Bytes
  pub content : Bytes

-- `file` is what the file holds.
pub record Log : Type 0 where
  pub capacity : ℕ
  pub entries : List Entry
  pub file : Option (List Entry)

abbrev pub SaveLog : Type 0
SaveLog = List Entry → Option Bytes

-- `if len(xs) > n { xs = xs[len(xs)-n:] }`
unfoldable pub last_entries : ℕ → List Entry → List Entry
last_entries n xs = if ltb n (length xs) then drop (length xs - n) xs else xs

unfoldable pub open_log : Option (List Entry) → ℕ → Log
unfolding last_entries
open_log file capacity =
    let cap = if ltb capacity 1 then 1 else capacity in
    record {
      capacity = cap;
      entries = elim file [ none ↦ [] | some es ↦ last_entries cap es ];
      file = file;
    }

unfoldable pub persist_log : SaveLog → Log → Log × Option Bytes
persist_log save l = elim (save l.entries) [
  | none ↦ (record l { file = some l.entries }, none)
  | some e ↦ (l, some e)
]

unfoldable pub append : SaveLog → Log → Entry → Log × Option Bytes
unfolding persist_log last_entries
append save l e =
    persist_log save (record l { entries = last_entries l.capacity (l.entries ++ (e ∷ [])) })

-- A cutoff of 0 is no filter.
unfoldable pub since_oldest : Log → ℕ → List Entry
since_oldest l cutoff =
    if nat_beq cutoff 0 then l.entries else keep (λ e. not (ltb e.at cutoff)) l.entries

-- Appends in a row, each with its own outcome of the write.
unfoldable pub append_all : Log → List (SaveLog × Entry) → Log
append_all l [] = l
append_all l ((save, e) ∷ es) = append_all (append save l e).0 es

abbrev pub appended : List (SaveLog × Entry) → List Entry
appended [] = []
appended ((save, e) ∷ es) = e ∷ appended es

entries-append :
    (save : SaveLog) (l : Log) (e : Entry)
    → ((append save l e).0.entries ≡ last_entries l.capacity (l.entries ++ (e ∷ [])))
      × ((append save l e).0.capacity ≡ l.capacity)
unfolding append persist_log
entries-append save l e =
    option_cases {B = Log × Option Bytes}
      (λ x.
        (x.0.entries ≡ last_entries l.capacity (l.entries ++ (e ∷ [])))
        × (x.0.capacity ≡ l.capacity))
      (save (last_entries l.capacity (l.entries ++ (e ∷ [])))) (λ _. (refl, refl))
      (λ _ _. (refl, refl))

drop-append : (n : ℕ) (xs ys : List Entry) → n ≤ length xs → drop n (xs ++ ys) ≡ drop n xs ++ ys
unfolding drop
drop-append zero xs ys h = refl
drop-append (suc n) [] ys h = absurd (omega arith)
drop-append (suc n) (x ∷ xs) ys h = drop-append n xs ys (omega arith)

drop-drop : (n k : ℕ) (xs : List Entry) → drop n (drop k xs) ≡ drop (k + n) xs
unfolding drop
drop-drop n zero xs = let e : n ≡ 0 + n = omega arith in ap (λ i. drop i xs) e
drop-drop zero (suc k) [] = let e : suc k ≡ suc k + 0 = omega arith in ap (λ i. drop i []) e
drop-drop (suc n) (suc k) [] =
    let e : suc k + suc n ≡ suc (k + suc n) = omega arith in sym (ap (λ i. drop i []) e)
drop-drop n (suc k) (x ∷ xs) =
    let e : suc (k + n) ≡ suc k + n = omega arith in drop-drop n k xs ∙ ap (λ i. drop i (x ∷ xs)) e

-- `last_entries` is a `drop`, also where nothing is dropped.
last_entries-drop : (n : ℕ) (xs : List Entry) → last_entries n xs ≡ drop (length xs - n) xs
unfolding last_entries drop
last_entries-drop n xs =
    if_cases (λ ys. ys ≡ drop (length xs - n) xs) (ltb n (length xs)) (λ _. refl)
      λ f. sym (ap (λ k. drop k xs) (no_rest (ltb→ge n (length xs) f)))
  where
    no_rest : length xs ≤ n → length xs - n ≡ 0
    no_rest le = omega arith

last_entries-append :
    (n : ℕ) (xs ys : List Entry)
    → last_entries n (last_entries n xs ++ ys) ≡ last_entries n (xs ++ ys)
last_entries-append n xs ys =
    let k = length xs - n in
    ap (λ zs. last_entries n (zs ++ ys)) (last_entries-drop n xs)
    ∙ (last_entries-drop n (drop k xs ++ ys)
        ∙ (ap (λ a. drop a (drop k xs ++ ys)) (count k refl)
            ∙ (ap (drop (length xs + length ys - n - k)) (sym (drop-append k xs ys (omega arith)))
                ∙ (drop-drop (length xs + length ys - n - k) k (xs ++ ys)
                    ∙ (ap (λ a. drop a (xs ++ ys)) (total k refl)
                        ∙ sym (last_entries-drop n (xs ++ ys)))))))
  where
    count :
        (k : ℕ) → k ≡ length xs - n → length (drop k xs ++ ys) - n ≡ length xs + length ys - n - k
    count k e = rw (length-append (drop k xs) ys, length-drop k xs) (omega arith)

    total :
        (k : ℕ) → k ≡ length xs - n → k + (length xs + length ys - n - k) ≡ length (xs ++ ys) - n
    total k e = rw (length-append xs ys) (omega arith)

last_entries-nil : (n : ℕ) → last_entries n [] ≡ []
unfolding drop
last_entries-nil n =
    last_entries-drop n [] ∙ (let e : 0 ≡ 0 - n = omega arith in sym (ap (λ i. drop i []) e))

last_entries_idem :
    (n : ℕ) (xs : List Entry) → last_entries n (last_entries n xs) ≡ last_entries n xs
last_entries_idem n xs =
    ap (last_entries n) (sym (append-nil (last_entries n xs)))
    ∙ (last_entries-append n xs [] ∙ ap (last_entries n) (append-nil xs))

file-append :
    (save : SaveLog) (l : Log) (e : Entry)
    → (append save l e).1 ≡ none
    → (append save l e).0.file ≡ some (append save l e).0.entries
unfolding append persist_log
file-append save l e =
    option_cases {B = Log × Option Bytes} (λ x. x.1 ≡ none → x.0.file ≡ some x.0.entries)
      (save (last_entries l.capacity (l.entries ++ (e ∷ [])))) (λ _ _. refl)
      (λ _ _ bad. ground arith)

capacity-append_all :
    (l : Log) (es : List (SaveLog × Entry)) → (append_all l es).capacity ≡ l.capacity
unfolding append_all
capacity-append_all l [] = refl
capacity-append_all l ((save, e) ∷ es) =
    capacity-append_all (append save l e).0 es ∙ (entries-append save l e).1

append_all_lem :
    (l : Log) (es : List (SaveLog × Entry)) (old : List Entry)
    → l.entries ≡ last_entries l.capacity old
    → (append_all l es).entries ≡ last_entries l.capacity (old ++ appended es)
unfolding append_all
append_all_lem l [] old h = h ∙ sym (ap (last_entries l.capacity) (append-nil old))
append_all_lem l ((save, e) ∷ es) old h =
    let (p, q) = entries-append save l e in
    let step : (append save l e).0.entries
        ≡ last_entries (append save l e).0.capacity (old ++ (e ∷ [])) =
      p
      ∙ (ap (λ xs. last_entries l.capacity (xs ++ (e ∷ []))) h
          ∙ (last_entries-append l.capacity old (e ∷ [])
              ∙ ap (λ n. last_entries n (old ++ (e ∷ []))) (sym q))) in
    append_all_lem (append save l e).0 es (old ++ (e ∷ [])) step
    ∙ (ap (λ n. last_entries n ((old ++ (e ∷ [])) ++ appended es)) q
        ∙ ap (last_entries l.capacity) (append_assoc old (e ∷ []) (appended es)))

-- Opened with any file and any capacity, the log holds the last entries of the file and of what was
-- appended since, in order and as many as its capacity, which is at least one; failed writes do not
-- change that.
pub append_all-open_log :
    (file : Option (List Entry)) (capacity : ℕ) (es : List (SaveLog × Entry))
    → (append_all (open_log file capacity) es).entries
      ≡ last_entries
          (if ltb capacity 1 then 1 else capacity)
          (elim file [ none ↦ [] | some old ↦ old ] ++ appended es)
unfolding open_log
append_all-open_log none capacity es =
    append_all_lem (open_log none capacity) es []
      (sym (last_entries-nil (if ltb capacity 1 then 1 else capacity)))
append_all-open_log (some old) capacity es =
    append_all_lem (open_log (some old) capacity) es old refl

-- A write that succeeds puts into the file what the log shows, so that a log opened on that file with
-- the same capacity shows the same.
pub append-open_log :
    (file : Option (List Entry)) (capacity : ℕ) (es : List (SaveLog × Entry)) (save : SaveLog)
    (e : Entry)
    → (append save (append_all (open_log file capacity) es) e).1 ≡ none
    → (open_log (append save (append_all (open_log file capacity) es) e).0.file capacity).entries
      ≡ (append save (append_all (open_log file capacity) es) e).0.entries
unfolding open_log
append-open_log file capacity es save e h =
    let l = append_all (open_log file capacity) es in
    let p : (append save l e).0.entries
        ≡ last_entries (if ltb capacity 1 then 1 else capacity) (l.entries ++ (e ∷ [])) =
      (entries-append save l e).0
      ∙ ap (λ n. last_entries n (l.entries ++ (e ∷ [])))
          (capacity-append_all (open_log file capacity) es) in
    ap (λ f. (open_log f capacity).entries) (file-append save l e h)
    ∙ (ap (last_entries (if ltb capacity 1 then 1 else capacity)) p
        ∙ (last_entries_idem (if ltb capacity 1 then 1 else capacity) (l.entries ++ (e ∷ []))
            ∙ sym p))
