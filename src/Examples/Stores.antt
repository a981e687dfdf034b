-- ===== src/Examples/Stores.antt =====
-- The description and the pins at concrete inputs.
use reticulum_group_chat.Base.{◌+◌, ◌≡◌, none, some, List, [], ◌∷◌, ◌++◌, arith, length}
use reticulum_group_chat.Base.Text.{Bytes, text}
use reticulum_group_chat.GroupInfo.Store.{Pin, Store, SaveFile, load, remove_pin}
use reticulum_group_chat.GroupInfo.Bounds.{
  Op, sets_info, pins, unpins, run, IsBounded, run-load-IsBounded, remove_pin_exact,
}

abbrev words_of : Bytes → Pin
words_of w = record { at = 1; by = text "b0"; by_nick = text "bob"; words = w }

abbrev board : Store
board = record {
  info = text "Friends of the park";
  pins = words_of (text "one") ∷ words_of (text "two") ∷ words_of (text "three") ∷ [];
  file = record { info = []; pins = [] };
}

abbrev writes : SaveFile
writes f = none

abbrev fails : SaveFile
fails f = some (text "disk full")

abbrev edits : List (SaveFile × Op)
edits =
    (writes, sets_info (text "Friends"))
    ∷ (fails, pins (words_of (text "four")))
    ∷ (writes, unpins 1)
    ∷ []

run-load-IsBounded_example :
    IsBounded (run (load (record { info = text "hand-edited"; pins = board.pins })) edits)
run-load-IsBounded_example =
    run-load-IsBounded (record { info = text "hand-edited"; pins = board.pins }) edits

remove_pin_exact_example :
    (p : Pin) × (front : List Pin) × (back : List Pin) × (board.pins ≡ front ++ p ∷ back)
    × (length front + 1 ≡ 2)
    × ((remove_pin fails board 2).1 ≡ some p)
    × ((remove_pin fails board 2).0.pins ≡ front ++ back)
remove_pin_exact_example = remove_pin_exact fails board 2 (omega arith) (omega arith)
