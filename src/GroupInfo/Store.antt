-- ===== src/GroupInfo/Store.antt =====
-- The store of internal/groupinfo/groupinfo.go and its operations.
use reticulum_group_chat.Base.{
  ℕ, ◌-◌, ◌||◌, Option, none, some, List, [], ◌∷◌, ◌++◌, ltb, leb, if◌then◌else◌, length, take,
  drop, get_elem?, map,
}
use reticulum_group_chat.Base.Text.{Bytes}
use reticulum_group_chat.GroupInfo.Truncate.{truncate_text}

abbrev pub max_info_bytes : ℕ
max_info_bytes = 256

abbrev pub max_pins : ℕ
max_pins = 10

abbrev pub max_pin_bytes : ℕ
max_pin_bytes = 200

pub record Pin : Type 0 where
  pub at : ℕ
  pub by : Bytes
  pub by_nick : Bytes
  pub words : Bytes  -- Text

-- fileFormat
pub record File : Type 0 where
  pub info : Bytes
  pub pins : List Pin

pub record Store : Type 0 where
  pub info : Bytes
  pub pins : List Pin
  pub file : File

pub data Error : Type 0 where
  pins_full : Error
  io : Bytes → Error

abbrev pub SaveFile : Type 0
SaveFile = File → Option Bytes

abbrev pub truncate_pin : Pin → Pin
truncate_pin p = record p { words = truncate_text p.words max_pin_bytes }

-- `New` and `load`, over a file that was read; an empty or missing one is `record { [], [] }`.
unfoldable pub load : File → Store
load f = record {
  info = truncate_text f.info max_info_bytes;
  pins = map truncate_pin (if ltb max_pins (length f.pins) then take max_pins f.pins else f.pins);
  file = f;
}

abbrev saved : Store → File → Option Bytes → Store × Option Error
saved s f none = (record s { file = f }, none)
saved s f (some e) = (s, some (io e))

-- persistLocked
unfoldable pub persist : SaveFile → Store → Store × Option Error
persist save s = let f : File = record { info = s.info; pins = s.pins } in saved s f (save f)

unfoldable pub set_info : SaveFile → Store → Bytes → Store × Option Error
unfolding persist
set_info save s words = persist save (record s { info = truncate_text words max_info_bytes })

unfoldable pub pin_count : Store → ℕ
pin_count s = length s.pins

unfoldable pub add_pin : SaveFile → Store → Pin → Store × Option Error
unfolding persist
add_pin save s p =
    if leb max_pins (length s.pins)
    then (s, some pins_full)
    else persist save (record s { pins = s.pins ++ truncate_pin p ∷ [] })

abbrev removal : Pin → Store × Option Error → Store × Option Pin × Option Error
removal p (s, e) = (s, some p, e)

-- The index is from 1; `none` for the pin is the result `false`.
unfoldable pub remove_pin : SaveFile → Store → ℕ → Store × Option Pin × Option Error
unfolding persist
remove_pin save s n =
    if ltb n 1 || ltb (length s.pins) n then (s, none, none) else elim (get_elem? s.pins (n - 1)) [
      | none ↦ (s, none, none)
      | some p ↦ removal p (persist save (record s { pins = take (n - 1) s.pins ++ drop n s.pins }))
    ]
