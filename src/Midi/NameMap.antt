-- ===== src/Midi/NameMap.antt =====
-- src/core/GONameMap.h, GONameMap.cpp and src/grandorgue/midi/GOMidiMap.h. A name is the list of its
-- characters. `m_IdsByName` is an association list; `string_view` keys compare by their text. The
-- conversions of GOMidiMap between wxString and UTF-8, `utf8_str` and `FromUTF8`, are taken as the
-- identity: that they undo each other is assumed of wxWidgets.
pub mod Laws
use grandorgue.Prelude.{
  ℕ, suc, ◌+◌, ◌-◌, ◌%◌, ◌^◌, Bool, true, false, ◌&&◌, List, [], ◌∷◌, ◌++◌, length, get_or, leb,
  ◌==◌, not, if◌then◌else◌,
}
use grandorgue.Prelude.Int.{ℤ, pos, negsuc, ◌+ℤ◌, ◌-ℤ◌, int_bits}

abbrev pub Name : Type 0
Name = List ℕ

unfoldable pub same_name : Name → Name → Bool
same_name [] [] = true
same_name [] (b ∷ bs) = false
same_name (a ∷ as') [] = false
same_name (a ∷ as') (b ∷ bs) = (a == b) && same_name as' bs

pub record NameMap : Type 0 where
  pub names : List Name
  pub ids_by_name : List (Name × ℕ)

unfoldable pub empty : NameMap
empty = record { names = []; ids_by_name = [] }

abbrev pub id_not_in_file : ℕ
id_not_in_file = 0

-- `IdType` is 16 bits wide.
abbrev pub id_type : ℕ → ℕ
id_type n = n % 2 ^ 16

-- `find`, with `ID_NOT_IN_FILE` for a missing name.
unfoldable pub find_id : Name → List (Name × ℕ) → ℕ
find_id n [] = id_not_in_file
find_id n ((k, i) ∷ m) = if same_name k n then i else find_id n m

unfoldable pub has_name : Name → List (Name × ℕ) → Bool
has_name n [] = false
has_name n ((k, i) ∷ m) = if same_name k n then true else has_name n m

-- `emplace` leaves an entry that is there.
unfoldable pub emplace : Name → ℕ → List (Name × ℕ) → List (Name × ℕ)
emplace n i m = if has_name n m then m else (n, i) ∷ m

unfoldable pub add_name : Name → NameMap → ℕ × NameMap
add_name n m =
    let names = m.names ++ n ∷ [] in
    let new_id = id_type (length names) in
    (new_id, record { names = names; ids_by_name = emplace n new_id m.ids_by_name })

unfoldable pub get_id_by_name : NameMap → Name → ℕ
get_id_by_name m n = find_id n m.ids_by_name

unfoldable pub get_name_by_id : NameMap → ℕ → Name
get_name_by_id m i =
    if not (i == 0) && leb i (length m.names) then get_or m.names (i - 1) [] else []

unfoldable pub is_empty : Name → Bool
is_empty [] = true
is_empty (_ ∷ _) = false

unfoldable pub ensure_name_exists : Name → NameMap → ℕ × NameMap
ensure_name_exists n m =
    if is_empty n
    then (id_not_in_file, m)
    else if get_id_by_name m n == id_not_in_file
    then add_name n m
    else (get_id_by_name m n, m)

pub record MidiMap : Type 0 where
  pub device_map : NameMap
  pub recorder_element_map : NameMap

unfoldable pub get_device_id_by_logical_name : MidiMap → Name → ℕ
get_device_id_by_logical_name m n = get_id_by_name m.device_map n

unfoldable pub ensure_logical_name : Name → MidiMap → ℕ × MidiMap
ensure_logical_name n m =
    let (i, devices) = ensure_name_exists n m.device_map in (i, record m { device_map = devices })

unfoldable pub get_device_logical_name_by_id : MidiMap → ℕ → Name
get_device_logical_name_by_id m i = get_name_by_id m.device_map (id_type i)

-- Ids of recorder elements start with 0. The callers keep them in an `int`, so the id of the empty
-- name, 0 - 1 unsigned, is -1 there.
unfoldable pub ensure_recorder_element_name : Name → MidiMap → ℤ × MidiMap
ensure_recorder_element_name n m =
    let (i, elements) = ensure_name_exists n m.recorder_element_map in
    (pos i -ℤ pos 1, record m { recorder_element_map = elements })

unfoldable pub get_recorder_element_name_by_id : MidiMap → ℤ → Name
get_recorder_element_name_by_id m i =
    get_name_by_id m.recorder_element_map (int_bits (i +ℤ pos 1) 16)
