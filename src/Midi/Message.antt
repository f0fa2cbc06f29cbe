-- ===== src/Midi/Message.antt =====
-- The tests of GOMidiEvent::FromMidi, in src/grandorgue/midi/events/GOMidiEvent.cpp, on the bytes of a
-- message. A test is `none` where it would read outside the message.
use grandorgue.Prelude.{
  ℕ, ◌-◌, Bool, Option, none, some, true, false, List, [], ◌∷◌, ◌++◌, length, get_elem?, get_or,
  ltb, leb, ◌==◌, if◌then◌else◌,
}
use grandorgue.Midi.Rodgers.{checksum}

-- A byte of the message, where it has been checked that it is there.
abbrev pub byte_at : List ℕ → ℕ → ℕ
byte_at msg i = get_or msg i 0

-- The bytes at these positions are these, tested one after the other.
unfoldable pub has_bytes : List ℕ → List (ℕ × ℕ) → Option Bool
has_bytes msg [] = some true
has_bytes msg ((i, v) ∷ l) =
    let rest = has_bytes msg l in
    elim (get_elem? msg i) [ some b ↦ if b == v then rest else some false | none ↦ none ]

-- `a && b`
abbrev pub both : Option Bool → Option Bool → Option Bool
both none b = none
both (some false) b = some false
both (some true) b = b

abbrev pub johannus : List (ℕ × ℕ)
johannus = (0, 0xF0) ∷ (1, 0x00) ∷ (2, 0x4A) ∷ (3, 0x4F) ∷ (4, 0x48) ∷ (5, 0x41) ∷ (6, 0x53) ∷ []

abbrev pub johannus_9_bytes : List (ℕ × ℕ)
johannus_9_bytes = johannus ++ (8, 0xF7) ∷ []

unfoldable pub is_johannus_9 : List ℕ → Option Bool
is_johannus_9 msg = both (some (length msg == 9)) (has_bytes msg johannus_9_bytes)

abbrev pub johannus_11_bytes : List (ℕ × ℕ)
johannus_11_bytes = johannus ++ (8, 0x10) ∷ (10, 0xF7) ∷ []

unfoldable pub is_johannus_11 : List ℕ → Option Bool
is_johannus_11 msg = both (some (length msg == 11)) (has_bytes msg johannus_11_bytes)

abbrev pub viscount_bytes : List (ℕ × ℕ)
viscount_bytes = (0, 0xF0) ∷ (1, 0x31) ∷ (5, 0xF7) ∷ []

unfoldable pub is_viscount : List ℕ → Option Bool
is_viscount msg = both (some (length msg == 6)) (has_bytes msg viscount_bytes)

abbrev pub grandorgue_bytes : ℕ → List (ℕ × ℕ)
grandorgue_bytes size = (0, 0xF0) ∷ (1, 0x7D) ∷ (2, 0x47) ∷ (3, 0x4F) ∷ (size - 1, 0xF7) ∷ []

unfoldable pub is_grandorgue : List ℕ → Option Bool
is_grandorgue msg = both (some (leb 6 (length msg))) (has_bytes msg (grandorgue_bytes (length msg)))

-- The checksum runs over `msg.size() - 7` bytes from index 5 on; below zero, that is outside.
unfoldable pub has_checksum : List ℕ → Option Bool
has_checksum msg =
    if ltb (length msg) 7
    then none
    else some (byte_at msg (length msg - 2) == checksum msg 5 (length msg - 7))

abbrev pub rodgers_bytes : List (ℕ × ℕ)
rodgers_bytes = (0, 0xF0) ∷ (1, 0x41) ∷ (3, 0x30) ∷ (4, 0x12) ∷ (5, 0x01) ∷ []

unfoldable pub is_rodgers : List ℕ → Option Bool
is_rodgers msg = both (some (leb 9 (length msg))) (
    both (has_bytes msg rodgers_bytes)
      (both (has_checksum msg) (has_bytes msg ((length msg - 1, 0xF7) ∷ []))))

abbrev pub ahlborn_galanti_bytes : List (ℕ × ℕ)
ahlborn_galanti_bytes = (0, 0xF0) ∷ (1, 0x35) ∷ (4, 0xF7) ∷ []

unfoldable pub is_ahlborn_galanti : List ℕ → Option Bool
is_ahlborn_galanti msg = both (some (length msg == 5)) (has_bytes msg ahlborn_galanti_bytes)
