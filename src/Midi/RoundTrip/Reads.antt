-- ===== src/Midi/RoundTrip/Reads.antt =====
-- The tests of FromMidi in src/grandorgue/midi/events/GOMidiEvent.cpp read inside the message.
use grandorgue.Prelude.{
  ℕ, zero, suc, ◌-◌, ◌≤◌, ◌<◌, ◌≡◌, refl, ap, sym, subst, ◌∙◌, ◌≢◌, inl, inr, Bool, true, false,
  Option, some, List, [], ◌∷◌, All, arith, length, get_elem?, ◌==◌, ==_iff, leb, ltb, if◌then◌else◌,
  Bool-cases,
}
use grandorgue.Midi.Message.{
  byte_at, has_bytes, both, is_johannus_9, is_johannus_11, is_viscount, is_grandorgue, has_checksum,
  is_rodgers, is_ahlborn_galanti, johannus_9_bytes, johannus_11_bytes, viscount_bytes,
  grandorgue_bytes, ahlborn_galanti_bytes, rodgers_bytes,
}

-- A test that is made reads nothing outside.
abbrev pub IsKnown : Option Bool → Type 0
IsKnown t = (b : Bool) × (t ≡ some b)

get_elem?-some : (msg : List ℕ) (i : ℕ) → i < length msg → get_elem? msg i ≡ some (byte_at msg i)
get_elem?-some [] i h = absurd (omega arith)
get_elem?-some (x ∷ l) zero h = refl
get_elem?-some (x ∷ l) (suc i) h = get_elem?-some l i (omega arith)

has_bytes-cons :
    (msg : List ℕ) (i v : ℕ) (l : List (ℕ × ℕ))
    → i < length msg
    → has_bytes msg ((i, v) ∷ l) ≡ (if byte_at msg i == v then has_bytes msg l else some false)
unfolding has_bytes
has_bytes-cons msg i v l h = rw (get_elem?-some msg i h, has_bytes) refl

has_bytes-held :
    (msg : List ℕ) (i v : ℕ) (l : List (ℕ × ℕ))
    → i < length msg
    → byte_at msg i ≡ v
    → has_bytes msg ((i, v) ∷ l) ≡ has_bytes msg l
has_bytes-held msg i v l h e =
    let q : (byte_at msg i == v) ≡ true = (==_iff (byte_at msg i) v).1 e in
    has_bytes-cons msg i v l h ∙ ap (λ b. if b then has_bytes msg l else some false) q

has_bytes-failed :
    (msg : List ℕ) (i v : ℕ) (l : List (ℕ × ℕ))
    → i < length msg
    → (byte_at msg i == v) ≡ false
    → has_bytes msg ((i, v) ∷ l) ≡ some false
has_bytes-failed msg i v l h q =
    has_bytes-cons msg i v l h ∙ ap (λ b. if b then has_bytes msg l else some false) q

abbrev pub IsInside : List ℕ → List (ℕ × ℕ) → Type 0
IsInside msg l = All (λ (p : ℕ × ℕ). p.0 < length msg) l

pub has_bytes-IsKnown :
    (msg : List ℕ) (l : List (ℕ × ℕ)) → IsInside msg l → IsKnown (has_bytes msg l)
unfolding has_bytes
has_bytes-IsKnown msg [] h = (true, refl)
has_bytes-IsKnown msg ((i, v) ∷ l) h = elim (Bool-cases (byte_at msg i == v)) [
  | inl q ↦
      let (b, e) = has_bytes-IsKnown msg l h.1 in
      (b, has_bytes-held msg i v l h.0 ((==_iff (byte_at msg i) v).0 q) ∙ e)
  | inr q ↦ (false, has_bytes-failed msg i v l h.0 q)
]

-- A test that has been made and has held.
pub has_bytes-byte :
    (msg : List ℕ) (l : List (ℕ × ℕ))
    → IsInside msg l
    → has_bytes msg l ≡ some true
    → All (λ (p : ℕ × ℕ). byte_at msg p.0 ≡ p.1) l
unfolding has_bytes
has_bytes-byte msg [] h e = tt
has_bytes-byte msg ((i, v) ∷ l) h e = elim (Bool-cases (byte_at msg i == v)) [
  | inl q ↦
      let same = (==_iff (byte_at msg i) v).0 q in
      (same, has_bytes-byte msg l h.1 (sym (has_bytes-held msg i v l h.0 same) ∙ e))
  | inr q ↦ absurd (differ (sym (has_bytes-failed msg i v l h.0 q) ∙ e))
]
  where
    differ : some false ≢ some true
    differ q = cc

-- `&&` with a test of the size in front.
pub sized-IsKnown :
    (b : Bool) (t : Option Bool) → (b ≡ true → IsKnown t) → IsKnown (both (some b) t)
sized-IsKnown true t h = h refl
sized-IsKnown false t h = (false, refl)

sized-true :
    (b : Bool) (t : Option Bool) → both (some b) t ≡ some true → (b ≡ true) × (t ≡ some true)
sized-true true t h = (refl, h)
sized-true false t h = absurd (differ h)
  where
    differ : some false ≢ some true
    differ q = cc

both-IsKnown : (s t : Option Bool) → IsKnown s → IsKnown t → IsKnown (both s t)
both-IsKnown s t (b, e) h = subst (λ o. IsKnown (both o t)) (sym e) (sized-IsKnown b t (λ _. h))

module _ (msg : List ℕ) where
  pub is_johannus_9-IsKnown : IsKnown (is_johannus_9 msg)
  unfolding is_johannus_9
  is_johannus_9-IsKnown =
      sized-IsKnown (length msg == 9) (has_bytes msg johannus_9_bytes)
        (λ e. has_bytes-IsKnown msg johannus_9_bytes (ground (arith, e)))

  pub is_johannus_11-IsKnown : IsKnown (is_johannus_11 msg)
  unfolding is_johannus_11
  is_johannus_11-IsKnown =
      sized-IsKnown (length msg == 11) (has_bytes msg johannus_11_bytes)
        (λ e. has_bytes-IsKnown msg johannus_11_bytes (ground (arith, e)))

  pub is_viscount-IsKnown : IsKnown (is_viscount msg)
  unfolding is_viscount
  is_viscount-IsKnown =
      sized-IsKnown (length msg == 6) (has_bytes msg viscount_bytes)
        (λ e. has_bytes-IsKnown msg viscount_bytes (ground (arith, e)))

  pub is_grandorgue-IsKnown : IsKnown (is_grandorgue msg)
  unfolding is_grandorgue
  is_grandorgue-IsKnown =
      sized-IsKnown (leb 6 (length msg)) (has_bytes msg (grandorgue_bytes (length msg)))
        (λ e. has_bytes-IsKnown msg (grandorgue_bytes (length msg)) (ground (arith, e)))

  pub is_ahlborn_galanti-IsKnown : IsKnown (is_ahlborn_galanti msg)
  unfolding is_ahlborn_galanti
  is_ahlborn_galanti-IsKnown =
      sized-IsKnown (length msg == 5) (has_bytes msg ahlborn_galanti_bytes)
        (λ e. has_bytes-IsKnown msg ahlborn_galanti_bytes (ground (arith, e)))

  has_checksum-IsKnown : 7 ≤ length msg → IsKnown (has_checksum msg)
  unfolding has_checksum
  has_checksum-IsKnown h = let long : ltb (length msg) 7 ≡ false = ground arith in rw long (_, refl)

  pub is_rodgers-IsKnown : IsKnown (is_rodgers msg)
  unfolding is_rodgers
  is_rodgers-IsKnown =
      sized-IsKnown (leb 9 (length msg))
        (both (has_bytes msg rodgers_bytes)
          (both (has_checksum msg) (has_bytes msg ((length msg - 1, 0xF7) ∷ []))))
        (λ e.
          let long : 9 ≤ length msg = ground (arith, e) in
          both-IsKnown (has_bytes msg rodgers_bytes)
            (both (has_checksum msg) (has_bytes msg ((length msg - 1, 0xF7) ∷ [])))
            (has_bytes-IsKnown msg rodgers_bytes (ground (arith, long)))
            (both-IsKnown (has_checksum msg) (has_bytes msg ((length msg - 1, 0xF7) ∷ []))
              (has_checksum-IsKnown (omega arith))
              (has_bytes-IsKnown msg ((length msg - 1, 0xF7) ∷ []) (ground (arith, long)))))

  -- The sizes behind the tests that hold.
  pub is_johannus_9-length : is_johannus_9 msg ≡ some true → length msg ≡ 9
  unfolding is_johannus_9
  is_johannus_9-length h = (==_iff (length msg) 9).0 (sized-true _ _ h).0

  pub is_johannus_11-length : is_johannus_11 msg ≡ some true → length msg ≡ 11
  unfolding is_johannus_11
  is_johannus_11-length h = (==_iff (length msg) 11).0 (sized-true _ _ h).0

  pub is_viscount-length : is_viscount msg ≡ some true → length msg ≡ 6
  unfolding is_viscount
  is_viscount-length h = (==_iff (length msg) 6).0 (sized-true _ _ h).0

  pub is_ahlborn_galanti-length : is_ahlborn_galanti msg ≡ some true → length msg ≡ 5
  unfolding is_ahlborn_galanti
  is_ahlborn_galanti-length h = (==_iff (length msg) 5).0 (sized-true _ _ h).0

  pub is_rodgers-length : is_rodgers msg ≡ some true → 9 ≤ length msg
  unfolding is_rodgers
  is_rodgers-length h = let long = (sized-true (leb 9 (length msg)) _ h).0 in ground (arith, long)

  pub is_grandorgue-length : is_grandorgue msg ≡ some true → 6 ≤ length msg
  unfolding is_grandorgue
  is_grandorgue-length h =
      let long = (sized-true (leb 6 (length msg)) _ h).0 in ground (arith, long)

  pub is_grandorgue-bytes :
      is_grandorgue msg ≡ some true → (byte_at msg 0 ≡ 0xF0) × (byte_at msg 1 ≡ 0x7D)
  unfolding is_grandorgue
  is_grandorgue-bytes h =
      let (long, same) = sized-true (leb 6 (length msg)) _ h in
      let bytes = has_bytes-byte msg (grandorgue_bytes (length msg)) (ground (arith, long)) same in
      (bytes.0, bytes.1.0)

  is_johannus_9-second : is_johannus_9 msg ≡ some true → byte_at msg 1 ≡ 0
  unfolding is_johannus_9
  is_johannus_9-second h =
      let (long, same) = sized-true (length msg == 9) _ h in
      (has_bytes-byte msg johannus_9_bytes (ground (arith, long)) same).1.0

  is_johannus_11-second : is_johannus_11 msg ≡ some true → byte_at msg 1 ≡ 0
  unfolding is_johannus_11
  is_johannus_11-second h =
      let (long, same) = sized-true (length msg == 11) _ h in
      (has_bytes-byte msg johannus_11_bytes (ground (arith, long)) same).1.0

  is_viscount-second : is_viscount msg ≡ some true → byte_at msg 1 ≡ 0x31
  unfolding is_viscount
  is_viscount-second h =
      let (long, same) = sized-true (length msg == 6) _ h in
      (has_bytes-byte msg viscount_bytes (ground (arith, long)) same).1.0

  known_false : (t : Option Bool) → IsKnown t → (t ≡ some true → ⊥) → t ≡ some false
  known_false t (true, e) h = absurd (h e)
  known_false t (false, e) h = e

  -- A message of GrandOrgue passes none of the tests before.
  pub is_grandorgue-alone :
      is_grandorgue msg ≡ some true
      → (is_johannus_9 msg ≡ some false)
        × (is_johannus_11 msg ≡ some false)
        × (is_viscount msg ≡ some false)
  is_grandorgue-alone h =
      let second = (is_grandorgue-bytes h).1 in
      (
        known_false _ is_johannus_9-IsKnown (λ e. omega (arith, second, is_johannus_9-second e)),
        known_false _ is_johannus_11-IsKnown (λ e. omega (arith, second, is_johannus_11-second e)),
        known_false _ is_viscount-IsKnown (λ e. omega (arith, second, is_viscount-second e)),
      )
