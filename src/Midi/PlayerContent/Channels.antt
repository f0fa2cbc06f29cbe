-- ===== src/Midi/PlayerContent/Channels.antt =====
-- The channels of a file's manuals: GOMidiPlayerContent::computeManualChannels.
use grandorgue.Prelude.{
  ℕ, zero, suc, ◌+◌, ◌<◌, ◌≤◌, max, ◌^◌, Bool, true, false, ◌&&◌, List, [], ◌∷◌, ◌++◌, All, length,
  map, ◌≡◌, ◌≢◌, inl, inr, refl, ap, sym, ◌∙◌, arith, Bool-cases, if◌then◌else◌,
}
use grandorgue.Prelude.Int.{ℤ, pos, negsuc, leb_ℤ, eq_ℤ, to_u32}
use grandorgue.Midi.PlayerContent.{
  ChannelMapping, is_every_in_range, contains, distinct_numbers, is_mapping_usable, next_channels,
  is_use_input_number, is_pedal_first, manual_count, compute_manual_channels,
}

abbrev pub IsDistinct : List ℕ → Type 0
IsDistinct [] = Unit {0}
IsDistinct (c ∷ l) = All (λ (d : ℕ). c ≢ d) l × IsDistinct l

-- MIDI channels count from 1.
abbrev pub IsWithin : ℕ → List ℕ → Type 0
IsWithin limit l = All (λ (c : ℕ). (1 ≤ c) × (c ≤ limit)) l

next_channels-length : (n c : ℕ) → length (next_channels n c) ≡ n
unfolding next_channels
next_channels-length zero c = refl
next_channels-length (suc n) c = ap suc (next_channels-length n (suc c))

next_channels-above : (n c d : ℕ) → d < c → All (λ (x : ℕ). d ≢ x) (next_channels n c)
unfolding next_channels
next_channels-above zero c d h = tt
next_channels-above (suc n) c d h =
    (omega (arith, h), next_channels-above n (suc c) d (omega (arith, h)))

next_channels-below : (n c d : ℕ) → n + c ≤ d → All (λ (x : ℕ). d ≢ x) (next_channels n c)
unfolding next_channels
next_channels-below zero c d h = tt
next_channels-below (suc n) c d h =
    (omega (arith, h), next_channels-below n (suc c) d (omega (arith, h)))

next_channels-IsDistinct : (n c : ℕ) → IsDistinct (next_channels n c)
unfolding next_channels
next_channels-IsDistinct zero c = tt
next_channels-IsDistinct (suc n) c =
    (next_channels-above n (suc c) c (omega arith), next_channels-IsDistinct n (suc c))

next_channels-IsWithin :
    (n c limit : ℕ) → 1 ≤ c → n + c ≤ suc limit → IsWithin limit (next_channels n c)
unfolding next_channels
next_channels-IsWithin zero c limit h le = tt
next_channels-IsWithin (suc n) c limit h le = (
  (h, omega (arith, le)),
  next_channels-IsWithin n (suc c) limit (omega arith) (omega (arith, le)),
)

-- A set is no larger than the list.
distinct_numbers_bound : (l : List ℤ) → length (distinct_numbers l) ≤ length l
unfolding distinct_numbers
distinct_numbers_bound [] = omega arith
distinct_numbers_bound (n ∷ l) = elim (Bool-cases (contains n l)) [
  | inl e ↦ rw e (let rest = distinct_numbers_bound l in omega (arith, rest))
  | inr e ↦ rw e (let rest = distinct_numbers_bound l in omega (arith, rest))
]

abbrev IsAllDistinct : List ℤ → Type 0
IsAllDistinct [] = Unit {0}
IsAllDistinct (n ∷ l) = (contains n l ≡ false) × IsAllDistinct l

full-IsAllDistinct : (l : List ℤ) → length (distinct_numbers l) ≡ length l → IsAllDistinct l
unfolding distinct_numbers
full-IsAllDistinct [] h = tt
full-IsAllDistinct (n ∷ l) h =
    let (fresh, rest) = full (contains n l) h in (fresh, full-IsAllDistinct l rest)
  where
    full :
        (b : Bool)
        → length (if b then distinct_numbers l else n ∷ distinct_numbers l) ≡ suc (length l)
        → (b ≡ false) × (length (distinct_numbers l) ≡ length l)
    full true h = let most = distinct_numbers_bound l in absurd (omega (arith, h, most))
    full false h = (refl, omega (arith, h))

-- A number in the range is a channel.
abbrev IsChannel : ℤ → Type 0
IsChannel n = (a : ℕ) × (n ≡ pos a) × (1 ≤ a) × (a ≤ 16)

range-IsChannel : (n : ℤ) → leb_ℤ (pos 1) n ≡ true → leb_ℤ n (pos 16) ≡ true → IsChannel n
range-IsChannel (pos a) h h' = (a, refl, ground (arith, h), ground (arith, h'))
range-IsChannel (negsuc a) h h' = absurd (ground (arith, h))

range-All : (l : List ℤ) → is_every_in_range l ≡ true → All IsChannel l
unfolding is_every_in_range
range-All [] h = tt
range-All (n ∷ l) h =
    (range-IsChannel n (ground (arith, h)) (ground (arith, h)), range-All l (ground (arith, h)))

small_u32 : (a : ℕ) → a ≤ 16 → to_u32 (pos a) ≡ a
small_u32 a h = omega (arith, h)

mapped-apart :
    (n : ℤ) (l : List ℤ)
    → IsChannel n
    → All IsChannel l
    → contains n l ≡ false
    → All (λ (x : ℕ). to_u32 n ≢ x) (map to_u32 l)
unfolding contains
mapped-apart n [] c all h = tt
mapped-apart n (m ∷ l) (a, e, from, to) ((b, e', from', to'), all) h = (
  λ q.
      let same : a ≡ b =
        sym (small_u32 a to) ∙ ap to_u32 (sym e) ∙ q ∙ ap to_u32 e' ∙ small_u32 b to' in
      let equal : eq_ℤ n m ≡ true = rw (e, e', same) (ground arith) in
      absurd (ground (arith, equal, h)),
  mapped-apart n l (a, e, from, to) all (ground (arith, h)),
)

mapped-IsDistinct : (l : List ℤ) → All IsChannel l → IsAllDistinct l → IsDistinct (map to_u32 l)
mapped-IsDistinct [] all d = tt
mapped-IsDistinct (n ∷ l) all d = (mapped-apart n l all.0 all.1 d.0, mapped-IsDistinct l all.1 d.1)

mapped-IsWithin :
    (l : List ℤ) (limit : ℕ) → 16 ≤ limit → All IsChannel l → IsWithin limit (map to_u32 l)
mapped-IsWithin [] limit h all = tt
mapped-IsWithin (n ∷ l) limit h ((a, e, from, to), all) = (
  (rw (e, small_u32 a to) from, rw (e, small_u32 a to) (omega (arith, to, h))),
  mapped-IsWithin l limit h all,
)

mapped-length : (l : List ℤ) → length (map to_u32 l) ≡ length l
mapped-length [] = refl
mapped-length (n ∷ l) = ap suc (mapped-length l)

-- As many channels as numbers, no two of them the same, and all from 1 to 16 or to their number.
pub record IsAssigned (l : List ℤ) (channels : List ℕ) : Type 0 where
  pub size : length channels ≡ length l
  pub apart : IsDistinct channels
  pub within : IsWithin (max 16 (length l)) channels

counted-IsAssigned :
    (l : List ℤ) (n from : ℕ) → n ≡ length l → from ≡ 1 → IsAssigned l (next_channels n from)
counted-IsAssigned l n from e e' = record {
  size = next_channels-length n from ∙ e;
  apart = next_channels-IsDistinct n from;
  within =
      next_channels-IsWithin n from (max 16 (length l)) (omega (arith, e')) (omega (arith, e, e'));
}

pedal-IsAssigned :
    (l : List ℤ) (first : Bool) (n : ℕ)
    → suc n ≡ length l
    → IsAssigned l ((if first then 1 else n + 1) ∷ next_channels n (if first then 2 else 1))
pedal-IsAssigned l true n e = record {
  size = ap suc (next_channels-length n 2) ∙ e;
  apart = (next_channels-above n 2 1 (omega arith), next_channels-IsDistinct n 2);
  within = (
    (omega arith, omega arith),
    next_channels-IsWithin n 2 (max 16 (length l)) (omega arith) (omega (arith, e)),
  );
}
pedal-IsAssigned l false n e = record {
  size = ap suc (next_channels-length n 1) ∙ e;
  apart = (next_channels-below n 1 (n + 1) (omega arith), next_channels-IsDistinct n 1);
  within = (
    (omega arith, omega (arith, e)),
    next_channels-IsWithin n 1 (max 16 (length l)) (omega arith) (omega (arith, e)),
  );
}

usable-IsAssigned : (l : List ℤ) → is_mapping_usable l ≡ true → IsAssigned l (map to_u32 l)
unfolding is_mapping_usable
usable-IsAssigned l h =
    let all = range-All l (ground (arith, h)) in
    let full : length (distinct_numbers l) ≡ length l = ground (arith, h) in
    record {
      size = mapped-length l;
      apart = mapped-IsDistinct l all (full-IsAllDistinct l full);
      within = mapped-IsWithin l (max 16 (length l)) (omega arith) all;
    }

in_turn-IsAssigned :
    (has_pedal first : Bool) (l : List ℤ)
    → (has_pedal ≡ true → 0 < length l)
    → length l < 2 ^ 32
    → IsAssigned l (
        (if has_pedal then (if first then 1 else manual_count has_pedal l + 1) ∷ [] else [])
        ++ next_channels (manual_count has_pedal l) (if first && has_pedal then 2 else 1))
in_turn-IsAssigned true true l h few =
    let some_one = h refl in
    pedal-IsAssigned l true (manual_count true l) (omega (arith, some_one, few))
in_turn-IsAssigned true false l h few =
    let some_one = h refl in
    pedal-IsAssigned l false (manual_count true l) (omega (arith, some_one, few))
in_turn-IsAssigned false true l h few =
    counted-IsAssigned l (manual_count false l) 1 (omega (arith, few)) refl
in_turn-IsAssigned false false l h few =
    counted-IsAssigned l (manual_count false l) 1 (omega (arith, few)) refl

-- For every mapping, with a pedal or without: each manual gets a channel of its own, from 1 to 16, or to
-- the number of manuals if there are more than 16. This supposes that an organ with a pedal has a
-- number for it, and fewer than 2^32 numbers.
pub compute_manual_channels-IsAssigned :
    (has_pedal : Bool) (l : List ℤ) (mode : ChannelMapping)
    → (has_pedal ≡ true → 0 < length l)
    → length l < 2 ^ 32
    → IsAssigned l (compute_manual_channels has_pedal l mode)
unfolding compute_manual_channels
compute_manual_channels-IsAssigned has_pedal l mode h few =
    elim (Bool-cases (is_use_input_number mode && is_mapping_usable l)) [
      | inl e ↦ rw e (usable-IsAssigned l (ground (arith, e)))
      | inr e ↦ rw e (in_turn-IsAssigned has_pedal (is_pedal_first mode) l h few)
    ]
