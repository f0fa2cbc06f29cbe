-- ===== src/Scheduler/Insertion.antt =====
-- GOScheduler::SortList as insertion of one slot after another behind the first one.
use mathlib.Core.List.{Perm}
use mathlib.Core.List.Perm
use grandorgue.Prelude.{
  ℕ, zero, suc, ◌+◌, ◌-◌, ◌<◌, ◌≡◌, refl, ap, ◌∙◌, inl, inr, Bool, true, false, List, [], ◌∷◌,
  arith, length, length-set, Bool-cases,
}
use grandorgue.Scheduler.{View, Slot, slot_at, swap_at, compare_item, sink, sort_rounds, sort_list}

swap_at-perm : (l : List Slot) (j : ℕ) → suc j < length l → Perm (swap_at l j) l
swap_at-perm [] j h = absurd (omega arith)
swap_at-perm (x ∷ []) zero h = absurd (omega arith)
swap_at-perm (x ∷ y ∷ l) zero h = Perm.swap x y l
swap_at-perm (x ∷ l) (suc j) h = Perm.cons x (swap_at-perm l j (omega arith))

module _ (v : View) where
  open v use {priority, cost}

  abbrev goes_left : ℕ → List Slot → Bool
  goes_left j l = compare_item v (slot_at l (suc j)) (slot_at l (suc (suc j)))

  sink_swap :
      (j : ℕ) (l : List Slot)
      → goes_left j l ≡ true
      → sink v (suc j) l ≡ sink v j (swap_at l (suc j))
  unfolding sink
  sink_swap j l e = rw (e, sink)

  sink_stay : (j : ℕ) (l : List Slot) → goes_left j l ≡ false → sink v (suc j) l ≡ l
  unfolding sink
  sink_stay j l e = rw (e, sink)

  length-swap_at : (l : List Slot) (j : ℕ) → length (swap_at l j) ≡ length l
  length-swap_at l j = rw length-set (length-set l j _)

  sink-perm : (j : ℕ) (l : List Slot) → suc j < length l → Perm (sink v j l) l
  sink-perm zero l h = unfold sink in Perm.refl l
  sink-perm (suc j) l h = elim (Bool-cases (goes_left j l)) [
    | inl e ↦ rw (sink_swap j l e) (
        Perm.trans (sink-perm j (swap_at l (suc j)) (omega (arith, length-swap_at l (suc j))))
          (swap_at-perm l (suc j) (omega arith)))
    | inr e ↦ rw (sink_stay j l e) (Perm.refl l)
  ]

  length-sink : (j : ℕ) (l : List Slot) → length (sink v j l) ≡ length l
  length-sink zero l = unfold sink in refl
  length-sink (suc j) l = elim (Bool-cases (goes_left j l)) [
    | inl e ↦ rw (sink_swap j l e) (length-sink j (swap_at l (suc j)) ∙ length-swap_at l (suc j))
    | inr e ↦ rw (sink_stay j l e)
  ]

  sort_rounds-perm :
      (left i : ℕ) (l : List Slot) → left + i < length l → Perm (sort_rounds v left i l) l
  unfolding sort_rounds
  sort_rounds-perm zero i l h = Perm.refl l
  sort_rounds-perm (suc left) i l h =
      Perm.trans (sort_rounds-perm left (suc i) (sink v i l) (omega (arith, length-sink i l)))
        (sink-perm i l (omega arith))

  -- Sorting loses no slot and makes none up.
  pub sort_list-perm : (l : List Slot) → Perm (sort_list v l) l
  unfolding sort_list sort_rounds
  sort_list-perm [] = Perm.refl []
  sort_list-perm (x ∷ l) = sort_rounds-perm (suc (length l) - 1) 0 (x ∷ l) (omega arith)

  -- Insertion as the loops do it: `done` holds the sorted slots from 1 on, the nearest first.
  unfoldable pub place : Slot → List Slot → List Slot
  place a [] = a ∷ []
  place a (y ∷ r) = elim (compare_item v y a) [ true ↦ y ∷ place a r | false ↦ a ∷ y ∷ r ]

  abbrev pub rev_append : List Slot → List Slot → List Slot
  rev_append [] l = l
  rev_append (y ∷ r) l = rev_append r (y ∷ l)

  unfoldable pub place_all : List Slot → List Slot → List Slot
  place_all r [] = r
  place_all r (a ∷ l) = place_all (place a r) l

  slot_at-rev_append :
      (r l : List Slot) (k : ℕ) → slot_at (rev_append r l) (length r + k) ≡ slot_at l k
  slot_at-rev_append [] l k = let e : 0 + k ≡ k = omega arith in rw e
  slot_at-rev_append (y ∷ r) l k =
      let e : suc (length r) + k ≡ length r + suc k = omega arith in
      rw e (slot_at-rev_append r (y ∷ l) (suc k))

  swap_at-rev_append :
      (r m : List Slot) (k : ℕ)
      → swap_at (rev_append r m) (length r + k) ≡ rev_append r (swap_at m k)
  swap_at-rev_append [] m k = let e : 0 + k ≡ k = omega arith in rw e
  swap_at-rev_append (z ∷ r) m k =
      let e : suc (length r) + k ≡ length r + suc k = omega arith in
      rw e (swap_at-rev_append r (z ∷ m) (suc k))

  -- The inner loop is one insertion; slot 0 stays out of it.
  sink-place :
      (x a : Slot) (r l : List Slot)
      → sink v (length r) (x ∷ rev_append r (a ∷ l)) ≡ x ∷ rev_append (place a r) l
  unfolding sink place
  sink-place x a [] l = refl
  sink-place x a (y ∷ r) l = elim (Bool-cases (compare_item v y a)) [
    | inl e ↦
        sink_swap (length r) whole (rw (left, right) e)
        ∙ ap (sink v (length r)) (ap (◌∷◌ x) swapped)
        ∙ sink-place x a r (y ∷ l)
        ∙ rw (e, place)
    | inr e ↦ sink_stay (length r) whole (rw (left, right) e) ∙ rw (e, place)
  ]
    where
      whole : List Slot
      whole = x ∷ rev_append r (y ∷ a ∷ l)

      at : length r + 0 ≡ length r
      at = omega arith

      next : length r + 1 ≡ suc (length r)
      next = omega arith

      left : slot_at (rev_append r (y ∷ a ∷ l)) (length r) ≡ y
      left = rw (← at) (slot_at-rev_append r (y ∷ a ∷ l) 0)

      right : slot_at (rev_append r (y ∷ a ∷ l)) (suc (length r)) ≡ a
      right = rw (← next) (slot_at-rev_append r (y ∷ a ∷ l) 1)

      swapped : swap_at (rev_append r (y ∷ a ∷ l)) (length r) ≡ rev_append r (a ∷ y ∷ l)
      swapped = rw (← at) (swap_at-rev_append r (y ∷ a ∷ l) 0)

  length-place : (a : Slot) (r : List Slot) → length (place a r) ≡ suc (length r)
  unfolding place
  length-place a [] = refl
  length-place a (y ∷ r) = ground (arith, length-place a r)

  sort_rounds_place :
      (x : Slot) (r l : List Slot)
      → sort_rounds v (length l) (length r) (x ∷ rev_append r l) ≡ x ∷ rev_append (place_all r l) []
  unfolding sort_rounds place_all
  sort_rounds_place x r [] = refl
  sort_rounds_place x r (a ∷ l) =
      ap (sort_rounds v (length l) (suc (length r))) (sink-place x a r l)
      ∙ rw (← length-place a r) (sort_rounds_place x (place a r) l)

  -- `SortList` never moves the first slot, and sorts the others by insertion.
  pub sort_list_place :
      (x : Slot) (l : List Slot) → sort_list v (x ∷ l) ≡ x ∷ rev_append (place_all [] l) []
  unfolding sort_list
  sort_list_place x l =
      let e : suc (length l) - 1 ≡ length l = omega arith in rw e (sort_rounds_place x [] l)
