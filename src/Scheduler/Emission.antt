-- ===== src/Scheduler/Emission.antt =====
-- GOScheduler::Update: which slots the task list names, and how often.
use grandorgue.Prelude.{
  ℕ, zero, suc, ◌+◌, ◌-◌, ◌*◌, ◌≤◌, ◌<◌, ◌≡◌, refl, ap, sym, ◌∙◌, none, some, List, [], ◌∷◌, ◌++◌,
  arith, length, drop, dec_le, ltb, ◌==◌, if◌then◌else◌,
}
use grandorgue.Scheduler.{
  View, Slot, Scheduler, slot_at, sort_list, same_priority, slots_from, repeat_batch, group_tasks,
  update,
}

-- How often an index is in a list.
abbrev pub count : ℕ → List ℕ → ℕ
count k [] = 0
count k (x ∷ l) = (if x == k then 1 else 0) + count k l

count-append : (k : ℕ) (xs ys : List ℕ) → count k (xs ++ ys) ≡ count k xs + count k ys
count-append k [] ys = omega arith
count-append k (x ∷ xs) ys = omega (arith, count-append k xs ys)

count-slots_from :
    (k i n : ℕ) → count k (slots_from i n) ≡ (if ltb k i then 0 else if ltb k (i + n) then 1 else 0)
unfolding slots_from
count-slots_from k i zero = ground arith
count-slots_from k i (suc n) = ground (arith, count-slots_from k (suc i) n)

count-repeat_batch : (k n : ℕ) (b : List ℕ) → count k (repeat_batch n b) ≡ n * count k b
unfolding repeat_batch
count-repeat_batch k zero b = omega arith
count-repeat_batch k (suc n) b =
    omega (arith, count-append k b (repeat_batch n b), count-repeat_batch k n b)

module _ (v : View) where
  open v use {priority, repeatable}

  same_priority-le : (p : ℕ) (l : List Slot) → same_priority v p l ≤ length l
  unfolding same_priority
  same_priority-le p [] = omega arith
  same_priority-le p (none ∷ l) = omega arith
  same_priority-le p (some t ∷ l) = ground (arith, same_priority-le p l)

  same_priority_prefix :
      (p j : ℕ) (l : List Slot)
      → j < same_priority v p l
      → (t : ℕ) × (slot_at l j ≡ some t) × (priority t ≡ p)
  unfolding same_priority
  same_priority_prefix p j [] h = absurd (omega arith)
  same_priority_prefix p j (none ∷ l) h = absurd (omega arith)
  same_priority_prefix p zero (some t ∷ l) h = (t, refl, ground arith)
  same_priority_prefix p (suc j) (some t ∷ l) h = same_priority_prefix p j l (ground arith)

slot_at-drop : (n j : ℕ) (l : List Slot) → slot_at (drop n l) j ≡ slot_at l (n + j)
slot_at-drop zero j l = let e : 0 + j ≡ j = omega arith in rw e
slot_at-drop (suc n) j [] = refl
slot_at-drop (suc n) j (x ∷ l) =
    let e : suc n + j ≡ suc (n + j) = omega arith in rw e (slot_at-drop n j l)

length-drop : (n : ℕ) (l : List Slot) → length (drop n l) ≡ length l - n
length-drop zero l = omega arith
length-drop (suc n) [] = omega arith
length-drop (suc n) (x ∷ l) = omega (arith, length-drop n l)

-- How often a slot is to be handed out in a round.
abbrev pub shares : View → ℕ → Slot → ℕ
shares v n none = 0
shares v n (some t) = if v.repeatable t then n else 1

module _ (v : View) (n : ℕ) where
  open v use {priority}

  abbrev batch_end : ℕ → List Slot → ℕ
  batch_end t l = same_priority v (priority t) l

  -- A batch adds its own slots, then come those behind it.
  count_batch :
      (fuel k i t : ℕ) (l : List Slot)
      → count k (group_tasks v n (suc fuel) i (some t ∷ l))
        ≡ shares v n (some t) * count k (slots_from i (suc (batch_end t l)))
          + count k (group_tasks v n fuel (suc (i + batch_end t l)) (drop (batch_end t l) l))
  unfolding group_tasks
  count_batch fuel k i t l =
      let batch = slots_from i (suc (batch_end t l)) in
      let rest = group_tasks v n fuel (suc (i + batch_end t l)) (drop (batch_end t l) l) in
      omega (
        arith,
        count-append k (repeat_batch (shares v n (some t)) batch) rest,
        count-repeat_batch k (shares v n (some t)) batch,
      )

  count-group_below :
      (fuel k i : ℕ) (l : List Slot) → k < i → count k (group_tasks v n fuel i l) ≡ 0
  unfolding group_tasks
  count-group_below fuel k i [] h = refl
  count-group_below zero k i (x ∷ l) h = refl
  count-group_below (suc fuel) k i (none ∷ l) h = count-group_below fuel k (suc i) l (omega arith)
  count-group_below (suc fuel) k i (some t ∷ l) h =
      let more = batch_end t l in
      let none_in : count k (slots_from i (suc more)) ≡ 0 =
        ground (arith, count-slots_from k i (suc more)) in
      let none_after = count-group_below fuel k (suc (i + more)) (drop more l) (omega arith) in
      count_batch fuel k i t l ∙ rw (none_in, none_after) (omega arith)

  module _ (uniform : (t u : ℕ) → priority t ≡ priority u → v.repeatable t ≡ v.repeatable u) where
    shares_in_batch :
        (t j : ℕ) (l : List Slot)
        → j ≤ batch_end t l
        → shares v n (slot_at (some t ∷ l) j) ≡ shares v n (some t)
    shares_in_batch t zero l h = refl
    shares_in_batch t (suc j) l h =
        let (u, e, p) = same_priority_prefix v (priority t) j l (omega arith) in
        rw (e, uniform u t p)

    count-group_tasks :
        (fuel i j : ℕ) (l : List Slot)
        → length l ≤ fuel
        → count (i + j) (group_tasks v n fuel i l) ≡ shares v n (slot_at l j)
    unfolding group_tasks
    count-group_tasks fuel i j [] h = refl
    count-group_tasks zero i j (x ∷ l) h = absurd (omega arith)
    count-group_tasks (suc fuel) i zero (none ∷ l) h =
        count-group_below fuel (i + 0) (suc i) l (omega arith)
    count-group_tasks (suc fuel) i (suc j) (none ∷ l) h =
        let e : i + suc j ≡ suc i + j = omega arith in
        rw e (count-group_tasks fuel (suc i) j l (omega arith))
    count-group_tasks (suc fuel) i j (some t ∷ l) h = elim (dec_le j (batch_end t l)) [
      | yes inside ↦
          let once : count (i + j) (slots_from i (suc (batch_end t l))) ≡ 1 =
            ground (arith, count-slots_from (i + j) i (suc (batch_end t l))) in
          let after =
            count-group_below fuel (i + j) (suc (i + batch_end t l)) (drop (batch_end t l) l)
              (omega arith) in
          count_batch fuel (i + j) i t l
          ∙ rw (once, after, shares_in_batch t j l inside) (omega arith)
      | no outside ↦
          let more = batch_end t l in
          let d : ℕ = j - suc more in
          let here : j ≡ suc (more + d) = omega arith in
          let shifted : i + j ≡ suc (i + more) + d = omega arith in
          let apart : count (i + j) (slots_from i (suc more)) ≡ 0 =
            ground (arith, count-slots_from (i + j) i (suc more)) in
          let smaller : length (drop more l) ≤ fuel = omega (arith, length-drop more l) in
          let rest = count-group_tasks fuel (suc (i + more)) d (drop more l) smaller in
          let behind : count (i + j) (group_tasks v n fuel (suc (i + more)) (drop more l))
              ≡ shares v n (slot_at (some t ∷ l) j) =
            ap (λ q. count q (group_tasks v n fuel (suc (i + more)) (drop more l))) shifted
            ∙ rest
            ∙ ap (shares v n) (slot_at-drop more d l)
            ∙ ap (λ q. shares v n (slot_at (some t ∷ l) q)) (sym here) in
          count_batch fuel (i + j) i t l ∙ rw apart (omega (arith, behind))
    ]

    -- After `Update` the task list names every slot that holds a task, once if the task is not
    -- repeatable and `m_RepeatCount` times if it is, and names no other slot, so every index in it
    -- is inside `m_Work`. This supposes that tasks of equal priority are equally repeatable.
    pub count-update :
        (s : Scheduler) (j : ℕ)
        → s.repeat_count ≡ n
        → count j (update v s).tasks ≡ shares v n (slot_at (update v s).work j)
    unfolding update
    count-update s j e =
        let z : 0 + j ≡ j = omega arith in
        rw e (
          rw z at (
            count-group_tasks (length (sort_list v s.work)) 0 j (sort_list v s.work) (omega arith)))
