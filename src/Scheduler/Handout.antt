-- ===== src/Scheduler/Handout.antt =====
-- GOScheduler::GetNextTask and NewRound: who gets which task.
use grandorgue.Prelude.{
  ℕ, zero, suc, ◌+◌, ◌^◌, ◌≤◌, ◌<◌, max, ◌≡◌, refl, ap, sym, ◌∙◌, inl, inr, false, Option, none,
  some, List, [], ◌∷◌, arith, length, get_or, drop, dec_lt, Option-cases,
}
use grandorgue.Scheduler.{
  View, Slot, Scheduler, u32, slot_at, sort_list, start_round, next_task_loop, get_next_task,
}

-- The tasks in the slots of a task list, in its order, without the null slots.
abbrev pub handouts : List Slot → List ℕ → List ℕ
handouts work [] = []
handouts work (i ∷ is) = elim (slot_at work i) [
  | some t ↦ t ∷ handouts work is
  | none ↦ handouts work is
]

-- What a round has still to hand out.
abbrev pub pending : Scheduler → List ℕ
pending s = handouts s.work (drop s.next_item s.tasks)

-- The scheduler gives work, its task list is published whole, and neither the length of that list nor
-- the index is at the end of its 32 bits.
pub record IsOpen (s : Scheduler) : Type 0 where
  pub giving : s.is_not_giving_work ≡ false
  pub published : s.item_count ≡ length s.tasks
  pub no_wrap : suc (length s.tasks) < 2 ^ 32
  pub index_room : suc s.next_item < 2 ^ 32

abbrev advance : Scheduler → Scheduler
advance s = record s { next_item = u32 (s.next_item + 1) }

drop-cons : (l : List ℕ) (i d : ℕ) → i < length l → drop i l ≡ get_or l i d ∷ drop (suc i) l
drop-cons [] i d h = absurd (omega arith)
drop-cons (x ∷ l) zero d h = refl
drop-cons (x ∷ l) (suc i) d h = drop-cons l i d (omega arith)

drop-all : (l : List ℕ) (i : ℕ) → length l ≤ i → drop i l ≡ []
drop-all [] zero h = refl
drop-all [] (suc i) h = refl
drop-all (x ∷ l) zero h = absurd (omega arith)
drop-all (x ∷ l) (suc i) h = drop-all l i (omega arith)

module _ (s : Scheduler) (o : IsOpen s) where
  open o use {giving, published, no_wrap, index_room}

  abbrev current : Slot
  current = slot_at s.work (get_or s.tasks s.next_item (length s.work))

  next_index : s.next_item < length s.tasks → (advance s).next_item ≡ suc s.next_item
  next_index h = omega arith

  pending-some :
      (t : ℕ)
      → s.next_item < length s.tasks
      → current ≡ some t
      → pending s ≡ t ∷ pending (advance s)
  pending-some t h e =
      rw (drop-cons s.tasks s.next_item (length s.work) h, next_index h) (rw (e, handouts))

  pending-none : s.next_item < length s.tasks → current ≡ none → pending s ≡ pending (advance s)
  pending-none h e =
      rw (drop-cons s.tasks s.next_item (length s.work) h, next_index h) (rw (e, handouts))

  IsOpen-advance : s.next_item < length s.tasks → IsOpen (advance s)
  IsOpen-advance h = record {
    giving = giving;
    published = published;
    no_wrap = no_wrap;
    index_room = omega arith;
  }

-- What a call of `GetNextTask` does: it takes the first pending task, if there is one. If there is
-- none, the index goes one past the end of the list, or one on if it is there already.
pub data Hands (s : Scheduler) (r : Option ℕ × Scheduler) : Type 0 where
  nothing :
      pending s ≡ []
      → r.0 ≡ none
      → r.1 ≡ record s { next_item = suc (max s.next_item (length s.tasks)) }
      → Hands s r
  task :
      (t : ℕ)
      → r.0 ≡ some t
      → pending s ≡ t ∷ pending r.1
      → IsOpen r.1
      → r.1 ≡ record s { next_item = r.1.next_item }
      → Hands s r

Hands-later :
    (s : Scheduler) (o : IsOpen s)
    → s.next_item < length s.tasks
    → current s o ≡ none
    → {r : Option ℕ × Scheduler} → Hands (advance s) r
    → Hands s r
Hands-later s o h e (nothing p q c) =
    let same : max (advance s).next_item (length s.tasks) ≡ max s.next_item (length s.tasks) =
      omega arith in
    nothing (pending-none s o h e ∙ p) q (c ∙ ap (λ k. record s { next_item = suc k }) same)
Hands-later s o h e (task t q p k c) = task t q (pending-none s o h e ∙ p) k (ground (arith, c))

past_end :
    (s : Scheduler)
    → IsOpen s
    → length s.tasks ≤ s.next_item
    → advance s ≡ record s { next_item = suc (max s.next_item (length s.tasks)) }
past_end s o h =
    let next : u32 (s.next_item + 1) ≡ suc (max s.next_item (length s.tasks)) =
      omega (arith, o.index_room) in
    ap (λ k. record s { next_item = k }) next

module _ (fuel : ℕ) (s : Scheduler) (o : IsOpen s) where
  loop_past : length s.tasks ≤ s.next_item → next_task_loop (suc fuel) s ≡ (none, advance s)
  unfolding next_task_loop
  loop_past h = ground (arith, o.published, o.giving)

  loop_null :
      s.next_item < length s.tasks
      → current s o ≡ none
      → next_task_loop (suc fuel) s ≡ next_task_loop fuel (advance s)
  unfolding next_task_loop
  loop_null h e = ground (arith, o.published, o.giving)

  loop_task :
      (t : ℕ)
      → s.next_item < length s.tasks
      → current s o ≡ some t
      → next_task_loop (suc fuel) s ≡ (some t, advance s)
  unfolding next_task_loop
  loop_task t h e = ground (arith, o.published, o.giving)

next_task_loop-Hands :
    (fuel : ℕ) (s : Scheduler)
    → IsOpen s
    → length s.tasks < fuel + s.next_item
    → 0 < fuel
    → Hands s (next_task_loop fuel s)
next_task_loop-Hands zero s o h k = absurd (omega arith)
next_task_loop-Hands (suc fuel) s o h k = elim (dec_lt s.next_item (length s.tasks)) [
  | no past ↦ rw (loop_past fuel s o (omega arith)) (
      nothing (ap (handouts s.work) (drop-all s.tasks s.next_item (omega arith))) refl
        (past_end s o (omega arith)))
  | yes before ↦ elim (Option-cases (current s o)) [
    | inl e ↦ rw (loop_null fuel s o before e) (
        Hands-later s o before e (
          next_task_loop-Hands fuel (advance s) (IsOpen-advance s o before)
            (omega (arith, o.no_wrap)) (omega arith)))
    | inr (t, e) ↦
        rw (loop_task fuel s o t before e)
          (task t refl (pending-some s o t before e) (IsOpen-advance s o before) refl)
  ]
]

-- While the scheduler gives work and `m_ItemCount` is the length of the task list, and while neither
-- that length nor the index is the largest number of 32 bits, `GetNextTask` returns the first of the
-- tasks that the round has still to hand out and takes it off, and changes nothing else. It returns
-- null only when none is left, also where the index is past the list already; then the index goes to
-- one past the end, or one on. The loop ends within its fuel.
pub get_next_task-Hands : (s : Scheduler) → IsOpen s → Hands s (get_next_task s)
unfolding get_next_task
get_next_task-Hands s o =
    next_task_loop-Hands (suc s.item_count) s o (omega (arith, o.published)) (omega arith)

-- All calls of a round, one after the other, until one returns null.
pub drain : ℕ → Scheduler → List ℕ
drain zero s = []
drain (suc calls) s =
    let (t, s') = get_next_task s in elim t [ some t' ↦ t' ∷ drain calls s' | none ↦ [] ]

drain-eq-pending :
    (calls : ℕ) (s : Scheduler) → IsOpen s → length (pending s) < calls → drain calls s ≡ pending s
unfolding drain
drain-eq-pending zero s o h = absurd (omega arith)
drain-eq-pending (suc calls) s o h = elim (get_next_task-Hands s o) [
  | nothing p q c ↦ rw (q, drain) (sym p)
  | task t q p k c ↦
      let shorter : length (pending (get_next_task s).1) < calls =
        omega (arith, ap (length {0}) p) in
      rw (q, drain) (ap (◌∷◌ t) (drain-eq-pending calls (get_next_task s).1 k shorter) ∙ sym p)
]

length-handouts : (work : List Slot) (is : List ℕ) → length (handouts work is) ≤ length is
length-handouts work [] = omega arith
length-handouts work (i ∷ is) = ground (arith, length-handouts work is)

-- In a round that `NewRound` has started, the calls of `GetNextTask` return the tasks in the slots
-- that the task list names, in its order, without the null slots, and then null. The slots are
-- those of the list that `NewRound` has sorted again, whatever the task list was made from.
pub drain-start_round :
    (v : View) (s : Scheduler)
    → s.is_not_giving_work ≡ false
    → s.item_count ≡ length s.tasks
    → suc (length s.tasks) < 2 ^ 32
    → drain (suc s.item_count) (start_round v s).0 ≡ handouts (sort_list v s.work) s.tasks
unfolding start_round
drain-start_round v s giving published small =
    drain-eq-pending (suc s.item_count) (start_round v s).0
      (record { giving = giving; published = published; no_wrap = small; index_room = omega arith })
      (omega (arith, length-handouts (sort_list v s.work) s.tasks))
