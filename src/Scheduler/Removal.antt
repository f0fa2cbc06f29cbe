-- ===== src/Scheduler/Removal.antt =====
-- GOScheduler::Remove: a task that has been taken out is never handed out again. The task list is
-- not rebuilt, so this rests on its naming slots and not tasks.
use mathlib.Core.List.{Mem, mem-cons_self, mem-cons, mem-append, not-mem-nil, mem-cons_of_mem}
use mathlib.Core.List.Perm
use mathlib.Core.Logic.Or
use mathlib.Core.HLevel.{⊥_prop}
use grandorgue.Prelude.{
  ℕ, zero, suc, ◌+◌, ◌≡◌, refl, ap, sym, ◌≢◌, inl, inr, none, some, List, [], ◌∷◌, arith, length,
  get_or, subst, Bool-cases, ◌==◌,
}
use grandorgue.Scheduler.{
  View, Slot, Scheduler, u32, slot_at, sort_list, lock, unlock, update, set_repeat_count, clear,
  add, remove, remove_list, start_round, pause_giving_work, resume_giving_work, next_task_loop,
  get_next_task,
}
use grandorgue.Scheduler.Insertion.{sort_list-perm}

-- What a user of the scheduler does to it; `take` is a call of `GetNextTask`.
pub data Operation : Type 0 where
  adds removes : Slot → Operation
  sets_repeat_count : ℕ → Operation
  clears starts_round pauses resumes takes : Operation

pub step : View → Scheduler → Operation → Scheduler
step v s (adds x) = add v x s
step v s (removes x) = (remove x s).0
step v s (sets_repeat_count n) = set_repeat_count v n s
step v s clears = (clear v s).0
step v s starts_round = (start_round v s).0
step v s pauses = pause_giving_work s
step v s resumes = resume_giving_work s
step v s takes = (get_next_task s).1

pub run : View → Scheduler → List Operation → Scheduler
run v s [] = s
run v s (o ∷ os) = run v (step v s o) os

-- No operation of the list adds the task.
abbrev pub NeverAdds : ℕ → List Operation → Type 0
NeverAdds t [] = Unit {0}
NeverAdds t (o ∷ os) = (o ≢ adds (some t)) × NeverAdds t os

abbrev IsAbsent : ℕ → Scheduler → Type 0
IsAbsent t s = ¬ Mem (some t) s.work

some-eq : {a b : ℕ} → ◌≡◌ {A = Slot} (some a) (some b) → a ≡ b
some-eq e = cc

not-mem-cons :
    (t : ℕ) (x : Slot) (l : List Slot) → x ≢ some t → ¬ Mem (some t) l → ¬ Mem (some t) (x ∷ l)
not-mem-cons t x l p q m = Or.elim ⊥_prop (mem-cons.0 m) (λ e. p (sym e)) q

not-mem-remove_list : (t : ℕ) (l : List Slot) → ¬ Mem (some t) (remove_list t l).0
unfolding remove_list
not-mem-remove_list t [] = λ m. not-mem-nil m
not-mem-remove_list t (none ∷ l) = not-mem-cons t none _ (λ e. cc) (not-mem-remove_list t l)
not-mem-remove_list t (some u ∷ l) = elim (Bool-cases (u == t)) [
  | inl e ↦ rw (e, remove_list) (not-mem-cons t none _ (λ e. cc) (not-mem-remove_list t l))
  | inr e ↦
      rw (e, remove_list)
        (not-mem-cons t (some u) _ (λ p. ground (arith, some-eq p)) (not-mem-remove_list t l))
]

-- What a list with a task removed holds, the list held before, or it is a null slot.
not-mem-remove_list_of :
    (t u : ℕ) (l : List Slot) → ¬ Mem (some t) l → ¬ Mem (some t) (remove_list u l).0
unfolding remove_list
not-mem-remove_list_of t u [] h = h
not-mem-remove_list_of t u (none ∷ l) h =
    not-mem-cons t none _ (λ e. cc) (not-mem-remove_list_of t u l (λ m. h (mem-cons_of_mem none m)))
not-mem-remove_list_of t u (some w ∷ l) h =
    let rest = not-mem-remove_list_of t u l (λ m. h (mem-cons_of_mem (some w) m)) in
    elim (Bool-cases (w == u)) [
      | inl e ↦ rw (e, remove_list) (not-mem-cons t none _ (λ e. cc) rest)
      | inr e ↦
          rw (e, remove_list)
            (not-mem-cons t (some w) _
              (λ p. h (subst (λ x. Mem (some t) (x ∷ l)) (sym p) mem-cons_self)) rest)
    ]

slot_at-mem : (t i : ℕ) (l : List Slot) → slot_at l i ≡ some t → Mem (some t) l
slot_at-mem t i [] e = cc
slot_at-mem t zero (x ∷ l) e = rw e mem-cons_self
slot_at-mem t (suc i) (x ∷ l) e = mem-cons_of_mem x (slot_at-mem t i l e)

next_task_loop-mem :
    (fuel : ℕ) (s : Scheduler) (t : ℕ) → (next_task_loop fuel s).0 ≡ some t → Mem (some t) s.work
unfolding next_task_loop
next_task_loop-mem zero s t e = cc
next_task_loop-mem (suc fuel) s t e = ground (
  arith,
  slot_at-mem t (get_or s.tasks s.next_item (length s.work)) s.work,
  next_task_loop-mem fuel (record s { next_item = u32 (s.next_item + 1) }) t,
)

next_task_loop-work : (fuel : ℕ) (s : Scheduler) → (next_task_loop fuel s).1.work ≡ s.work
unfolding next_task_loop
next_task_loop-work zero s = refl
next_task_loop-work (suc fuel) s =
    ground (arith, next_task_loop-work fuel (record s { next_item = u32 (s.next_item + 1) }))

not-mem-sort_list :
    (v : View) (t : ℕ) (l : List Slot) → ¬ Mem (some t) l → ¬ Mem (some t) (sort_list v l)
not-mem-sort_list v t l h m = h ((Perm.mem_iff (sort_list-perm v l)).0 m)

add-IsAbsent :
    (v : View) (t : ℕ) (x : Slot) (s : Scheduler)
    → x ≢ some t
    → IsAbsent t s
    → IsAbsent t (add v x s)
unfolding add update lock unlock
add-IsAbsent v t none s p h = h
add-IsAbsent v t (some u) s p h =
    not-mem-sort_list v t _
      λ m. Or.elim ⊥_prop (mem-append.0 m) h (not-mem-cons t (some u) [] p (λ k. not-mem-nil k))

remove-IsAbsent : (t : ℕ) (x : Slot) (s : Scheduler) → IsAbsent t s → IsAbsent t (remove x s).0
unfolding remove
remove-IsAbsent t none s h = h
remove-IsAbsent t (some u) s h = not-mem-remove_list_of t u s.work h

step-IsAbsent :
    (v : View) (t : ℕ) (s : Scheduler) (o : Operation)
    → o ≢ adds (some t)
    → IsAbsent t s
    → IsAbsent t (step v s o)
unfolding step update lock unlock set_repeat_count clear start_round pause_giving_work
    resume_giving_work get_next_task
step-IsAbsent v t s (adds x) p h = add-IsAbsent v t x s (λ e. p (ap adds e)) h
step-IsAbsent v t s (removes x) p h = remove-IsAbsent t x s h
step-IsAbsent v t s (sets_repeat_count n) p h = not-mem-sort_list v t s.work h
step-IsAbsent v t s clears p h = not-mem-sort_list v t [] (λ m. not-mem-nil m)
step-IsAbsent v t s starts_round p h = not-mem-sort_list v t s.work h
step-IsAbsent v t s pauses p h = h
step-IsAbsent v t s resumes p h = h
step-IsAbsent v t s takes p h = rw (next_task_loop-work (suc s.item_count) s) h

run-IsAbsent :
    (v : View) (t : ℕ) (s : Scheduler) (os : List Operation)
    → NeverAdds t os
    → IsAbsent t s
    → IsAbsent t (run v s os)
unfolding run
run-IsAbsent v t s [] p h = h
run-IsAbsent v t s (o ∷ os) p h = run-IsAbsent v t (step v s o) os p.1 (step-IsAbsent v t s o p.0 h)

-- Once `Remove` has taken a task out, `GetNextTask` does not return it, whatever else is done with
-- the scheduler in between (rounds, other tasks added and removed, pauses, a new repeat count), as
-- long as the task is not added again.
pub removed_never_handed_out :
    (v : View) (t : ℕ) (s : Scheduler) (os : List Operation)
    → NeverAdds t os
    → (get_next_task (run v (remove (some t) s).0 os)).0 ≢ some t
unfolding get_next_task remove
removed_never_handed_out v t s os p e =
    run-IsAbsent v t _ os p (not-mem-remove_list t s.work) (next_task_loop-mem _ _ t e)
