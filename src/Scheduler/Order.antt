-- ===== src/Scheduler/Order.antt =====
-- GOScheduler::SortList: what order the work list ends up in.
use mathlib.Core.List.{Perm, Mem, mem-cons, not-mem-nil}
use mathlib.Core.List.Perm
use mathlib.Core.Logic.Or
use mathlib.Core.HLevel.{⊥_prop}
use grandorgue.Prelude.{ℕ, ◌<◌, ◌≡◌, sym, subst, false, some, List, [], ◌∷◌, arith, All}
use grandorgue.Scheduler.{View, Slot, compare_item, sink, sort_rounds, sort_list}
use grandorgue.Scheduler.Insertion.{rev_append, place_all, sort_list_place, sort_list-perm}

-- No later slot should go before an earlier one: smaller priorities come first, null slots last.
abbrev pub IsOrdered : View → List Slot → Type 0
IsOrdered v [] = Unit {0}
IsOrdered v (x ∷ l) = All (λ y. compare_item v x y ≡ false) l × IsOrdered v l

module _ (v : View) (uniform : (t u : ℕ) → v.cost t ≡ v.cost u) where
  abbrev Before : Slot → Slot → Type 0
  Before x y = compare_item v x y ≡ false

  abbrev IsPlaced : List Slot → Type 0
  IsPlaced [] = Unit {0}
  IsPlaced (x ∷ r) = All (λ y. Before y x) r × IsPlaced r

  abbrev Precedes : List Slot → List Slot → Type 0
  Precedes r l = All (λ x. All (λ y. Before x y) l) r

module _ (v : View) where
  not_All_of_mem :
      (a b : ℕ) (l : List Slot)
      → v.priority b < v.priority a
      → Mem (some b) l
      → ¬ All (λ y. compare_item v (some a) y ≡ false) l
  not_All_of_mem a b [] lt m h = not-mem-nil m
  not_All_of_mem a b (y ∷ l) lt m h =
      Or.elim ⊥_prop (mem-cons.0 m)
        (λ e.
          unfold compare_item in
          ground (arith, subst (λ z. compare_item v (some a) z ≡ false) (sym e) h.0))
        (λ k. not_All_of_mem a b l lt k h.1)

  -- `SortList` never moves the first slot. So whenever a task b with a smaller priority value stands
  -- anywhere behind a first task a, the list is not in the order of the priorities afterwards.
  pub sort_list_misorders :
      (a b : ℕ) (l : List Slot)
      → Mem (some b) l
      → v.priority b < v.priority a
      → (sorted : List Slot) × (sort_list v (some a ∷ l) ≡ some a ∷ sorted)
        × Mem (some b) sorted
        × ¬ IsOrdered v (some a ∷ sorted)
  sort_list_misorders a b l m lt =
      let sorted : List Slot = rev_append v (place_all v [] l) [] in
      let same = Perm.cons_inv (
        subst (λ k. Perm k (some a ∷ l)) (sort_list_place v (some a) l)
          (sort_list-perm v (some a ∷ l))) in
      let behind = (Perm.mem_iff same).1 m in
      (sorted, sort_list_place v (some a) l, behind, λ o. not_All_of_mem a b sorted lt behind o.0)

  -- `CompareItem` compares costs also where the priorities differ. So in a list of three slots, with
  -- a task a in slot 1 and a task b in slot 2 that is less urgent but dearer than a, `SortList` moves b
  -- ahead of a, whatever is in slot 0.
  pub sort_list_cost_over_priority :
      (x : Slot) (a b : ℕ)
      → v.priority a < v.priority b
      → v.cost a < v.cost b
      → sort_list v (x ∷ some a ∷ some b ∷ []) ≡ x ∷ some b ∷ some a ∷ []
  unfolding sort_list sort_rounds sink compare_item
  sort_list_cost_over_priority x a b h k = ground arith
