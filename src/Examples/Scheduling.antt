-- ===== src/Examples/Scheduling.antt =====
-- src/grandorgue/scheduler/GOScheduler.cpp on a few tasks.
use mathlib.Core.List.{Mem, Perm, mem-cons_self}
use grandorgue.Prelude.{◌≡◌, ◌≢◌, refl, ap, false, none, some, List, [], ◌∷◌, arith, ltb}
use grandorgue.Scheduler.{
  View, Slot, Scheduler, slot_at, sort_list, remove, update, start_round, get_next_task,
  group_tasks, slots_from, repeat_batch, same_priority, sort_rounds, sink, compare_item,
}
use grandorgue.Scheduler.Insertion.{sort_list-perm}
use grandorgue.Scheduler.Order.{IsOrdered, sort_list_misorders, sort_list_cost_over_priority}
use grandorgue.Scheduler.Emission.{count, shares, count-update}
use grandorgue.Scheduler.Handout.{Hands, handouts, drain, get_next_task-Hands, drain-start_round}
use grandorgue.Scheduler.Removal.{run, takes, starts_round, removed_never_handed_out}

-- A task's name is its priority; the tasks below 30 are repeatable, as the cells are.
abbrev by_name : View
by_name = record { priority = λ t. t; cost = λ _. 0; repeatable = λ t. ltb t 30 }

-- The dearer task has the greater priority value.
abbrev by_cost : View
by_cost = record { priority = λ t. t; cost = λ t. t; repeatable = λ _. false }

abbrev three_slots : List Slot
three_slots = some 20 ∷ none ∷ some 50 ∷ []

abbrev giving : Scheduler
giving = record {
  work = three_slots;
  tasks = 0 ∷ 1 ∷ 2 ∷ [];
  is_not_giving_work = false;
  next_item = 1;
  item_count = 3;
  repeat_count = 2;
  round_number = 7;
}

sorted_test :
    sort_list by_name (some 20 ∷ some 50 ∷ none ∷ some 30 ∷ [])
    ≡ some 20 ∷ some 30 ∷ some 50 ∷ none ∷ []
unfolding sort_list sort_rounds sink compare_item
sorted_test = refl

repeated_test : (update by_name giving).tasks ≡ 0 ∷ 0 ∷ 1 ∷ []
unfolding update group_tasks slots_from repeat_batch same_priority sort_list sort_rounds sink
    compare_item
repeated_test = refl

removed_never_handed_out_example :
    (get_next_task (run by_name (remove (some 20) giving).0 (starts_round ∷ takes ∷ []))).0
    ≢ some 20
removed_never_handed_out_example =
    removed_never_handed_out by_name 20 giving (starts_round ∷ takes ∷ [])
      ((λ e. cc), ((λ e. cc), tt))

get_next_task-Hands_example : Hands giving (get_next_task giving)
get_next_task-Hands_example =
    get_next_task-Hands giving
      (record { giving = refl; published = refl; no_wrap = omega arith; index_room = omega arith })

drain-start_round_example :
    drain 4 (start_round by_name giving).0
    ≡ handouts (sort_list by_name three_slots) (0 ∷ 1 ∷ 2 ∷ [])
drain-start_round_example = drain-start_round by_name giving refl refl (omega arith)

count-update_example :
    count 0 (update by_name giving).tasks
    ≡ shares by_name 2 (slot_at (update by_name giving).work 0)
count-update_example = count-update by_name 2 (λ t u e. ap (λ n. ltb n 30) e) giving 0 refl

sort_list-perm_example : Perm (sort_list by_name three_slots) three_slots
sort_list-perm_example = sort_list-perm by_name three_slots

sort_list_misorders_example :
    (sorted : List Slot) × (sort_list by_name (some 50 ∷ some 20 ∷ []) ≡ some 50 ∷ sorted)
    × Mem (some 20) sorted
    × ¬ IsOrdered by_name (some 50 ∷ sorted)
sort_list_misorders_example =
    sort_list_misorders by_name 50 20 (some 20 ∷ []) mem-cons_self (omega arith)

sort_list_cost_over_priority_example :
    sort_list by_cost (none ∷ some 20 ∷ some 50 ∷ []) ≡ none ∷ some 50 ∷ some 20 ∷ []
sort_list_cost_over_priority_example =
    sort_list_cost_over_priority by_cost none 20 50 (omega arith) (omega arith)
