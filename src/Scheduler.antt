-- ===== src/Scheduler.antt =====
-- src/grandorgue/scheduler: GOScheduler.h, GOScheduler.cpp and GORoundCounter.h.
-- A task is its address, a number. What the scheduler asks of a task (its priority, its cost and
-- whether it is repeatable) is a `View`; what it tells the tasks is a list of calls. `m_Tasks` holds
-- addresses of slots of `m_Work`, so here it holds their indices. Each operation runs under
-- `m_Mutex`, and is one step. `GetNextTask` does not take the mutex: it reads `m_IsNotGivingWork`,
-- `m_ItemCount`, `m_Tasks` and the slots, and moves the atomic `m_NextItem`, while another thread may
-- hold the mutex; here a call of it is one step too, and what happens inside one is not modelled.
pub mod Insertion
pub mod Order
pub mod Emission
pub mod Handout
pub mod Removal
use grandorgue.Prelude.{
  ℕ, zero, suc, ◌+◌, ◌-◌, ◌%◌, ◌^◌, Bool, true, false, ◌&&◌, Option, none, some, List, [], ◌∷◌,
  ◌++◌, length, get_or, set, drop, ltb, leb, ◌==◌, if◌then◌else◌,
}

pub record View : Type 0 where
  pub priority : ℕ → ℕ
  pub cost : ℕ → ℕ
  pub repeatable : ℕ → Bool

abbrev pub Slot : Type 0
Slot = Option ℕ

-- The calls that the scheduler makes of a task.
pub data TaskCall : Type 0 where
  new_round complete_round discard_content : ℕ → TaskCall

pub record Scheduler : Type 0 where
  pub work : List Slot
  pub tasks : List ℕ
  pub is_not_giving_work : Bool
  pub next_item : ℕ
  pub item_count : ℕ
  pub repeat_count : ℕ
  pub round_number : ℕ

abbrev pub u32 : ℕ → ℕ
u32 n = n % 2 ^ 32

unfoldable pub init : Scheduler
init = record {
  work = [];
  tasks = [];
  is_not_giving_work = false;
  next_item = 0;
  item_count = 0;
  repeat_count = 0;
  round_number = 0;
}

-- `GetRoundNumber` is the field; `fetch_add` wraps at 64 bits.
unfoldable pub advance_round : ℕ → ℕ
advance_round n = (n + 1) % 2 ^ 64

unfoldable pub lock : Scheduler → Scheduler
lock s = record s { item_count = 0 }

unfoldable pub unlock : Scheduler → Scheduler
unlock s = record s { item_count = u32 (length s.tasks) }

-- The slot at an index; a null pointer out of range.
abbrev pub slot_at : List Slot → ℕ → Slot
slot_at l i = get_or l i none

abbrev pub swap_at : List Slot → ℕ → List Slot
swap_at l j = set (set l j (slot_at l (suc j))) (suc j) (slot_at l j)

module _ (v : View) where
  open v use {priority, cost, repeatable}

  unfoldable pub compare_item : Slot → Slot → Bool
  compare_item (some a) (some b) =
      if ltb (priority b) (priority a) then true else if ltb (cost a) (cost b) then true else false
  compare_item none (some b) = true
  compare_item a none = false

  -- The inner loop of `SortList`, at j.
  unfoldable pub sink : ℕ → List Slot → List Slot
  sink zero l = l
  sink (suc j) l = elim (compare_item (slot_at l (suc j)) (slot_at l (suc (suc j)))) [
    | true ↦ sink j (swap_at l (suc j))
    | false ↦ l
  ]

  -- Its outer loop: `left` rounds from i on.
  unfoldable pub sort_rounds : ℕ → ℕ → List Slot → List Slot
  sort_rounds zero i l = l
  sort_rounds (suc left) i l = sort_rounds left (suc i) (sink i l)

  unfoldable pub sort_list : List Slot → List Slot
  sort_list l = sort_rounds (length l - 1) 0 l

  -- How many of the next slots hold a task of this priority.
  unfoldable pub same_priority : ℕ → List Slot → ℕ
  same_priority p [] = 0
  same_priority p (none ∷ l) = 0
  same_priority p (some t ∷ l) =
      let rest = same_priority p l in if p == priority t then suc rest else 0

-- The inner loop of `Update` over k, for `cnt` slots from i on.
unfoldable pub slots_from : ℕ → ℕ → List ℕ
slots_from i zero = []
slots_from i (suc cnt) = i ∷ slots_from (suc i) cnt

-- Its loop over j.
unfoldable pub repeat_batch : ℕ → List ℕ → List ℕ
repeat_batch zero batch = []
repeat_batch (suc n) batch = batch ++ repeat_batch n batch

module _ (v : View) (repeat_count : ℕ) where
  open v use {priority, repeatable}

  -- The loop of `Update` at index i, with the slots from i on. Each round takes at least one slot,
  -- so their number is fuel enough.
  unfoldable pub group_tasks : ℕ → ℕ → List Slot → List ℕ
  group_tasks fuel i [] = []
  group_tasks zero i (x ∷ l) = []
  group_tasks (suc fuel) i (none ∷ l) = group_tasks fuel (suc i) l
  group_tasks (suc fuel) i (some t ∷ l) =
      let more = same_priority v (priority t) l in
      repeat_batch (if repeatable t then repeat_count else 1) (slots_from i (suc more))
      ++ group_tasks fuel (suc (i + more)) (drop more l)

-- `RemoveList`: the list, and whether the task was found.
unfoldable pub remove_list : ℕ → List Slot → List Slot × Bool
remove_list t [] = ([], false)
remove_list t (none ∷ l) = let (l', found) = remove_list t l in (none ∷ l', found)
remove_list t (some u ∷ l) =
    let (l', found) = remove_list t l in if u == t then (none ∷ l', true) else (some u ∷ l', found)

-- The calls of a loop over the tasks of the list.
unfoldable pub for_tasks : (ℕ → TaskCall) → List Slot → List TaskCall
for_tasks call [] = []
for_tasks call (none ∷ l) = for_tasks call l
for_tasks call (some t ∷ l) = call t ∷ for_tasks call l

unfoldable pub is_empty : Scheduler → Bool
is_empty s = elim s.work [ [] ↦ true | _ ∷ _ ↦ false ]

unfoldable pub pause_giving_work : Scheduler → Scheduler
pause_giving_work s = record s { is_not_giving_work = true }

unfoldable pub resume_giving_work : Scheduler → Scheduler
resume_giving_work s = record s { is_not_giving_work = false }

module _ (v : View) where
  unfoldable pub update : Scheduler → Scheduler
  update s =
      let sorted = sort_list v s.work in
      record s { work = sorted; tasks = group_tasks v s.repeat_count (length sorted) 0 sorted }

  unfoldable pub set_repeat_count : ℕ → Scheduler → Scheduler
  set_repeat_count n s = unlock (update (lock (record s { repeat_count = n })))

  unfoldable pub clear : Scheduler → Scheduler × List TaskCall
  clear s =
      let locked = lock s in
      (unlock (update (record locked { work = [] })), for_tasks discard_content s.work)

  -- `none` is the null pointer.
  unfoldable pub add : Slot → Scheduler → Scheduler
  add none s = s
  add (some t) s =
      let locked = lock s in unlock (update (record locked { work = locked.work ++ some t ∷ [] }))

  unfoldable pub start_round : Scheduler → Scheduler × List TaskCall
  start_round s =
      let sorted = sort_list v s.work in
      (
        record s { round_number = advance_round s.round_number; work = sorted; next_item = 0 },
        for_tasks new_round sorted,
      )

unfoldable pub remove : Slot → Scheduler → Scheduler × List TaskCall
remove none s = (s, [])
remove (some t) s =
    let (l, found) = remove_list t s.work in
    (record s { work = l }, if found then discard_content t ∷ [] else [])

unfoldable pub end_round : Scheduler → List TaskCall
end_round s = for_tasks complete_round s.work

-- The loop of `GetNextTask`. Each round moves `m_NextItem` on, so `item_count + 1` rounds suffice.
unfoldable pub next_task_loop : ℕ → Scheduler → Option ℕ × Scheduler
next_task_loop zero s = (none, s)
next_task_loop (suc fuel) s =
    let taken = record s { next_item = u32 (s.next_item + 1) } in
    let again = next_task_loop fuel taken in
    if s.is_not_giving_work
    then (none, s)
    else if leb s.item_count s.next_item
    then (none, taken)
    else elim (slot_at s.work (get_or s.tasks s.next_item (length s.work))) [
      | some t ↦ (some t, taken)
      | none ↦ again
    ]

unfoldable pub get_next_task : Scheduler → Option ℕ × Scheduler
get_next_task s = next_task_loop (suc s.item_count) s
