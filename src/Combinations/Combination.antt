-- ===== src/Combinations/Combination.antt =====
-- GOCombination of src/grandorgue/combinations/model/GOCombination.h and GOCombination.cpp, GOBool3 of
-- src/core/GOBool3.h and GOSetterState.h. The states of the organ's elements (`GetCombinationState`)
-- are an argument, and what `Push` asks of each element (`SetCombinationState`) is a result.
pub mod Recall
use grandorgue.Prelude.{
  ℕ, zero, suc, Bool, true, false, not, ◌&&◌, ◌||◌, Option, none, some, List, [], ◌∷◌, length,
  resize, set, get_or, ltb, if◌then◌else◌,
}

pub data Bool3 : Type 0 where
  bool3_default bool3_false bool3_true : Bool3

abbrev pub to_bool3 : Bool → Bool3
to_bool3 true = bool3_true
to_bool3 false = bool3_false

-- `to_bool` with the default false.
abbrev pub to_bool : Bool3 → Bool
to_bool bool3_default = false
to_bool bool3_false = false
to_bool bool3_true = true

abbrev pub is_default : Bool3 → Bool
is_default bool3_default = true
is_default bool3_false = false
is_default bool3_true = false

pub data SetterType : Type 0 where
  setter_regular setter_scope setter_scoped : SetterType

pub record SetterState : Type 0 where
  pub is_set_active : Bool
  pub setter_type : SetterType
  pub is_store_invisible : Bool

-- What a combination reads of an element: `store_unconditional` of its definition, and its state.
pub record Element : Type 0 where
  pub store_unconditional : Bool
  pub combination_state : Bool

pub record Combination : Type 0 where
  pub element_states : List Bool3
  pub is_full : Bool
  pub has_scope : Bool
  pub protected : Bool

unfoldable pub all_default : List Bool3 → List Bool3
all_default [] = []
all_default (s ∷ l) = bool3_default ∷ all_default l

-- Cut, or filled up with the default.
unfoldable pub ensure_element_states_allocated : ℕ → Combination → Combination
ensure_element_states_allocated n c = record c {
  element_states = resize n bool3_default c.element_states;
}

unfoldable pub clear : ℕ → Combination → Combination
unfolding ensure_element_states_allocated
clear n c =
    let c' = ensure_element_states_allocated n c in
    record c' { element_states = all_default c'.element_states; is_full = false; has_scope = false }

unfoldable pub copy : ℕ → Combination → Combination → Combination
unfolding ensure_element_states_allocated
copy n from c =
    ensure_element_states_allocated n (record c { element_states = from.element_states })

unfoldable pub no_states : List Bool3 → Bool
no_states [] = true
no_states (s ∷ l) = is_default s && no_states l

unfoldable pub is_empty : Combination → Bool
is_empty c = no_states c.element_states

-- `SetLoadedState`, with the position that `FindElement` has found and the sign of the number. An
-- entry that is set twice, or is not found, is only logged.
unfoldable pub set_loaded_state : Option ℕ → Bool → Combination → Combination
set_loaded_state none on c = c
set_loaded_state (some pos) on c = elim (get_or c.element_states pos bool3_default) [
  | bool3_default ↦ record c { element_states = set c.element_states pos (to_bool3 on) }
  | bool3_false ↦
      if c.has_scope
      then record c { element_states = set c.element_states pos (to_bool3 on) }
      else c
  | bool3_true ↦ c
]

-- An element in the three cases of `FillWithCurrent`.
unfoldable pub fill_element : SetterType → Bool → Element → Bool3 → Bool3
fill_element setter_regular invisible e s =
    if not invisible && not e.store_unconditional
    then bool3_default
    else to_bool3 e.combination_state
fill_element setter_scope invisible e s =
    if not invisible && not e.store_unconditional
    then bool3_default
    else if e.combination_state
    then bool3_true
    else bool3_default
fill_element setter_scoped invisible e s = if is_default s then s else to_bool3 e.combination_state

-- Does an element count as used?
unfoldable pub uses_element : SetterType → Bool → Element → Bool3 → Bool
uses_element setter_scoped invisible e s = not (is_default s) && e.combination_state
uses_element _ invisible e s =
    not (not invisible && not e.store_unconditional) && e.combination_state

-- Its loops, over the elements.
unfoldable pub fill_elements : SetterType → Bool → List Element → List Bool3 → List Bool3 × Bool
fill_elements t invisible [] states = (states, false)
fill_elements t invisible (e ∷ es) [] = ([], false)
fill_elements t invisible (e ∷ es) (s ∷ states) =
    let (states', used) = fill_elements t invisible es states in
    (fill_element t invisible e s ∷ states', uses_element t invisible e s || used)

unfoldable pub scope_of : SetterType → Bool
scope_of setter_regular = false
scope_of setter_scope = true
scope_of setter_scoped = true

unfoldable pub fill_with_current :
    SetterType → Bool → List Element → Combination → Combination × Bool
fill_with_current t invisible es c =
    let c' = ensure_element_states_allocated (length es) c in
    let (states, used) = fill_elements t invisible es c'.element_states in
    (record c' { element_states = states; is_full = invisible; has_scope = scope_of t }, used)

-- What `Push` asks of each element: to take a state, or nothing.
unfoldable pub requests : List Bool3 → List (Option Bool)
requests [] = []
requests (s ∷ l) = (if is_default s then none else some (to_bool s)) ∷ requests l

unfoldable pub any_on : List (Option Bool) → Bool
any_on [] = false
any_on (none ∷ l) = any_on l
any_on (some on ∷ l) = on || any_on l

-- `Push`: the combination, what is asked of the elements, and whether the combination is used.
unfoldable pub push :
    SetterState → List Element → Combination → Combination × List (Option Bool) × Bool
push t es c =
    if t.is_set_active
    then (if c.protected
        then (c, [], false)
        else let (c', used) = fill_with_current t.setter_type t.is_store_invisible es c in
          (c', [], used))
    else let c' = ensure_element_states_allocated (length es) c in
      (c', requests c'.element_states, any_on (requests c'.element_states))

-- A combination in YAML, with the positions of its elements found: those of the scope, if there is
-- one, those of the combination, and whether it is full. `none` is a node that is not a map.
pub record Yaml : Type 0 where
  pub scope : Option (List (Option ℕ))
  pub elements : List (Option ℕ)
  pub full : Bool

unfoldable pub load_all : List (Option ℕ) → Combination → Combination
load_all [] c = c
load_all (pos ∷ l) c = load_all l (set_loaded_state pos true c)

-- std::replace of true by false.
unfoldable pub all_off : List Bool3 → List Bool3
all_off [] = []
all_off (bool3_true ∷ l) = bool3_false ∷ all_off l
all_off (s ∷ l) = s ∷ all_off l

-- The elements that are not mentioned are switched off.
unfoldable pub switch_off_rest : Bool → List Element → List Bool3 → List Bool3
switch_off_rest full [] states = states
switch_off_rest full (e ∷ es) [] = []
switch_off_rest full (e ∷ es) (s ∷ states) =
    (if is_default s && (e.store_unconditional || full) then bool3_false else s)
    ∷ switch_off_rest full es states

unfoldable pub load_scope : Option (List (Option ℕ)) → Combination → Combination
load_scope none c = c
load_scope (some positions) c =
    let c' = load_all positions (record c { has_scope = true }) in
    record c' { element_states = all_off c'.element_states }

unfoldable pub from_yaml : Option Yaml → List Element → Combination → Combination
from_yaml y es c =
    if c.protected
    then c
    else let cleared = clear (length es) c in
      (elim y [
        | none ↦ cleared
        | some map ↦
            let loaded = load_all map.elements (load_scope map.scope cleared) in
            let full = record loaded { is_full = map.full } in
            if full.has_scope
            then full
            else record full { element_states = switch_off_rest map.full es full.element_states }
      ])
