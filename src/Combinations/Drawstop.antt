-- ===== src/Combinations/Drawstop.antt =====
-- GODrawstop of src/grandorgue/model/GODrawstop.h and GODrawstop.cpp: a switch with an internal OR
-- of named states. What a drawstop calls of others is a list of calls: `Display`,
-- `OnDrawstopStateChanged`, and `Update` of the drawstops that it controls.
pub mod Internal
use grandorgue.Prelude.{
  ℕ, Bool, true, false, not, ◌&&◌, ◌||◌, xor, Option, none, some, List, [], ◌∷◌, ◌++◌, length, map,
  ltb, ◌==◌, if◌then◌else◌,
}
use grandorgue.Prelude.Int.{ℤ, pos, negsuc, ltb_ℤ, eq_ℤ}
use grandorgue.Midi.NameMap.{Name, same_name, is_empty}

pub data FunctionType : Type 0 where
  function_input function_and function_or function_not function_xor : FunctionType
  function_nand function_nor : FunctionType

unfoldable pub function_code : FunctionType → ℕ
function_code function_input = 0
function_code function_and = 1
function_code function_or = 2
function_code function_not = 3
function_code function_xor = 4
function_code function_nand = 5
function_code function_nor = 6

abbrev pub States : Type 0
States = List (Name × Bool)

pub record Drawstop : Type 0 where
  pub function_type : FunctionType
  pub gc_state : ℤ
  pub read_only : Bool
  pub engaged : Bool
  pub internal_states : States
  pub controlled : List ℕ
  pub controlling : List ℕ

pub data Call : Type 0 where
  display state_changed : Bool → Call
  update_of : ℕ → Call

-- `m_InternalStates[name]`: a name that is not there gets the state false.
unfoldable pub state_named : Name → States → Bool
state_named n [] = false
state_named n ((k, on) ∷ l) = if same_name k n then on else state_named n l

unfoldable pub set_state : Name → Bool → States → States
set_state n on [] = (n, on) ∷ []
set_state n on ((k, was) ∷ l) = if same_name k n then (k, on) ∷ l else (k, was) ∷ set_state n on l

-- The loop of `CalculateResultState`.
unfoldable pub any_state : Bool → States → Bool
any_state include_default [] = false
any_state include_default ((k, on) ∷ l) =
    ((include_default || not (is_empty k)) && on) || any_state include_default l

unfoldable pub calculate_result_state : Bool → Drawstop → Bool
calculate_result_state include_default d = any_state include_default d.internal_states

abbrev pub same : Bool → Bool → Bool
same a b = not (xor a b)

unfoldable pub set_result_state : Bool → Drawstop → Drawstop × List Call
set_result_state on d =
    if same d.engaged on
    then (d, [])
    else (record d { engaged = on }, display on ∷ state_changed on ∷ map update_of d.controlled)

-- `SetInternalState`: `operator[]` makes the entry if it is not there.
unfoldable pub set_internal_state : Bool → Name → Drawstop → Drawstop × List Call
set_internal_state on n d =
    let d' = record d { internal_states = set_state n on d.internal_states } in
    if same (state_named n d.internal_states) on
    then (d', [])
    else set_result_state (calculate_result_state true d') d'

unfoldable pub set_drawstop_state : Bool → Drawstop → Drawstop × List Call
set_drawstop_state on d = set_internal_state on [] d

unfoldable pub set_button_state : Bool → Drawstop → Drawstop × List Call
set_button_state on d =
    if not d.read_only && not (calculate_result_state false d)
    then set_drawstop_state on d
    else (d, [])

unfoldable pub set_combination_state : Bool → Name → Drawstop → Drawstop × List Call
set_combination_state on n d = if d.read_only then (d, []) else set_internal_state on n d

unfoldable pub clear_states : States → States
clear_states [] = []
clear_states ((k, on) ∷ l) = (k, false) ∷ clear_states l

unfoldable pub reset : Drawstop → Drawstop × List Call
reset d =
    if not d.read_only && not (ltb_ℤ d.gc_state (pos 0))
    then (if eq_ℤ d.gc_state (pos 0)
        then set_result_state false (record d { internal_states = clear_states d.internal_states })
        else set_button_state true d)
    else (d, [])

-- The loops of `Update`, over the states of the controlling drawstops.
unfoldable pub all_of : List Bool → Bool
all_of [] = true
all_of (on ∷ l) = on && all_of l

unfoldable pub any_of : List Bool → Bool
any_of [] = false
any_of (on ∷ l) = on || any_of l

unfoldable pub xor_from : Bool → List Bool → Bool
xor_from state [] = state
xor_from state (on ∷ l) = xor_from (xor state on) l

-- What `Update` sets the drawstop to. `none` is the first controlling drawstop of a NOT that has none.
unfoldable pub function_state : Drawstop → List Bool → Option Bool
function_state d inputs = elim d.function_type [
  | function_input ↦ some d.engaged
  | function_and ↦ some (all_of inputs)
  | function_nand ↦ some (not (all_of inputs))
  | function_or ↦ some (any_of inputs)
  | function_nor ↦ some (not (any_of inputs))
  | function_xor ↦ some (xor_from false inputs)
  | function_not ↦ (elim inputs [ [] ↦ none | on ∷ l ↦ some (not on) ])
]

-- `is_engaged` tells `IsEngaged` of the other drawstops.
unfoldable pub update : (ℕ → Bool) → Drawstop → Option (Drawstop × List Call)
update is_engaged d = elim (function_state d (map is_engaged d.controlling)) [
  | none ↦ none
  | some on ↦ some (set_drawstop_state on d)
]

-- `none` is an exception.
unfoldable pub set_function_type : FunctionType → Drawstop → Option Drawstop
set_function_type t d =
    if function_code t == function_code d.function_type
    then some d
    else if function_code d.function_type == 0
    then some (record d { controlling = []; function_type = t })
    else if function_code d.function_type == 3 && ltb 1 (length d.controlling)
    then none
    else some (record d { function_type = t })
