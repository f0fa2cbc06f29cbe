-- ===== src/Examples/Registration.antt =====
-- src/grandorgue/combinations/model/GOCombination.cpp and src/grandorgue/model/GODrawstop.cpp with two
-- drawstops.
use grandorgue.Prelude.{Bool, true, false, none, some, List, [], ◌∷◌, map, ◌≡◌, refl, ◌==◌}
use grandorgue.Prelude.Int.{pos}
use grandorgue.Midi.NameMap.{same_name, is_empty}
use grandorgue.Combinations.Drawstop.{
  Drawstop, States, function_input, function_and, display, state_changed, update_of, state_named,
  set_state, any_state, update, function_state, all_of, set_drawstop_state, set_internal_state,
  set_result_state, calculate_result_state,
}
use grandorgue.Combinations.Drawstop.Internal.{
  IsSettled, pushes, combines, resets, perform_all, perform_all-IsSettled, held_stays_engaged,
}
use grandorgue.Combinations.Combination.{
  bool3_default, bool3_true, Element, Combination, setter_regular, setter_scoped, push, from_yaml,
  clear, ensure_element_states_allocated, all_default, load_all, load_scope, set_loaded_state,
  switch_off_rest,
}
use grandorgue.Combinations.Combination.Recall.{
  asked, setting, recalling, allocated, push-push, obey, push-restores,
}

abbrev drawstop : Bool → States → Drawstop
drawstop on states = record {
  function_type = function_input;
  gc_state = pos 0;
  read_only = false;
  engaged = on;
  internal_states = states;
  controlled = 7 ∷ [];
  controlling = [];
}

-- Held by a crescendo.
abbrev held : Drawstop
held = drawstop true (((b'c' ∷ []), true) ∷ [])

abbrev two_elements : List Element
two_elements =
    record { store_unconditional = true; combination_state = true }
    ∷ record { store_unconditional = false; combination_state = false }
    ∷ []

abbrev blank : Combination
blank = record {
  element_states = bool3_true ∷ [];
  is_full = false;
  has_scope = false;
  protected = false;
}

-- An AND of two drawstops, one of them not engaged.
update_test :
    update
      (λ i. i == 0)
      (record (drawstop true (([], true) ∷ [])) {
        function_type = function_and;
        controlling = 0 ∷ 1 ∷ [];
      })
    ≡ some (
      record (drawstop false (([], false) ∷ [])) {
        function_type = function_and;
        controlling = 0 ∷ 1 ∷ [];
      },
      display false ∷ state_changed false ∷ update_of 7 ∷ [],
    )
unfolding update function_state all_of set_drawstop_state set_internal_state set_result_state
    calculate_result_state state_named set_state any_state same_name is_empty mathlib.Core.Bool.xor
update_test = refl

-- The second element is stored off only if the combination is full.
from_yaml_test :
    (from_yaml
      (some (record { scope = none; elements = some 0 ∷ none ∷ []; full = false }))
      two_elements
      blank).element_states
    ≡ bool3_true ∷ bool3_default ∷ []
unfolding from_yaml clear ensure_element_states_allocated all_default load_all load_scope
    set_loaded_state switch_off_rest
from_yaml_test = refl

perform_all-IsSettled_example :
    IsSettled
      (perform_all (drawstop false []) (pushes true ∷ combines true (b'c' ∷ []) ∷ resets ∷ []))
unfolding any_state
perform_all-IsSettled_example =
    perform_all-IsSettled (pushes true ∷ combines true (b'c' ∷ []) ∷ resets ∷ [])
      (drawstop false []) refl

held_stays_engaged_example :
    (perform_all held (pushes false ∷ combines false [] ∷ [])).engaged ≡ true
unfolding any_state state_named same_name is_empty
held_stays_engaged_example =
    held_stays_engaged (b'c' ∷ []) (pushes false ∷ combines false [] ∷ []) held refl (refl, tt) refl
      refl

push-push_example :
    ((push recalling two_elements (push (setting setter_scoped false) two_elements blank).0).1
      ≡ asked setter_scoped false two_elements (allocated two_elements blank))
    × ((push recalling two_elements (push (setting setter_scoped false) two_elements blank).0).2
        ≡ (push (setting setter_scoped false) two_elements blank).2)
push-push_example = push-push setter_scoped false two_elements two_elements blank refl refl

any_state_of_one : (on : Bool) → any_state true (set_state [] on []) ≡ on
unfolding any_state set_state
any_state_of_one true = refl
any_state_of_one false = refl

any_state_of_two : (on : Bool) → any_state true (set_state [] on (([], true) ∷ [])) ≡ on
unfolding any_state set_state same_name
any_state_of_two true = refl
any_state_of_two false = refl

push-restores_example :
    map
      (λ d. d.engaged)
      (obey []
        (push recalling two_elements (push (setting setter_regular true) two_elements blank).0).1
        (drawstop false [] ∷ drawstop true (([], true) ∷ []) ∷ []))
    ≡ map (λ e. e.combination_state) two_elements
unfolding any_state
push-restores_example =
    push-restores [] two_elements two_elements
      (drawstop false [] ∷ drawstop true (([], true) ∷ []) ∷ []) blank refl refl refl
      ((refl, refl, any_state_of_one), ((refl, refl, any_state_of_two), tt))
