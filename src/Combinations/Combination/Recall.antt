-- ===== src/Combinations/Combination/Recall.antt =====
-- What is set in a combination is what it asks for later, and drawstops that obey are as they were.
use grandorgue.Prelude.{
  ℕ, zero, suc, Bool, true, false, ◌&&◌, ◌||◌, Option, none, some, List, [], ◌∷◌, length, resize,
  length-resize, All, ◌≡◌, refl, ap, ap₂, sym, ◌∙◌, arith, map, if◌then◌else◌,
}
use grandorgue.Combinations.Combination.{
  Bool3, bool3_default, is_default, SetterType, setter_regular, setter_scope, setter_scoped,
  SetterState, Element, Combination, ensure_element_states_allocated, fill_element, uses_element,
  fill_elements, fill_with_current, requests, any_on, push,
}
use grandorgue.Midi.NameMap.{Name}
use grandorgue.Combinations.Drawstop.{Drawstop, set_state, any_state, set_combination_state}
use grandorgue.Combinations.Drawstop.Internal.{IsSettled, set_internal_state-engaged}

-- What an element is to be asked for after the Set button: a regular combination asks for the state
-- of each element that it stores, a scope for those that were on, and a scoped combination for each
-- element of its scope.
abbrev pub asked_of : SetterType → Bool → Element → Bool3 → Option Bool
asked_of setter_regular invisible e s =
    if invisible || e.store_unconditional then some e.combination_state else none
asked_of setter_scope invisible e s =
    if (invisible || e.store_unconditional) && e.combination_state then some true else none
asked_of setter_scoped invisible e s = if is_default s then none else some e.combination_state

abbrev pub asked : SetterType → Bool → List Element → List Bool3 → List (Option Bool)
asked t invisible [] states = []
asked t invisible (e ∷ es) [] = []
asked t invisible (e ∷ es) (s ∷ states) = asked_of t invisible e s ∷ asked t invisible es states

module _ (invisible : Bool) where
  request_lem :
      (t : SetterType) (e : Element) (s : Bool3)
      → requests (fill_element t invisible e s ∷ []) ≡ asked_of t invisible e s ∷ []
  unfolding requests fill_element
  request_lem setter_regular e s = ground arith
  request_lem setter_scope e s = ground arith
  request_lem setter_scoped e s = ground arith

  requests-fill_elements :
      (t : SetterType) (es : List Element) (states : List Bool3)
      → length states ≡ length es
      → requests (fill_elements t invisible es states).0 ≡ asked t invisible es states
  unfolding requests fill_elements
  requests-fill_elements t [] [] h = refl
  requests-fill_elements t [] (s ∷ states) h = absurd (omega (arith, h))
  requests-fill_elements t (e ∷ es) [] h = absurd (omega (arith, h))
  requests-fill_elements t (e ∷ es) (s ∷ states) h =
      ap₂ (λ one more. one_of one ∷ more) (request_lem t e s)
        (requests-fill_elements t es states (omega (arith, h)))
    where
      one_of : List (Option Bool) → Option Bool
      one_of [] = none
      one_of (o ∷ l) = o

  used_lem :
      (t : SetterType) (e : Element) (s : Bool3) (l : List (Option Bool))
      → any_on (asked_of t invisible e s ∷ l) ≡ (uses_element t invisible e s || any_on l)
  unfolding any_on uses_element
  used_lem setter_regular e s l = ground arith
  used_lem setter_scope e s l = ground arith
  used_lem setter_scoped e s l = ground arith

  any_on-asked :
      (t : SetterType) (es : List Element) (states : List Bool3)
      → length states ≡ length es
      → any_on (asked t invisible es states) ≡ (fill_elements t invisible es states).1
  unfolding any_on fill_elements
  any_on-asked t [] [] h = refl
  any_on-asked t [] (s ∷ states) h = absurd (omega (arith, h))
  any_on-asked t (e ∷ es) [] h = absurd (omega (arith, h))
  any_on-asked t (e ∷ es) (s ∷ states) h =
      used_lem t e s (asked t invisible es states)
      ∙ ap (λ more. uses_element t invisible e s || more)
          (any_on-asked t es states (omega (arith, h)))

  length-fill_elements :
      (t : SetterType) (es : List Element) (states : List Bool3)
      → length states ≡ length es
      → length (fill_elements t invisible es states).0 ≡ length es
  unfolding fill_elements
  length-fill_elements t [] [] h = refl
  length-fill_elements t [] (s ∷ states) h = absurd (omega (arith, h))
  length-fill_elements t (e ∷ es) [] h = absurd (omega (arith, h))
  length-fill_elements t (e ∷ es) (s ∷ states) h =
      ap suc (length-fill_elements t es states (omega (arith, h)))

resize-length : (n : ℕ) (l : List Bool3) → length l ≡ n → resize n bool3_default l ≡ l
resize-length zero [] h = refl
resize-length zero (s ∷ l) h = absurd (omega (arith, h))
resize-length (suc n) [] h = absurd (omega (arith, h))
resize-length (suc n) (s ∷ l) h = ap (◌∷◌ s) (resize-length n l (omega (arith, h)))

abbrev pub setting : SetterType → Bool → SetterState
setting t invisible = record {
  is_set_active = true;
  setter_type = t;
  is_store_invisible = invisible;
}

abbrev pub recalling : SetterState
recalling = record {
  is_set_active = false;
  setter_type = setter_regular;
  is_store_invisible = false;
}

-- The states before they are filled.
abbrev pub allocated : List Element → Combination → List Bool3
allocated es c = resize (length es) bool3_default c.element_states

module _ (t : SetterType) (invisible : Bool) (es es' : List Element) (c : Combination)
    (same_size : length es' ≡ length es) where
  abbrev filled : Combination
  filled = (fill_with_current t invisible es c).0

  filled_states : filled.element_states ≡ (fill_elements t invisible es (allocated es c)).0
  unfolding fill_with_current ensure_element_states_allocated
  filled_states = refl

  filled_used :
      (fill_with_current t invisible es c).1 ≡ (fill_elements t invisible es (allocated es c)).1
  unfolding fill_with_current ensure_element_states_allocated
  filled_used = refl

  length-filled : length filled.element_states ≡ length es'
  length-filled =
      ap length filled_states
      ∙ length-fill_elements invisible t es (allocated es c)
          (length-resize (length es) bool3_default c.element_states)
      ∙ sym same_size

  kept_whole :
      (ensure_element_states_allocated (length es') filled).element_states ≡ filled.element_states
  unfolding ensure_element_states_allocated
  kept_whole = resize-length (length es') filled.element_states length-filled

  asks :
      requests (ensure_element_states_allocated (length es') filled).element_states
      ≡ asked t invisible es (allocated es c)
  asks =
      ap requests (kept_whole ∙ filled_states)
      ∙ requests-fill_elements invisible t es (allocated es c)
          (length-resize (length es) bool3_default c.element_states)

  -- A combination that is not protected and has been set, whether as a regular combination, a scope or
  -- a scoped one, asks at its next push for just what was set: `asked` says it element by element, from
  -- the elements' states at the time of setting. It counts as used at that push as it did when it
  -- was set. The states of the elements at the time of the push do not matter.
  pub push-push :
      c.protected ≡ false
      → ((push recalling es' (push (setting t invisible) es c).0).1
          ≡ asked t invisible es (allocated es c))
        × ((push recalling es' (push (setting t invisible) es c).0).2
            ≡ (push (setting t invisible) es c).2)
  unfolding push
  push-push free =
      simp (free, push)
        (
          asks,
          ap any_on asks
              ∙ any_on-asked invisible t es (allocated es c)
                  (length-resize (length es) bool3_default c.element_states)
              ∙ sym filled_used,
        )

-- The drawstops do what a combination with the name n asks of them.
pub obey : Name → List (Option Bool) → List Drawstop → List Drawstop
obey n [] ds = ds
obey n (o ∷ os) [] = []
obey n (none ∷ os) (d ∷ ds) = d ∷ obey n os ds
obey n (some on ∷ os) (d ∷ ds) = (set_combination_state on n d).0 ∷ obey n os ds

-- A drawstop that the user may set, and that nothing but the name n can hold.
abbrev pub IsFree : Name → Drawstop → Type 0
IsFree n d =
    (d.read_only ≡ false)
    × IsSettled d
    × ((on : Bool) → any_state true (set_state n on d.internal_states) ≡ on)

free_obeys :
    (n : Name) (on : Bool) (d : Drawstop)
    → IsFree n d
    → (set_combination_state on n d).0.engaged ≡ on
unfolding set_combination_state
free_obeys n on d (free, settled, alone) =
    simp (free, set_combination_state) (set_internal_state-engaged on n d settled ∙ alone on)

obey-asked :
    (n : Name) (es : List Element) (states : List Bool3) (ds : List Drawstop)
    → length states ≡ length es
    → length ds ≡ length es
    → All (IsFree n) ds
    → map (λ d. d.engaged) (obey n (asked setter_regular true es states) ds)
      ≡ map (λ e. e.combination_state) es
unfolding obey
obey-asked n [] [] [] h k f = refl
obey-asked n [] (s ∷ states) ds h k f = absurd (omega (arith, h))
obey-asked n [] [] (d ∷ ds) h k f = absurd (omega (arith, k))
obey-asked n (e ∷ es) [] ds h k f = absurd (omega (arith, h))
obey-asked n (e ∷ es) (s ∷ states) [] h k f = absurd (omega (arith, k))
obey-asked n (e ∷ es) (s ∷ states) (d ∷ ds) h k (free, f) =
    ap₂ ◌∷◌ (free_obeys n e.combination_state d free)
      (obey-asked n es states ds (omega (arith, h)) (omega (arith, k)) f)

-- A full regular combination brings the registration back: whatever the drawstops are like when it is
-- pushed, each is engaged then just as its element was when the combination was set. This supposes
-- that the combination is not protected and the organ has as many elements as then, that no
-- drawstop is controlled by others, that each is engaged just when some internal state of it is on,
-- and that none is held by another combination or a crescendo.
pub push-restores :
    (n : Name) (es es' : List Element) (ds : List Drawstop) (c : Combination)
    → length es' ≡ length es
    → length ds ≡ length es
    → c.protected ≡ false
    → All (IsFree n) ds
    → map
        (λ d. d.engaged)
        (obey n (push recalling es' (push (setting setter_regular true) es c).0).1 ds)
      ≡ map (λ e. e.combination_state) es
push-restores n es es' ds c same_size same_count free f =
    let (asks, _) = push-push setter_regular true es es' c same_size free in
    ap (λ os. map (λ d. d.engaged) (obey n os ds)) asks
    ∙ obey-asked n es (allocated es c) ds (length-resize (length es) bool3_default c.element_states)
        same_count f
