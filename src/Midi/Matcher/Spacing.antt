-- ===== src/Midi/Matcher/Spacing.antt =====
-- How far apart the answers of a debounced pattern are.
use grandorgue.Prelude.{
  ℕ, ◌+◌, ◌≤◌, Bool, true, false, none, List, [], ◌∷◌, All, length, get_or, set, resize, ltb,
  if◌then◌else◌, ◌≡◌, refl, ap, sym, subst, ◌∙◌, ◌⊎◌, inl, inr, Bool-cases, arith,
}
use grandorgue.Prelude.Int.{ℤ, pos}
use grandorgue.Midi.Event.{Event}
use grandorgue.Midi.MessageType.{MatchType, match_none, is_manual, is_enclosure}
use grandorgue.Midi.Pattern.{Pattern}
use grandorgue.Midi.Matcher.{
  play_from, play_event, is_setup, Receiver, Found, Step, go_on, stop, wait, found, debounce,
  find_internal, button_step, pattern_step, listens, match_patterns, match_event,
}
use grandorgue.Midi.Matcher.Answer.{Outcome, next, now, debounced, button_answer}
use grandorgue.Midi.Matcher.Internals.{match_event-plain}
use grandorgue.Midi.Matcher.Debounce.{waits, is_now, answers_by_debounce}

abbrev pub is_none : MatchType → Bool
is_none match_none = true
is_none _ = false

-- The times of the events that are answered.
unfoldable pub answered : List Event → Receiver → List ℕ
answered [] r = []
answered (e ∷ es) r =
    let (r', f) = match_event e none (pos 0) (pos 0) r in
    let rest = answered es r' in if is_none f.kind then rest else e.time ∷ rest

-- Each time is `gap` or more after the one before it, the first after `from`.
abbrev pub IsSpaced : ℕ → ℕ → List ℕ → Type 0
IsSpaced gap from [] = Unit {0}
IsSpaced gap from (t ∷ l) = (from + gap ≤ t) × IsSpaced gap t l

-- A receiver of buttons with one pattern, that no other program has set up.
pub record HasOnly (p : Pattern) (r : Receiver) : Type 0 where
  pub one : r.patterns ≡ p ∷ []
  pub not_set_up : r.internal ≡ []
  pub no_manual : is_manual r.receiver_type ≡ false
  pub no_enclosure : is_enclosure r.receiver_type ≡ false

abbrev pub last_answer : Receiver → ℕ
last_answer r = get_or r.last 0 0

-- The event is not answered and nothing changes, or it is in time and its time is kept.
abbrev Answers : Pattern → Event → Receiver → Receiver × Found → Type 0
Answers p e r x =
    HasOnly p x.0
    × (((is_none x.1.kind ≡ true) × (last_answer x.0 ≡ last_answer r))
        ⊎ ((last_answer r + p.debounce_time ≤ e.time) × (last_answer x.0 ≡ e.time)))

get_or-resize : (l : List ℕ) → get_or (resize 1 0 l) 0 0 ≡ get_or l 0 0
get_or-resize [] = refl
get_or-resize (x ∷ l) = refl

get_or-set-resize : (l : List ℕ) (t : ℕ) → get_or (set (resize 1 0 l) 0 t) 0 0 ≡ t
get_or-set-resize [] t = refl
get_or-set-resize (x ∷ l) t = refl

debounce-Answers :
    (p : Pattern) (e : Event) (m : MatchType) (key value : ℤ) (r : Receiver)
    → HasOnly p r
    → Answers p e r ((debounce e m 0 p r).0, found (debounce e m 0 p r).1 key value)
unfolding debounce
debounce-Answers p e m key value r h =
    let size : length r.patterns ≡ 1 = ap length h.one in
    rw size (elim (Bool-cases (ltb e.time (get_or (resize 1 0 r.last) 0 0 + p.debounce_time))) [
      | inl early ↦ rw early (
        record {
          one = h.one;
          not_set_up = h.not_set_up;
          no_manual = h.no_manual;
          no_enclosure = h.no_enclosure;
        },
        inl (refl, get_or-resize r.last),
      )
      | inr late ↦ rw late (
        record {
          one = h.one;
          not_set_up = h.not_set_up;
          no_manual = h.no_manual;
          no_enclosure = h.no_enclosure;
        },
        inr (ground (arith, get_or-resize r.last), get_or-set-resize r.last e.time),
      )
    ])

-- What the loop makes of the step of its only pattern.
finish : Event → Pattern → Receiver → Step → Receiver × Found
finish e p r (go_on k v) = (r, found match_none k v)
finish e p r (stop m k v) = (r, found m k v)
finish e p r (wait m k v) = ((debounce e m 0 p r).0, found (debounce e m 0 p r).1 k v)

match_patterns-finish :
    (e : Event) (p : Pattern) (r : Receiver)
    → match_patterns e none (pos 0) 0 (p ∷ []) (pos 0) (pos 0) r
      ≡ finish e p r (pattern_step r.receiver_type e none (pos 0) p (pos 0) (pos 0))
unfolding match_patterns
match_patterns-finish e p r = branch (pattern_step r.receiver_type e none (pos 0) p (pos 0) (pos 0))
  where
    loop : Step → Receiver × Found
    loop s = elim s [
      | go_on k v ↦ match_patterns e none (pos 0) 1 [] k v r
      | stop m k v ↦ (r, found m k v)
      | wait m k v ↦ ((debounce e m 0 p r).0, found (debounce e m 0 p r).1 k v)
    ]

    branch : (s : Step) → loop s ≡ finish e p r s
    branch (go_on k v) = unfold finish in refl
    branch (stop m k v) = unfold finish in refl
    branch (wait m k v) = unfold finish in refl

finish-Answers :
    (e : Event) (p : Pattern) (r : Receiver) (o : Outcome)
    → HasOnly p r
    → is_now o ≡ false
    → Answers p e r (finish e p r (button_step o (pos 0) (pos 0)))
unfolding finish
finish-Answers e p r next h w = (h, inl (refl, refl))
finish-Answers e p r (now m) h w = cc
finish-Answers e p r (debounced m) h w = debounce-Answers p e m (pos 0) (pos 0) r h

match_patterns-Answers :
    (e : Event) (p : Pattern) (r : Receiver)
    → HasOnly p r
    → waits p.message_type ≡ true
    → Answers p e r (match_patterns e none (pos 0) 0 (p ∷ []) (pos 0) (pos 0) r)
unfolding pattern_step
match_patterns-Answers e p r h w =
    rw (match_patterns-finish e p r, h.no_manual, h.no_enclosure)
      (elim (Bool-cases (listens e p)) [
        | inl l ↦ rw l (
            finish-Answers e p r (button_answer p.message_type e p) h
              (answers_by_debounce p.message_type e p w))
        | inr l ↦ rw l (finish-Answers e p r next h refl)
      ])

no_internal-play_event :
    (e : Event) (p : Pattern) (r : Receiver)
    → HasOnly p r
    → play_event e none (pos 0) (pos 0) r
      ≡ match_patterns e none (pos 0) 0 (p ∷ []) (pos 0) (pos 0) r
unfolding play_event
no_internal-play_event e p r h =
    let nobody : find_internal e.device r.internal ≡ none =
      ap (find_internal e.device) h.not_set_up ∙ (unfold find_internal in refl) in
    ap (λ o. play_from o e none (pos 0) (pos 0) r) nobody
    ∙ ap (λ l. match_patterns e none (pos 0) 0 l (pos 0) (pos 0) r) h.one

IsSpaced-weaken : (gap a b : ℕ) (l : List ℕ) → a ≤ b → IsSpaced gap b l → IsSpaced gap a l
IsSpaced-weaken gap a b [] h s = tt
IsSpaced-weaken gap a b (t ∷ l) h s = (omega (arith, s.0), s.1)

answered-IsSpaced_step :
    (e : Event) (es : List Event) (p : Pattern) (r : Receiver) (x : Receiver × Found)
    → Answers p e r x
    → IsSpaced p.debounce_time (last_answer x.0) (answered es x.0)
    → IsSpaced p.debounce_time
        (last_answer r)
        (if is_none x.1.kind then answered es x.0 else e.time ∷ answered es x.0)
answered-IsSpaced_step e es p r x (only, inl (quiet, same)) h =
    rw quiet (subst (λ n. IsSpaced p.debounce_time n (answered es x.0)) same h)
answered-IsSpaced_step e es p r x (only, inr (late, kept)) h =
    let rest = subst (λ n. IsSpaced p.debounce_time n (answered es x.0)) kept h in
    elim (Bool-cases (is_none x.1.kind)) [
      | inl q ↦ rw q (
          IsSpaced-weaken p.debounce_time (last_answer r) e.time (answered es x.0)
            (omega (arith, late)) rest)
      | inr a ↦ rw a (late, rest)
    ]

-- A receiver of buttons that no device has set up, with one pattern that is debounced, called without
-- a key map and without transposition: whatever events come that do not set the element up or clear
-- it, the events that it answers are at least the pattern's debounce time apart, and the first one is
-- that long after the answer before.
pub answered-IsSpaced :
    (es : List Event) (p : Pattern) (r : Receiver)
    → HasOnly p r
    → waits p.message_type ≡ true
    → All (λ e. is_setup e ≡ false) es
    → IsSpaced p.debounce_time (last_answer r) (answered es r)
unfolding answered
answered-IsSpaced [] p r h w plain = tt
answered-IsSpaced (e ∷ es) p r h w plain =
    let x = match_event e none (pos 0) (pos 0) r in
    let a : Answers p e r x =
      subst (Answers p e r)
        (sym (match_event-plain e none (pos 0) (pos 0) r plain.0 ∙ no_internal-play_event e p r h))
        (match_patterns-Answers e p r h w) in
    answered-IsSpaced_step e es p r x a (answered-IsSpaced es p x.0 a.0 w plain.1)
