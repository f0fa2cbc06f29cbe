-- ===== src/Midi/Matcher/Internals.antt =====
-- The devices that have set an element up.
use grandorgue.Prelude.{
  ℕ, suc, Bool, true, false, Option, some, List, [], ◌∷◌, ◌++◌, All, length, set, ltb, ◌==◌,
  if◌then◌else◌, ◌≡◌, ◌≢◌, refl, ap, sym, subst, ◌∙◌, inl, inr, Bool-cases, ==_iff, arith,
}
use grandorgue.Prelude.Int.{ℤ}
use grandorgue.Midi.Event.{Event}
use grandorgue.Midi.Matcher.{
  Receiver, Internal, blank, position_of, create_internal, find_internal, set_internal, match_event,
  play_event, is_setup,
}

-- An event that does not set the element up changes no entry of `m_Internal`.
pub match_event-plain :
    (e : Event) (map : Option (List ℕ)) (transpose key : ℤ) (r : Receiver)
    → is_setup e ≡ false
    → match_event e map transpose key r ≡ play_event e map transpose key r
unfolding match_event
match_event-plain e map transpose key r h = ground arith

-- `createInternal` and the write after it, as one pass over the entries.
pub upsert : Internal → List Internal → List Internal
upsert x [] = x ∷ []
upsert x (y ∷ l) = if y.device == x.device then x ∷ l else y ∷ upsert x l

-- The write at the position of the device, which is there or comes last.
abbrev placed : Bool → Internal → ℕ → List Internal → List Internal
placed true x at l = set l at x
placed false x at l = set (l ++ blank x.device ∷ []) at x

placed-upsert :
    (x : Internal) (l : List Internal)
    → placed (ltb (position_of x.device l) (length l)) x (position_of x.device l) l ≡ upsert x l
unfolding upsert position_of
placed-upsert x [] = refl
placed-upsert x (y ∷ l) = elim (Bool-cases (y.device == x.device)) [
  | inl e ↦ let first : ltb 0 (suc (length l)) ≡ true = ground arith in rw (e, first)
  | inr e ↦
      let at = position_of x.device l in
      let later : ltb (suc at) (suc (length l)) ≡ ltb at (length l) = ground arith in
      rw (e, later) (shift (ltb at (length l)) at ∙ ap (◌∷◌ y) (placed-upsert x l))
]
  where
    shift : (b : Bool) (at : ℕ) → placed b x (suc at) (y ∷ l) ≡ y ∷ placed b x at l
    shift true at = refl
    shift false at = refl

set_internal-placed :
    (x : Internal) (l : List Internal)
    → set_internal x l
      ≡ placed (ltb (position_of x.device l) (length l)) x (position_of x.device l) l
unfolding set_internal create_internal
set_internal-placed x l = elim (Bool-cases (ltb (position_of x.device l) (length l))) [
  | inl e ↦ rw e
  | inr e ↦ rw e
]

pub set_internal-upsert : (x : Internal) (l : List Internal) → set_internal x l ≡ upsert x l
set_internal-upsert x l = set_internal-placed x l ∙ placed-upsert x l

pub find-upsert :
    (x : Internal) (l : List Internal) (d : ℕ)
    → find_internal d (upsert x l) ≡ (if x.device == d then some x else find_internal d l)
unfolding find_internal upsert
find-upsert x [] d = refl
find-upsert x (y ∷ l) d = ground (arith, find-upsert x l d)

-- One entry for each device at most.
abbrev pub IsDistinct : List Internal → Type 0
IsDistinct [] = Unit {0}
IsDistinct (x ∷ l) = All (λ (y : Internal). y.device ≢ x.device) l × IsDistinct l

All-upsert :
    (P : ℕ → Type 0) (x : Internal) (l : List Internal)
    → P x.device
    → All (λ (y : Internal). P y.device) l
    → All (λ (y : Internal). P y.device) (upsert x l)
unfolding upsert
All-upsert P x [] h k = (h, tt)
All-upsert P x (y ∷ l) h k = elim (Bool-cases (y.device == x.device)) [
  | inl e ↦ rw e (h, k.1)
  | inr e ↦ rw e (k.0, All-upsert P x l h k.1)
]

pub upsert-IsDistinct : (x : Internal) (l : List Internal) → IsDistinct l → IsDistinct (upsert x l)
unfolding upsert
upsert-IsDistinct x [] h = (tt, tt)
upsert-IsDistinct x (y ∷ l) h = elim (Bool-cases (y.device == x.device)) [
  | inl e ↦ rw e (
    subst (λ d. All (λ (z : Internal). z.device ≢ d) l) ((==_iff y.device x.device).0 e) h.0,
    h.1,
  )
  | inr e ↦
      let ne : x.device ≢ y.device = λ p. cc (sym e ∙ (==_iff y.device x.device).1 (sym p)) in
      rw e (All-upsert (λ d. d ≢ y.device) x l ne h.0, upsert-IsDistinct x l h.1)
]
