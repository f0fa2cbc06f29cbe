-- ===== src/Midi/Matcher/Removal.antt =====
-- `deleteInternal` over entries that are of one device each.
use grandorgue.Prelude.{
  ℕ, zero, suc, ◌-◌, ◌<◌, Bool, true, false, Option, none, some, List, [], ◌∷◌, All, length, get_or,
  set, take, ltb, ltb→lt, ◌==◌, if◌then◌else◌, ◌≡◌, ◌≢◌, refl, ap, sym, subst, ◌∙◌, inl, inr,
  Bool-cases, ==_iff, arith,
}
use grandorgue.Midi.Matcher.{Internal, blank, position_of, delete_internal, find_internal}
use grandorgue.Midi.Matcher.Internals.{IsDistinct}

-- The last entry in front of the others.
abbrev last_first : List Internal → List Internal
last_first [] = []
last_first (x ∷ l) = get_or (x ∷ l) (length l) x ∷ take (length l) (x ∷ l)

-- `deleteInternal` as one pass.
pub remove : ℕ → List Internal → List Internal
remove d [] = []
remove d (x ∷ l) = if x.device == d then last_first l else x ∷ remove d l

get_or-default :
    (l : List Internal) (i : ℕ) (a b : Internal) → i < length l → get_or l i a ≡ get_or l i b
get_or-default [] i a b h = absurd (omega arith)
get_or-default (x ∷ l) zero a b h = refl
get_or-default (x ∷ l) (suc i) a b h = get_or-default l i a b (omega arith)

abbrev deleted : Bool → ℕ → ℕ → List Internal → List Internal
deleted true d at l = take (length l - 1) (set l at (get_or l (length l - 1) (blank d)))
deleted false d at l = l

deleted-first : (d : ℕ) (x : Internal) (l : List Internal) → deleted true d 0 (x ∷ l) ≡ last_first l
deleted-first d x [] = refl
deleted-first d x (z ∷ l) =
    let size : suc (suc (length l)) - 1 ≡ suc (length l) = omega arith in
    rw (size, get_or-default (z ∷ l) (length l) (blank d) z (omega arith))

deleted-later :
    (b : Bool) (d at : ℕ) (x : Internal) (l : List Internal)
    → at < length l
    → deleted b d (suc at) (x ∷ l) ≡ x ∷ deleted b d at l
deleted-later b d at x [] h = absurd (omega arith)
deleted-later false d at x (z ∷ l) h = refl
deleted-later true d at x (z ∷ l) h =
    let size : suc (suc (length l)) - 1 ≡ suc (length l) = omega arith in
    let size' : suc (length l) - 1 ≡ length l = omega arith in rw (size, size')

deleted-remove :
    (d : ℕ) (l : List Internal)
    → deleted (ltb (position_of d l) (length l)) d (position_of d l) l ≡ remove d l
unfolding remove position_of
deleted-remove d [] = refl
deleted-remove d (x ∷ l) = elim (Bool-cases (x.device == d)) [
  | inl e ↦
      let first : ltb 0 (suc (length l)) ≡ true = ground arith in
      rw (e, first) (deleted-first d x l)
  | inr e ↦
      let at = position_of d l in
      let later : ltb (suc at) (suc (length l)) ≡ ltb at (length l) = ground arith in
      rw (e, later)
        (elim (Bool-cases (ltb at (length l))) [
          | inl q ↦
              deleted-later (ltb at (length l)) d at x l (ltb→lt at (length l) q)
              ∙ ap (◌∷◌ x) (deleted-remove d l)
          | inr q ↦
              ap (λ b. deleted b d (suc at) (x ∷ l)) q
              ∙ ap (◌∷◌ x) (ap (λ b. deleted b d at l) (sym q) ∙ deleted-remove d l)
        ])
]

pub delete_internal-remove : (d : ℕ) (l : List Internal) → delete_internal d l ≡ remove d l
delete_internal-remove d l = whole ∙ deleted-remove d l
  where
    whole : delete_internal d l ≡ deleted (ltb (position_of d l) (length l)) d (position_of d l) l
    whole =
        unfold delete_internal in
        elim (Bool-cases (ltb (position_of d l) (length l))) [ inl e ↦ rw e | inr e ↦ rw e ]

module _ (P : ℕ → Type 0) where
  abbrev Every : List Internal → Type 0
  Every l = All (λ (y : Internal). P y.device) l

  Every-take : (n : ℕ) (l : List Internal) → Every l → Every (take n l)
  Every-take zero l h = tt
  Every-take (suc n) [] h = tt
  Every-take (suc n) (x ∷ l) h = (h.0, Every-take n l h.1)

  Every-get_or :
      (l : List Internal) (i : ℕ) (a : Internal) → i < length l → Every l → P (get_or l i a).device
  Every-get_or [] i a lt h = absurd (omega arith)
  Every-get_or (x ∷ l) zero a lt h = h.0
  Every-get_or (x ∷ l) (suc i) a lt h = Every-get_or l i a (omega arith) h.1

  Every-last_first : (l : List Internal) → Every l → Every (last_first l)
  Every-last_first [] h = tt
  Every-last_first (x ∷ l) h =
      (Every-get_or (x ∷ l) (length l) x (omega arith) h, Every-take (length l) (x ∷ l) h)

  Every-remove : (d : ℕ) (l : List Internal) → Every l → Every (remove d l)
  unfolding remove
  Every-remove d [] h = tt
  Every-remove d (x ∷ l) h = elim (Bool-cases (x.device == d)) [
    | inl e ↦ rw e (Every-last_first l h.1)
    | inr e ↦ rw e (h.0, Every-remove d l h.1)
  ]

pub find-none :
    (d : ℕ) (l : List Internal) → All (λ (y : Internal). y.device ≢ d) l → find_internal d l ≡ none
unfolding find_internal
find-none d [] h = refl
find-none d (x ∷ l) h = ground (arith, find-none d l h.1)

-- With one entry for each device, `deleteInternal` leaves none for its own.
pub remove-absent :
    (d : ℕ) (l : List Internal) → IsDistinct l → All (λ (y : Internal). y.device ≢ d) (remove d l)
unfolding remove
remove-absent d [] h = tt
remove-absent d (x ∷ l) h = elim (Bool-cases (x.device == d)) [
  | inl e ↦ rw e (
      Every-last_first (λ k. k ≢ d) l
        (subst (λ k. All (λ (y : Internal). y.device ≢ k) l) ((==_iff x.device d).0 e) h.0))
  | inr e ↦ rw e ((λ p. cc (sym e ∙ (==_iff x.device d).1 p)), remove-absent d l h.1)
]

IsDistinct-take : (n : ℕ) (l : List Internal) → IsDistinct l → IsDistinct (take n l)
IsDistinct-take zero l h = tt
IsDistinct-take (suc n) [] h = tt
IsDistinct-take (suc n) (x ∷ l) h =
    (Every-take (λ d. d ≢ x.device) n l h.0, IsDistinct-take n l h.1)

-- The entries before a position are of other devices than the one there.
take-other :
    (l : List Internal) (i : ℕ) (a : Internal)
    → i < length l
    → IsDistinct l
    → All (λ (y : Internal). y.device ≢ (get_or l i a).device) (take i l)
take-other [] i a lt h = absurd (omega arith)
take-other (x ∷ l) zero a lt h = tt
take-other (x ∷ l) (suc i) a lt h = (
  (λ e. Every-get_or (λ d. d ≢ x.device) l i a (omega arith) h.0 (sym e)),
  take-other l i a (omega arith) h.1,
)

last_first-IsDistinct : (l : List Internal) → IsDistinct l → IsDistinct (last_first l)
last_first-IsDistinct [] h = tt
last_first-IsDistinct (x ∷ l) h =
    (take-other (x ∷ l) (length l) x (omega arith) h, IsDistinct-take (length l) (x ∷ l) h)

pub remove-IsDistinct : (d : ℕ) (l : List Internal) → IsDistinct l → IsDistinct (remove d l)
unfolding remove
remove-IsDistinct d [] h = tt
remove-IsDistinct d (x ∷ l) h = elim (Bool-cases (x.device == d)) [
  | inl e ↦ rw e (last_first-IsDistinct l h.1)
  | inr e ↦ rw e (Every-remove (λ k. k ≢ x.device) d l h.0, remove-IsDistinct d l h.1)
]

-- Two entries of different devices may be looked at in either order.
exchange :
    (d : ℕ) (z x : Internal) (o o' : Option Internal)
    → z.device ≢ x.device
    → (if z.device == d then some z else o) ≡ o'
    → (if z.device == d then some z else if x.device == d then some x else o)
      ≡ (if x.device == d then some x else o')
exchange d z x o o' ne h = elim (Bool-cases (x.device == d)) [
  | inl e ↦
      let away : (z.device == d) ≡ false = ground (arith, ne) in
      let goal : (b c : Bool)
          → b ≡ false
          → c ≡ true
          → (if b then some z else if c then some x else o) ≡ (if c then some x else o') =
        λ b c p q. simp (p, q) in
      goal (z.device == d) (x.device == d) away e
  | inr e ↦
      let goal : (c : Bool)
          → c ≡ false
          → (if z.device == d then some z else if c then some x else o)
            ≡ (if c then some x else o') =
        λ c q. rw q h in
      goal (x.device == d) e
]

find-last_first :
    (d : ℕ) (l : List Internal) → IsDistinct l → find_internal d (last_first l) ≡ find_internal d l
unfolding find_internal
find-last_first d [] h = refl
find-last_first d (x ∷ []) h = refl
find-last_first d (x ∷ y ∷ l) h =
    let last = get_or (y ∷ l) (length l) y in
    let same : get_or (y ∷ l) (length l) x ≡ last =
      get_or-default (y ∷ l) (length l) x y (omega arith) in
    let ih = find-last_first d (y ∷ l) h.1 in
    let other : last.device ≢ x.device =
      Every-get_or (λ k. k ≢ x.device) (y ∷ l) (length l) y (omega arith) h.0 in
    ap (λ z. find_internal d (z ∷ x ∷ take (length l) (y ∷ l))) same
    ∙ exchange d last x (find_internal d (take (length l) (y ∷ l))) (find_internal d (y ∷ l)) other
        ih

pub find-remove :
    (d d' : ℕ) (l : List Internal)
    → d' ≢ d
    → IsDistinct l
    → find_internal d (remove d' l) ≡ find_internal d l
unfolding remove find_internal
find-remove d d' [] ne h = refl
find-remove d d' (x ∷ l) ne h = elim (Bool-cases (x.device == d')) [
  | inl e ↦
      let away : (x.device == d) ≡ false = ground (arith, ne) in
      rw (e, away) (find-last_first d l h.1)
  | inr e ↦ rw e (ap (λ o. if x.device == d then some x else o) (find-remove d d' l ne h.1))
]
