-- ===== src/Manuals/Own.antt =====
-- The velocity that the player gives a key: the calls that come from couplers leave it alone.
use grandorgue.Prelude.{
  ℕ, zero, suc, ◌<◌, Bool, true, false, List, [], ◌∷◌, length, length-set, get_or, set, ◌≡◌, ◌≢◌,
  refl, ap, ◌∙◌, ◌⊎◌, inl, inr, arith, Bool-cases, ==_iff,
}
use grandorgue.Manuals.{
  Manual, Call, KeyCalls, no_calls, key_call, velocity_of, inputs, store_key, announce, is_news,
  set_key_states, set_key_state,
}
use grandorgue.Manuals.Keys.{announce_lem}

-- Calls that come from couplers, whose numbers start at 1.
abbrev pub IsForeign : KeyCalls → Type 0
IsForeign no_calls = Unit {0}
IsForeign (key_call key velocity coupler nested rest) =
    (0 < coupler) × IsForeign nested × IsForeign rest

abbrev pub own : Manual → ℕ → ℕ
own m key = velocity_of (inputs m key) 0

head-set :
    (row : List ℕ) (coupler v : ℕ)
    → 0 < coupler
    → velocity_of (set row coupler v) 0 ≡ velocity_of row 0
head-set [] coupler v h = refl
head-set (x ∷ row) zero v h = absurd (omega arith)
head-set (x ∷ row) (suc coupler) v h = refl

own-foreign :
    (l : List (List ℕ)) (key coupler v k : ℕ)
    → 0 < coupler
    → velocity_of (get_or (set l key (set (get_or l key []) coupler v)) k []) 0
      ≡ velocity_of (get_or l k []) 0
own-foreign [] key coupler v k h = refl
own-foreign (row ∷ l) zero coupler v zero h = head-set row coupler v h
own-foreign (row ∷ l) zero coupler v (suc k) h = refl
own-foreign (row ∷ l) (suc key) coupler v zero h = refl
own-foreign (row ∷ l) (suc key) coupler v (suc k) h = own-foreign l key coupler v k h

own_self :
    (l : List (List ℕ)) (key v : ℕ)
    → 0 < length (get_or l key [])
    → velocity_of (get_or (set l key (set (get_or l key []) 0 v)) key []) 0 ≡ v
own_self [] key v h = absurd (omega arith)
own_self ([] ∷ l) zero v h = absurd (omega arith)
own_self ((x ∷ row) ∷ l) zero v h = refl
own_self (row ∷ l) (suc key) v h = own_self l key v h

own-ne :
    (l : List (List ℕ)) (key coupler v k : ℕ)
    → key ≢ k
    → get_or (set l key (set (get_or l key []) coupler v)) k [] ≡ get_or l k []
own-ne [] key coupler v k ne = refl
own-ne (row ∷ l) zero coupler v zero ne = absurd (ne refl)
own-ne (row ∷ l) zero coupler v (suc k) ne = refl
own-ne (row ∷ l) (suc key) coupler v zero ne = refl
own-ne (row ∷ l) (suc key) coupler v (suc k) ne = own-ne l key coupler v k (λ e. ne (ap suc e))

depth-set :
    (l : List (List ℕ)) (key coupler v k : ℕ)
    → length (get_or (set l key (set (get_or l key []) coupler v)) k []) ≡ length (get_or l k [])
depth-set [] key coupler v k = refl
depth-set (row ∷ l) zero coupler v zero = length-set row coupler v
depth-set (row ∷ l) zero coupler v (suc k) = refl
depth-set (row ∷ l) (suc key) coupler v zero = refl
depth-set (row ∷ l) (suc key) coupler v (suc k) = depth-set l key coupler v k

announce-rows :
    (key : ℕ) (r : Manual × List Call)
    → (announce key r).0.velocities_by_coupler ≡ r.0.velocities_by_coupler
announce-rows key (m, calls) = ap (λ n. n.velocities_by_coupler) (announce_lem key m calls)

-- What calls from couplers leave alone in the rows.
pub record IsSameOwn (m m' : Manual) : Type 0 where
  pub same_own : (k : ℕ) → own m' k ≡ own m k
  pub same_depth : (k : ℕ) → length (inputs m' k) ≡ length (inputs m k)

IsSameOwn-trans : {a b c : Manual} → IsSameOwn a b → IsSameOwn b c → IsSameOwn a c
IsSameOwn-trans f g = record {
  same_own = λ k. g.same_own k ∙ f.same_own k;
  same_depth = λ k. g.same_depth k ∙ f.same_depth k;
}

announce-IsSameOwn : (key : ℕ) (r : Manual × List Call) → IsSameOwn r.0 (announce key r).0
announce-IsSameOwn key r = record {
  same_own = λ k. ap (λ l. velocity_of (get_or l k []) 0) (announce-rows key r);
  same_depth = λ k. ap (λ l. length (get_or l k [])) (announce-rows key r);
}

store_key-IsSameOwn :
    (key velocity coupler : ℕ) (m : Manual)
    → 0 < coupler
    → IsSameOwn m (store_key key velocity coupler m)
unfolding store_key
store_key-IsSameOwn key velocity coupler m h = record {
  same_own = λ k. own-foreign m.velocities_by_coupler key coupler velocity k h;
  same_depth = λ k. depth-set m.velocities_by_coupler key coupler velocity k;
}

pub foreign-IsSameOwn :
    (calls : KeyCalls) (m : Manual) → IsForeign calls → IsSameOwn m (set_key_states calls m).0
unfolding set_key_states
foreign-IsSameOwn no_calls m h = record { same_own = λ k. refl; same_depth = λ k. refl }
foreign-IsSameOwn (key_call key velocity coupler nested rest) m h =
    let m1 = store_key key velocity coupler m in
    let back = set_key_states nested m1 in
    let inner = foreign-IsSameOwn nested m1 h.1 in
    elim (Bool-cases (is_news key velocity coupler m)) [
      | inl e ↦ rw e (
          IsSameOwn-trans
            (IsSameOwn-trans (store_key-IsSameOwn key velocity coupler m h.0)
              (IsSameOwn-trans inner (announce-IsSameOwn key back)))
            (foreign-IsSameOwn rest (announce key back).0 h.2))
      | inr e ↦ rw e (foreign-IsSameOwn rest m h.2)
    ]

-- A call of the player.
module _ (key velocity : ℕ) (nested : KeyCalls) (m : Manual) (h : IsForeign nested) where
  abbrev m1 : Manual
  m1 = store_key key velocity 0 m

  abbrev after_news : Manual
  after_news = (announce key (set_key_states nested m1)).0

  news-IsSameOwn : IsSameOwn m1 after_news
  news-IsSameOwn =
      IsSameOwn-trans (foreign-IsSameOwn nested m1 h)
        (announce-IsSameOwn key (set_key_states nested m1))

  set_key_state-cases :
      ((set_key_state key velocity 0 nested m).0 ≡ after_news)
      ⊎ (((set_key_state key velocity 0 nested m).0 ≡ m) × (is_news key velocity 0 m ≡ false))
  unfolding set_key_state set_key_states
  set_key_state-cases =
      let given = λ (b : Bool).
        let r : Manual × List Call = elim b [
          | true ↦ announce key (set_key_states nested m1)
          | false ↦ (m, [])
        ] in
        r in
      elim (Bool-cases (is_news key velocity 0 m)) [
        | inl e ↦ inl (ap (λ b. (given b).0) e)
        | inr e ↦ inr (ap (λ b. (given b).0) e, e)
      ]

  pub own-set_key_state :
      key < length m.velocity
      → 0 < length (inputs m key)
      → own (set_key_state key velocity 0 nested m).0 key ≡ velocity
  own-set_key_state lt deep = elim set_key_state-cases [
    | inl e ↦
        ap (λ n. own n key) e
        ∙ news-IsSameOwn.same_own key
        ∙ (unfold store_key in own_self m.velocities_by_coupler key velocity deep)
    | inr (e, old) ↦ ap (λ n. own n key) e ∙ ground (arith, ==_iff (own m key) velocity)
  ]

  pub own-set_key_state_ne :
      (k : ℕ) → key ≢ k → own (set_key_state key velocity 0 nested m).0 k ≡ own m k
  own-set_key_state_ne k ne = elim set_key_state-cases [
    | inl e ↦
        ap (λ n. own n k) e
        ∙ news-IsSameOwn.same_own k
        ∙ (unfold store_key in
            ap (λ l. velocity_of l 0) (own-ne m.velocities_by_coupler key 0 velocity k ne))
    | inr (e, old) ↦ ap (λ n. own n k) e
  ]

  pub depth-set_key_state :
      (k : ℕ) → length (inputs (set_key_state key velocity 0 nested m).0 k) ≡ length (inputs m k)
  depth-set_key_state k = elim set_key_state-cases [
    | inl e ↦
        ap (λ n. length (inputs n k)) e
        ∙ news-IsSameOwn.same_depth k
        ∙ (unfold store_key in depth-set m.velocities_by_coupler key 0 velocity k)
    | inr (e, old) ↦ ap (λ n. length (inputs n k)) e
  ]
