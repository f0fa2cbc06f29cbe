-- ===== src/Midi/NameMap/Laws.antt =====
-- A name keeps the id that it was given.
use grandorgue.Prelude.{
  ℕ, suc, ◌+◌, ◌-◌, ◌^◌, ◌≤◌, ◌<◌, ◌≡◌, refl, ◌∙◌, ◌≢◌, inl, inr, true, false, [], ◌∷◌, ◌++◌, arith,
  length, get_or, length-append, get_or-append_left, get_or-append_length, Bool-cases, ℕ_discrete,
  subst, if◌then◌else◌,
}
use grandorgue.Midi.NameMap.{
  Name, NameMap, same_name, find_id, has_name, emplace, add_name, get_id_by_name, get_name_by_id,
  empty, is_empty, ensure_name_exists,
}

pub same_name→eq : (a b : Name) → same_name a b ≡ true → a ≡ b
unfolding same_name
same_name→eq [] [] h = refl
same_name→eq [] (b ∷ bs) h = cc
same_name→eq (a ∷ as') [] h = cc
same_name→eq (a ∷ as') (b ∷ bs) h = ground (arith, same_name→eq as' bs)

pub same_name_refl : (a : Name) → same_name a a ≡ true
unfolding same_name
same_name_refl [] = refl
same_name_refl (a ∷ as') = ground (arith, same_name_refl as')

-- Every id that the map gives leads back to its name.
pub record IsValid (m : NameMap) : Type 0 where
  pub back :
      (n : Name) → find_id n m.ids_by_name ≢ 0 → get_name_by_id m (find_id n m.ids_by_name) ≡ n
  pub within : (n : Name) → find_id n m.ids_by_name ≤ length m.names
  pub known : (n : Name) → has_name n m.ids_by_name ≡ true → find_id n m.ids_by_name ≢ 0

names_added : (n : Name) (m : NameMap) → length (m.names ++ n ∷ []) ≡ suc (length m.names)
names_added n m = omega (arith, length-append m.names (n ∷ []))

last_name : (n : Name) (m : NameMap) → get_or (m.names ++ n ∷ []) (length m.names) [] ≡ n
last_name n m =
    let e : length m.names + 0 ≡ length m.names = omega arith in
    rw e at (get_or-append_length m.names (n ∷ []) 0 [])

-- The record after `AddName` for a new name.
abbrev added : Name → NameMap → NameMap
added n m = record {
  names = m.names ++ n ∷ [];
  ids_by_name = (n, suc (length m.names)) ∷ m.ids_by_name;
}

add_name_lem :
    (n : Name) (m : NameMap)
    → IsValid m
    → find_id n m.ids_by_name ≡ 0
    → suc (length m.names) < 2 ^ 16
    → add_name n m ≡ (suc (length m.names), added n m)
unfolding add_name emplace
add_name_lem n m v h small = ground (arith, names_added n m, v.known n)

get_name_by_id-added_old :
    (n : Name) (m : NameMap) (i : ℕ)
    → i ≤ length m.names
    → get_name_by_id (added n m) i ≡ get_name_by_id m i
unfolding get_name_by_id
get_name_by_id-added_old n m i h =
    ground (arith, names_added n m, get_or-append_left m.names (n ∷ []) (i - 1) [])

get_name_by_id-added_new :
    (n : Name) (m : NameMap) → get_name_by_id (added n m) (suc (length m.names)) ≡ n
unfolding get_name_by_id
get_name_by_id-added_new n m =
    let e : suc (length m.names) - 1 ≡ length m.names = omega arith in
    rw e (ground (arith, names_added n m, last_name n m))

find_id-added :
    (n k : Name) (m : NameMap)
    → find_id k (added n m).ids_by_name
      ≡ (if same_name n k then suc (length m.names) else find_id k m.ids_by_name)
unfolding find_id
find_id-added n k m = refl

module _ (n : Name) (m : NameMap) (v : IsValid m) where
  back-added :
      (k : Name)
      → find_id k (added n m).ids_by_name ≢ 0
      → get_name_by_id (added n m) (find_id k (added n m).ids_by_name) ≡ k
  back-added k h = elim (Bool-cases (same_name n k)) [
    | inl e ↦ rw (find_id-added n k m, e) (get_name_by_id-added_new n m ∙ same_name→eq n k e)
    | inr e ↦
        let old : find_id k (added n m).ids_by_name ≡ find_id k m.ids_by_name =
          find_id-added n k m ∙ rw e in
        rw old (
          get_name_by_id-added_old n m (find_id k m.ids_by_name) (v.within k)
          ∙ v.back k (subst (λ (q : ℕ). q ≢ 0) old h))
  ]

  known-added :
      (k : Name) → has_name k (added n m).ids_by_name ≡ true → find_id k (added n m).ids_by_name ≢ 0
  unfolding has_name
  known-added k h = ground (arith, find_id-added n k m, v.known k)

  within-added : (k : Name) → find_id k (added n m).ids_by_name ≤ length (added n m).names
  within-added k = ground (arith, names_added n m, v.within k, find_id-added n k m)

  added-IsValid : IsValid (added n m)
  added-IsValid = record { back = back-added; within = within-added; known = known-added }

-- What `EnsureNameExists` promises.
pub record IsEnsured (n : Name) (m : NameMap) (r : ℕ × NameMap) : Type 0 where
  pub valid : IsValid r.1
  pub found : get_id_by_name r.1 n ≡ r.0
  pub named : get_name_by_id r.1 r.0 ≡ n
  pub kept : (i : ℕ) → i ≤ length m.names → get_name_by_id r.1 i ≡ get_name_by_id m i
  pub kept_ids : (k : Name) → get_id_by_name m k ≢ 0 → get_id_by_name r.1 k ≡ get_id_by_name m k

kept_ids-added :
    (n : Name) (m : NameMap)
    → find_id n m.ids_by_name ≡ 0
    → (k : Name) → get_id_by_name m k ≢ 0
    → get_id_by_name (added n m) k ≡ get_id_by_name m k
unfolding get_id_by_name
kept_ids-added n m absent k h = elim (Bool-cases (same_name n k)) [
  | inl e ↦ absurd (h (subst (λ q. find_id q m.ids_by_name ≡ 0) (same_name→eq n k e) absent))
  | inr e ↦ find_id-added n k m ∙ rw e
]

added-IsEnsured :
    (n : Name) (m : NameMap)
    → IsValid m
    → find_id n m.ids_by_name ≡ 0
    → IsEnsured n m (suc (length m.names), added n m)
unfolding get_id_by_name
added-IsEnsured n m v absent = record {
  valid = added-IsValid n m v;
  found = find_id-added n n m ∙ rw same_name_refl;
  named = get_name_by_id-added_new n m;
  kept = get_name_by_id-added_old n m;
  kept_ids = kept_ids-added n m absent;
}

ensure_new :
    (n : Name) (m : NameMap)
    → is_empty n ≡ false
    → IsValid m
    → suc (length m.names) < 2 ^ 16
    → find_id n m.ids_by_name ≡ 0
    → ensure_name_exists n m ≡ (suc (length m.names), added n m)
unfolding ensure_name_exists get_id_by_name
ensure_new n m full v small e = ground (arith, add_name_lem n m v e small)

ensure_old :
    (n : Name) (m : NameMap)
    → is_empty n ≡ false
    → find_id n m.ids_by_name ≢ 0
    → ensure_name_exists n m ≡ (find_id n m.ids_by_name, m)
unfolding ensure_name_exists get_id_by_name
ensure_old n m full ne = ground arith

-- With room for one more name, `EnsureNameExists` of a name that is not empty gives an id that
-- leads to the name and from the name to the id, and changes no name and no id that was there.
pub ensure_name_exists-IsEnsured :
    (n : Name) (m : NameMap)
    → is_empty n ≡ false
    → IsValid m
    → suc (length m.names) < 2 ^ 16
    → IsEnsured n m (ensure_name_exists n m)
ensure_name_exists-IsEnsured n m full v small = elim (ℕ_discrete (find_id n m.ids_by_name) 0) [
  | yes absent ↦ rw (ensure_new n m full v small absent) (added-IsEnsured n m v absent)
  | no present ↦ rw (ensure_old n m full present) (record {
    valid = v;
    found = unfold get_id_by_name in refl;
    named = v.back n present;
    kept = λ i h. refl;
    kept_ids = λ k h. refl;
  })
]

pub empty-IsValid : IsValid empty
unfolding empty find_id has_name
empty-IsValid = record {
  back = λ n h. absurd (h refl);
  within = λ n. omega arith;
  known = λ n h. cc;
}
