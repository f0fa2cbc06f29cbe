-- ===== src/Couplers/Output.antt =====
-- What the destination manual of a coupler hears.
use grandorgue.Prelude.{
  ℕ, zero, suc, ◌+◌, ◌-◌, Bool, true, false, ◌||◌, Option, none, some, List, [], ◌∷◌, ◌++◌, length,
  set, map, ltb, leb, ◌==◌, ◌≡◌, refl, ap, ap₂, sym, ◌∙◌, subst, inl, inr, ◌⊎◌, arith,
  if◌then◌else◌, Bool-cases, Option-cases,
}
use grandorgue.Prelude.Int.{ℤ, pos, negsuc, ◌+ℤ◌}
use grandorgue.Couplers.{
  Coupler, CouplerType, coupler_normal, coupler_bass, coupler_melody, Flags, Calls, velocity_at,
  set_out_at, set_out, cancel_tone, choose_tone, send_tone, note_last, change_single, change_key,
  set_key, next_pressed_key, same_tone, greatest,
}

-- The velocities that a coupler sends on: one less than its own while it is engaged, else none.
abbrev pub sent : Bool → ℕ → ℕ
sent on v = if on then v - 1 else 0

abbrev pub IsFollowing : Coupler → Type 0
IsFollowing c = c.out_velocity ≡ map (sent c.is_engaged) c.internal_velocity

-- What a manual holds for the coupler after some calls of `SetKeyState`.
unfoldable pub hear : Calls → List ℕ → List ℕ
hear [] d = d
hear ((note, v) ∷ calls) d = hear calls (set d note v)

pub hear-append : (a b : Calls) (d : List ℕ) → hear (a ++ b) d ≡ hear b (hear a d)
unfolding hear
hear-append [] b d = refl
hear-append ((note, v) ∷ a) b d = hear-append a b (set d note v)

-- A step of a coupler whose calls tell just what has changed.
abbrev pub Tells : Coupler → Coupler × Calls → Type 0
Tells c r = IsFollowing r.0 × (hear r.1 c.out_velocity ≡ r.0.out_velocity)

set-map : (f : ℕ → ℕ) (l : List ℕ) (i v : ℕ) → map f (set l i v) ≡ set (map f l) i (f v)
set-map f [] i v = refl
set-map f (x ∷ l) zero v = refl
set-map f (x ∷ l) (suc i) v = ap (◌∷◌ (f x)) (set-map f l i v)

map-silent : (l : List ℕ) (i v : ℕ) → map (sent false) (set l i v) ≡ map (sent false) l
map-silent [] i v = refl
map-silent (x ∷ l) zero v = refl
map-silent (x ∷ l) (suc i) v = ap (◌∷◌ 0) (map-silent l i v)

pub same-Tells : (c : Coupler) → IsFollowing c → Tells c (c, [])
unfolding hear
same-Tells c h = (h, refl)

engaged_write :
    (note velocity : ℕ) (c : Coupler)
    → c.is_engaged ≡ true
    → IsFollowing c
    → set c.out_velocity note (velocity - 1)
      ≡ map (sent true) (set c.internal_velocity note velocity)
engaged_write note velocity c on h =
    ap (λ o. set o note (velocity - 1)) (h ∙ ap (λ b. map (sent b) c.internal_velocity) on)
    ∙ sym (set-map (sent true) c.internal_velocity note velocity)

silent_write :
    (note velocity : ℕ) (c : Coupler)
    → c.is_engaged ≡ false
    → IsFollowing c
    → c.out_velocity ≡ map (sent false) (set c.internal_velocity note velocity)
silent_write note velocity c off h =
    h
    ∙ ap (λ b. map (sent b) c.internal_velocity) off
    ∙ sym (map-silent c.internal_velocity note velocity)

set_out_at-Tells :
    (note velocity : ℕ) (c : Coupler) → IsFollowing c → Tells c (set_out_at note velocity c)
unfolding set_out_at hear
set_out_at-Tells note velocity c h = elim (Bool-cases (leb (length c.internal_velocity) note)) [
  | inl e ↦ rw e (h, refl)
  | inr e ↦ rw e (elim (Bool-cases (velocity_at c.internal_velocity note == velocity)) [
    | inl q ↦ rw q (h, refl)
    | inr q ↦ rw q (elim (Bool-cases c.is_engaged) [
      | inl on ↦ rw on (engaged_write note velocity c on h, refl)
      | inr off ↦ rw off (silent_write note velocity c off h, refl)
    ])
  ])
]

set_out-Tells :
    (z : ℤ) (velocity : ℕ) (c : Coupler) → IsFollowing c → Tells c (set_out z velocity c)
unfolding set_out
set_out-Tells (pos note) velocity c h = set_out_at-Tells note velocity c h
set_out-Tells (negsuc n) velocity c h = same-Tells c h

pub cancel_tone-some :
    (next : Option ℕ) (c : Coupler) (t : ℕ)
    → c.current_tone ≡ some t
    → same_tone next (some t) ≡ false
    → cancel_tone next c ≡ (
      record (set_out (pos t +ℤ c.keyshift) 0 c).0 { current_tone = none },
      (set_out (pos t +ℤ c.keyshift) 0 c).1,
    )
unfolding cancel_tone
cancel_tone-some next c t e q = simp (e, q, cancel_tone)

cancel_tone-Tells : (next : Option ℕ) (c : Coupler) → IsFollowing c → Tells c (cancel_tone next c)
unfolding cancel_tone
cancel_tone-Tells next c h = elim (Option-cases c.current_tone) [
  | inl e ↦
      let same : cancel_tone next c ≡ (c, []) = simp (e, cancel_tone) in
      subst (Tells c) (sym same) (same-Tells c h)
  | inr (t, e) ↦ elim (Bool-cases (same_tone next (some t))) [
    | inl q ↦
        let same : cancel_tone next c ≡ (c, []) = simp (e, q, cancel_tone) in
        subst (Tells c) (sym same) (same-Tells c h)
    | inr q ↦
        subst (Tells c) (sym (cancel_tone-some next c t e q))
          (set_out-Tells (pos t +ℤ c.keyshift) 0 c h)
  ]
]

send_tone-Tells : (c : Coupler) → IsFollowing c → Tells c (send_tone c)
unfolding send_tone
send_tone-Tells c h = elim (Option-cases c.current_tone) [
  | inl e ↦
      let same : send_tone c ≡ (c, []) = simp (e, send_tone) in
      subst (Tells c) (sym same) (same-Tells c h)
  | inr (t, e) ↦
      let same : send_tone c ≡ set_out (pos t +ℤ c.keyshift) (velocity_at c.key_velocity t) c =
        simp (e, send_tone) in
      subst (Tells c) (sym same)
        (set_out-Tells (pos t +ℤ c.keyshift) (velocity_at c.key_velocity t) c h)
]

-- What the output depends on.
abbrev SameOutput : Coupler → Coupler → Type 0
SameOutput c' c =
    (c'.out_velocity ≡ c.out_velocity)
    × (c'.internal_velocity ≡ c.internal_velocity)
    × (c'.is_engaged ≡ c.is_engaged)

choose_tone-SameOutput :
    (next : Option ℕ) (note velocity : ℕ) (c : Coupler)
    → SameOutput (choose_tone next note velocity c) c
unfolding choose_tone
choose_tone-SameOutput next note velocity c = (ground arith, ground arith, ground arith)

note_last-SameOutput :
    (next : Option ℕ) (note velocity : ℕ) (c : Coupler)
    → SameOutput (note_last next note velocity c) c
unfolding note_last
note_last-SameOutput next note velocity c = (ground arith, ground arith, ground arith)

SameOutput-IsFollowing : (c c' : Coupler) → SameOutput c' c → IsFollowing c → IsFollowing c'
SameOutput-IsFollowing c c' (o, i, e) h = o ∙ h ∙ sym (ap₂ (λ b l. map (sent b) l) e i)

change_single-Tells :
    (note velocity : ℕ) (c : Coupler) → IsFollowing c → Tells c (change_single note velocity c)
unfolding change_single
change_single-Tells note velocity c h =
    let next = next_pressed_key none c in
    let (h1, k1) = cancel_tone-Tells next c h in
    let c1 = (cancel_tone next c).0 in
    let chosen = choose_tone next note velocity c1 in
    let s2 = choose_tone-SameOutput next note velocity c1 in
    let (h3, k3) = send_tone-Tells chosen (SameOutput-IsFollowing c1 chosen s2 h1) in
    let c3 = (send_tone chosen).0 in
    let s4 = note_last-SameOutput next note velocity c3 in
    (
      SameOutput-IsFollowing c3 (note_last next note velocity c3) s4 h3,
      hear-append (cancel_tone next c).1 (send_tone chosen).1 c.out_velocity
          ∙ ap (hear (send_tone chosen).1) (k1 ∙ sym s2.0)
          ∙ k3
          ∙ sym s4.0,
    )

CouplerType-cases :
    (t : CouplerType) → (t ≡ coupler_normal) ⊎ (t ≡ coupler_bass) ⊎ (t ≡ coupler_melody)
CouplerType-cases coupler_normal = inl refl
CouplerType-cases coupler_bass = inr (inl refl)
CouplerType-cases coupler_melody = inr (inr refl)

change_key-Tells :
    (note velocity : ℕ) (c : Coupler) → IsFollowing c → Tells c (change_key note velocity c)
unfolding change_key
change_key-Tells note velocity c h = elim (Bool-cases c.unison_off) [
  | inl e ↦
      let same : change_key note velocity c ≡ (c, []) = simp (e, change_key) in
      subst (Tells c) (sym same) (same-Tells c h)
  | inr e ↦ elim (CouplerType-cases c.coupler_type) [
    | inl t ↦
        let same : change_key note velocity c ≡ set_out (pos note +ℤ c.keyshift) velocity c =
          simp (e, t, change_key) in
        subst (Tells c) (sym same) (set_out-Tells (pos note +ℤ c.keyshift) velocity c h)
    | inr (inl t) ↦ single (simp (e, t, change_key))
    | inr (inr t) ↦ single (simp (e, t, change_key))
  ]
]
  where
    single :
        change_key note velocity c ≡ change_single note velocity c
        → Tells c (change_key note velocity c)
    single same = subst (Tells c) (sym same) (change_single-Tells note velocity c h)

pub set_key-Tells :
    (note : ℕ) (l : List (ℕ × Option Flags)) (c : Coupler)
    → IsFollowing c
    → Tells c (set_key note l c)
unfolding set_key
set_key-Tells note l c h = elim (Bool-cases (leb (length c.key_velocity) note)) [
  | inl e ↦ rw e (same-Tells c h)
  | inr e ↦
      rw e
        (elim (Bool-cases
          (ltb note c.first_logical_key || leb (c.first_logical_key + c.number_of_keys) note)) [
            | inl q ↦ rw q (same-Tells c h)
            | inr q ↦ rw q (elim (Bool-cases (velocity_at c.key_velocity note == greatest c 0 l)) [
              | inl r ↦ rw r (same-Tells c h)
              | inr r ↦ rw r (
                  change_key-Tells note (greatest c 0 l)
                    (record c { key_velocity = set c.key_velocity note (greatest c 0 l) }) h)
            ])
          ])
]
