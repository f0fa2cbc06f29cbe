-- ===== src/Couplers/Single.antt =====
-- A bass or melody coupler sounds one tone at a time.
use grandorgue.Prelude.{
  ℕ, zero, suc, true, ◌&&◌, ◌||◌, Option, none, some, [], get_or-set_self, get_or-set_ne,
  get_or_of_le, ltb, ◌==◌, ==_iff, ◌≡◌, ◌≢◌, ◌⊎◌, refl, ap, sym, ◌∙◌, subst, inl, inr, arith,
  Bool-cases, Option-cases, ℕ_discrete,
}
use grandorgue.Prelude.Int.{ℤ, pos, negsuc, ◌+ℤ◌}
use grandorgue.Couplers.{
  Coupler, velocity_at, set_out_at, set_out, cancel_tone, choose_tone, send_tone, note_last,
  change_single, next_pressed_key, same_tone,
}
use grandorgue.Couplers.Output.{cancel_tone-some}

-- A note sounds only if it is the current tone, moved by the key shift.
abbrev pub IsSingle : Coupler → Type 0
IsSingle c =
    (i : ℕ)
    → velocity_at c.internal_velocity i ≢ 0
    → (t : ℕ) × (c.current_tone ≡ some t) × (pos t +ℤ c.keyshift ≡ pos i)

-- What `SetOut` leaves in the velocities.
set_out_at_self :
    (n v : ℕ) (c : Coupler) → velocity_at (set_out_at n v c).0.internal_velocity n ≢ 0 → v ≢ 0
unfolding set_out_at
set_out_at_self n v c h k =
    ground
      (arith, h, get_or-set_self c.internal_velocity n v 0, get_or_of_le c.internal_velocity n 0)

set_out_at-ne :
    (n v : ℕ) (c : Coupler) (i : ℕ)
    → n ≢ i
    → velocity_at (set_out_at n v c).0.internal_velocity i ≡ velocity_at c.internal_velocity i
unfolding set_out_at
set_out_at-ne n v c i ne = ground (arith, get_or-set_ne c.internal_velocity n i v 0 ne)

set_out-velocity :
    (z : ℤ) (v : ℕ) (c : Coupler) (i : ℕ)
    → velocity_at (set_out z v c).0.internal_velocity i ≢ 0
    → ((z ≡ pos i) × (v ≢ 0)) ⊎ ((z ≢ pos i) × (velocity_at c.internal_velocity i ≢ 0))
unfolding set_out
set_out-velocity (negsuc n) v c i h = inr ((λ e. cc), h)
set_out-velocity (pos n) v c i h = elim (ℕ_discrete n i) [
  | yes e ↦ inl (
    ap pos e,
    set_out_at_self n v c
        (subst (λ j. velocity_at (set_out_at n v c).0.internal_velocity j ≢ 0) (sym e) h),
  )
  | no ne ↦ inr ((λ e. ne (pos_inj n i e)), subst (λ w. w ≢ 0) (set_out_at-ne n v c i ne) h)
]
  where
    pos_inj : (a b : ℕ) → pos a ≡ pos b → a ≡ b
    pos_inj a b e = cc

set_out-tone :
    (z : ℤ) (v : ℕ) (c : Coupler)
    → ((set_out z v c).0.current_tone ≡ c.current_tone) × ((set_out z v c).0.keyshift ≡ c.keyshift)
unfolding set_out set_out_at
set_out-tone (pos n) v c = (ground arith, ground arith)
set_out-tone (negsuc n) v c = (refl, refl)

-- No note sounds.
abbrev IsSilent : Coupler → Type 0
IsSilent c = (i : ℕ) → velocity_at c.internal_velocity i ≡ 0

zero_or_not : (n : ℕ) → (n ≢ 0 → ⊥) → n ≡ 0
zero_or_not zero h = refl
zero_or_not (suc n) h = absurd (h (λ e. absurd (omega (arith, e))))

IsSilent-of_none : (c : Coupler) → IsSingle c → c.current_tone ≡ none → IsSilent c
IsSilent-of_none c h e i =
    zero_or_not (velocity_at c.internal_velocity i)
      λ k. let (t, q, _) = h i k in differ t (sym e ∙ q)
  where
    differ : (t : ℕ) → ◌≡◌ {A = Option ℕ} none (some t) → ⊥
    differ t q = cc

same_tone→eq : (next : Option ℕ) (t : ℕ) → same_tone next (some t) ≡ true → next ≡ some t
same_tone→eq none t h = cc
same_tone→eq (some n) t h = ap some ((==_iff n t).0 h)

cancelled_is_silent :
    (c : Coupler) (t : ℕ)
    → IsSingle c
    → c.current_tone ≡ some t
    → (i : ℕ) → velocity_at (set_out (pos t +ℤ c.keyshift) 0 c).0.internal_velocity i ≢ 0
    → ⊥
cancelled_is_silent c t h e i k = elim (set_out-velocity (pos t +ℤ c.keyshift) 0 c i k) [
  | inl (_, sounds) ↦ sounds refl
  | inr (apart, old) ↦
      let (u, q, p) = h i old in
      apart (subst (λ w. pos w +ℤ c.keyshift ≡ pos i) (some_inj u t (sym q ∙ e)) p)
]
  where
    some_inj : (u t : ℕ) → ◌≡◌ {A = Option ℕ} (some u) (some t) → u ≡ t
    some_inj u t q = cc

-- The tone is kept, being the next one, or nothing sounds any more.
cancel_tone-IsSingle :
    (next : Option ℕ) (c : Coupler)
    → IsSingle c
    → let c' = (cancel_tone next c).0 in
      ((c'.current_tone ≡ next) × IsSingle c') ⊎ ((c'.current_tone ≡ none) × IsSilent c')
unfolding cancel_tone
cancel_tone-IsSingle next c h = elim (Option-cases c.current_tone) [
  | inl e ↦
      let same : cancel_tone next c ≡ (c, []) = simp (e, cancel_tone) in
      rw same (inr (e, IsSilent-of_none c h e))
  | inr (t, e) ↦ elim (Bool-cases (same_tone next (some t))) [
    | inl q ↦
        let same : cancel_tone next c ≡ (c, []) = simp (e, q, cancel_tone) in
        rw same (inl (e ∙ sym (same_tone→eq next t q), h))
    | inr q ↦
        rw (cancel_tone-some next c t e q)
          (inr (refl, λ i. zero_or_not _ (cancelled_is_silent c t h e i)))
  ]
]

-- What is chosen is the next tone, or the tone stays.
choose_tone-chooses :
    (next : Option ℕ) (note velocity : ℕ) (c : Coupler)
    → let c' = choose_tone next note velocity c in
      ((c'.current_tone ≡ next) ⊎ (c'.current_tone ≡ c.current_tone))
      × (c'.internal_velocity ≡ c.internal_velocity)
      × (c'.keyshift ≡ c.keyshift)
unfolding choose_tone
choose_tone-chooses next note velocity c =
    elim (Bool-cases (
      (ltb 0 velocity && same_tone next (some note))
      || (velocity == 0 && same_tone next c.last_tone))) [
        | inl e ↦ rw e (inl refl, refl, refl)
        | inr e ↦ rw e (inr refl, refl, refl)
      ]

IsNext : Option ℕ → Coupler → Type 0
IsNext next c = (c.current_tone ≡ next) ⊎ (c.current_tone ≡ none)

chosen-IsSingle :
    (next : Option ℕ) (note velocity : ℕ) (c : Coupler)
    → ((c.current_tone ≡ next) × IsSingle c) ⊎ ((c.current_tone ≡ none) × IsSilent c)
    → IsNext next (choose_tone next note velocity c) × IsSingle (choose_tone next note velocity c)
unfolding IsNext
chosen-IsSingle next note velocity c (inl (e, h)) =
    let (tone, vel, shift) = choose_tone-chooses next note velocity c in
    let now : (choose_tone next note velocity c).current_tone ≡ c.current_tone = elim tone [
      | inl q ↦ q ∙ sym e
      | inr q ↦ q
    ] in
    (
      inl (now ∙ e),
      λ i k.
          let (t, q, p) = h i (subst (λ l. velocity_at l i ≢ 0) vel k) in
          (t, now ∙ q, ap (λ z. pos t +ℤ z) shift ∙ p),
    )
chosen-IsSingle next note velocity c (inr (e, silent)) =
    let (tone, vel, shift) = choose_tone-chooses next note velocity c in
    (
      elim tone [ inl q ↦ inl q | inr q ↦ inr (q ∙ e) ],
      λ i k. absurd (k (ap (λ l. velocity_at l i) vel ∙ silent i)),
    )

send_tone-IsSingle :
    (next : Option ℕ) (c : Coupler)
    → IsNext next c
    → IsSingle c
    → IsNext next (send_tone c).0 × IsSingle (send_tone c).0
unfolding send_tone IsNext
send_tone-IsSingle next c n h = elim (Option-cases c.current_tone) [
  | inl e ↦ let same : send_tone c ≡ (c, []) = simp (e, send_tone) in rw same (n, h)
  | inr (t, e) ↦
      let z = pos t +ℤ c.keyshift in
      let v = velocity_at c.key_velocity t in
      let same : send_tone c ≡ set_out z v c = simp (e, send_tone) in
      let (tone, shift) = set_out-tone z v c in
      rw same (
        elim n [ inl q ↦ inl (tone ∙ q) | inr q ↦ inr (tone ∙ q) ],
        λ i k. elim (set_out-velocity z v c i k) [
          | inl (q, _) ↦ (t, tone ∙ e, ap (λ y. pos t +ℤ y) shift ∙ q)
          | inr (_, old) ↦ let (u, q, p) = h i old in (u, tone ∙ q, ap (λ y. pos u +ℤ y) shift ∙ p)
        ],
      )
]

note_last-IsSingle :
    (next next' : Option ℕ) (note velocity : ℕ) (c : Coupler)
    → IsNext next c
    → IsSingle c
    → IsNext next (note_last next' note velocity c) × IsSingle (note_last next' note velocity c)
unfolding note_last IsNext
note_last-IsSingle next next' note velocity c n h = elim (Bool-cases c.is_new_bas_mel) [
  | inl e ↦ simp (e, note_last) (n, h)
  | inr e ↦ simp (e, note_last) (n, h)
]

-- A bass or melody coupler sounds one note at most: if no note has a velocity but the current tone
-- moved by the key shift, then so it is after a key has changed, and the current tone is then the
-- first pressed key in the coupler's order, or none.
pub change_single-IsSingle :
    (note velocity : ℕ) (c : Coupler)
    → IsSingle c
    → IsSingle (change_single note velocity c).0
      × (((change_single note velocity c).0.current_tone ≡ next_pressed_key none c)
          ⊎ ((change_single note velocity c).0.current_tone ≡ none))
unfolding change_single IsNext
change_single-IsSingle note velocity c h =
    let next = next_pressed_key none c in
    let c1 = (cancel_tone next c).0 in
    let chosen = choose_tone next note velocity c1 in
    let (n2, h2) = chosen-IsSingle next note velocity c1 (cancel_tone-IsSingle next c h) in
    let (n3, h3) = send_tone-IsSingle next chosen n2 h2 in
    let (n4, h4) = note_last-IsSingle next next note velocity (send_tone chosen).0 n3 h3 in (h4, n4)
