-- ===== src/Midi/Matcher/Hearing.antt =====
-- The receiver after the events that `Match` has been called with, and the devices that have set it up.
use grandorgue.Prelude.{
  ℕ, suc, true, false, not, ◌&&◌, ◌||◌, Option, none, some, List, [], ◌∷◌, ◌≡◌, refl, ap, sym,
  subst, inl, inr, Bool-cases, arith,
}
use grandorgue.Prelude.Int.{ℤ, pos, eq_ℤ}
use grandorgue.Midi.Event.{
  Event, same_type, minus_one, midi_sysex_go_clear, midi_sysex_go_sampleset, midi_sysex_go_setup,
}
use grandorgue.Midi.MessageType.{MatchType}
use grandorgue.Midi.Pattern.{Pattern}
use grandorgue.Midi.Matcher.{
  set_up, play_from, Receiver, Internal, Found, Step, go_on, stop, wait, found, debounce,
  delete_internal, find_internal, set_internal, mute_internal, key_or_zero, pattern_step,
  match_patterns, match_event, play_event,
}
use grandorgue.Midi.Matcher.Internals.{set_internal-upsert, IsDistinct, upsert-IsDistinct}
use grandorgue.Midi.Matcher.Removal.{delete_internal-remove, remove-IsDistinct}

debounce-internal :
    (e : Event) (m : MatchType) (i : ℕ) (p : Pattern) (r : Receiver)
    → (debounce e m i p r).0.internal ≡ r.internal
unfolding debounce
debounce-internal e m i p r = ground arith

module _ (e : Event) (map : Option (List ℕ)) (transpose : ℤ) where
  match_patterns-internal :
      (i : ℕ) (l : List Pattern) (key value : ℤ) (r : Receiver)
      → (match_patterns e map transpose i l key value r).0.internal ≡ r.internal
  unfolding match_patterns
  match_patterns-internal i [] key value r = refl
  match_patterns-internal i (p ∷ l) key value r =
      branch (pattern_step r.receiver_type e map transpose p key value)
        (λ k v. match_patterns-internal (suc i) l k v r)
    where
      branch :
          (s : Step)
          → ((k v : ℤ) → (match_patterns e map transpose (suc i) l k v r).0.internal ≡ r.internal)
          → (let x : Receiver × Found = elim s [
            | go_on k v ↦ match_patterns e map transpose (suc i) l k v r
            | stop m k v ↦ (r, found m k v)
            | wait m k v ↦ ((debounce e m i p r).0, found (debounce e m i p r).1 k v)
          ] in
              x).0.internal
            ≡ r.internal
      branch (go_on k v) ih = ih k v
      branch (stop m k v) ih = refl
      branch (wait m k v) ih = debounce-internal e m i p r

  pub play_event-internal :
      (key : ℤ) (r : Receiver) → (play_event e map transpose key r).0.internal ≡ r.internal
  unfolding play_event
  play_event-internal key r = from (find_internal e.device r.internal)
    where
      from : (o : Option Internal) → (play_from o e map transpose key r).0.internal ≡ r.internal
      from none = match_patterns-internal 0 r.patterns key (pos 0) r
      from (some x) = refl

set_internal-IsDistinct :
    (x : Internal) (l : List Internal) → IsDistinct l → IsDistinct (set_internal x l)
set_internal-IsDistinct x l h =
    subst IsDistinct (sym (set_internal-upsert x l)) (upsert-IsDistinct x l h)

delete_internal-IsDistinct :
    (d : ℕ) (l : List Internal) → IsDistinct l → IsDistinct (delete_internal d l)
delete_internal-IsDistinct d l h =
    subst IsDistinct (sym (delete_internal-remove d l)) (remove-IsDistinct d l h)

set_up-IsDistinct :
    (e : Event) (r : Receiver) → IsDistinct r.internal → IsDistinct (set_up e r).internal
unfolding set_up
set_up-IsDistinct e r h =
    let set =
      set_internal-IsDistinct (record { device = e.device; channel = e.channel; key = e.value })
        r.internal h in
    elim (Bool-cases (eq_ℤ r.element_id minus_one || not (eq_ℤ r.element_id e.key))) [
      | inl d ↦ rw d h
      | inr d ↦ rw d set
    ]

match_event-IsDistinct :
    (e : Event) (map : Option (List ℕ)) (transpose key : ℤ) (r : Receiver)
    → IsDistinct r.internal
    → IsDistinct (match_event e map transpose key r).0.internal
unfolding match_event mute_internal
match_event-IsDistinct e map transpose key r h =
    let deleted = delete_internal-IsDistinct e.device r.internal h in
    let muted =
      set_internal-IsDistinct
        (record {
          device = e.device;
          channel = minus_one;
          key = key_or_zero (find_internal e.device r.internal);
        })
        r.internal h in
    let played = subst IsDistinct (sym (play_event-internal e map transpose key r)) h in
    elim (Bool-cases (same_type e.midi_type midi_sysex_go_clear && eq_ℤ e.channel (pos 0))) [
      | inl a ↦ rw a deleted
      | inr a ↦
          rw a
            (elim (Bool-cases (
              same_type e.midi_type midi_sysex_go_clear
              || same_type e.midi_type midi_sysex_go_sampleset)) [
                | inl b ↦ rw b muted
                | inr b ↦ rw b (elim (Bool-cases (same_type e.midi_type midi_sysex_go_setup)) [
                  | inl c ↦ rw c (set_up-IsDistinct e r h)
                  | inr c ↦ rw c played
                ])
              ])
    ]

-- An event as `Match` is called with it: with the key map of the receiver's owner, if it has one, the
-- transposition, and what the caller's variable for the key holds.
pub record Heard : Type 0 where
  pub event : Event
  pub key_map : Option (List ℕ)
  pub transpose : ℤ
  pub key : ℤ

unfoldable pub hear : Heard → Receiver → Receiver
hear h r = (match_event h.event h.key_map h.transpose h.key r).0

unfoldable pub hear_all : List Heard → Receiver → Receiver
hear_all [] r = r
hear_all (h ∷ hs) r = hear_all hs (hear h r)

pub hear-IsDistinct :
    (h : Heard) (r : Receiver) → IsDistinct r.internal → IsDistinct (hear h r).internal
unfolding hear
hear-IsDistinct h r d = match_event-IsDistinct h.event h.key_map h.transpose h.key r d

pub hear_all-IsDistinct :
    (hs : List Heard) (r : Receiver) → IsDistinct r.internal → IsDistinct (hear_all hs r).internal
unfolding hear_all
hear_all-IsDistinct [] r d = d
hear_all-IsDistinct (h ∷ hs) r d = hear_all-IsDistinct hs (hear h r) (hear-IsDistinct h r d)

pub hear-clear :
    (h : Heard) (r : Receiver)
    → h.event.midi_type ≡ midi_sysex_go_clear
    → h.event.channel ≡ pos 0
    → hear h r ≡ record r { internal = delete_internal h.event.device r.internal }
unfolding hear match_event
hear-clear h r t c = rw (t, c)

pub hear-set_up :
    (h : Heard) (r : Receiver)
    → h.event.midi_type ≡ midi_sysex_go_setup
    → hear h r ≡ set_up h.event r
unfolding hear match_event
hear-set_up h r t =
    let no_clear : same_type h.event.midi_type midi_sysex_go_clear ≡ false =
      ap (λ m. same_type m midi_sysex_go_clear) t in
    let no_set : same_type h.event.midi_type midi_sysex_go_sampleset ≡ false =
      ap (λ m. same_type m midi_sysex_go_sampleset) t in
    let is_set : same_type h.event.midi_type midi_sysex_go_setup ≡ true =
      ap (λ m. same_type m midi_sysex_go_setup) t in
    ground arith
