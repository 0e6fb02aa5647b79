-- ===== src/Voice/Vad/Pace.antt =====
-- Cancellations in their order and at their distance, and how a rising edge keeps them so.
use data_pipeline_orchestrat.Base.{
  ℕ, ◌+◌, ◌-◌, ◌≤◌, ◌<◌, ◌≡◌, refl, arith, String, Option, none, some, List, [], ◌∷◌, Bool, true,
  ltb, leb→le, ◌&&◌, Bool-cases, inl, inr, Exception, and_then,
}
use data_pipeline_orchestrat.Voice.Vad.{
  Clock, VadConfig, Cancel, Vad, advance, read_clock, cooled_since, cooled_down, interrupt,
  cancel_turn, send_control, stamp_cancel, maybe_interrupt, onset,
}

-- The newest of the cancellations, if there is one, is at least `cooldown` before `time`.
abbrev pub Before : (cooldown time : ℕ) → List Cancel → Type 0
Before cooldown time [] = Unit
Before cooldown time (c ∷ cs) = c.timestamp + cooldown ≤ time

-- The cancellations name turns of the session, newest first, that were started before turn `n`,
-- each of them once and never the turn 0, and they are at least `cooldown` apart.
abbrev pub IsPaced : String → (cooldown n : ℕ) → List Cancel → Type 0
IsPaced session cooldown n [] = Unit
IsPaced session cooldown n (c ∷ cs) =
    (k : ℕ) × (c.turn ≡ record { session_id = some session; turn_id = some k })
    × (0 < k)
    × (k < n)
    × Before cooldown c.timestamp cs
    × IsPaced session cooldown k cs

-- `last_cancel_at` is a time between the newest cancellation and now.
abbrev pub IsTimed : Option ℕ → (now : ℕ) → List Cancel → Type 0
IsTimed none now cs = cs ≡ []
IsTimed (some t) now cs = (t ≤ now) × Before 0 t cs

abbrev pub IsSound : {A : Type 0} → VadConfig A → Vad A → Type 0
IsSound c s =
    IsPaced c.session_id c.barge_in_cooldown s.turn_id s.sent
    × IsTimed s.last_cancel_at s.clock.now s.sent

abbrev later-IsPaced :
    (session : String) (cooldown m n : ℕ) (cs : List Cancel)
    → m ≤ n
    → IsPaced session cooldown m cs
    → IsPaced session cooldown n cs
later-IsPaced session cooldown m n [] h paced = tt
later-IsPaced session cooldown m n (c ∷ cs) h (k, named, above, below, before, paced) =
    (k, named, above, omega (arith, h, below), before, paced)

advance_lem : (c : Clock) → c.now ≤ (advance c).now
unfolding advance
advance_lem c = go c.steps
  where
    go : (steps : List ℕ) → c.now ≤ (advance (record { now = c.now; steps = steps })).now
    go [] = omega arith
    go (d ∷ ds) = omega arith

later-IsTimed :
    (last : Option ℕ) (m n : ℕ) (cs : List Cancel) → m ≤ n → IsTimed last m cs → IsTimed last n cs
later-IsTimed none m n cs h timed = timed
later-IsTimed (some t) m n cs h (past, before) = (omega (arith, h, past), before)

later-Before :
    (cooldown m n : ℕ) (cs : List Cancel) → m ≤ n → Before cooldown m cs → Before cooldown n cs
later-Before cooldown m n [] h before = tt
later-Before cooldown m n (c ∷ cs) h before = omega (arith, h, before)

module _ {A : Type 0} (c : VadConfig A) where
  pub read_clock-IsSound : (s : Vad A) → IsSound c s → IsSound c ((read_clock s).1)
  unfolding read_clock
  read_clock-IsSound s (paced, timed) = (
    paced,
    later-IsTimed s.last_cancel_at s.clock.now (advance s.clock).now s.sent (advance_lem s.clock)
        timed,
  )

  -- A look at the cooldown may read the clock, and nothing else.
  cooled_since-IsSound :
      (last : Option ℕ) (cooldown : ℕ) (s : Vad A)
      → IsSound c s
      → IsSound c ((cooled_since last cooldown s).1)
  unfolding cooled_since
  cooled_since-IsSound none cooldown s sound = sound
  cooled_since-IsSound (some t) cooldown s sound = read_clock-IsSound s sound

  cooled_since-keeps :
      (last : Option ℕ) (cooldown : ℕ) (s : Vad A)
      → ((cooled_since last cooldown s).1.turn_id ≡ s.turn_id)
        × ((cooled_since last cooldown s).1.sent ≡ s.sent)
  unfolding cooled_since read_clock
  cooled_since-keeps none cooldown s = (refl, refl)
  cooled_since-keeps (some t) cooldown s = (refl, refl)

  -- After the cooldown, the newest cancellation is far enough back.
  cooled-Before :
      (last : Option ℕ) (cooldown : ℕ) (s : Vad A) (cs : List Cancel)
      → IsTimed last s.clock.now cs
      → (cooled_since last cooldown s).0 ≡ true
      → Before cooldown ((cooled_since last cooldown s).1.clock.now) cs
  unfolding cooled_since read_clock
  cooled-Before last cooldown s [] timed cool = tt
  cooled-Before none cooldown s (d ∷ cs) timed cool = cc
  cooled-Before (some t) cooldown s (d ∷ cs) (past, before) cool =
      omega
        (arith, past, before, leb→le cooldown ((advance s.clock).now - t) cool, advance_lem s.clock)

  delivered-IsSound :
      (previous : ℕ) (s : Vad A)
      → IsSound c s
      → 0 < previous
      → previous < s.turn_id
      → IsPaced c.session_id c.barge_in_cooldown previous s.sent
      → Before c.barge_in_cooldown s.clock.now s.sent
      → let message : Cancel = record {
        timestamp = (read_clock s).0;
        turn = record { session_id = some c.session_id; turn_id = some previous };
      } in
        IsSound c ((and_then (send_control [] message ((read_clock s).1)) (λ _. stamp_cancel)).1)
  unfolding send_control stamp_cancel read_clock
  delivered-IsSound previous s sound positive started paced cool =
      let one = advance_lem s.clock in
      let two = advance_lem (advance s.clock) in
      (
        (
          previous,
          refl,
          positive,
          started,
          later-Before c.barge_in_cooldown s.clock.now ((advance s.clock).now) s.sent one cool,
          paced,
        ),
        (omega arith, omega (arith, two)),
      )

  sent-IsSound :
      (previous : ℕ) (s : Vad A) (control : List (Option Exception))
      → IsSound c s
      → 0 < previous
      → previous < s.turn_id
      → IsPaced c.session_id c.barge_in_cooldown previous s.sent
      → Before c.barge_in_cooldown s.clock.now s.sent
      → let message : Cancel = record {
        timestamp = (read_clock s).0;
        turn = record { session_id = some c.session_id; turn_id = some previous };
      } in
        IsSound c
          ((and_then (send_control control message ((read_clock s).1)) (λ _. stamp_cancel)).1)
  unfolding send_control stamp_cancel read_clock
  sent-IsSound previous s [] sound positive started paced cool =
      delivered-IsSound previous s sound positive started paced cool
  sent-IsSound previous s (none ∷ rest) sound positive started paced cool =
      delivered-IsSound previous s sound positive started paced cool
  sent-IsSound previous s (some e ∷ rest) sound positive started paced cool =
      read_clock-IsSound s sound

  interrupt-IsSound :
      (previous : ℕ) (s : Vad A)
      → IsSound c s
      → 0 < previous
      → previous < s.turn_id
      → IsPaced c.session_id c.barge_in_cooldown previous s.sent
      → Before c.barge_in_cooldown s.clock.now s.sent
      → IsSound c ((interrupt c.session_id previous s).1)
  unfolding interrupt cancel_turn read_clock
  interrupt-IsSound previous s = sent-IsSound previous s s.control

  -- A rising edge cancels the turn before, or leaves what was sent as it is, also where it raises.
  pub onset-IsSound :
      (loud : Bool) (s : Vad A)
      → IsSound c s
      → IsSound c ((onset loud c.session_id c.barge_in_cooldown s).1)
  unfolding onset maybe_interrupt cooled_down
  onset-IsSound loud s (paced, timed) =
      let s1 : Vad A = record s { turn_id = s.turn_id + 1 } in
      let asked = cooled_since s.last_cancel_at c.barge_in_cooldown s1 in
      let sound : IsSound c s1 = (
        later-IsPaced c.session_id c.barge_in_cooldown s.turn_id (s.turn_id + 1) s.sent
            (omega arith) paced,
        timed,
      ) in
      let keeps = cooled_since-keeps s.last_cancel_at c.barge_in_cooldown s1 in
      let asked_sound = cooled_since-IsSound s.last_cancel_at c.barge_in_cooldown s1 sound in
      elim (Bool-cases (ltb 0 s.turn_id && loud)) [
        | inr e ↦ rw e sound
        | inl e ↦ elim (Bool-cases (asked.0)) [
          | inr f ↦ rw (e, f) asked_sound
          | inl f ↦
              rw (e, f)
                (interrupt-IsSound s.turn_id (asked.1) asked_sound (ground (arith, e))
                  (omega (arith, keeps.0)) (rw (keeps.1) paced)
                  (rw (keeps.1)
                    (cooled-Before s.last_cancel_at c.barge_in_cooldown s1 s.sent timed f)))
        ]
      ]
