-- ===== src/Voice/Vad/Laws.antt =====
-- What the cancellations of the voice activity filter name, and how far apart they are.
use data_pipeline_orchestrat.Base.{
  ℕ, refl, Option, none, some, List, [], ◌∷◌, ltb, str_eq, length, not, ◌&&◌, Outcome, returned,
  raised, and_then, Bool-cases, inl, inr, Bool, pure, Exception, Outcome-cases,
}
use data_pipeline_orchestrat.Voice.Messages.{AudioChunk}
use data_pipeline_orchestrat.Voice.Echo.{Signal, push}
use data_pipeline_orchestrat.Voice.Vad.{
  Clock, VadConfig, Vad, read_clock, active_since, reference_active, track_turn, stamp_chunk,
  is_speech, is_loud, take_reference, subtract_echo, clean, judge, process, process_all, new_vad,
  reference_source,
}
use data_pipeline_orchestrat.Voice.Vad.Pace.{IsPaced, IsSound, read_clock-IsSound, onset-IsSound}

module _ {A : Type 0} (c : VadConfig A) where
  active_since-IsSound :
      (last : Option ℕ) (stale : ℕ) (s : Vad A)
      → IsSound c s
      → IsSound c ((active_since last stale s).1)
  unfolding active_since
  active_since-IsSound none stale s sound = sound
  active_since-IsSound (some t) stale s sound = read_clock-IsSound c s sound

  module _ (sig : Signal A) where
    subtract_echo-IsSound :
        (samples : List A) (ref : Option (List A)) (s : Vad A)
        → IsSound c s
        → IsSound c ((subtract_echo sig c samples ref s).1)
    unfolding subtract_echo
    subtract_echo-IsSound samples none s sound = sound
    subtract_echo-IsSound samples (some ref) s sound = sound

    clean-IsSound :
        (samples : List A) (s : Vad A) → IsSound c s → IsSound c ((clean sig c samples s).1)
    unfolding clean reference_active
    clean-IsSound samples s sound =
        let asked = active_since s.reference_buffer.last_push_time c.max_staleness s in
        let asked_sound =
          active_since-IsSound s.reference_buffer.last_push_time c.max_staleness s sound in
        elim (Bool-cases (c.aec_enabled && ltb 0 (length samples))) [
          | inr e ↦ rw e sound
          | inl e ↦ elim (Bool-cases (asked.0)) [
            | inr f ↦ rw (e, f) asked_sound
            | inl f ↦ rw (e, f) (subtract_echo-IsSound samples _ (asked.1) asked_sound)
          ]
        ]

    take_reference-IsSound :
        (chunk : AudioChunk A) (s : Vad A)
        → IsSound c s
        → IsSound c ((take_reference sig c chunk s).1)
    unfolding take_reference
    take_reference-IsSound chunk s sound =
        elim (Bool-cases (c.aec_enabled && ltb 0 (length chunk.samples))) [
          | inr e ↦ rw e sound
          | inl e ↦
              elim (Outcome-cases
                (push sig chunk.samples chunk.sample_rate ((read_clock s).0) s.reference_buffer)) [
                  | inl (x, failed) ↦ rw (e, failed) sound
                  | inr (b, pushed) ↦ rw (e, pushed) (read_clock-IsSound c s sound)
                ]
        ]

    stamped-IsSound :
        (speech : Bool) (chunk : AudioChunk A) (r : Outcome (Unit {0}) × Vad A)
        → IsSound c r.1
        → IsSound c ((and_then r (λ _. stamp_chunk c speech chunk)).1)
    unfolding stamp_chunk
    stamped-IsSound speech chunk (returned _, s) sound = sound
    stamped-IsSound speech chunk (raised e, s) sound = sound

    track_turn-IsSound :
        (speech loud : Bool) (s : Vad A) → IsSound c s → IsSound c ((track_turn c speech loud s).1)
    unfolding track_turn
    track_turn-IsSound speech loud s sound = elim (Bool-cases (speech && not s.in_speech)) [
      | inr e ↦ rw e sound
      | inl e ↦ rw e (onset-IsSound c loud s sound)
    ]

    judge-IsSound :
        (chunk : AudioChunk A) (samples : List A) (s : Vad A)
        → IsSound c s
        → IsSound c ((judge sig c chunk samples s).1)
    unfolding judge
    judge-IsSound chunk samples s sound =
        stamped-IsSound (is_speech sig c samples) (record chunk { samples = samples })
          (track_turn c (is_speech sig c samples) (is_loud sig c samples) s)
          (track_turn-IsSound (is_speech sig c samples) (is_loud sig c samples) s sound)

    consumed-IsSound :
        (r : Outcome (Unit {0}) × Vad A)
        → IsSound c r.1
        → IsSound c ((and_then r (λ _. pure {A = Option (AudioChunk A)} none)).1)
    consumed-IsSound (returned _, s) sound = sound
    consumed-IsSound (raised e, s) sound = sound

    process-IsSound :
        (chunk : AudioChunk A) (s : Vad A) → IsSound c s → IsSound c ((process sig c chunk s).1)
    unfolding process
    process-IsSound chunk s sound = elim (Bool-cases (str_eq chunk.source reference_source)) [
      | inl e ↦
          rw e
            (consumed-IsSound (take_reference sig c chunk s) (take_reference-IsSound chunk s sound))
      | inr e ↦ rw e (judged (clean sig c chunk.samples s) (clean-IsSound chunk.samples s sound))
    ]
      where
        judged :
            (r : Outcome (List A) × Vad A)
            → IsSound c (r.1)
            → IsSound c ((and_then r (judge sig c chunk)).1)
        judged (returned samples, s1) h = judge-IsSound chunk samples s1 h
        judged (raised e, s1) h = h

    process_all-IsSound :
        (chunks : List (AudioChunk A)) (s : Vad A)
        → IsSound c s
        → IsSound c (process_all sig c chunks s)
    unfolding process_all
    process_all-IsSound [] s sound = sound
    process_all-IsSound (chunk ∷ chunks) s sound =
        process_all-IsSound chunks ((process sig c chunk s).1) (process-IsSound chunk s sound)

    new_vad-IsSound :
        (rate most : ℕ) (step epsilon ratio floor : A) (clock : Clock)
        (control : List (Option Exception))
        → IsSound c (new_vad sig c rate most step epsilon ratio floor clock control)
    unfolding new_vad
    new_vad-IsSound rate most step epsilon ratio floor clock control = (tt, refl)

    -- Whatever chunks a new filter is given, however the clock moves on meanwhile, and whichever calls
    -- of send_control raise, the cancellations whose sending returns name turns of its session that it has opened and left: each turn at
    -- most once, in the order of the turns, never the current one and never the turn 0 of before the
    -- first speech. Their times are at least the cooldown apart.
    pub cancels_paced :
        (rate most : ℕ) (step epsilon ratio floor : A) (clock : Clock)
        (control : List (Option Exception)) (chunks : List (AudioChunk A))
        → let s =
            process_all sig c chunks
              (new_vad sig c rate most step epsilon ratio floor clock control) in
          IsPaced c.session_id c.barge_in_cooldown s.turn_id s.sent
    cancels_paced rate most step epsilon ratio floor clock control chunks =
        (process_all-IsSound chunks (new_vad sig c rate most step epsilon ratio floor clock control)
          (new_vad-IsSound rate most step epsilon ratio floor clock control)).0
