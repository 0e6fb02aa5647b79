-- ===== src/Voice/Vad.antt =====
-- core/node/filters/mixins/vad_mixin.py: the voice activity filter, which opens the turns and cancels
-- the reply to a turn that the user interrupts. A time is a number of clock ticks, and the clock
-- does not go back.
pub mod Pace
pub mod Laws
pub mod Returns
pub mod Examples
use data_pipeline_orchestrat.Base.{
  ℕ, zero, suc, ◌+◌, ◌-◌, String, Option, none, some, List, [], ◌∷◌, Bool, true, false, not, ◌&&◌,
  ltb, leb, str_eq, length, if◌then◌else◌, Outcome, returned, raised, Act, and_then, pure,
  Exception,
}
use data_pipeline_orchestrat.Mailbox.Snapshot.{Turn}
use data_pipeline_orchestrat.Voice.Messages.{AudioChunk}
use data_pipeline_orchestrat.Voice.Echo.{
  Signal, Canceller, ReferenceBuffer, cancel_echo, push, is_active, window, new_reference, zeros,
}

-- The clock, with the time that goes by before each of the next readings.
pub record Clock : Type 0 where
  pub now : ℕ
  pub steps : List ℕ

unfoldable pub advance : Clock → Clock
advance c = elim c.steps [ [] ↦ c | d ∷ ds ↦ record { now = c.now + d; steps = ds } ]

pub record VadConfig (A : Type 0) : Type 0 where
  pub energy_threshold : A
  pub session_id : String
  pub barge_in_energy_threshold : A
  pub barge_in_cooldown : ℕ
  pub aec_enabled : Bool
  pub aec_filter_length : ℕ
  -- the default of is_active, 0.5 s
  pub max_staleness : ℕ

-- `barge_in_energy_threshold` of the constructor
unfoldable pub barge_in_threshold : {A : Type 0} → A → Option A → A
barge_in_threshold energy_threshold none = energy_threshold
barge_in_threshold energy_threshold (some a) = a

-- ControlMessage(action=CANCEL), as it is handed to `mailbox.send_control`
pub record Cancel : Type 0 where
  pub timestamp : ℕ
  pub turn : Turn

pub record Vad (A : Type 0) : Type 0 where
  pub turn_id : ℕ
  pub in_speech : Bool
  pub last_cancel_at : Option ℕ
  pub canceller : Canceller A
  pub reference_buffer : ReferenceBuffer A
  pub clock : Clock
  -- the control messages sent so far, the last one first, without those whose sending raised
  pub sent : List Cancel
  -- what the next calls of mailbox.send_control raise; the calls after them return
  pub control : List (Option Exception)

-- REFERENCE_SOURCE
abbrev pub reference_source : String
reference_source = "speaker-reference"

module _ {A : Type 0} where
  -- time.time()
  unfoldable pub read_clock : Vad A → ℕ × Vad A
  unfolding advance
  read_clock s = let c = advance s.clock in (c.now, record s { clock = c })

  unfoldable pub active_since : Option ℕ → ℕ → Vad A → Bool × Vad A
  unfolding read_clock is_active
  active_since none max_staleness s = (false, s)
  active_since (some t) max_staleness s =
      let (now, s1) = read_clock s in (is_active max_staleness now s.reference_buffer, s1)

  -- is_active(), which reads the clock only after a push
  unfoldable pub reference_active : ℕ → Vad A → Bool × Vad A
  unfolding active_since
  reference_active max_staleness s = active_since s.reference_buffer.last_push_time max_staleness s

  unfoldable pub cooled_since : Option ℕ → ℕ → Vad A → Bool × Vad A
  unfolding read_clock
  cooled_since none cooldown s = (true, s)
  cooled_since (some t) cooldown s = let (now, s1) = read_clock s in (leb cooldown (now - t), s1)

  -- `_cooled_down`
  unfoldable pub cooled_down : ℕ → Vad A → Bool × Vad A
  unfolding cooled_since
  cooled_down cooldown s = cooled_since s.last_cancel_at cooldown s

  -- mailbox.send_control(message)
  unfoldable pub send_control : List (Option Exception) → Cancel → Act (Vad A) (Unit {0})
  send_control [] message s = (returned tt, record s { sent = message ∷ s.sent })
  send_control (none ∷ rest) message s =
      (returned tt, record s { control = rest; sent = message ∷ s.sent })
  send_control (some e ∷ rest) message s = (raised e, record s { control = rest })

  -- `_cancel_turn`
  unfoldable pub cancel_turn : String → ℕ → Act (Vad A) (Unit {0})
  unfolding read_clock send_control
  cancel_turn session turn_id s =
      let (now, s1) = read_clock s in
      send_control s1.control
        (record {
          timestamp = now;
          turn = record { session_id = some session; turn_id = some turn_id };
        })
        s1

  -- self._last_cancel_at = time.time()
  unfoldable pub stamp_cancel : Act (Vad A) (Unit {0})
  unfolding read_clock
  stamp_cancel s =
      let (now, s2) = read_clock s in (returned tt, record s2 { last_cancel_at = some now })

  -- The two statements under the guard: the cancellation, and its time.
  unfoldable pub interrupt : String → ℕ → Act (Vad A) (Unit {0})
  unfolding cancel_turn stamp_cancel
  interrupt session previous s = and_then (cancel_turn session previous s) λ _. stamp_cancel

  -- `previous_turn_id > 0 and rms >= self.barge_in_energy_threshold and self._cooled_down()`, which
  -- asks for the time last.
  unfoldable pub maybe_interrupt :
      (loud : Bool) → String → (cooldown previous : ℕ) → Act (Vad A) (Unit {0})
  unfolding cooled_down interrupt
  maybe_interrupt loud session cooldown previous s =
      let (cool, s1) = cooled_down cooldown s in
      if ltb 0 previous && loud
      then (if cool then interrupt session previous s1 else (returned tt, s1))
      else (returned tt, s)

  -- A rising edge starts a turn.
  unfoldable pub onset : (loud : Bool) → String → (cooldown : ℕ) → Act (Vad A) (Unit {0})
  unfolding maybe_interrupt
  onset loud session cooldown s =
      maybe_interrupt loud session cooldown s.turn_id (record s { turn_id = s.turn_id + 1 })

  -- `if is_speech and not self._in_speech`
  unfoldable pub track_turn : VadConfig A → (speech loud : Bool) → Act (Vad A) (Unit {0})
  unfolding onset
  track_turn c speech loud s =
      let opened = onset loud c.session_id c.barge_in_cooldown s in
      if speech && not s.in_speech then opened else (returned tt, s)

  -- The stamps on the chunk.
  unfoldable pub stamp_chunk :
      VadConfig A → (speech : Bool) → AudioChunk A → Act (Vad A) (Option (AudioChunk A))
  stamp_chunk c speech chunk s = (
    returned (
        some (record chunk {
          drop = not speech;
          turn = record { session_id = some c.session_id; turn_id = some s.turn_id };
        })),
    record s { in_speech = speech },
  )

  module _ (sig : Signal A) (c : VadConfig A) where
    open sig use {leb_A, rms}

    -- An utterance is heard in the samples, which may be empty.
    unfoldable pub is_speech : List A → Bool
    is_speech [] = false
    is_speech (x ∷ xs) = leb_A c.energy_threshold (rms (x ∷ xs))

    unfoldable pub is_loud : List A → Bool
    is_loud [] = leb_A c.barge_in_energy_threshold sig.zero_A
    is_loud (x ∷ xs) = leb_A c.barge_in_energy_threshold (rms (x ∷ xs))

    -- A reference chunk is consumed.
    unfoldable pub take_reference : AudioChunk A → Act (Vad A) (Unit {0})
    unfolding read_clock push
    take_reference chunk s =
        let (now, s1) = read_clock s in
        let pushed : Outcome (Unit {0}) × Vad A =
          elim (push sig chunk.samples chunk.sample_rate now s.reference_buffer) [
            | raised e ↦ (raised e, s)
            | returned b ↦ (returned tt, record s1 { reference_buffer = b })
          ] in
        if c.aec_enabled && ltb 0 (length chunk.samples) then pushed else (returned tt, s)

    -- `samples = self._canceller.process(samples, window)`, where a window is buffered
    unfoldable pub subtract_echo : List A → Option (List A) → Act (Vad A) (List A)
    unfolding cancel_echo
    subtract_echo samples none s = (returned samples, s)
    subtract_echo samples (some ref) s =
        let (out, k) = cancel_echo sig samples ref s.canceller in (out, record s { canceller = k })

    -- What is left of the samples of the microphone.
    unfoldable pub clean : List A → Act (Vad A) (List A)
    unfolding reference_active window subtract_echo
    clean samples s =
        let (active, s1) = reference_active c.max_staleness s in
        let cleaned =
          subtract_echo samples (window c.aec_filter_length (length samples) s1.reference_buffer)
            s1 in
        if c.aec_enabled && ltb 0 (length samples)
        then (if active then cleaned else (returned samples, s1))
        else (returned samples, s)

    -- The rest of `process`, on the cleaned samples.
    unfoldable pub judge : AudioChunk A → List A → Act (Vad A) (Option (AudioChunk A))
    unfolding track_turn stamp_chunk is_speech is_loud
    judge chunk samples s =
        and_then (track_turn c (is_speech samples) (is_loud samples) s)
          λ _. stamp_chunk c (is_speech samples) (record chunk { samples = samples })

    unfoldable pub process : AudioChunk A → Act (Vad A) (Option (AudioChunk A))
    unfolding take_reference clean judge
    process chunk s =
        if str_eq chunk.source reference_source
        then and_then (take_reference chunk s) (λ _. pure none)
        else and_then (clean chunk.samples s) (judge chunk)

    -- The state after a run of chunks. What a call raises is left to the error policy.
    unfoldable pub process_all : List (AudioChunk A) → Vad A → Vad A
    unfolding process
    process_all [] s = s
    process_all (chunk ∷ chunks) s = let (_, s1) = process chunk s in process_all chunks s1

    -- The state that the constructor leaves, with the rate of the microphone and the size of the
    -- reference buffer, `int(target_sample_rate * max_seconds)`, and the constants of the canceller.
    unfoldable pub new_vad :
        (mic_sample_rate max_samples : ℕ)
        → (step_size epsilon double_talk_ratio double_talk_floor : A) → Clock
        → (control : List (Option Exception)) → Vad A
    unfolding new_reference zeros
    new_vad rate most step_size epsilon ratio floor clock control = record {
      turn_id = 0;
      in_speech = false;
      last_cancel_at = none;
      canceller = record {
        filter_length = c.aec_filter_length;
        step_size = step_size;
        epsilon = epsilon;
        double_talk_ratio = ratio;
        double_talk_floor = floor;
        weights = zeros sig c.aec_filter_length;
      };
      reference_buffer = new_reference rate most;
      clock = clock;
      sent = [];
      control = control;
    }
