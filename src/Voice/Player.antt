-- ===== src/Voice/Player.antt =====
-- core/node/broadcast/audio_player.py: a chunk is played in blocks, with a look at the cancellation
-- of its turn before each, and a copy of each block that was written goes back to the echo canceller.
pub mod Laws
use data_pipeline_orchestrat.Base.{
  ℕ, zero, suc, String, List, [], ◌∷◌, Bool, true, false, length, take, drop, ltb, if◌then◌else◌,
  Act,
}
use data_pipeline_orchestrat.Policy.Execute.{Gen, finish, yields}
use data_pipeline_orchestrat.Mailbox.Snapshot.{Turn}
use data_pipeline_orchestrat.Voice.Messages.{AudioChunk, with_world, set_world, perform_or_raise}
use data_pipeline_orchestrat.Voice.Vad.{reference_source}

pub record Device (W A : Type 0) : Type 0 where
  pub write : List A → Act W (Unit {0})
  pub is_cancelled : Turn → W → Bool × W
  -- int(sample_rate * playback_check_interval)
  pub interval_frames : ℕ → ℕ

module _ {W A : Type 0} (device : Device W A) where
  open device use {write, is_cancelled, interval_frames}

  -- max(1, int(chunk.sample_rate * self.playback_check_interval))
  unfoldable pub block_frames : AudioChunk A → ℕ
  block_frames chunk = let n = interval_frames chunk.sample_rate in if ltb 1 n then n else 1

  -- The chunk that is yielded for a block.
  unfoldable pub reference : AudioChunk A → List A → AudioChunk A
  reference chunk block = record {
    source = reference_source;
    samples = block;
    sample_rate = chunk.sample_rate;
    turn = chunk.turn;
    drop = false;
  }

  -- The loop from the samples that are left; `fuel` bounds the rounds.
  unfoldable pub play : (fuel : ℕ) → AudioChunk A → List A → Gen W (AudioChunk A)
  unfolding block_frames reference
  play zero chunk samples = finish
  play (suc fuel) chunk [] = finish
  play (suc fuel) chunk (x ∷ xs) =
      let block = take (block_frames chunk) (x ∷ xs) in
      with_world λ w.
        let (stop, w1) = is_cancelled chunk.turn w in
        set_world w1 (
          if stop
          then finish
          else perform_or_raise (write block) λ _.
            yields (reference chunk block) (play fuel chunk (drop (block_frames chunk) (x ∷ xs))))

  -- As many rounds as there are samples are enough, since a block is not empty.
  unfoldable pub process : AudioChunk A → W → Gen W (AudioChunk A)
  unfolding play
  process chunk _ = if chunk.drop then finish else play (length chunk.samples) chunk chunk.samples
