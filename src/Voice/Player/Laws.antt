-- ===== src/Voice/Player/Laws.antt =====
-- What is written to the device of a chunk.
use data_pipeline_orchestrat.Base.{
  ℕ, zero, suc, ◌≤◌, ◌<◌, ◌≡◌, refl, sym, ap, ◌∙◌, arith, List, [], ◌∷◌, ◌++◌, map, All, Bool, true,
  false, length, take, drop, take-append-drop, length-drop, if◌then◌else◌, returned, Bool-cases,
  inl, inr,
}
use mathlib.Core.Path.{subst}
use mathlib.Core.List.{append_assoc, append-nil}
use data_pipeline_orchestrat.Policy.Execute.{drain, done, items, Attempt, finish}
use data_pipeline_orchestrat.Voice.Messages.{AudioChunk, concat, no_callbacks}
use data_pipeline_orchestrat.Voice.Player.{Device, block_frames, reference, play, process}

length-take_at_most : {A : Type 0} (n : ℕ) (xs : List A) → length (take n xs) ≤ n
length-take_at_most zero xs = omega arith
length-take_at_most (suc n) [] = omega arith
length-take_at_most (suc n) (x ∷ xs) = omega (arith, length-take_at_most n xs)

length-take :
    {A : Type 0} (n : ℕ) (x : A) (xs : List A)
    → 0 < n
    → (0 < length (take n (x ∷ xs))) × (length (take n (x ∷ xs)) ≤ n)
length-take zero x xs h = omega (arith, h)
length-take (suc n) x xs h = omega (arith, length-take_at_most n xs)

module _ {W A : Type 0} (device : Device W A) (F : Type 0) (chunk : AudioChunk A) where
  -- The device plays whatever block it is given.
  abbrev pub Plays : Type 0
  Plays = (block : List A) (w : W) → (w1 : W) × (device.write block w ≡ (returned tt, w1))

  -- A copy of one block: not empty and at most as long as the interval between two looks.
  abbrev pub IsBlock : AudioChunk A → Type 0
  IsBlock c =
      (c ≡ reference device chunk c.samples)
      × (0 < length c.samples)
      × (length c.samples ≤ block_frames device chunk)

  -- What playing the samples comes to: the blocks are yielded, and `rest` is not played; that is
  -- nothing if no look finds the turn cancelled.
  abbrev pub Played :
      (samples : List A) (collected : List (AudioChunk A)) → Attempt (AudioChunk A) → Type 0
  Played samples collected a =
      (blocks : List (AudioChunk A)) × (rest : List A) × (a ≡ done (items (collected ++ blocks)))
      × All IsBlock blocks
      × (samples ≡ concat (map (λ c. c.samples) blocks) ++ rest)
      × (((w : W) → (device.is_cancelled chunk.turn w).0 ≡ false) → rest ≡ [])

  block_frames-positive : 0 < block_frames device chunk
  unfolding block_frames
  block_frames-positive = ground arith

  -- The first block of what is left.
  first-IsBlock :
      (x : A) (xs : List A)
      → IsBlock (reference device chunk (take (block_frames device chunk) (x ∷ xs)))
  unfolding reference
  first-IsBlock x xs =
      let (some_left, fits) = length-take (block_frames device chunk) x xs block_frames-positive in
      (refl, some_left, fits)

  nothing_left : (collected : List (AudioChunk A)) → Played [] collected (done (items collected))
  nothing_left collected =
      ([], [], ap (λ l. done (items l)) (sym (append-nil collected)), tt, refl, λ _. refl)

  play-Played :
      (fuel : ℕ) (samples : List A) (yielded : Bool) (collected : List (AudioChunk A)) (w : W)
      → Plays
      → length samples ≤ fuel
      → Played samples collected
          ((drain {F = F} no_callbacks (play device fuel chunk samples) yielded collected w).0)
  unfolding play drain
  play-Played zero [] yielded collected w plays h = nothing_left collected
  play-Played zero (x ∷ xs) yielded collected w plays h = absurd (omega (arith, h))
  play-Played (suc fuel) [] yielded collected w plays h = nothing_left collected
  play-Played (suc fuel) (x ∷ xs) yielded collected w plays h =
      let n = block_frames device chunk in
      let block = take n (x ∷ xs) in
      let copy = reference device chunk block in
      let looked = device.is_cancelled chunk.turn w in
      let (w2, wrote) = plays block (looked.1) in
      let left = drop n (x ∷ xs) in
      let fewer : length left ≤ fuel =
        omega (arith, h, length-drop n (x ∷ xs), block_frames-positive) in
      let (blocks, rest, ended, good, split, all) =
        play-Played fuel left true (collected ++ copy ∷ []) w2 plays fewer in
      elim (Bool-cases (looked.0)) [
        | inl stop ↦
            rw (drain, stop)
              (
                [],
                x ∷ xs,
                ap (λ l. done (items l)) (sym (append-nil collected)),
                tt,
                refl,
                λ never. let wrong = never w in cc,
              )
        | inr on ↦
            rw (drain, on, wrote)
              (
                copy ∷ blocks,
                rest,
                ended ∙ ap (λ l. done (items l)) (append_assoc collected (copy ∷ []) blocks),
                (first-IsBlock x xs, good),
                sym (take-append-drop n (x ∷ xs))
                    ∙ ap (λ r. block ++ r) split
                    ∙ sym (append_assoc block (concat (map (λ c. c.samples) blocks)) rest),
                all,
              )
      ]

  process-Played :
      (w : W)
      → Plays
      → chunk.drop ≡ false
      → Played chunk.samples [] ((drain {F = F} no_callbacks (process device chunk w) false [] w).0)
  unfolding process
  process-Played w plays sent =
      let whole = play device (length chunk.samples) chunk chunk.samples in
      subst
        (λ b.
          Played chunk.samples []
            ((drain {F = F} no_callbacks (if b then finish else whole) false [] w).0))
        (sym sent) (play-Played (length chunk.samples) chunk.samples false [] w plays (omega arith))

  -- Whenever its turn is cancelled, what was played of a chunk is its beginning, in order and without
  -- a gap: the yielded copies are of blocks that are not empty and no longer than the interval
  -- between two looks, and they join to the samples up to the ones that were not played.
  pub chunk_played :
      (w : W)
      → Plays
      → chunk.drop ≡ false
      → (blocks : List (AudioChunk A)) × (rest : List A) × ((drain {F = F} no_callbacks
            (process device chunk w)
            false
            []
            w).0
          ≡ done (items blocks))
        × All IsBlock blocks
        × (chunk.samples ≡ concat (map (λ c. c.samples) blocks) ++ rest)
  chunk_played w plays sent =
      let (blocks, rest, ended, good, split, _) = process-Played w plays sent in
      (blocks, rest, ended, good, split)

  -- A chunk whose turn is not cancelled is played to its end, in as many rounds as it takes: the
  -- yielded copies join to all its samples.
  pub chunk_played_whole :
      (w : W)
      → Plays
      → chunk.drop ≡ false
      → ((t : W) → (device.is_cancelled chunk.turn t).0 ≡ false)
      → (blocks : List (AudioChunk A)) × ((drain {F = F} no_callbacks
            (process device chunk w)
            false
            []
            w).0
          ≡ done (items blocks))
        × All IsBlock blocks
        × (chunk.samples ≡ concat (map (λ c. c.samples) blocks))
  chunk_played_whole w plays sent never =
      let (blocks, rest, ended, good, split, all) = process-Played w plays sent in
      (
        blocks,
        ended,
        good,
        split
            ∙ ap (λ r. concat (map (λ c. c.samples) blocks) ++ r) (all never)
            ∙ append-nil (concat (map (λ c. c.samples) blocks)),
      )
