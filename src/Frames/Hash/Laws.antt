-- ===== src/Frames/Hash/Laws.antt =====
-- What the filter holds of a folder.
use data_pipeline_orchestrat.Base.{
  ◌≡◌, ℕ, ◌<◌, String, str_eq, List, [], ◌∷◌, false, ◌==◌, All, arith, Dict, lookup, lookup-assign,
  Bool-cases, inl, inr,
}
use data_pipeline_orchestrat.Frames.Collection.{or_empty}
use data_pipeline_orchestrat.Frames.Hash.{
  Picture, Hashes, put_hash, is_duplicate, process, process_all,
}

module _ {I H : Type 0} (hs : Hashes I H) (delta : ℕ) where
  abbrev FarFrom : H → List (ℕ × H) → Type 0
  FarFrom h held = All (λ (e : ℕ × H). delta < hs.difference h e.1) held

  -- Any two of the hashes differ by more than `delta`.
  abbrev pub IsSpread : List (ℕ × H) → Type 0
  IsSpread [] = Unit
  IsSpread ((i, h) ∷ rest) = FarFrom h rest × IsSpread rest

  -- What is held of every folder.
  abbrev pub AllSpread : Dict (List (ℕ × H)) → Type 0
  AllSpread cache = (folder : String) → IsSpread (or_empty (lookup folder cache))

  far_if_no_duplicate :
      (h : H) (held : List (ℕ × H)) → is_duplicate hs delta h held ≡ false → FarFrom h held
  unfolding is_duplicate
  far_if_no_duplicate h [] none_near = tt
  far_if_no_duplicate h ((i, g) ∷ held) none_near =
      (ground arith, far_if_no_duplicate h held (ground arith))

  put_hash-FarFrom :
      (i : ℕ) (g h : H) (held : List (ℕ × H))
      → FarFrom g held
      → delta < hs.difference g h
      → FarFrom g (put_hash i h held)
  unfolding put_hash
  put_hash-FarFrom i g h [] far apart = (apart, tt)
  put_hash-FarFrom i g h ((j, old) ∷ held) far apart = elim (Bool-cases (i == j)) [
    | inl same ↦ rw same (apart, far.1)
    | inr other ↦ rw other (far.0, put_hash-FarFrom i g h held far.1 apart)
  ]

  module _ (symmetric : (a b : H) → hs.difference a b ≡ hs.difference b a) where
    put_hash-IsSpread :
        (i : ℕ) (h : H) (held : List (ℕ × H))
        → IsSpread held
        → FarFrom h held
        → IsSpread (put_hash i h held)
    unfolding put_hash
    put_hash-IsSpread i h [] spread far = (tt, tt)
    put_hash-IsSpread i h ((j, old) ∷ held) spread far = elim (Bool-cases (i == j)) [
      | inl same ↦ rw same (far.1, spread.1)
      | inr other ↦ rw other (
        put_hash-FarFrom i old h held spread.0 (rw (symmetric old h) far.0),
        put_hash-IsSpread i h held spread.1 far.1,
      )
    ]

    process-AllSpread :
        (frame : Picture I) (cache : Dict (List (ℕ × H)))
        → AllSpread cache
        → AllSpread (process hs delta frame cache).1
    unfolding process
    process-AllSpread frame cache spread folder =
        let h = hs.hash_func frame.image in
        let held = or_empty (lookup frame.folder cache) in
        elim (Bool-cases (is_duplicate hs delta h held)) [
          | inl near ↦ rw near (spread folder)
          | inr none_near ↦
              rw (none_near, lookup-assign)
                (elim (Bool-cases (str_eq frame.folder folder)) [
                  | inl same ↦ rw same (
                      put_hash-IsSpread frame.frame_id h held (spread frame.folder)
                        (far_if_no_duplicate h held none_near))
                  | inr other ↦ rw other (spread folder)
                ])
        ]

    -- However the frames come, with whatever folders and ids: any two of the hashes that are held of
    -- a folder afterwards differ by more than `delta`, if this is so of every folder at the beginning
    -- and the difference of two hashes does not depend on their order.
    pub process_all-IsSpread :
        (frames : List (Picture I)) (cache : Dict (List (ℕ × H)))
        → AllSpread cache
        → (folder : String)
        → IsSpread (or_empty (lookup folder (process_all hs delta frames cache).1))
    unfolding process_all
    process_all-IsSpread [] cache spread folder = spread folder
    process_all-IsSpread (frame ∷ frames) cache spread folder =
        process_all-IsSpread frames (process hs delta frame cache).1
          (process-AllSpread frame cache spread) folder
