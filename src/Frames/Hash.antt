-- ===== src/Frames/Hash.antt =====
-- core/node/filters/mixins/hash_mixin.py: near duplicates are marked. The hash of an image and the
-- difference of two hashes are parameters; a folder is named by the last part of its path.
pub mod Laws
pub mod Examples
use data_pipeline_orchestrat.Base.{
  ℕ, String, str_eq, Option, none, some, List, [], ◌∷◌, Bool, true, not, leb, ◌==◌, any,
  if◌then◌else◌, Dict, lookup, assign,
}
use data_pipeline_orchestrat.Frames.Collection.{or_empty}

pub record Picture (I : Type 0) : Type 0 where
  pub image : I
  -- Path(frame.source_frame).parent.name
  pub folder : String
  pub frame_id : ℕ
  pub drop : Bool

-- What imagehash gives.
pub record Hashes (I H : Type 0) : Type 0 where
  pub hash_func : I → H
  pub difference : H → H → ℕ

abbrev pub hash_types : List String
hash_types =
    "colorhash" ∷ "dhash" ∷ "phash" ∷ "average_hash" ∷ "phash_simple" ∷ "dhash_vertical" ∷ "whash"
    ∷ []

-- The name of the function that `__init__` takes from imagehash.
unfoldable pub hash_type_of : String → String
hash_type_of hash_type = if not (any (str_eq hash_type) hash_types) then "dhash" else hash_type

-- self.cache[key_folder][frame_id] = h
unfoldable pub put_hash : {H : Type 0} → ℕ → H → List (ℕ × H) → List (ℕ × H)
put_hash i h [] = (i, h) ∷ []
put_hash i h ((j, old) ∷ rest) = if i == j then (j, h) ∷ rest else (j, old) ∷ put_hash i h rest

module _ {I H : Type 0} (hs : Hashes I H) (delta : ℕ) where
  -- The loop over the hashes of the folder.
  unfoldable pub is_duplicate : H → List (ℕ × H) → Bool
  is_duplicate current held = any (λ (e : ℕ × H). leb (hs.difference current e.1) delta) held

  -- `process`. A folder that has no hash yet is looked up as empty.
  unfoldable pub process : Picture I → Dict (List (ℕ × H)) → Picture I × Dict (List (ℕ × H))
  unfolding is_duplicate put_hash
  process frame cache =
      let current = hs.hash_func frame.image in
      let held = or_empty (lookup frame.folder cache) in
      if is_duplicate current held
      then (record frame { drop = true }, cache)
      else (frame, assign frame.folder (put_hash frame.frame_id current held) cache)

  unfoldable pub process_all :
      List (Picture I) → Dict (List (ℕ × H)) → List (Picture I) × Dict (List (ℕ × H))
  unfolding process
  process_all [] cache = ([], cache)
  process_all (frame ∷ frames) cache =
      let (first, cache1) = process frame cache in
      let (rest, cache2) = process_all frames cache1 in (first ∷ rest, cache2)
