-- ===== src/Codec/Laws.antt =====
-- A message comes back from its frame, and its segments are gone.
use data_pipeline_orchestrat.Base.{
  ℕ, ◌<◌, All, ltb, Outcome, raised, and_then, pure, ◌≡◌, refl, ap, ◌∙◌, arith, String, str_eq,
  eq_iff, none, some, List, [], ◌∷◌, map, Bool, true, false, ◌||◌, length, take, lookup, assign,
  delete, lookup-assign, lookup-delete, returned, if◌then◌else◌, Bool-cases, inl, inr,
}
use data_pipeline_orchestrat.Codec.{
  Bytes, Segments, Pickle, Descriptor, out_of_band, in_band, shm, cons_descriptor, create_segments,
  consume_found, consume_segment, consume_segments, dumps_shm, dumps, load_buffers, loads,
}

abbrev pub named : String → List Descriptor → Bool
named k [] = false
named k ((n, len) ∷ ds) = str_eq n k || named k ds

-- The descriptors have distinct names, and name these buffers with their sizes.
abbrev pub Holds : List Descriptor → List Bytes → Segments → Type 0
Holds [] [] s = Unit
Holds ((n, len) ∷ ds) (b ∷ bs) s =
    (lookup n s ≡ some b) × (len ≡ length b) × (named n ds ≡ false) × Holds ds bs s
Holds _ _ s = ⊥

take-length : (b : Bytes) → take (length b) b ≡ b
take-length [] = refl
take-length (x ∷ xs) = ap (λ r. x ∷ r) (take-length xs)

Holds-delete :
    (k : String) (ds : List Descriptor) (bs : List Bytes) (s : Segments)
    → named k ds ≡ false
    → Holds ds bs s
    → Holds ds bs (delete k s)
Holds-delete k [] [] s free h = tt
Holds-delete k [] (b ∷ bs) s free h = h
Holds-delete k ((n, len) ∷ ds) [] s free h = h
Holds-delete k ((n, len) ∷ ds) (b ∷ bs) s free (at, size, once, rest) = (
  ground (arith, lookup-delete k n s, eq_iff n k, eq_iff k n),
  size,
  once,
  Holds-delete k ds bs s (ground arith) rest,
)

-- What is left of the segments: those that no descriptor names.
abbrev pub Left : List Descriptor → Segments → Segments → Type 0
Left ds s t = (k : String) → lookup k t ≡ (if named k ds then none else lookup k s)

consume-Holds :
    (ds : List Descriptor) (bs : List Bytes) (s : Segments)
    → Holds ds bs s
    → (t : Segments) × (consume_segments ds s ≡ (returned bs, t)) × Left ds s t
unfolding consume_segments consume_segment consume_found
consume-Holds [] [] s h = (s, refl, λ k. refl)
consume-Holds [] (b ∷ bs) s h = absurd h
consume-Holds (d ∷ ds) [] s h = absurd h
consume-Holds ((n, len) ∷ ds) (b ∷ bs) s (at, size, once, rest) =
    let (t, e, left) = consume-Holds ds bs (delete n s) (Holds-delete n ds bs s once rest) in
    (t, rw (at, size, take-length b, e) refl, λ k. ground (arith, left k, lookup-delete n k s))

module _ (fresh : Segments → String) (is_fresh : (s : Segments) → lookup (fresh s) s ≡ none) where
  -- The new segments hold the buffers, under names that were free; the others are as they were.
  abbrev pub Created : List Bytes → Segments → Outcome (List Descriptor) × Segments → Type 0
  Created bs s (raised e, t) = ⊥
  Created bs s (returned ds, t) =
      Holds ds bs t
      × ((k : String) → named k ds ≡ true → lookup k s ≡ none)
      × ((k : String) → named k ds ≡ false → lookup k t ≡ lookup k s)

  cons_descriptor-Created :
      (b : Bytes) (bs : List Bytes) (s : Segments) (r : Outcome (List Descriptor) × Segments)
      → Created bs (assign (fresh s) b s) r
      → Created (b ∷ bs) s (cons_descriptor (fresh s, length b) r)
  cons_descriptor-Created b bs s (raised e, t) made = made
  cons_descriptor-Created b bs s (returned ds, t) (holds, was_free, same) =
      let n = fresh s in
      let here : lookup n (assign n b s) ≡ some b =
        ground (arith, lookup-assign n n b s, eq_iff n n) in
      let once : named n ds ≡ false = elim (Bool-cases (named n ds)) [
        | inl e ↦ cc (was_free n e)
        | inr e ↦ e
      ] in
      (
        (same n once ∙ here, refl, once, holds),
        λ k e. elim (Bool-cases (str_eq n k)) [
          | inl q ↦ ground (arith, ap (λ x. lookup x s) ((eq_iff n k).0 q), is_fresh s)
          | inr q ↦ ground (arith, was_free k (ground arith), lookup-assign n k b s)
        ],
        λ k e. ground (arith, same k (ground arith), lookup-assign n k b s),
      )

  create-Created :
      (bs : List Bytes) (s : Segments)
      → All (λ b. 0 < length b) bs
      → Created bs s (create_segments fresh bs s)
  unfolding create_segments
  create-Created [] s filled = (tt, λ k e. cc, λ k e. refl)
  create-Created ([] ∷ bs) s filled = absurd (omega (arith, filled.0))
  create-Created ((x ∷ xs) ∷ bs) s filled =
      cons_descriptor-Created (x ∷ xs) bs s (create_segments fresh bs (assign (fresh s) (x ∷ xs) s))
        (create-Created bs (assign (fresh s) (x ∷ xs) s) filled.1)

  -- What is not smaller than the least size is not empty.
  out_of_band-filled :
      (min_bytes : ℕ) (bs : List Bytes)
      → 0 < min_bytes
      → All (λ b. 0 < length b) (out_of_band min_bytes bs)
  unfolding out_of_band
  out_of_band-filled min_bytes [] positive = tt
  out_of_band-filled min_bytes (b ∷ bs) positive = elim (Bool-cases (ltb (length b) min_bytes)) [
    | inl small ↦ rw small (out_of_band-filled min_bytes bs positive)
    | inr large ↦ rw large (ground arith, out_of_band-filled min_bytes bs positive)
  ]

  load-Created :
      {O S : Type 0} (pickle : Pickle O S) (meta : S) (obj : O) (kept : List Bytes) (s : Segments)
      (r : Outcome (List Descriptor) × Segments)
      → Created kept s r
      → pickle.load meta kept ≡ returned obj
      → let (loaded, s2) = and_then (and_then r (λ ds. pure (shm meta ds))) (loads pickle) in
        (loaded ≡ returned obj) × ((k : String) → lookup k s2 ≡ lookup k s)
  unfolding loads load_buffers
  load-Created pickle meta obj kept s (raised e, t) made apart = absurd made
  load-Created pickle meta obj kept s (returned ds, t) (holds, was_free, same) apart =
      let (u, e, left) = consume-Holds ds kept t holds in
      rw e (
        apart,
        λ k. elim (Bool-cases (named k ds)) [
          | inl q ↦ ground (arith, left k, was_free k q)
          | inr q ↦ ground (arith, left k, same k q)
        ],
      )

  -- A message that is dumped and then loaded comes back as it was, through shared memory or not,
  -- and every segment that existed before exists with its bytes afterwards, and no other. This
  -- needs new segments to get unused names, and pickle to restore what it dumped from the buffers
  -- that were kept out of its stream; and the least size of such a buffer not to be 0, since a
  -- segment cannot be empty.
  pub loads-dumps :
      {O S : Type 0} (pickle : Pickle O S) (min_bytes : ℕ) (use_shm : Bool) (obj : O) (s : Segments)
      → 0 < min_bytes
      → pickle.load (pickle.dump_plain obj) [] ≡ returned obj
      → ((sizes : ℕ)
          → pickle.load
              (pickle.dump obj (map (in_band sizes) (pickle.buffers obj)))
              (out_of_band sizes (pickle.buffers obj))
            ≡ returned obj)
      → let (loaded, s2) = and_then (dumps pickle min_bytes fresh use_shm obj s) (loads pickle) in
        (loaded ≡ returned obj) × ((k : String) → lookup k s2 ≡ lookup k s)
  unfolding loads dumps dumps_shm
  loads-dumps pickle min_bytes false obj s positive whole apart = (whole, λ k. refl)
  loads-dumps pickle min_bytes true obj s positive whole apart =
      let kept : List Bytes = out_of_band min_bytes (pickle.buffers obj) in
      load-Created pickle (pickle.dump obj (map (in_band min_bytes) (pickle.buffers obj))) obj kept
        s (create_segments fresh kept s)
        (create-Created kept s (out_of_band-filled min_bytes (pickle.buffers obj) positive))
        (apart min_bytes)
