-- ===== src/Codec/Examples.antt =====
-- The codec with a pickle that writes a message's buffers into its stream, or leaves a gap.
use Prim.Native.String.{count, ◌++◌ as text_append}
use text.Mathlib.TextLemmas.{length-append as count-append}
use data_pipeline_orchestrat.Base.{
  and_then, ℕ, ◌≤◌, ◌≡◌, refl, ap, arith, String, str_eq, eq_iff, Option, none, some, List, [], ◌∷◌,
  map, Bool, true, false, lookup, Outcome, returned, raised, value_error, Bool-cases, inl, inr,
}
use data_pipeline_orchestrat.Codec.{Bytes, Segments, Pickle, in_band, out_of_band, dumps, loads}
use data_pipeline_orchestrat.Codec.Laws.{loads-dumps}

abbrev stream : List Bytes → List Bool → List (Option Bytes)
stream [] flags = []
stream (b ∷ bs) [] = some b ∷ stream bs []
stream (b ∷ bs) (true ∷ flags) = some b ∷ stream bs flags
stream (b ∷ bs) (false ∷ flags) = none ∷ stream bs flags

abbrev onto : Bytes → Outcome (List Bytes) → Outcome (List Bytes)
onto b (returned bs) = returned (b ∷ bs)
onto b (raised e) = raised e

abbrev fill : List (Option Bytes) → List Bytes → Outcome (List Bytes)
fill [] buffers = returned []
fill (some b ∷ s) buffers = onto b (fill s buffers)
fill (none ∷ s) [] = raised value_error
fill (none ∷ s) (b ∷ buffers) = onto b (fill s buffers)

abbrev gaps : Pickle (List Bytes) (List (Option Bytes))
gaps = record { buffers = λ obj. obj; dump = stream; dump_plain = λ obj. map some obj; load = fill }

fill-stream :
    (sizes : ℕ) (obj : List Bytes)
    → fill (stream obj (map (in_band sizes) obj)) (out_of_band sizes obj) ≡ returned obj
unfolding out_of_band
fill-stream sizes [] = refl
fill-stream sizes (b ∷ bs) = elim (Bool-cases (in_band sizes b)) [
  | inl e ↦ rw (e, fill-stream sizes bs) refl
  | inr e ↦ rw (e, fill-stream sizes bs) refl
]

-- Longer than any name of a segment.
abbrev longest : Segments → String
longest [] = "x"
longest ((name, b) ∷ s) = text_append name (longest s)

longest-positive : (s : Segments) → 1 ≤ count (longest s)
longest-positive [] = omega arith
longest-positive ((name, b) ∷ s) = omega (arith, count-append name (longest s), longest-positive s)

lookup-longer : (k : String) (s : Segments) → count (longest s) ≤ count k → lookup k s ≡ none
unfolding lookup
lookup-longer k [] h = refl
lookup-longer k ((name, b) ∷ s) h = elim (Bool-cases (str_eq name k)) [
  | inl e ↦ absurd (
      omega (
        arith,
        ap count ((eq_iff name k).0 e),
        count-append name (longest s),
        longest-positive s,
        h,
      ))
  | inr e ↦ rw e (lookup-longer k s (omega (arith, count-append name (longest s), h)))
]

loads-dumps_example :
    let (loaded, s2) =
      and_then (dumps gaps 2 longest true ((1 ∷ 2 ∷ 3 ∷ []) ∷ (4 ∷ []) ∷ []) []) (loads gaps) in
    (loaded ≡ returned ((1 ∷ 2 ∷ 3 ∷ []) ∷ (4 ∷ []) ∷ []))
    × ((k : String) → lookup k s2 ≡ lookup k [])
loads-dumps_example =
    loads-dumps longest (λ s. lookup-longer (longest s) s (omega arith)) gaps 2 true
      ((1 ∷ 2 ∷ 3 ∷ []) ∷ (4 ∷ []) ∷ []) [] (omega arith) refl
      (λ sizes. fill-stream sizes ((1 ∷ 2 ∷ 3 ∷ []) ∷ (4 ∷ []) ∷ []))
