-- ===== src/Service/Labels/Examples.antt =====
-- A dataset with one frame, no links, and boxes that are one letter.
use data_pipeline_orchestrat.Base.{
  ◌≡◌, ◌==◌, all, not, refl, ap, ◌∙◌, zero, suc, none, some, List, [], ◌∷◌, ◌++◌, Bool, true, false,
  if◌then◌else◌, Outcome, returned, raised, type_error, Option, Option-cases, inl, inr, map,
}
use mathlib.Core.List.{append_assoc, append-nil}
use data_pipeline_orchestrat.Voice.Messages.{Text, is_space}
use data_pipeline_orchestrat.Service.Labels.Resolve.{
  LabelPath, Outside, Files, Ids, same_path, is_below, image_of, label_of, resolve_frame_paths,
}
use data_pipeline_orchestrat.Service.Labels.{
  is_break, load_reviewed, get_frame_detail, save_frame_boxes,
}
use data_pipeline_orchestrat.Service.Labels.Paths.{save_confined}
use data_pipeline_orchestrat.Service.Labels.Review.{Works, saved, saved_frame_read_back}

some-injective : {A : Type 0} (a b : A) → some a ≡ some b → a ≡ b
some-injective a b e = cc

returned-injective : {A : Type 0} (a b : A) → returned a ≡ returned b → a ≡ b
returned-injective a b e = cc

-- An id, and the end of it.
encoded : Text → Text → Text
encoded [] rest = zero ∷ rest
encoded (c ∷ t) rest = suc c ∷ encoded t rest

dumps : List Text → Text
unfolding encoded
dumps [] = []
dumps (t ∷ ts) = encoded t (dumps ts)

loads_from : Text → Text → List Text
loads_from [] current = []
loads_from (zero ∷ s) current = current ∷ loads_from s []
loads_from (suc c ∷ s) current = loads_from s (current ++ c ∷ [])

loads_from-encoded :
    (t rest current : Text)
    → loads_from (encoded t rest) current ≡ (current ++ t) ∷ loads_from rest []
unfolding loads_from encoded
loads_from-encoded [] rest current = rw (append-nil current) refl
loads_from-encoded (c ∷ t) rest current =
    loads_from-encoded t rest (current ++ c ∷ [])
    ∙ ap (λ x. x ∷ loads_from rest []) (append_assoc current (c ∷ []) t)

loads-dumps_lem : (ids : List Text) → loads_from (dumps ids) [] ≡ ids
unfolding dumps
loads-dumps_lem [] = unfold loads_from in refl
loads-dumps_lem (t ∷ ts) = loads_from-encoded t (dumps ts) [] ∙ ap (λ x. t ∷ x) (loads-dumps_lem ts)

-- The texts of the entries, if all of them are texts.
all_texts : Ids → Option (List Text)
all_texts [] = some []
all_texts (none ∷ ids) = none
all_texts (some t ∷ ids) = elim (all_texts ids) [ none ↦ none | some ts ↦ some (t ∷ ts) ]

all_texts-map : (ids : Ids) (ts : List Text) → all_texts ids ≡ some ts → map (λ t. some t) ts ≡ ids
unfolding all_texts
all_texts-map [] ts found = rw (← some-injective [] ts found) refl
all_texts-map (none ∷ ids) ts found = absurd (cc)
all_texts-map (some t ∷ ids) ts found = elim (Option-cases (all_texts ids)) [
  | inl missing ↦ absurd (none_is_some (rw missing at found))
  | inr (us, more) ↦
      rw (← some-injective (t ∷ us) ts (rw more at found))
        (ap (λ x. some t ∷ x) (all_texts-map ids us more))
]
  where
    none_is_some : ◌≡◌ {A = Option (List Text)} none (some ts) → ⊥
    none_is_some e = cc

dumps_ids : Ids → Outcome Text
unfolding dumps all_texts
dumps_ids ids = elim (all_texts ids) [ none ↦ raised type_error | some ts ↦ returned (dumps ts) ]

abbrev loads_ids : Text → Outcome Ids
loads_ids t = returned (map (λ u. some u) (loads_from t []))

ids_restored : (ids : Ids) (t : Text) → dumps_ids ids ≡ returned t → loads_ids t ≡ returned ids
unfolding dumps_ids
ids_restored ids t dumped = elim (Option-cases (all_texts ids)) [
  | inl missing ↦ absurd (raised_is_returned (rw (missing, dumps_ids) at dumped))
  | inr (ts, found) ↦
      rw (← returned-injective (dumps ts) t (rw (found, dumps_ids) at dumped), loads-dumps_lem ts)
        (ap (λ x. returned x) (all_texts-map ids ts found))
]
  where
    raised_is_returned : ◌≡◌ {A = Outcome Text} (raised type_error) (returned t) → ⊥
    raised_is_returned e = cc

abbrev letter : Bool → Text
letter true = b'T' ∷ []
letter false = b'F' ∷ []

abbrev parse : Text → Outcome Bool
parse [] = returned false
parse (c ∷ t) = returned (◌==◌ c b'T')

abbrev outside : Outside Bool
outside = record {
  resolve = λ p. p;
  parse_box = parse;
  print_box = letter;
  dumps = dumps_ids;
  loads = loads_ids;
  manifest_name = b'm' ∷ [];
}

works : Works outside (λ b. b)
unfolding is_break is_space
works = record {
  stable = λ p. refl;
  one_line = one;
  not_blank = blank;
  parsed = parsed;
  restored = λ ids t dumped. (ids, ids_restored ids t dumped, λ u. refl);
}
  where
    one : (b : Bool) → all (λ c. not (is_break c)) (letter b) ≡ true
    one true = refl
    one false = refl

    blank : (b : Bool) → all is_space (letter b) ≡ false
    blank true = refl
    blank false = refl

    parsed : (b : Bool) → parse (letter b) ≡ returned b
    parsed true = refl
    parsed false = refl

abbrev root : LabelPath
root = (b'd' ∷ []) ∷ []

abbrev folder : Text
folder = b'i' ∷ b'n' ∷ []

abbrev stem : Text
stem = b'f' ∷ b'0' ∷ []

abbrev id : Text
id = b'i' ∷ b'n' ∷ b':' ∷ b'f' ∷ b'0' ∷ []

abbrev files : Files
files q =
    if same_path (image_of root folder stem) q
    then some []
    else if same_path (label_of root folder stem) q
    then some (b'T' ∷ 10 ∷ [])
    else none

saved_frame_read_back_example :
    (save_frame_boxes outside root id (false ∷ true ∷ []) files ≡ (
      returned (some (record { frame_id = id; boxes = false ∷ true ∷ []; reviewed = true })),
      saved outside
          (λ b. b)
          works
          root
          (dumps (id ∷ []))
          (false ∷ true ∷ [])
          (label_of root folder stem)
          files,
    ))
    × (get_frame_detail outside root id (
          saved outside
            (λ b. b)
            works
            root
            (dumps (id ∷ []))
            (false ∷ true ∷ [])
            (label_of root folder stem)
            files)
        ≡ returned (some (record { frame_id = id; boxes = false ∷ true ∷ []; reviewed = true })))
unfolding resolve_frame_paths same_path load_reviewed dumps_ids all_texts
saved_frame_read_back_example =
    saved_frame_read_back outside (λ b. b) works root id (false ∷ true ∷ []) files
      (image_of root folder stem) (label_of root folder stem) [] (dumps (id ∷ [])) refl refl refl
      refl

save_confined_example :
    (save_frame_boxes outside root id (false ∷ []) files).1 ((b'e' ∷ []) ∷ []) ≡ none
unfolding same_path is_below
save_confined_example =
    save_confined outside root id (false ∷ []) files ((b'e' ∷ []) ∷ []) (λ p. refl) refl refl
