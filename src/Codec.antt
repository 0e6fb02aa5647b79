-- ===== src/Codec.antt =====
-- core/communication/messaging/codec.py: a message as a tagged frame, with its large buffers in
-- shared memory. The pickle library and the names of new segments are parameters; the segments that
-- exist are a dictionary of their bytes.
pub mod Laws
pub mod Examples
use data_pipeline_orchestrat.Base.{
  ℕ, String, Option, none, some, List, [], ◌∷◌, map, Bool, true, false, ltb, length, take, Dict,
  lookup, assign, delete, os_error, value_error, Outcome, returned, raised, if◌then◌else◌, Act,
  and_then, pure,
}

abbrev pub Bytes : Type 0
Bytes = List ℕ

abbrev pub Segments : Type 0
Segments = Dict Bytes

-- pickle with protocol 5, on messages `O` and streams `S`
pub record Pickle (O S : Type 0) : Type 0 where
  -- the raw bytes of the buffers, in the order in which `buffer_callback` meets them
  pub buffers : O → List Bytes
  -- dumps, when the callback answers so for each buffer: True for in-band
  pub dump : O → List Bool → S
  -- dumps without a callback
  pub dump_plain : O → S
  -- loads(stream, buffers=...)
  pub load : S → List Bytes → Outcome O

-- (name, nbytes)
abbrev pub Descriptor : Type 0
Descriptor = String × ℕ

-- A frame: its tag, and what follows it.
pub data Frame (S : Type 0) : Type 0 where
  plain : S → Frame S
  shm : S → List Descriptor → Frame S
  unknown : ℕ → Frame S

-- The buffers that go out of band.
pub out_of_band : ℕ → List Bytes → List Bytes
out_of_band min_bytes [] = []
out_of_band min_bytes (b ∷ bs) =
    let rest = out_of_band min_bytes bs in if ltb (length b) min_bytes then rest else b ∷ rest

-- The answers of `buffer_callback`.
abbrev pub in_band : ℕ → Bytes → Bool
in_band min_bytes b = ltb (length b) min_bytes

abbrev pub cons_descriptor :
    Descriptor → Outcome (List Descriptor) × Segments → Outcome (List Descriptor) × Segments
cons_descriptor d (returned ds, s) = (returned (d ∷ ds), s)
cons_descriptor d (raised e, s) = (raised e, s)

-- The loop over `oob`: create a segment, fill it, close it. A segment of no bytes is a ValueError.
pub create_segments :
    (Segments → String) → List Bytes → Segments → Outcome (List Descriptor) × Segments
create_segments fresh [] s = (returned [], s)
create_segments fresh ([] ∷ bs) s = (raised value_error, s)
create_segments fresh ((x ∷ xs) ∷ bs) s =
    let name = fresh s in
    cons_descriptor (name, length (x ∷ xs)) (create_segments fresh bs (assign name (x ∷ xs) s))

-- Open, copy `nbytes`, close and unlink; a segment that does not exist raises FileNotFoundError.
pub consume_found : Option Bytes → String → ℕ → Segments → Outcome Bytes × Segments
consume_found none name nbytes s = (raised os_error, s)
consume_found (some b) name nbytes s = (returned (take nbytes b), delete name s)

pub consume_segment : String → ℕ → Segments → Outcome Bytes × Segments
unfolding consume_found
consume_segment name nbytes s = consume_found (lookup name s) name nbytes s

abbrev pub cons_buffer : Bytes → Outcome (List Bytes) × Segments → Outcome (List Bytes) × Segments
cons_buffer b (returned bs, s) = (returned (b ∷ bs), s)
cons_buffer b (raised e, s) = (raised e, s)

-- What one consumed segment and the rest of the comprehension give.
abbrev pub next_buffer :
    (Segments → Outcome (List Bytes) × Segments)
    → Outcome Bytes × Segments
    → Outcome (List Bytes) × Segments
next_buffer rest (raised e, s) = (raised e, s)
next_buffer rest (returned b, s) = cons_buffer b (rest s)

-- [_consume_segment(name, nbytes) for name, nbytes in segments]
pub consume_segments : List Descriptor → Segments → Outcome (List Bytes) × Segments
unfolding consume_segment
consume_segments [] s = (returned [], s)
consume_segments ((name, nbytes) ∷ ds) s =
    next_buffer (consume_segments ds) (consume_segment name nbytes s)

module _ {O S : Type 0} (pickle : Pickle O S) (min_bytes : ℕ) (fresh : Segments → String) where
  pub dumps_shm : O → Act Segments (Frame S)
  unfolding out_of_band create_segments
  dumps_shm obj s =
      let buffers = pickle.buffers obj in
      let meta = pickle.dump obj (map (in_band min_bytes) buffers) in
      and_then (create_segments fresh (out_of_band min_bytes buffers) s)
        λ segments. pure (shm meta segments)

  pub dumps : Bool → O → Act Segments (Frame S)
  unfolding dumps_shm
  dumps true obj s = dumps_shm obj s
  dumps false obj s = (returned (plain (pickle.dump_plain obj)), s)

module _ {O S : Type 0} (pickle : Pickle O S) where
  pub load_buffers : S → Outcome (List Bytes) × Segments → Outcome O × Segments
  load_buffers meta (raised e, s) = (raised e, s)
  load_buffers meta (returned buffers, s) = (pickle.load meta buffers, s)

  pub loads : Frame S → Segments → Outcome O × Segments
  unfolding load_buffers consume_segments
  loads (plain body) s = (pickle.load body [], s)
  loads (shm meta segments) s = load_buffers meta (consume_segments segments s)
  loads (unknown tag) s = (raised value_error, s)
