-- ===== src/Policy/DeadLetter.antt =====
-- neudc/core/policy/dead_letter.py: the record of a message that a node could not process.
-- A path is its list of segments. The file system, the clock, pickle and the views of a message
-- and of an error are the parameter `Disk`; an item of type `Item` is any message.
pub mod Laws
use data_pipeline_orchestrat.Base.{
  ℕ, String, Option, none, some, List, [], ◌∷◌, ◌++◌, Dict, assign, Bool, true, false, last_n,
  if◌then◌else◌, Exception, os_error, pickling_error, type_error, attribute_error, Outcome,
  returned, raised, Act, and_then, pure, ◌>>=◌, ◌>>◌, lift, is_some,
}
use Prim.Native.String.{◌++◌ as text_append}

abbrev pub FilePath : Type 0
FilePath = List String

-- The value of a message's attribute; `opaque` is neither str, int, float nor bool.
pub data Scalar (F : Type 0) : Type 0 where
  text : String → Scalar F
  number : F → Scalar F
  flag : Bool → Scalar F
  opaque : Scalar F

-- The JSON object of one record. A key that is absent is `none`.
pub record Entry (F : Type 0) : Type 0 where
  pub timestamp : F
  pub node_id : String
  pub message_type : String
  pub error_type : Option String
  pub error : Option String
  pub traceback : Option (List ℕ)
  pub message : Dict (Scalar F)
  pub payload_file : Option (Option FilePath)

pub record Disk (W F Item : Type 0) : Type 0 where
  pub time : W → F × W
  -- path.mkdir(parents=True, exist_ok=True)
  pub mkdir : FilePath → Act W (Unit {0})
  -- path.open("a") and handle.write(json.dumps(entry) + "\n")
  pub append_line : FilePath → Entry F → Act W (Unit {0})
  -- path.open("wb") and pickle.dump(item, handle)
  pub pickle_dump : FilePath → Item → Act W (Unit {0})
  -- item.get(name), getattr(item, name, None)
  pub attribute : Item → String → Option (Scalar F)
  pub item_type : Item → String
  pub exception_type : Exception → String
  pub exception_text : Exception → String
  -- the characters of traceback.format_exception
  pub format_exception : Exception → List ℕ
  -- f"{timestamp:.6f}"
  pub format_stamp : F → String

pub record DeadLetterSink : Type 0 where
  pub directory : FilePath
  pub store_payload : Bool

abbrev pub max_traceback_chars : ℕ
max_traceback_chars = 4000

abbrev pub identity_fields : List String
identity_fields =
    "frame_id" ∷ "source_frame" ∷ "timestamp" ∷ "source" ∷ "session_id" ∷ "turn_id" ∷ []

-- isinstance(value, str | int | float | bool)
abbrev pub is_plain : {F : Type 0} → Scalar F → Bool
is_plain opaque = false
is_plain _ = true

-- except (OSError, pickle.PicklingError, TypeError, AttributeError)
abbrev pub is_dump_error : Exception → Bool
is_dump_error os_error = true
is_dump_error pickling_error = true
is_dump_error type_error = true
is_dump_error attribute_error = true
is_dump_error _ = false

-- except OSError: log and go on
abbrev pub except_os_error : {W : Type 0} → Outcome (Unit {0}) × W → Outcome (Unit {0}) × W
except_os_error (raised os_error, w) = (returned tt, w)
except_os_error r = r

module _ {W F Item : Type 0} (disk : Disk W F Item) where
  open disk use {
    time, mkdir, append_line, pickle_dump, attribute, item_type, exception_type, exception_text,
    format_exception, format_stamp,
  }

  -- The loop of `_identity_of` over the fields that are left.
  pub identity_from : List String → Item → Dict (Scalar F)
  identity_from [] item = []
  identity_from (field ∷ fields) item =
      let rest = identity_from fields item in
      elim (attribute item field) [
        | none ↦ rest
        | some value ↦ if is_plain value then (field, value) ∷ rest else rest
      ]

  pub identity_of : Item → Dict (Scalar F)
  unfolding identity_from
  identity_of item = identity_from identity_fields item

  pub build_entry : String → Item → Option Exception → F → Entry F
  build_entry node_id item exc now = record {
    timestamp = now;
    node_id = node_id;
    message_type = item_type item;
    error_type = elim exc [ none ↦ none | some e ↦ some (exception_type e) ];
    error = elim exc [ none ↦ none | some e ↦ some (exception_text e) ];
    traceback = elim exc [
      | none ↦ none
      | some e ↦ some (last_n max_traceback_chars (format_exception e))
    ];
    message = identity_of item;
    payload_file = none;
  }

  -- The `try` around the dump: the path, or None if the payload could not be pickled.
  pub after_dump : FilePath → Outcome (Unit {0}) × W → Outcome (Option FilePath) × W
  after_dump path (returned _, w) = (returned (some path), w)
  after_dump path (raised e, w) = (if is_dump_error e then returned none else raised e, w)

  pub store_payload : DeadLetterSink → String → Item → F → Act W (Option FilePath)
  unfolding after_dump
  store_payload sink node_id item timestamp =
      let payload_dir = sink.directory ++ node_id ∷ [] in
      let path = payload_dir ++ text_append (format_stamp timestamp) ".pkl" ∷ [] in
      mkdir payload_dir >> λ w. after_dump path (pickle_dump path item w)

  -- if self.store_payload: entry["payload_file"] = self._store_payload(...)
  pub with_payload : DeadLetterSink → String → Item → F → Entry F → Act W (Entry F)
  unfolding store_payload
  with_payload sink node_id item now entry =
      if sink.store_payload
      then (store_payload sink node_id item now >>= λ path.
          pure (record entry { payload_file = some path }))
      else pure entry

  -- The body of the `try` in `record`.
  pub write_record : DeadLetterSink → String → Item → Option Exception → Act W (Unit {0})
  unfolding build_entry with_payload
  write_record sink node_id item exc = do
    mkdir sink.directory
    now ← lift time
    let entry = build_entry node_id item exc now
    stored ← with_payload sink node_id item now entry
    append_line (sink.directory ++ text_append node_id ".jsonl" ∷ []) stored

  unfoldable pub record_failure :
      DeadLetterSink → String → Item → Option Exception → Act W (Unit {0})
  unfolding write_record
  record_failure sink node_id item exc w = except_os_error (write_record sink node_id item exc w)
