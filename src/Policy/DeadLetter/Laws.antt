-- ===== src/Policy/DeadLetter/Laws.antt =====
-- When `DeadLetterSink.record` returns, what it writes, and which errors it lets through.
use data_pipeline_orchestrat.Base.{
  ℕ, ◌≤◌, ◌≡◌, refl, String, Option, none, some, List, [], ◌∷◌, ◌++◌, Bool, true, false, length,
  take, take-append-drop, length-last_n, last_n, ◌-◌, Exception, Act, if◌then◌else◌, os_error,
  Outcome, returned, raised, and_then, arith,
}
use Prim.Native.String.{◌++◌ as text_append}
use data_pipeline_orchestrat.Policy.DeadLetter.{
  FilePath, Disk, DeadLetterSink, Entry, max_traceback_chars, is_dump_error, build_entry,
  after_dump, store_payload, with_payload, record_failure, except_os_error,
}

-- The call returns, or raises an error of the given kind.
abbrev pub RaisesOnly : {A : Type 0} → (Exception → Bool) → Outcome A → Type 0
RaisesOnly kind (returned _) = Unit
RaisesOnly kind (raised e) = kind e ≡ true

abbrev pub is_os_error : Exception → Bool
is_os_error os_error = true
is_os_error _ = false

-- Directories and files fail with OSError, and the dump with an error that `_store_payload` names.
pub record FailsAsDocumented {W F Item : Type 0} (disk : Disk W F Item) : Type 0 where
  pub mkdir_os : (p : FilePath) (w : W) → RaisesOnly is_os_error (disk.mkdir p w).0
  pub append_os :
      (p : FilePath) (entry : Entry F) (w : W)
      → RaisesOnly is_os_error (disk.append_line p entry w).0
  pub dump_named :
      (p : FilePath) (item : Item) (w : W) → RaisesOnly is_dump_error (disk.pickle_dump p item w).0

except_os_error-returned :
    {W : Type 0} (r : Outcome (Unit {0}) × W)
    → RaisesOnly is_os_error r.0
    → (except_os_error r).0 ≡ returned tt
except_os_error-returned (returned tt, w) h = refl
except_os_error-returned (raised os_error, w) h = refl
except_os_error-returned (raised _, w) h = ground arith

and_then-RaisesOnly :
    {W A B : Type 0} (kind : Exception → Bool) (r : Outcome A × W) (f : A → W → Outcome B × W)
    → RaisesOnly kind r.0
    → ((a : A) (w : W) → RaisesOnly kind (f a w).0)
    → RaisesOnly kind (and_then r f).0
and_then-RaisesOnly kind (returned a, w) f h k = k a w
and_then-RaisesOnly kind (raised e, w) f h k = h

module _ {W F Item : Type 0} (disk : Disk W F Item) (sink : DeadLetterSink) (node_id : String) where
  after_dump-RaisesOnly :
      (path : FilePath) (r : Outcome (Unit {0}) × W)
      → RaisesOnly is_dump_error r.0
      → RaisesOnly is_os_error (after_dump disk path r).0
  unfolding after_dump
  after_dump-RaisesOnly path (returned _, w) h = tt
  after_dump-RaisesOnly path (raised e, w) h = ground arith

  store_payload-RaisesOnly :
      (item : Item) (now : F)
      → FailsAsDocumented disk
      → (w : W) → RaisesOnly is_os_error (store_payload disk sink node_id item now w).0
  unfolding store_payload
  store_payload-RaisesOnly item now d w =
      let path : FilePath =
        sink.directory ++ node_id ∷ [] ++ text_append (disk.format_stamp now) ".pkl" ∷ [] in
      and_then-RaisesOnly is_os_error (disk.mkdir (sink.directory ++ node_id ∷ []) w) _
        (d.mkdir_os _ w)
        λ _ w'.
          after_dump-RaisesOnly path (disk.pickle_dump path item w') (d.dump_named path item w')

  if-RaisesOnly :
      {A : Type 0} (b : Bool) (f g : Act W A) (w : W)
      → RaisesOnly is_os_error (f w).0
      → RaisesOnly is_os_error (g w).0
      → RaisesOnly is_os_error ((if b then f else g) w).0
  if-RaisesOnly true f g w hf hg = hf
  if-RaisesOnly false f g w hf hg = hg

  with_payload-RaisesOnly :
      (item : Item) (now : F) (entry : Entry F)
      → FailsAsDocumented disk
      → (w : W) → RaisesOnly is_os_error (with_payload disk sink node_id item now entry w).0
  unfolding with_payload
  with_payload-RaisesOnly item now entry d w =
      if-RaisesOnly sink.store_payload _ _ w
        (and_then-RaisesOnly is_os_error (store_payload disk sink node_id item now w) _
          (store_payload-RaisesOnly item now d w) (λ _ _. tt))
        tt

  -- If the file system fails only with OSError and the dump only with the errors that
  -- `_store_payload` names, then `record` returns: it never raises.
  pub record_failure-returned :
      (item : Item) (exc : Option Exception) (w : W)
      → FailsAsDocumented disk
      → (record_failure disk sink node_id item exc w).0 ≡ returned tt
  unfolding record_failure
  record_failure-returned item exc w d = except_os_error-returned _ (
      and_then-RaisesOnly is_os_error (disk.mkdir sink.directory w) _ (d.mkdir_os _ w) λ _ w1.
        let (now, w2) = disk.time w1 in
        and_then-RaisesOnly is_os_error
          (with_payload disk sink node_id item now (build_entry disk node_id item exc now) w2) _
          (with_payload-RaisesOnly item now _ d w2) λ stored w3. d.append_os _ stored w3)

  -- When the payload cannot be pickled, for a reason that `_store_payload` names, the record is
  -- appended all the same, with the payload's path left null.
  pub record_failure_unpicklable :
      (item : Item) (exc : Option Exception) (w w1 w2 w3 w4 : W) (now : F) (e : Exception)
      → sink.store_payload ≡ true
      → disk.mkdir sink.directory w ≡ (returned tt, w1)
      → disk.time w1 ≡ (now, w2)
      → disk.mkdir (sink.directory ++ node_id ∷ []) w2 ≡ (returned tt, w3)
      → disk.pickle_dump
          (sink.directory ++ node_id ∷ [] ++ text_append (disk.format_stamp now) ".pkl" ∷ [])
          item
          w3
        ≡ (raised e, w4)
      → is_dump_error e ≡ true
      → record_failure disk sink node_id item exc w
        ≡ except_os_error (
            disk.append_line
              (sink.directory ++ text_append node_id ".jsonl" ∷ [])
              (record (build_entry disk node_id item exc now) { payload_file = some none })
              w4)
  unfolding record_failure after_dump
  record_failure_unpicklable item exc w w1 w2 w3 w4 now e sp m1 tm m2 pk named =
      rw m1 (rw tm (rw sp (rw m2 (rw pk (rw named refl)))))

  -- An error of the dump that `_store_payload` does not name, and that is no OSError, leaves
  -- `record` as an exception, and no line is appended.
  pub record_failure_leaks :
      (item : Item) (exc : Option Exception) (w w1 w2 w3 w4 : W) (now : F) (e : Exception)
      → sink.store_payload ≡ true
      → disk.mkdir sink.directory w ≡ (returned tt, w1)
      → disk.time w1 ≡ (now, w2)
      → disk.mkdir (sink.directory ++ node_id ∷ []) w2 ≡ (returned tt, w3)
      → disk.pickle_dump
          (sink.directory ++ node_id ∷ [] ++ text_append (disk.format_stamp now) ".pkl" ∷ [])
          item
          w3
        ≡ (raised e, w4)
      → is_dump_error e ≡ false
      → record_failure disk sink node_id item exc w ≡ (raised e, w4)
  unfolding record_failure after_dump
  record_failure_leaks item exc w w1 w2 w3 w4 now e sp m1 tm m2 pk named =
      rw m1 (rw tm (rw sp (rw m2 (rw pk (rw named (leaks e named))))))
    where
      leaks :
          (x : Exception)
          → is_dump_error x ≡ false
          → except_os_error (raised x, w4) ≡ (raised x, w4)
      leaks os_error h = cc
      leaks _ h = refl

-- The traceback kept in a record is a suffix of the formatted one, of at most 4000 characters.
pub traceback_bounded :
    {W F Item : Type 0} (disk : Disk W F Item) (node_id : String) (item : Item) (e : Exception)
    (now : F)
    → (before kept : List ℕ) × ((build_entry disk node_id item (some e) now).traceback ≡ some kept)
      × (before ++ kept ≡ disk.format_exception e)
      × (length kept ≤ 4000)
unfolding build_entry
traceback_bounded disk node_id item e now =
    let chars : List ℕ = disk.format_exception e in
    (
      take (length chars - max_traceback_chars) chars,
      last_n max_traceback_chars chars,
      refl,
      take-append-drop (length chars - max_traceback_chars) chars,
      length-last_n max_traceback_chars chars,
    )
