-- ===== src/Node/Fixtures.antt =====
-- A disk, a clock and numbers for small runs: floats are natural numbers, and the disk takes
-- everything.
use data_pipeline_orchestrat.Base.{some, ℕ, ◌+◌, ◌*◌, none, [], ltb, leb, FloatOps, returned}
use data_pipeline_orchestrat.Policy.DeadLetter.{Disk}
use data_pipeline_orchestrat.Policy.Execute.{Runtime}

abbrev pub naturals : FloatOps ℕ
naturals = record {
  literal = λ digits places. digits;
  ltb_F = ltb;
  leb_F = leb;
  add_F = λ x y. x + y;
  mul_F = λ x y. x * y;
  pow_F = λ x n. some (x * n);
  half = λ x. x;
}

abbrev pub disk : {W Item : Type 0} → Disk W ℕ Item
disk = record {
  time = λ w. (7, w);
  mkdir = λ path w. (returned tt, w);
  append_line = λ path entry w. (returned tt, w);
  pickle_dump = λ path item w. (returned tt, w);
  attribute = λ item name. none;
  item_type = λ item. "int";
  exception_type = λ x. "ValueError";
  exception_text = λ x. "bad item";
  format_exception = λ x. [];
  format_stamp = λ t. "7.000000";
}

abbrev pub runtime : {W Item : Type 0} → Runtime W ℕ Item
runtime = record { floats = naturals; disk = disk; sleep_for = λ d w. w; uniform = λ b w. (0, w) }
