-- ===== src/Voice/Tools/Files.antt =====
-- core/node/processors/mixins/tools/file_tools.py: the tools that write and read a file below a fixed
-- directory. A path is the list of its parts; how the file system joins, resolves, writes and reads
-- is a parameter, with the links that it follows.
pub mod Confined
use data_pipeline_orchestrat.Base.{
  ℕ, String, str_eq, List, [], ◌∷◌, ◌++◌, Bool, true, false, ◌&&◌, ltb, length, take, if◌then◌else◌,
  Exception, os_error, Outcome, returned, raised, Act,
}
use data_pipeline_orchestrat.Voice.Messages.{Text}
use data_pipeline_orchestrat.Voice.Tools.{ToolResult, answer, tool_error, raises}

abbrev pub FilePath : Type 0
FilePath = List String

-- MAX_FILE_CONTENT_CHARS and MAX_READ_CHARS
abbrev pub max_file_content_chars : ℕ
max_file_content_chars = 20000

abbrev pub max_read_chars : ℕ
max_read_chars = 4000

pub record FileSystem (W : Type 0) : Type 0 where
  -- root / relative_path
  pub join : FilePath → Text → FilePath
  pub resolve : FilePath → Act W FilePath
  pub mkdir : FilePath → Act W (Unit {0})
  pub write_text : FilePath → Text → Act W (Unit {0})
  pub is_file : FilePath → W → Bool × W
  pub read_text : FilePath → Act W Text

-- What the tools say.
pub data FileMessage : Type 0 where
  too_long : FileMessage
  escapes does_not_exist write_failed read_failed created : Text → FileMessage

-- target.parent
unfoldable pub parent : FilePath → FilePath
parent [] = []
parent (part ∷ []) = []
parent (part ∷ next ∷ parts) = part ∷ parent (next ∷ parts)

-- candidate.is_relative_to(root)
unfoldable pub is_relative_to : (root candidate : FilePath) → Bool
is_relative_to [] candidate = true
is_relative_to (part ∷ parts) [] = false
is_relative_to (part ∷ parts) (other ∷ others) = str_eq part other && is_relative_to parts others

-- `except OSError`
abbrev pub except_os_error : (FileMessage → Text) → FileMessage → Exception → ToolResult
except_os_error say message os_error = tool_error (say message)
except_os_error say message e = raises e

-- text[:MAX_READ_CHARS] + "…"
abbrev pub shorten : Text → Text
shorten text =
    if ltb max_read_chars (length text) then take max_read_chars text ++ 8230 ∷ [] else text

module _ {W : Type 0} (say : FileMessage → Text) (root : FilePath) where
  -- The end of `_resolve_in_sandbox`, and what is done with its result.
  unfoldable pub in_sandbox :
      Text → (FilePath → W → ToolResult × W) → Outcome FilePath × W → ToolResult × W
  unfolding is_relative_to
  in_sandbox path use_file (raised e, w) = (raises e, w)
  in_sandbox path use_file (returned target, w) =
      let used = use_file target w in
      if is_relative_to root target then used else (tool_error (say (escapes path)), w)

  abbrev pub after_write : Text → Outcome (Unit {0}) × W → ToolResult × W
  after_write path (returned _, w) = (answer (say (created path)), w)
  after_write path (raised e, w) = (except_os_error say (write_failed path) e, w)

  abbrev pub after_mkdir :
      Text → (W → Outcome (Unit {0}) × W) → Outcome (Unit {0}) × W → ToolResult × W
  after_mkdir path write (returned _, w) = after_write path (write w)
  after_mkdir path write (raised e, w) = (except_os_error say (write_failed path) e, w)

  abbrev pub after_read : Text → Outcome Text × W → ToolResult × W
  after_read path (returned text, w) = (answer (shorten text), w)
  after_read path (raised e, w) = (except_os_error say (read_failed path) e, w)

module _ {W : Type 0} (fs : FileSystem W) (say : FileMessage → Text) (root : FilePath) where
  -- The `try` of `CreateFileTool.__call__`.
  unfoldable pub write_target : Text → Text → FilePath → W → ToolResult × W
  unfolding parent
  write_target path content target w =
      after_mkdir say root path (fs.write_text target content) (fs.mkdir (parent target) w)

  unfoldable pub create_file : (path content : Text) → W → ToolResult × W
  unfolding in_sandbox write_target
  create_file path content w =
      let written =
        in_sandbox say root path (write_target path content) (fs.resolve (fs.join root path) w) in
      if ltb max_file_content_chars (length content)
      then (tool_error (say too_long), w)
      else written

  -- From the look whether there is a file on.
  unfoldable pub read_target : Text → FilePath → W → ToolResult × W
  read_target path target w =
      let (found, w1) = fs.is_file target w in
      let text = after_read say root path (fs.read_text target w1) in
      if found then text else (tool_error (say (does_not_exist path)), w1)

  -- `ReadFileTool.__call__`
  unfoldable pub read_file : (path : Text) → W → ToolResult × W
  unfolding in_sandbox read_target
  read_file path w = in_sandbox say root path (read_target path) (fs.resolve (fs.join root path) w)
