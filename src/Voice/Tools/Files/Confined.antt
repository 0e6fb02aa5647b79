-- ===== src/Voice/Tools/Files/Confined.antt =====
-- The file tools see and change nothing outside their directory.
use data_pipeline_orchestrat.Base.{
  ◌≡◌, refl, true, Bool-cases, inl, inr, Outcome, returned, raised, ap,
}
use data_pipeline_orchestrat.Voice.Messages.{Text}
use data_pipeline_orchestrat.Voice.Tools.{ToolResult}
use data_pipeline_orchestrat.Voice.Tools.Files.{
  FilePath, FileSystem, FileMessage, parent, is_relative_to, in_sandbox, write_target, create_file,
  read_target, read_file, after_mkdir, after_write,
}

module _ {W : Type 0} (say : FileMessage → Text) (root : FilePath) (path : Text) where
  in_sandbox-same :
      (f g : FilePath → W → ToolResult × W) (r : Outcome FilePath × W)
      → ((target : FilePath) (w : W) → is_relative_to root target ≡ true → f target w ≡ g target w)
      → in_sandbox say root path f r ≡ in_sandbox say root path g r
  unfolding in_sandbox
  in_sandbox-same f g (raised e, w) same = refl
  in_sandbox-same f g (returned target, w) same = elim (Bool-cases (is_relative_to root target)) [
    | inl inside ↦ rw inside (same target w inside)
    | inr outside ↦ rw outside refl
  ]

  after_mkdir-same :
      (f g : W → Outcome (Unit {0}) × W) (r : Outcome (Unit {0}) × W)
      → ((w : W) → f w ≡ g w)
      → after_mkdir say root path f r ≡ after_mkdir say root path g r
  after_mkdir-same f g (raised e, w) same = refl
  after_mkdir-same f g (returned _, w) same = ap (after_write say root path) (same w)

module _ {W : Type 0} (fs other_fs : FileSystem W) (say : FileMessage → Text)
    (root : FilePath) where
  -- What the file tools do is settled by the file system inside their directory. Two file systems
  -- that join and resolve paths alike, and agree on the writing, finding and reading of the files
  -- whose resolved path lies inside the directory, and on making the directories that hold them,
  -- give the same answer and the same world for every path and content, whatever they do elsewhere.
  pub files_confined :
      (path content : Text) (w : W)
      → ((p : FilePath) (t : Text) → fs.join p t ≡ other_fs.join p t)
      → ((p : FilePath) (v : W) → fs.resolve p v ≡ other_fs.resolve p v)
      → ((p : FilePath) (v : W)
          → is_relative_to root p ≡ true
          → fs.mkdir (parent p) v ≡ other_fs.mkdir (parent p) v)
      → ((p : FilePath) (t : Text) (v : W)
          → is_relative_to root p ≡ true
          → fs.write_text p t v ≡ other_fs.write_text p t v)
      → ((p : FilePath) (v : W)
          → is_relative_to root p ≡ true
          → fs.is_file p v ≡ other_fs.is_file p v)
      → ((p : FilePath) (v : W)
          → is_relative_to root p ≡ true
          → fs.read_text p v ≡ other_fs.read_text p v)
      → (create_file fs say root path content w ≡ create_file other_fs say root path content w)
        × (read_file fs say root path w ≡ read_file other_fs say root path w)
  unfolding create_file read_file write_target read_target
  files_confined path content w joins resolves makes writes finds reads =
      let located = other_fs.resolve (other_fs.join root path) w in
      let written : in_sandbox say root path (write_target fs say root path content) located
          ≡ in_sandbox say root path (write_target other_fs say root path content) located =
        in_sandbox-same say root path (write_target fs say root path content)
          (write_target other_fs say root path content) located
          λ target v inside. rw (makes target v inside) (
            after_mkdir-same say root path (fs.write_text target content)
              (other_fs.write_text target content) (other_fs.mkdir (parent target) v)
              λ u. writes target content u inside) in
      let read : in_sandbox say root path (read_target fs say root path) located
          ≡ in_sandbox say root path (read_target other_fs say root path) located =
        in_sandbox-same say root path (read_target fs say root path)
          (read_target other_fs say root path) located
          λ target v inside.
            rw (finds target v inside, reads target ((other_fs.is_file target v).1) inside) refl in
      (
        rw (joins root path, resolves (other_fs.join root path) w, written) refl,
        rw (joins root path, resolves (other_fs.join root path) w) read,
      )
