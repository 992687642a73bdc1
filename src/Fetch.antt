-- ===== src/Fetch.antt =====
-- The archive extraction of internal/fetch/fetch.go. The operating system is a parameter: `run`
-- makes one call and says whether it succeeded, and in which state it left the disk. What the
-- archive reader yields is a list of entries, which ends in an error where the reader reports one.
pub mod Client
pub mod Extract
mod Tests
use red_engine.Prelude.{ℕ, ◌*◌, Bool, true, false, ◌||◌, List, [], ◌∷◌, ◌++◌, if◌then◌else◌, take}
use red_engine.Text.{Text, text, ◌==◌, has_prefix, trim_prefix}
use red_engine.Go.FilePath.{slash, clean, dir, join_path}

pub data Call : Type 0 where
  -- os.MkdirAll(path)
  make_dir : Text → Call
  -- os.Create(target), then a copy of the content
  write_file : Text → Text → Call

pub record Entry : Type 0 where
  pub name : Text
  pub is_dir : Bool
  pub content : Text

-- 100*1024*1024
pub extracted_limit : ℕ
extracted_limit = 100 * 1024 * 1024

-- The calls of `writeEntry`, in order; it returns at the first that fails.
unfoldable pub entry_calls : Text → Entry → List Call
entry_calls dest e =
    let rel = trim_prefix (clean e.name) slash in
    if rel == [] || has_prefix rel (text "..")
    then []
    else let target = join_path dest rel in
      if e.is_dir
      then make_dir target ∷ []
      else make_dir (dir target) ∷ write_file target (take extracted_limit e.content) ∷ []

module _ {State : Type 0} (run : Call → State → Bool × State) where
  -- true where every call succeeded
  unfoldable pub run_calls : List Call → State → Bool × State
  run_calls [] s = (true, s)
  run_calls (c ∷ cs) s = let (done, s') = run c s in if done then run_calls cs s' else (false, s')

  unfoldable pub write_entry : Text → Entry → State → Bool × State
  unfolding run_calls entry_calls
  write_entry dest e s = run_calls (entry_calls dest e) s

  -- The loops of `extractTarGz` and `extractZip`; the flag says that the reader ended well.
  unfoldable pub extract : Text → List Entry → Bool → State → Bool × State
  extract dest [] ended s = (ended, s)
  extract dest (e ∷ es) ended s =
      let (done, s') = write_entry dest e s in
      if done then extract dest es ended s' else (false, s')
