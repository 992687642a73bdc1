-- ===== src/Fetch/Tests.antt =====
-- An extraction that records the calls.
use red_engine.Prelude.{◌≡◌, refl, Bool, true, false, List, [], ◌∷◌, All}
use red_engine.Text.{Text, text, ◌==◌, has_prefix, trim_prefix, split, join}
use red_engine.Go.FilePath.{clean, clean_step, dir, join_path}
use red_engine.Fetch.{Call, make_dir, write_file, Entry, entry_calls, extract, extracted_limit}
use red_engine.Fetch.Extract.{IsWithin, extract_keeps}

abbrev out : Text
out = text "content/mesh"

abbrev record_call : Call → List Call → Bool × List Call
record_call call calls = (true, call ∷ calls)

abbrev AllWithin : List Call → Type 0
AllWithin calls = All (IsWithin out) calls

abbrev dot_file : Entry
dot_file = record { name = text "."; is_dir = false; content = text "x" }

abbrev archive : List Entry
archive =
    record { name = text "../../etc/passwd"; is_dir = false; content = text "x" }
    ∷ record { name = text "/linux/./boot.md"; is_dir = false; content = text "y" }
    ∷ dot_file
    ∷ []

-- The parent of the directory is made for a file of the name ".".
parent_made : entry_calls out dot_file ≡ make_dir (text "content") ∷ write_file out (text "x") ∷ []
unfolding entry_calls dir join_path clean ◌==◌ has_prefix trim_prefix join split clean_step
    extracted_limit
parent_made = refl

extract_keeps_example : AllWithin (extract record_call out archive true []).1
extract_keeps_example =
    extract_keeps record_call AllWithin out (λ call calls within all. (within, all)) archive true []
      (λ e. cc) tt
