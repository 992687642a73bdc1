-- ===== src/Store/Tests.antt =====
-- Runs of the store on a data directory of two files.
use mathlib.Core.List.{head?}
use red_engine.Prelude.{
  ℕ, map, ◌≡◌, refl, true, false, Option, some, List, [], ◌∷◌, ◌++◌, arith, if◌then◌else◌,
}
use red_engine.Text.{
  Text, text, ◌==◌, has_prefix, has_suffix, trim_prefix, trim_suffix, split, join, to_lower,
}
use red_engine.Dict.{Dict}
use red_engine.Dict
use red_engine.Go.Hex.{encode, decode}
use red_engine.Go.FilePath.{clean, clean_step, clean_parts, elements, render, has_ext_md}
use red_engine.Store.{Article, Sections, nil, put, lookup, unsigned}
use red_engine.Store.Nav.{split_path, insert_below, insert_into_map, get, slash}
use red_engine.Store.Nav.View.{view, IsUnique}
use red_engine.Store.Search.{build_search_index}
use red_engine.Store.Search.Complete.{RootsAreLeaves, IsListed, get-IsListed}
use red_engine.Store.Watch.{Watched, FileEvent, begin, finish, file_event, run}
use red_engine.Store.Watch.Window.{run-ignored}
use red_engine.Store.Verify.{
  Platform, Verdict, ManifestEntry, verify, process_article, unknown_origin, title_words,
  check_entry, check_signature, signature_holds,
}
use red_engine.Store.Update.{
  SignerDb, World, process, clean_path_of, changed_rel, update_file, reload, load_trusted_keys,
  load_signatures,
}
use red_engine.Store.Update.Patch.{processed, get-update_file}
use red_engine.Store.Update.Rebuild.{
  all_articles_for, articles_for, view-nil, view-reload, ChangedOnly, patch-reload,
}

-- A platform for the runs: the hash of a content is its first byte, a signature is the content that
-- it signs, and the files stand below "data/".
abbrev first_byte : Text → Text
first_byte [] = []
first_byte (c ∷ s) = c ∷ []

abbrev toy : (Text → Option Text) → Platform
toy read = record {
  sha256 = first_byte;
  ed25519_verify = λ public_key message signature. signature == message;
  markdown = λ source article_path. some source;
  data_dir = text "data";
  exists = λ path. false;
  read_file = read;
  rel = λ p. some (trim_prefix p (text "data/"));
}

abbrev file_a : Text
file_a = text "data/linux/boot.md"

abbrev file_b : Text
file_b = text "data/intro.md"

abbrev rel_a : Text
rel_a = text "linux/boot.md"

-- "hello" is the content of both files; the later one of the first is "bye".
abbrev read_old : Text → Option Text
read_old p = some (text "hello")

abbrev read_new : Text → Option Text
read_new p = if p == file_a then some (text "bye") else some (text "hello")

-- 32 bytes of 0xAB.
abbrev key_hex : Text
key_hex = text "ABABABABABABABABABABABABABABABABABABABABABABABABABABABABABABABAB"

abbrev signed_entry : ManifestEntry
signed_entry = record {
  file_hash = [];
  hash = text "68";
  public_key = key_hex;
  signature = text "68656c6c6f";
}

abbrev signers : List SignerDb
signers =
    record {
      rel_dir = text ".";
      files =
          record {
            path = rel_a;
            file_hash = text "68";
            public_key = key_hex;
            signature = text "68656c6c6f";
          }
          ∷ [];
    }
    ∷ []

abbrev world_of : (Text → Option Text) → World
world_of read = record {
  platform = toy read;
  trusted_authors = (to_lower key_hex, text "Ada") ∷ [];
  signers = signers;
  files = file_b ∷ file_a ∷ [];
}

abbrev old_world : World
old_world = world_of read_old

abbrev new_world : World
new_world = world_of read_new

unchanged_b : process new_world file_b ≡ process old_world file_b
unfolding process_article verify ◌==◌ check_entry check_signature signature_holds
unchanged_b = refl

placed_a : old_world.platform.rel (clean file_a) ≡ some rel_a
unfolding ◌==◌ has_prefix trim_prefix split join clean_step clean_parts elements render clean
placed_a = refl

changed_a : changed_rel new_world (clean file_a) ≡ some rel_a
unfolding ◌==◌ has_prefix has_suffix trim_prefix split join clean_step clean_parts elements render
    clean changed_rel has_ext_md
changed_a = refl

files_a : old_world.files ≡ (file_b ∷ []) ++ clean file_a ∷ []
unfolding ◌==◌ has_prefix split join clean_step clean_parts elements render clean
files_a = refl

none_before_a : all_articles_for old_world (clean_path_of rel_a) (file_b ∷ []) ≡ []
unfolding ◌==◌ has_prefix has_suffix trim_prefix trim_suffix split join to_lower Dict.lookup
    Dict.insert encode load_trusted_keys load_signatures title_words verify process_article
    articles_for all_articles_for has_ext_md
none_before_a = refl

ChangedOnly-a : ChangedOnly old_world new_world file_a rel_a
ChangedOnly-a = record {
  before = file_b ∷ [];
  after = [];
  files = files_a;
  files' = files_a;
  placed = placed_a;
  changed = changed_a;
  same_before = (unchanged_b, tt);
  same_after = tt;
  none_before = none_before_a;
  none_after = unfold all_articles_for in refl;
}

abbrev path_a : Text
path_a = text "linux/boot"

patch-reload_example :
    view (update_file new_world (reload old_world) file_a) path_a ≡ view (reload new_world) path_a
patch-reload_example = patch-reload old_world new_world file_a rel_a path_a ChangedOnly-a

view-reload_example :
    view (reload old_world) path_a ≡ all_articles_for old_world path_a (file_b ∷ file_a ∷ [])
view-reload_example = view-reload old_world path_a

nil-IsUnique : IsUnique nil
nil-IsUnique q = rw (view-nil q) (omega arith)

get-update_file_example : get (update_file new_world nil file_a) (text "/linux/boot") ≡ (
    if trim_prefix (text "/linux/boot") slash == clean_path_of rel_a
    then head? (processed new_world (clean file_a))
    else get nil (text "/linux/boot"))
get-update_file_example =
    get-update_file new_world nil file_a rel_a (text "/linux/boot") nil-IsUnique changed_a

-- The signed file is shown as verified.
abbrev trusted : Dict Text
trusted = (to_lower key_hex, text "Ada") ∷ []

abbrev manifest : Dict ManifestEntry
manifest = (rel_a, signed_entry) ∷ []

is_verified_a : (verify (toy read_old) trusted manifest rel_a (text "hello")).is_verified ≡ true
unfolding ◌==◌ to_lower Dict.lookup encode decode signature_holds check_signature check_entry verify
is_verified_a = refl

abbrev verdict_b : Verdict
verdict_b = verify (toy read_old) trusted manifest (text "intro.md") (text "hello")

-- Two articles in the tree.
abbrev article_of : Text → Text → Article
article_of at content = record {
  path = slash ++ at;
  title = at;
  body = content;
  raw = content;
  hash = [];
  verified = false;
  author = unknown_origin;
  verification_error = [];
  verification_state = unsigned;
}

abbrev deep : Text
deep = text "linux/boot/grub"

abbrev tree : Sections
tree = insert_into_map nil (split_path deep) (article_of deep (text "x"))

RootsAreLeaves-tree : RootsAreLeaves tree
unfolding RootsAreLeaves ◌==◌ split insert_into_map insert_below put lookup
RootsAreLeaves-tree = ((((λ e. cc), (((λ e. cc), tt), tt)), tt))

get-tree : get tree (text "/linux/boot/grub") ≡ some (article_of deep (text "x"))
unfolding ◌==◌ has_prefix trim_prefix split insert_into_map put lookup get insert_below
get-tree = refl

get-IsListed_example : IsListed (article_of deep (text "x")) (build_search_index tree)
get-IsListed_example =
    get-IsListed tree (text "/linux/boot/grub") (article_of deep (text "x")) RootsAreLeaves-tree
      get-tree

-- An event of the watcher during a remote sync and one a second after it.
abbrev event_at : ℕ → FileEvent
event_at now = record { now = now; world = new_world; path = file_a }

abbrev watched : Watched
watched = record { nav = tree; remote_sync_active = false; remote_sync_end = 0 }

run-ignored_example :
    (run
      (begin ∷ map file_event (event_at 1 ∷ [])
        ++ finish 5 ∷ map file_event (event_at 1_000_000_005 ∷ []))
      watched).nav
    ≡ tree
run-ignored_example =
    run-ignored (event_at 1 ∷ []) (event_at 1_000_000_005 ∷ []) 5 watched (omega arith)
      (omega arith, tt)
