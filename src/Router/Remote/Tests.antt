-- ===== src/Router/Remote/Tests.antt =====
-- Imports into a data directory.
use red_engine.Prelude.{◌≡◌, ◌≢◌, ◌↔◌, refl, ◌⊎◌, inl, true, false, none, some, [], ◌∷◌}
use red_engine.Text.{text, ◌==◌, has_prefix, join, split, trim_byte, trim_suffix}
use red_engine.Go.FilePath.{clean, clean_step, dir, join_path}
use red_engine.Go.Ip.{v4}
use red_engine.Router.Import.{rewrite_url, target_sub_path, trim_right}
use red_engine.Router.Remote.{
  Url, Web, ImportRequest, made_dir, wrote, Imported, import_remote, pull_from_peer,
}
use red_engine.Router.Remote.Panics.{PassesNameless, import_remote-none_iff}
use red_engine.Router.Remote.Placed.{IsGuarded, import_remote-IsGuarded}

abbrev web : Web
web = record {
  parse = λ url. some (record {
    scheme = text "https";
    host = text "host";
    hostname = text "host";
    path = text "/notes.md";
  });
  lookup = λ host. some (some (v4 1 2 3 4) ∷ []);
  manifest = λ url. some (text "a.md" ∷ text "../../b" ∷ []);
  get = λ url. true;
  pull = λ url src_type dir. true;
  mkdir = λ path. true;
  create = λ path. true;
  copy = λ path. true;
  reload = true;
}

abbrev request : ImportRequest
request = record {
  url = text "https://host/notes.md";
  filename = text "notes";
  save_to_startup = false;
  peer_url = [];
  remote_path = [];
}

abbrev imported : Imported
imported = record {
  status = 200;
  effects = made_dir (text "data") ∷ wrote (text "data/notes.md") ∷ [];
  registry = none;
}

imports :
    import_remote web (text "data") (text "1") 9 (text "POST") (some request) none ≡ some imported
unfolding import_remote target_sub_path rewrite_url clean has_prefix join split clean_step dir
    join_path
imports = refl

-- The files of a peer's manifest are joined as they are named.
peer_escapes : pull_from_peer web (text "http://p/") (text "/linux") (text "data/linux") ≡ (
  true,
  made_dir (text "data/linux")
      ∷ made_dir (text "data/linux")
      ∷ wrote (text "data/linux/a.md")
      ∷ made_dir (text ".")
      ∷ wrote (text "b")
      ∷ [],
)
unfolding pull_from_peer join_path clean dir ◌==◌ has_prefix join split clean_step
peer_escapes = refl

import_remote-IsGuarded_example :
    (imported.effects ≡ [])
    ⊎ ((text "POST" ≡ text "POST") × IsGuarded (text "data") web request imported)
import_remote-IsGuarded_example =
    import_remote-IsGuarded web (text "data") (text "1") 9 (text "POST") request none imported
      (λ e. cc e) (refl, tt) (inl refl) imports

-- Every URL is parsed as one of a repository.
abbrev repository_url : Url
repository_url = record {
  scheme = text "https";
  host = text "github.com";
  hostname = text "github.com";
  path = text "/owner/repo.git";
}

abbrev github_web : Web
github_web = record web { parse = λ url. some repository_url }

abbrev unnamed : ImportRequest
unnamed = record request { url = text "https://github.com/owner/repo"; filename = [] }

panics :
    import_remote github_web (text "data") (text "1") 9 (text "POST") (some unnamed) none ≡ none
unfolding import_remote rewrite_url split trim_byte trim_suffix target_sub_path clean has_prefix
    join clean_step trim_right
panics = refl

import_remote-none_iff_example :
    (import_remote github_web (text "data") (text "1") 9 (text "POST") (some unnamed) none ≡ none)
    ↔ ((text "POST" ≡ text "POST")
        × ((unnamed.peer_url ≡ []) ⊎ (unnamed.remote_path ≡ []))
        × (unnamed.url ≢ [])
        × PassesNameless github_web unnamed)
import_remote-none_iff_example =
    import_remote-none_iff github_web (text "data") (text "1") 9 (text "POST") unnamed none
