-- ===== src/Router/Recent/Tests.antt =====
-- Recent files of a tree with a hidden article.
use mathlib.Core.List.{Perm}
use red_engine.Prelude.{
  ℕ, ◌≤◌, ◌≡◌, refl, ◌⊎◌, false, Option, some, List, [], ◌∷◌, ◌++◌, map, keep, length,
  if◌then◌else◌,
}
use red_engine.Text.{Text, text, ◌==◌}
use red_engine.Go.Strconv.{atoi}
use red_engine.Store.{Article, section, Sections, nil, entry, unsigned}
use red_engine.Router.Recent.{Candidate, candidate_of, atoi, limit_of, recent_files, result_of}
use red_engine.Router.Recent.Newest.{
  IsNewestFirst, is_shown, articles_below, recent_files-IsNewestFirst,
}

abbrev article : Text → Article
article path = record {
  path = path;
  title = text "T";
  body = [];
  raw = [];
  hash = [];
  verified = false;
  author = [];
  verification_error = [];
  verification_state = unsigned;
}

abbrev tree : Sections
tree =
    entry (text "linux")
      (section (text "linux") (text "/linux")
        (article (text "/linux/a") ∷ article (text "/linux/.b") ∷ article (text "/linux/c") ∷ [])
        nil false false)
      nil

abbrev mtime : Text → Option ℕ
mtime path = if path == text "data/linux/c.md" then some 5 else some 3

limits :
    map limit_of ([] ∷ text "7" ∷ text "99" ∷ text "-3" ∷ text "x" ∷ []) ≡ 5 ∷ 7 ∷ 20 ∷ 5 ∷ 5 ∷ []
unfolding limit_of atoi
limits = refl

recent_files-IsNewestFirst_example :
    (shown : List Candidate) × (rest : List Candidate) × (recent_files
        (text "data")
        mtime
        (text "1")
        tree
      ≡ map result_of shown)
    × ((1 ≤ limit_of (text "1"))
        × (limit_of (text "1") ≤ 20)
        × (length shown ≤ limit_of (text "1")))
    × ((rest ≡ []) ⊎ (length shown ≡ limit_of (text "1")))
    × IsNewestFirst (shown ++ rest)
    × Perm
        (shown ++ rest)
        (map (candidate_of (text "data") mtime) (keep is_shown (articles_below tree)))
recent_files-IsNewestFirst_example = recent_files-IsNewestFirst (text "data") mtime (text "1") tree
