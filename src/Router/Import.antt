-- ===== src/Router/Import.antt =====
-- `importRemote` of internal/router/sync.go: how a download is named in the data directory.
-- `net/url` is a parameter, which gives the host and the path of a URL; the time is given in
-- digits.
pub mod Named
use mathlib.Core.List.{reverse}
use red_engine.Prelude.{
  ℕ, Bool, true, false, not, ◌&&◌, ◌||◌, Option, none, some, List, [], ◌∷◌, ◌++◌, eqb, leb, ltb,
  length, get_elem?, drop, get_or, if◌then◌else◌,
}
use red_engine.Text.{Text, text, ◌==◌, has_prefix, trim_suffix, trim_left, trim_byte, split, join}
use red_engine.Go.FilePath.{dot, slash, clean, is_rooted, join_path}
use red_engine.Store.Nav.{split_path}
use red_engine.Store.Verify.{last_part}

abbrev pub github : Text
github = text "github.com"

abbrev part : ℕ → List Text → Text
part i parts = get_or (get_elem? parts i) []

-- The GitHub URL rewriter.
unfoldable pub rewrite_url : Text → Text → Text → Text
rewrite_url host path url =
    let parts = split_path (trim_byte b'/' path) in
    if not (host == github)
    then url
    else if eqb (length parts) 2
    then text "https://github.com/"
      ++ (part 0 parts ++ (slash ++ (trim_suffix (part 1 parts) (text ".git") ++ text ".git")))
    else if ltb 2 (length parts) && part 2 parts == text "blob"
    then text "https://raw.githubusercontent.com/"
      ++ (part 0 parts ++ (slash ++ (part 1 parts ++ (slash ++ join slash (drop 3 parts)))))
    else url

-- strings.TrimRight(path, "/")
unfoldable pub trim_right : Text → Text
trim_right path = reverse (trim_left b'/' (reverse path))

abbrev pub url_parts : Text → List Text
url_parts path = split_path (trim_right path)

-- The last part without the suffixes of archives, repositories and articles.
abbrev pub stem : Text → Text
stem p =
    trim_suffix
      (trim_suffix
        (trim_suffix (trim_suffix (trim_suffix p (text ".zip")) (text ".tar.gz")) (text ".tgz"))
        (text ".md"))
      (text ".git")

-- The name that is kept, or one made from the time.
unfoldable pub or_stamp : Text → Text → Text
or_stamp stamp t =
    if t == dot || t == [] || has_prefix t (text "..") || is_rooted t
    then text "sync-" ++ stamp
    else t

abbrev pub last_stem : Text → Text → Text
last_stem path safe = let s = stem (last_part (url_parts path)) in if s == [] then safe else s

-- The name from the URL; `none` where the fourth part is read and is not there.
unfoldable pub auto_name : Text → Text → Text → Option Text
auto_name host path safe =
    let parts = url_parts path in
    if host == github && leb 3 (length parts)
    then elim (get_elem? parts 3) [
      | none ↦ none
      | some p ↦ some (if p == text "archive" then part 2 parts else last_stem path safe)
    ]
    else some (last_stem path safe)

-- `targetSubPath`; none where the handler panics.
unfoldable pub target_sub_path : Text → Text → Text → Text → Option Text
unfolding auto_name or_stamp
target_sub_path host path filename stamp =
    let safe = clean filename in
    if safe == dot || safe == []
    then elim (auto_name host path safe) [ none ↦ none | some t ↦ some (or_stamp stamp t) ]
    else some (or_stamp stamp safe)

-- `targetSubPath` where the rewritten URL is no URL, so that only a given name can be taken.
unfoldable pub given_name : Text → Text → Option Text
unfolding or_stamp
given_name filename stamp =
    let safe = clean filename in
    if safe == dot || safe == [] then none else some (or_stamp stamp safe)

-- `destinationDir`
abbrev pub destination : Text → Text → Text
destination data_dir t = join_path data_dir t
