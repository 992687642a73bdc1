-- ===== src/Router/Recent.antt =====
-- `recentFiles` of internal/router/api.go on the store's tree. A map of sections is walked in the
-- order of its entries, which the sort forgets but for files of one time. The time of a file is an
-- argument, none where it cannot be read.
mod Tests
pub mod Newest
use mathlib.Core.List.{reverse}
use red_engine.Prelude.{
  ℕ, zero, suc, ◌+◌, ◌-◌, ◌*◌, Bool, true, false, not, ◌&&◌, ◌||◌, Option, none, some, List, [],
  ◌∷◌, ◌++◌, map, if◌then◌else◌, ltb, leb, eqb, any, take, length,
}
use red_engine.Text.{
  Text, text, ◌==◌, has_prefix, has_suffix, trim_prefix, trim_suffix, trim_byte, split,
}
use red_engine.Go.FilePath.{join_path}
use red_engine.Go.Strconv.{atoi}
use red_engine.Store.{VerificationState, Article, Section, section, Sections, nil, entry}
use red_engine.Store.Verify.{last_part}
use red_engine.Router.Pages.{capitalize}

abbrev clamped : ℕ → ℕ
clamped n = if ltb 20 n then 20 else n

unfoldable pub limit_of : Text → ℕ
limit_of s = elim (atoi s) [ none ↦ 5 | some n ↦ if ltb 0 n then clamped n else 5 ]

pub record Candidate : Type 0 where
  pub title : Text
  pub path : Text
  pub author : Text
  pub verification_state : VerificationState
  pub mtime : Option ℕ

unfoldable pub has_hidden_segment : Text → Bool
unfolding has_prefix
has_hidden_segment p = any (λ seg. has_prefix seg (text ".")) (split b'/' (trim_byte b'/' p))

abbrev pub knowledge : Text
knowledge = text "RED_KNOWLEDGE"

unfoldable pub display_path : Article → Text
unfolding trim_suffix
display_path art = trim_suffix art.path (text "/RED_KNOWLEDGE")

unfoldable pub display_title : Article → Text
unfolding display_path has_suffix ◌==◌
display_title art =
    if has_suffix art.path (text "/RED_KNOWLEDGE") && (art.title == knowledge || art.title == [])
    then capitalize (last_part (split b'/' (trim_byte b'/' (display_path art))))
    else art.title

abbrev pub file_of : Text → Article → Text
file_of data_dir art = join_path data_dir (trim_prefix art.path (text "/") ++ text ".md")

unfoldable pub candidate_of : Text → (Text → Option ℕ) → Article → Candidate
unfolding display_path display_title
candidate_of data_dir mtime art = record {
  title = display_title art;
  path = display_path art;
  author = art.author;
  verification_state = art.verification_state;
  mtime = mtime (file_of data_dir art);
}

-- The loop over the articles of a section, and `walkSection`.
unfoldable pub candidates : (Article → Candidate) → List Article → List Candidate
candidates candidate [] = []
candidates candidate (art ∷ arts) =
    if has_hidden_segment art.path
    then candidates candidate arts
    else candidate art ∷ candidates candidate arts

unfoldable mutual
  pub walk_section : (Article → Candidate) → Section → List Candidate
  walk_section candidate (section n p arts subs c i) =
      candidates candidate arts ++ walk_sections candidate subs

  pub walk_sections : (Article → Candidate) → Sections → List Candidate
  walk_sections candidate nil = []
  walk_sections candidate (entry k sec m) = walk_section candidate sec ++ walk_sections candidate m

-- mtime.After; the zero time of a file that cannot be read is before all others.
unfoldable pub is_after : Option ℕ → Option ℕ → Bool
is_after none b = false
is_after (some a) none = true
is_after (some a) (some b) = ltb b a

unfoldable pub insert_recent : Candidate → List Candidate → List Candidate
unfolding is_after
insert_recent c [] = c ∷ []
insert_recent c (d ∷ l) = if is_after d.mtime c.mtime then d ∷ insert_recent c l else c ∷ d ∷ l

unfoldable pub sort_recent : List Candidate → List Candidate
unfolding insert_recent
sort_recent [] = []
sort_recent (c ∷ l) = insert_recent c (sort_recent l)

pub record RecentFile : Type 0 where
  pub title : Text
  pub path : Text
  pub author : Text
  pub verification_state : VerificationState

abbrev pub result_of : Candidate → RecentFile
result_of c = record {
  title = c.title;
  path = c.path;
  author = c.author;
  verification_state = c.verification_state;
}

unfoldable pub recent_files : Text → (Text → Option ℕ) → Text → Sections → List RecentFile
unfolding limit_of
recent_files data_dir mtime limit nav =
    map result_of
      (take (limit_of limit) (sort_recent (walk_sections (candidate_of data_dir mtime) nav)))
