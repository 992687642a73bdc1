-- ===== src/Router/Content/Reported.antt =====
-- What `contentAPI` and `serve` of internal/router/serve.go report, and what they refuse.
use red_engine.Prelude.{
  ℕ, ◌≡◌, refl, ap, ◌≢◌, ◌⊎◌, inl, inr, Bool, true, false, none, some, [], ◌∷◌, ◌++◌, arith,
  if◌then◌else◌, Bool-cases, Option-cases,
}
use red_engine.Text.{
  Text, text, ◌==◌, has_suffix, eq_iff, has_prefix, trim_prefix, trim_suffix, split, split-ne-nil,
  trim_left, trim_byte,
}
use red_engine.Registry.{Registry}
use red_engine.Store.{Article, Sections, lookup}
use red_engine.Store.Nav.{slash, get, get_parts}
use red_engine.Router.Pages.{find_article, is_hidden, serve, not_found}
use red_engine.Router.Content.{
  ContentResponse, refused, panicked, content, path_parts, describe, content_at, content_api,
  red_knowledge,
}

-- The path with a slash before it.
abbrev pub rooted_path : Text → Text
rooted_path path = if has_prefix path slash then path else slash ++ path

-- The response says of the article what the store says of it. Its title is the article's, unless it
-- is the article of a folder and has none of its own.
abbrev pub IsReport : ContentResponse → Article → Type 0
IsReport resp art =
    (resp.verification_state ≡ art.verification_state)
    × (resp.author ≡ art.author)
    × (resp.hash ≡ art.hash)
    × ((resp.title ≡ art.title)
        ⊎ ((resp.is_directory ≡ true) × ((art.title ≡ red_knowledge) ⊎ (art.title ≡ []))))

describe-IsReport :
    (nav : Sections) (path : Text) (is_directory : Bool) (art : Article) (resp : ContentResponse)
    → describe nav path is_directory art ≡ content resp
    → (resp.is_directory ≡ is_directory) × IsReport resp art
unfolding describe
describe-IsReport nav path is_directory art resp h =
    ground (arith, eq_iff art.title red_knowledge, eq_iff art.title [])

-- The article that stands at the path, or at the path without its ending ".md" where none does.
abbrev pub IsAt : Sections → Text → Article → Type 0
IsAt nav path art =
    (get nav path ≡ some art)
    ⊎ ((get nav path ≡ none)
        × (has_suffix path (text ".md") ≡ true)
        × (get nav (trim_suffix path (text ".md")) ≡ some art))

find_article-IsAt :
    (nav : Sections) (path : Text) (art : Article)
    → find_article nav path ≡ some art
    → IsAt nav path art
unfolding find_article
find_article-IsAt nav path art h = elim (Option-cases (get nav path)) [
  | inr (a, e) ↦ inl (ground arith)
  | inl e ↦ inr (e, ground arith, ground arith)
]

-- The article that is shown for a path, and whether it is that of a folder: then nothing stands at
-- the path itself.
abbrev pub IsShown : Sections → Text → Bool → Article → Type 0
IsShown nav path false art = IsAt nav path art
IsShown nav path true art =
    (get nav path ≡ none) × (get nav (path ++ (slash ++ red_knowledge)) ≡ some art)

content_at-IsReport :
    (nav : Sections) (path : Text) (resp : ContentResponse)
    → content_at nav path ≡ content resp
    → (is_hidden path ≡ false)
      × ((art : Article) × IsShown nav path resp.is_directory art × IsReport resp art)
unfolding content_at
content_at-IsReport nav path resp h = elim (Bool-cases (is_hidden path)) [
  | inl hidden ↦ absurd (ground (arith, hidden))
  | inr shown ↦ elim (Option-cases (find_article nav path)) [
    | inr (art, e) ↦
        let (plain, report) =
          describe-IsReport nav path false art resp (ground (arith, shown, e)) in
        (shown, (art, rw plain (find_article-IsAt nav path art e), report))
    | inl e ↦ elim (Option-cases (get nav (path ++ (slash ++ red_knowledge)))) [
      | inr (art, there) ↦
          let (folder, report) =
            describe-IsReport nav path true art resp (ground (arith, shown, e, there)) in
          let free : get nav path ≡ none = unfold find_article in ground (arith, e) in
          (shown, (art, rw folder (free, there), report))
      | inl gone ↦ absurd (ground (arith, shown, e, gone))
    ]
  ]
]

-- Where the content API answers a path with content, the path, with a slash before it, has no hidden
-- part, and the answer tells the verification state, the author and the hash of the article that
-- stands there, without the ending ".md" if need be, or of the article of the folder there; and the
-- title, but for that of a folder whose article has none of its own.
pub content_api-IsReport :
    (nav : Sections) (path : Text) (resp : ContentResponse)
    → content_api nav path ≡ content resp
    → (path ≢ [])
      × (is_hidden (rooted_path path) ≡ false)
      × ((art : Article) × IsShown nav (rooted_path path) resp.is_directory art × IsReport resp art)
unfolding content_api
content_api-IsReport nav path resp h = elim (Bool-cases (path == [])) [
  | inl e ↦ absurd (ground (arith, e))
  | inr e ↦
      let (shown, found) = content_at-IsReport nav (rooted_path path) resp (ground (arith, e)) in
      (ground (arith, e, eq_iff path []), shown, found)
]

-- Nothing stands at the folder of the empty name, where it is not there.
get-root_default :
    (nav : Sections) → lookup [] nav ≡ none → get nav (slash ++ (slash ++ red_knowledge)) ≡ none
unfolding get get_parts split has_prefix trim_prefix
get-root_default nav h = rw h refl

segments-ne-nil : (path : Text) → path ≢ slash → path_parts path ≢ []
segments-ne-nil path n e =
    ground (arith, eq_iff path slash, split-ne-nil b'/' (trim_byte b'/' path))

describe-ne-panicked :
    (nav : Sections) (path : Text) (is_directory : Bool) (art : Article)
    → (is_directory ≡ true → path ≢ slash)
    → describe nav path is_directory art ≢ panicked
unfolding describe
describe-ne-panicked nav path is_directory art n h = elim (Bool-cases is_directory) [
  | inl e ↦
      elim (path_parts path) as (λ l. path_parts path ≡ l → ⊥) [
        | [] ↦ segments-ne-nil path (n e)
        | p ∷ ps ↦ λ k. ground arith
      ]
        refl
  | inr e ↦ ground arith
]

content_at-ne-panicked :
    (nav : Sections) (path : Text) → lookup [] nav ≡ none → content_at nav path ≢ panicked
unfolding content_at
content_at-ne-panicked nav path clear h = elim (Option-cases (find_article nav path)) [
  | inr (art, e) ↦ describe-ne-panicked nav path false art (λ k. absurd (cc k)) (ground arith)
  | inl e ↦ elim (Option-cases (get nav (path ++ (slash ++ red_knowledge)))) [
    | inr (art, there) ↦
        describe-ne-panicked nav path true art
          (λ _ k. cc (
            there,
            get-root_default nav clear,
            ap (λ p. get nav (p ++ (slash ++ red_knowledge))) k,
          ))
          (ground arith)
    | inl gone ↦ ground arith
  ]
]

-- The content API never reads past the end of its path's parts, where no top-level section has the
-- empty name.
pub content_api-ne-panicked :
    (nav : Sections) (path : Text) → lookup [] nav ≡ none → content_api nav path ≢ panicked
unfolding content_api
content_api-ne-panicked nav path clear h =
    content_at-ne-panicked nav (if has_prefix path slash then path else slash ++ path) clear
      (ground arith)

trim-slash : (s : Text) → trim_byte b'/' (slash ++ s) ≡ trim_byte b'/' s
unfolding trim_byte trim_left
trim-slash s = refl

is_hidden-slash : (path : Text) → is_hidden (slash ++ path) ≡ is_hidden path
unfolding is_hidden
is_hidden-slash path = rw trim-slash refl

root_shown : is_hidden slash ≡ false
unfolding is_hidden trim_byte trim_left split has_prefix
root_shown = refl

empty_shown : is_hidden [] ≡ false
unfolding is_hidden trim_byte trim_left split has_prefix
empty_shown = refl

-- A path with a part that begins with a dot is refused by the pages and by the content API alike,
-- whatever the store holds.
pub hidden-refused :
    (nav : Sections) (registry : Registry) (switch_depth : ℕ) (path : Text)
    → is_hidden path ≡ true
    → (serve nav registry switch_depth path ≡ not_found) × (content_api nav path ≡ refused 404)
unfolding serve content_api content_at
hidden-refused nav registry switch_depth path h =
    ground (arith, root_shown, empty_shown, is_hidden-slash path, eq_iff path slash, eq_iff path [])
