-- ===== src/Router/Admin.antt =====
-- `adminOnly`, and the routes behind it and beside it, of internal/router/router.go; `source` and
-- `download` of internal/router/raw.go.
mod Tests
pub mod Guarded
use red_engine.Prelude.{
  ℕ, Bool, true, false, ◌||◌, Option, none, some, List, [], ◌∷◌, ◌++◌, if◌then◌else◌,
}
use red_engine.Text.{Text, text, ◌==◌, trim_prefix}
use red_engine.Store.{Article, Sections}
use red_engine.Store.Nav.{get, split_path}
use red_engine.Store.Verify.{last_part}

-- The token of the configuration and that of the request's header; SHA-256 is an argument. Two
-- digests compare equal where their bytes are.
unfoldable pub admin_only {ℓ} : {A : Type ℓ} → (Text → Text) → Text → Text → A → A → A
unfolding ◌==◌
admin_only sha256 admin_token token unauthorized next =
    if token == [] || admin_token == []
    then unauthorized
    else if sha256 token == sha256 admin_token
    then next
    else unauthorized

-- The body that `source` writes, none for a 404.
unfoldable pub source : Sections → Text → Option Text
source nav url_path = elim (get nav (trim_prefix url_path (text "/-/source"))) [
  | none ↦ none
  | some art ↦ some art.body
]

-- The file name and the content of `download`.
unfoldable pub download : Sections → Text → Option (Text × Text)
download nav url_path =
    let target_path = trim_prefix url_path (text "/-/download") in
    elim (get nav target_path) [
      | none ↦ none
      | some art ↦
          some (last_part (split_path (trim_prefix target_path (text "/"))) ++ text ".md", art.raw)
    ]

-- `reload`: the status, and whether the store was reloaded; its result is an argument.
unfoldable pub reload : Text → Bool → ℕ × Bool
unfolding ◌==◌
reload method succeeds =
    if method == text "POST" then (if succeeds then 204 else 500, true) else (405, false)
