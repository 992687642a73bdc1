-- ===== src/Router/Webhook.antt =====
-- `normalizeURL`, `verifySignature` and `webhookSync` of internal/router/webhook.go. HMAC-SHA256, the
-- JSON decoder and `fetch.PullDelta` are parameters.
pub mod Started
use mathlib.Core.List.{reverse}
use red_engine.Prelude.{
  ℕ, Bool, true, false, ◌&&◌, ◌||◌, Option, none, some, List, [], ◌∷◌, ◌++◌, leb, eqb,
  if◌then◌else◌,
}
use red_engine.Text.{Text, text, ◌==◌, has_prefix, trim_suffix, to_lower}
use red_engine.Go.Hex.{encode}
use red_engine.Go.FilePath.{clean, base, join_path}
use red_engine.Registry.{SyncRow, Registry, ok, err}
use red_engine.Registry.Sync.{detect_sync_type, list_startup_sync}
use red_engine.Store.{Sections}
use red_engine.Store.Update.{World, reload, update_files}

abbrev is_space : ℕ → Bool
is_space c = eqb c b' ' || leb 9 c && leb c 13

unfoldable pub trim_left_space : Text → Text
trim_left_space [] = []
trim_left_space (c ∷ s) = let rest = trim_left_space s in if is_space c then rest else c ∷ s

-- strings.TrimSpace of ASCII spaces
unfoldable pub trim_space : Text → Text
unfolding trim_left_space
trim_space s = reverse (trim_left_space (reverse (trim_left_space s)))

unfoldable pub normalize_url : Text → Text
unfolding trim_space
normalize_url u = trim_suffix (trim_suffix (to_lower (trim_space u)) (text "/")) (text ".git")

-- The repository of a payload.
pub record Repository : Type 0 where
  pub html_url : Text
  pub clone_url : Text

pub record WebhookRequest : Type 0 where
  pub is_post : Bool
  -- none where it cannot be read
  pub body : Option Text
  -- X-Hub-Signature-256
  pub signature : Text

pub data Answer : Type 0 where
  -- a status other than 200
  rejected : ℕ → Answer
  ignored : Answer
  -- a sync in the background, for the normalized URL
  started : Text → Answer

module _ (hmac : Text → Text → Text) (parse : Text → Option Repository) where
  unfoldable pub verify_signature : Text → Text → Text → Bool
  verify_signature secret payload header =
      has_prefix header (text "sha256=")
      && header == (text "sha256=" ++ encode (hmac secret payload))

  -- The clone URL, or the page's where there is none.
  unfoldable pub answer_payload : Text → Answer
  answer_payload body = elim (parse body) [
    | none ↦ rejected 400
    | some repository ↦
        let url =
          if repository.clone_url == [] then repository.html_url else repository.clone_url in
        if url == [] then ignored else started (normalize_url url)
  ]

  unfoldable pub webhook_sync : Text → WebhookRequest → Answer
  unfolding answer_payload
  webhook_sync secret req =
      if req.is_post
      then elim req.body [
        | none ↦ rejected 400
        | some body ↦
            if secret == []
            then rejected 403
            else if verify_signature secret body req.signature
            then answer_payload body
            else rejected 401
      ]
      else rejected 405

-- What `fetch.PullDelta` returns: an error, nil, or the files that changed.
pub data Pulled : Type 0 where
  failed everything : Pulled
  changed : List Text → Pulled

-- filepath.Join(dataDir, filepath.Base(filepath.Clean(filename)))
abbrev pub sync_dir : Text → Text → Text
sync_dir data_dir filename = join_path data_dir (base (clean filename))

-- The store after the files that a pull gave.
abbrev pub refresh : World → Sections → Pulled → Sections
refresh w nav failed = nav
refresh w nav everything = reload w
refresh w nav (changed []) = nav
refresh w nav (changed (f ∷ fs)) = update_files w nav (f ∷ fs)

abbrev pub is_tracked : Text → SyncRow → Bool
is_tracked incoming row = has_prefix (normalize_url row.url) incoming

-- The job in the background: each sync whose URL begins with the incoming one is pulled, and the
-- store is brought up to date. `pull` is given the URL, its type and the directory.
module _ (pull : Text → Text → Text → World → Pulled × World) where
  unfoldable pub sync_rows : Text → List SyncRow → World × Sections → World × Sections
  sync_rows incoming [] state = state
  sync_rows incoming (row ∷ rows) (w, nav) =
      if is_tracked incoming row
      then (let dir = sync_dir w.platform.data_dir row.filename in
          let (pulled, w') = pull row.url (detect_sync_type row.url) dir w in
          sync_rows incoming rows (w', refresh w' nav pulled))
      else sync_rows incoming rows (w, nav)

  unfoldable pub sync_tracked : Text → Registry → World × Sections → World × Sections
  unfolding sync_rows
  sync_tracked incoming registry state = elim (list_startup_sync registry) [
    | err e ↦ state
    | ok rows ↦ sync_rows incoming rows state
  ]
