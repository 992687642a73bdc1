-- ===== src/Router/Webhook/Started.antt =====
-- When `webhookSync` of internal/router/webhook.go starts a sync, and what the sync leaves alone.
use red_engine.Prelude.{
  ◌≡◌, refl, ◌≢◌, ◌↔◌, inl, inr, Bool, true, false, ◌||◌, Option, some, List, [], ◌∷◌, ◌++◌, arith,
  if◌then◌else◌, Option-cases, any,
}
use red_engine.Text.{Text, text, ◌==◌, eq_iff, has_prefix-append}
use red_engine.Go.Hex.{encode}
use red_engine.Registry.{SyncRow, Db}
use red_engine.Registry.Sync.{insert_by_time, by_time, list_startup_sync}
use red_engine.Store.{Sections}
use red_engine.Store.Update.{World}
use red_engine.Router.Webhook.{
  normalize_url, Repository, WebhookRequest, started, verify_signature, answer_payload,
  webhook_sync, Pulled, is_tracked, sync_rows, sync_tracked,
}

-- The URL that a payload is about.
abbrev pub url_of : Repository → Text
url_of repository = if repository.clone_url == [] then repository.html_url else repository.clone_url

module _ (hmac : Text → Text → Text) (parse : Text → Option Repository) (secret : Text)
    (req : WebhookRequest) (incoming : Text) where
  -- A sync is started exactly by a POST whose body is signed with the configured secret, which is
  -- not empty, and names a repository with a URL; it is started for that URL, normalized.
  pub webhook_sync-started_iff : (webhook_sync hmac parse secret req ≡ started incoming) ↔ (
      (body : Text) × (repository : Repository) × ((req.is_post ≡ true)
        × (req.body ≡ some body)
        × (secret ≢ [])
        × (req.signature ≡ text "sha256=" ++ encode (hmac secret body))
        × (parse body ≡ some repository)
        × (url_of repository ≢ [])
        × (incoming ≡ normalize_url (url_of repository))))
  unfolding webhook_sync verify_signature answer_payload
  webhook_sync-started_iff = (
    λ h. elim (Option-cases req.body) [
      | inl e ↦ ground arith
      | inr (body, e) ↦ elim (Option-cases (parse body)) [
        | inl e' ↦ ground arith
        | inr (repository, e') ↦ (
          body,
          repository,
          ground (
            arith,
            eq_iff secret [],
            eq_iff (url_of repository) [],
            eq_iff req.signature (text "sha256=" ++ encode (hmac secret body)),
          ),
        )
      ]
    ],
    λ (body, repository, (post, read, filled, signed, parsed, named, same)). ground (
      arith,
      eq_iff secret [],
      eq_iff (url_of repository) [],
      eq_iff req.signature (text "sha256=" ++ encode (hmac secret body)),
      has_prefix-append (text "sha256=") (encode (hmac secret body)),
    ),
  )

module _ (pull : Text → Text → Text → World → Pulled × World) (incoming : Text) where
  sync_rows-untracked :
      (rows : List SyncRow) (state : World × Sections)
      → any (is_tracked incoming) rows ≡ false
      → sync_rows pull incoming rows state ≡ state
  unfolding sync_rows
  sync_rows-untracked [] state h = refl
  sync_rows-untracked (row ∷ rows) (w, nav) h = ground (arith, sync_rows-untracked rows (w, nav))

  any-insert_by_time :
      (p : SyncRow → Bool) (r : SyncRow) (rows : List SyncRow)
      → any p (insert_by_time r rows) ≡ (p r || any p rows)
  unfolding insert_by_time
  any-insert_by_time p r [] = refl
  any-insert_by_time p r (o ∷ rows) = ground (arith, any-insert_by_time p r rows)

  any-by_time : (p : SyncRow → Bool) (rows : List SyncRow) → any p (by_time rows) ≡ any p rows
  unfolding by_time
  any-by_time p [] = refl
  any-by_time p (r ∷ rows) =
      ground (arith, any-by_time p rows, any-insert_by_time p r (by_time rows))

  -- A webhook for a URL that begins no tracked URL of an open registry pulls nothing: the disk and
  -- the store stay as they are.
  pub sync_tracked-untracked :
      (db : Db) (state : World × Sections)
      → any (is_tracked incoming) db.startup_sync ≡ false
      → sync_tracked pull incoming (some db) state ≡ state
  unfolding sync_tracked list_startup_sync
  sync_tracked-untracked db state h = ground (
    arith,
    any-by_time (is_tracked incoming) db.startup_sync,
    sync_rows-untracked (by_time db.startup_sync) state,
  )
