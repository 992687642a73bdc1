-- ===== src/Start/Periodic.antt =====
-- One round of `periodicSync` of cmd/red/main.go, where no startup sync is a git repository.
use red_engine.Prelude.{
  ℕ, ◌≡◌, refl, ◌∙◌, ◌<◌, ◌≤◌, ◌+◌, false, Option, none, some, List, [], ◌∷◌, ◌++◌, arith, All,
  append-nil, ap, Option-cases, inl, inr,
}
use red_engine.Text.{Text, text, ◌==◌}
use red_engine.Registry.{Db, SyncRow, Registry}
use red_engine.Registry.Sync.{detect_sync_type, list_startup_sync, by_time}
use red_engine.Store.Update.{World}
use red_engine.Store.Watch.{
  Watched, FileEvent, window, should_ignore_local_events, handle_event, handle_events,
}
use red_engine.Start.{
  PullResult, listed, mark_pulled, changed, pull_error, pull_delta, dest_dir, round_rows,
  refresh_changed, periodic_round,
}

abbrev pub IsNoGit : SyncRow → Type 0
IsNoGit row = (detect_sync_type row.url == text "git") ≡ false

-- An event in the window behind a remote sync that ended at `now`.
abbrev pub IsSoon : ℕ → FileEvent → Type 0
IsSoon now e = (now ≤ e.now) × (e.now < now + window)

module _ (pull : Text → Text → Text → World → Option Text × World)
    (pull_git : Text → Text → World → PullResult × World) where
  -- What `Pull` returns, where it is no repository.
  pull_delta-no_git :
      (url dir : Text) (w : World)
      → (detect_sync_type url == text "git") ≡ false
      → pull_delta pull pull_git url (detect_sync_type url) dir w ≡ (
        elim (pull url (detect_sync_type url) dir w).0 [
          | none ↦ changed []
          | some e ↦ pull_error e
        ],
        (pull url (detect_sync_type url) dir w).1,
      )
  unfolding pull_delta
  pull_delta-no_git url dir w h = rw h refl

  round_rows-no_git :
      (data_dir : Text) (rows : List SyncRow) (now : ℕ) (files : List Text) (w : World)
      (registry : Registry)
      → All IsNoGit rows
      → (round_rows pull pull_git data_dir rows now files w registry).0 ≡ files
  unfolding round_rows
  round_rows-no_git data_dir [] now files w registry h = refl
  round_rows-no_git data_dir (row ∷ rows) now files w registry (n, h) =
      let pulled = pull row.url (detect_sync_type row.url) (dest_dir data_dir row.filename) w in
      let world =
        (pull_delta pull pull_git row.url (detect_sync_type row.url)
          (dest_dir data_dir row.filename) w).1 in
      let delta = pull_delta-no_git row.url (dest_dir data_dir row.filename) w n in
      elim (Option-cases pulled.0) [
        | inl e ↦
            rw (round_rows, delta, e)
              (round_rows-no_git data_dir rows now (files ++ []) world
                  (mark_pulled row.filename none now registry) h
                ∙ append-nil files)
        | inr (msg, e) ↦
            rw (round_rows, delta, e)
              (round_rows-no_git data_dir rows now files world
                (mark_pulled row.filename (some msg) now registry) h)
      ]

ignored :
    (now : ℕ) (s : Watched) (es : List FileEvent)
    → 0 < now
    → s.remote_sync_end ≡ now
    → All (IsSoon now) es
    → handle_events es s ≡ s
unfolding handle_events handle_event should_ignore_local_events
ignored now s [] p e h = refl
ignored now s (x ∷ es) p e (soon, h) =
    let dropped : handle_event x s ≡ s = ground arith in
    rw (handle_events, dropped) (ignored now s es p e h)

-- In an open registry whose startup syncs are no git repositories, let a round of the periodic sync
-- end at a time after 0. Whatever is downloaded, the articles of the store stay as they were, and so
-- they do whatever events the watcher reports in the four seconds behind it.
pub periodic_round-stale :
    (pull : Text → Text → Text → World → Option Text × World)
    (pull_git : Text → Text → World → PullResult × World) (data_dir : Text) (now : ℕ) (s : Watched)
    (w : World) (db : Db) (es : List FileEvent)
    → 0 < now
    → All IsNoGit (listed (some db))
    → All (IsSoon now) es
    → (handle_events es (periodic_round pull pull_git data_dir now s w (some db)).0).nav ≡ s.nav
unfolding periodic_round list_startup_sync
periodic_round-stale pull pull_git data_dir now s w db es p no_git soon =
    let s' = (periodic_round pull pull_git data_dir now s w (some db)).0 in
    let same =
      round_rows-no_git pull pull_git data_dir (by_time db.startup_sync) now [] w (some db)
        no_git in
    ap (λ (x : Watched). x.nav) (ignored now s' es p refl soon)
    ∙ ap
        (λ l.
          (refresh_changed
            (round_rows pull pull_git data_dir (by_time db.startup_sync) now [] w (some db)).1 l
            s.nav))
        same
