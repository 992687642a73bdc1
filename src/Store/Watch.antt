-- ===== src/Store/Watch.antt =====
-- `Watch`, `BeginRemoteSync`, `EndRemoteSync` and `ShouldIgnoreLocalEvents` of
-- internal/store/store.go: which events of the file watcher reach the tree. The watcher itself, which
-- polls the disk, is not modelled; an event comes with the time and the disk that it is handled at.
pub mod Window
use red_engine.Prelude.{
  ℕ, ◌-◌, ◌*◌, Bool, true, false, ◌&&◌, ◌||◌, List, [], ◌∷◌, ltb, if◌then◌else◌,
}
use red_engine.Text.{Text}
use red_engine.Store.{Sections}
use red_engine.Store.Update.{World, update_files}

pub record Watched : Type 0 where
  pub nav : Sections
  -- remoteSyncActive, and remoteSyncEnd in nanoseconds: 0 where no sync ended yet
  pub remote_sync_active : Bool
  pub remote_sync_end : ℕ

-- 4 * time.Second
abbrev pub window : ℕ
window = 4 * 1_000_000_000

-- Where the clock went back the time since the end is negative, here 0.
unfoldable pub should_ignore_local_events : ℕ → Watched → Bool
should_ignore_local_events now s =
    s.remote_sync_active || (ltb 0 s.remote_sync_end && ltb (now - s.remote_sync_end) window)

abbrev pub begin_remote_sync : Watched → Watched
begin_remote_sync s = record s { remote_sync_active = true }

abbrev pub end_remote_sync : ℕ → Watched → Watched
end_remote_sync now s = record s { remote_sync_end = now; remote_sync_active = false }

-- An event of the watcher: the time, the disk and the path.
pub record FileEvent : Type 0 where
  pub now : ℕ
  pub world : World
  pub path : Text

-- `UpdateFiles` returns no error, so that the reload behind it is never reached.
unfoldable pub handle_event : FileEvent → Watched → Watched
unfolding should_ignore_local_events
handle_event e s =
    if should_ignore_local_events e.now s
    then s
    else record s { nav = update_files e.world s.nav (e.path ∷ []) }

unfoldable pub handle_events : List FileEvent → Watched → Watched
unfolding handle_event
handle_events [] s = s
handle_events (e ∷ es) s = handle_events es (handle_event e s)

pub data Step : Type 0 where
  begin : Step
  finish : ℕ → Step
  file_event : FileEvent → Step

abbrev pub step : Step → Watched → Watched
step begin s = begin_remote_sync s
step (finish now) s = end_remote_sync now s
step (file_event e) s = handle_event e s

unfoldable pub run : List Step → Watched → Watched
unfolding handle_event
run [] s = s
run (x ∷ xs) s = run xs (step x s)
