-- ===== src/Store/Watch/Window.antt =====
-- The window of a remote sync of internal/store/store.go, in which local events are ignored.
use red_engine.Prelude.{ℕ, ◌+◌, ◌<◌, ◌≡◌, refl, ap, ◌∙◌, true, List, [], ◌∷◌, ◌++◌, map, arith, All}
use red_engine.Store.Watch.{
  Watched, window, should_ignore_local_events, begin_remote_sync, end_remote_sync, FileEvent,
  handle_event, Step, begin, finish, file_event, step, run,
}

run-append : (xs ys : List Step) (s : Watched) → run (xs ++ ys) s ≡ run ys (run xs s)
unfolding run
run-append [] ys s = refl
run-append (x ∷ xs) ys s = run-append xs ys (step x s)

handle_event_ignored :
    (e : FileEvent) (s : Watched) → should_ignore_local_events e.now s ≡ true → handle_event e s ≡ s
unfolding handle_event
handle_event_ignored e s h = ground arith

run-active :
    (es : List FileEvent) (s : Watched)
    → s.remote_sync_active ≡ true
    → run (map file_event es) s ≡ s
unfolding run should_ignore_local_events
run-active [] s h = refl
run-active (e ∷ es) s h =
    ap (run (map file_event es)) (handle_event_ignored e s (ground arith)) ∙ run-active es s h

run-ended :
    (es : List FileEvent) (s : Watched)
    → 0 < s.remote_sync_end
    → All (λ e. e.now < s.remote_sync_end + window) es
    → run (map file_event es) s ≡ s
unfolding run should_ignore_local_events
run-ended [] s h k = refl
run-ended (e ∷ es) s h (k, ks) =
    ap (run (map file_event es)) (handle_event_ignored e s (ground arith)) ∙ run-ended es s h ks

-- From the start of a remote sync, with no other sync beginning or ending, until four seconds
-- after its end no event of the watcher changes the tree.
pub run-ignored :
    (during after : List FileEvent) (now : ℕ) (s : Watched)
    → 0 < now
    → All (λ e. e.now < now + window) after
    → (run (begin ∷ (map file_event during ++ finish now ∷ map file_event after)) s).nav ≡ s.nav
unfolding run
run-ignored during after now s h k =
    let s' = begin_remote_sync s in
    rw
      (
        run-append (map file_event during) (finish now ∷ map file_event after) s',
        run-active during s' refl,
        run-ended after (end_remote_sync now s') h k,
      )
      refl
