-- ===== src/Registry/Migrate/Copied.antt =====
-- The copies of `migratePeersToV2` and `migrateStartupSyncToV2` of internal/registry/registry.go on
-- rows that no constraint of the second schema refuses.
use red_engine.Prelude.{
  ℕ, suc, ◌≤◌, ◌<◌, ◌≡◌, refl, sym, subst, ◌≢◌, ◌∙◌, ◌⊎◌, inl, inr, true, false, any, eqb, List, [],
  ◌∷◌, ◌++◌, map, arith, All, All-map, Pairwise, Pairwise-middle, Pairwise-map, append_one-append,
  append-nil, ap, Bool-cases, ltb, if◌then◌else◌,
}
use red_engine.Text.{Text, text, ◌==◌, eq_iff, to_lower, has_suffix}
use red_engine.Registry.{PeerRow, SyncRow, is_one_of, sync_types}
use red_engine.Registry.Peers.{checks}
use red_engine.Registry.Peers.Valid.{OtherId, OtherKey, IsFree, IsFree-iff, OtherKey-symm}
use red_engine.Registry.Peers.Upsert.{normalized, no_tunnel}
use red_engine.Registry.Sync.{detect_sync_type, has_filename}
use red_engine.Registry.Migrate.{
  OldPeer, OldSync, done, migrated_peer, migrated_sync, is_insertable, is_insertable_sync,
  copy_peers, copy_syncs, next_behind,
}

pub checks-migrated_peer : (o : OldPeer) → checks (migrated_peer o) ≡ true
unfolding migrated_peer
checks-migrated_peer o = ground (arith, normalized o.peer_type, no_tunnel)

id_is_free :
    (r : PeerRow) (rows : List PeerRow)
    → All (λ o. OtherId o r) rows
    → any (λ o. eqb o.id r.id) rows ≡ false
id_is_free r [] h = refl
id_is_free r (o ∷ rows) (n, h) = ground (arith, id_is_free r rows h)

is_insertable-fresh :
    (r : PeerRow) (rows : List PeerRow)
    → checks r ≡ true
    → All (λ o. OtherId o r) rows
    → All (λ o. OtherKey o r) rows
    → is_insertable r rows ≡ true
is_insertable-fresh r rows c ids keys =
    let free = (IsFree-iff r rows).1 (
      unfold IsFree in
      All-map (λ o. OtherKey o r) (λ o. (o.id ≡ r.id) ⊎ OtherKey r o) rows
        (λ o k. inr (OtherKey-symm o r k)) keys) in
    ground (arith, id_is_free r rows ids, free)

pub copy_peers-all :
    (olds : List OldPeer) (rows : List PeerRow)
    → Pairwise OtherId (rows ++ map migrated_peer olds)
    → Pairwise OtherKey (rows ++ map migrated_peer olds)
    → copy_peers olds rows ≡ done (rows ++ map migrated_peer olds)
unfolding copy_peers
copy_peers-all [] rows ids keys = ap done (sym (append-nil rows))
copy_peers-all (o ∷ olds) rows ids keys =
    let r = migrated_peer o in
    let rest = map migrated_peer olds in
    let same = append_one-append rows r rest in
    let fits =
      is_insertable-fresh r rows (checks-migrated_peer o) (Pairwise-middle OtherId rows r rest ids)
        (Pairwise-middle OtherKey rows r rest keys) in
    let copied =
      copy_peers-all olds (rows ++ r ∷ []) (subst (Pairwise OtherId) (sym same) ids)
        (subst (Pairwise OtherKey) (sym same) keys) in
    rw fits (copied ∙ ap done same)

-- Neither the id nor the file name is another row's.
abbrev pub OtherSync : SyncRow → SyncRow → Type 0
OtherSync a b = (a.id ≢ b.id) × (a.filename ≢ b.filename)

-- Of the first schema: another id and, where there is one, another key.
abbrev pub OtherOld : OldPeer → OldPeer → Type 0
OtherOld a b = (a.id ≢ b.id) × ((a.public_key ≡ []) ⊎ (a.public_key ≢ b.public_key))

pub OtherId-migrated_peer :
    (olds : List OldPeer) → Pairwise OtherOld olds → Pairwise OtherId (map migrated_peer olds)
unfolding migrated_peer
OtherId-migrated_peer olds h = Pairwise-map OtherOld OtherId migrated_peer olds (λ a b o. o.0) h

OtherKey-of_OtherOld : (a b : OldPeer) → OtherOld a b → OtherKey (migrated_peer a) (migrated_peer b)
unfolding migrated_peer
OtherKey-of_OtherOld a b h = ground (arith, eq_iff a.public_key [], eq_iff b.public_key [])

pub OtherKey-migrated_peer :
    (olds : List OldPeer) → Pairwise OtherOld olds → Pairwise OtherKey (map migrated_peer olds)
OtherKey-migrated_peer olds h =
    Pairwise-map OtherOld OtherKey migrated_peer olds OtherKey-of_OtherOld h

abbrev pub OtherOldSync : OldSync → OldSync → Type 0
OtherOldSync a b = (a.id ≢ b.id) × (a.filename ≢ b.filename)

pub OtherSync-migrated_sync :
    (olds : List OldSync) → Pairwise OtherOldSync olds → Pairwise OtherSync (map migrated_sync olds)
OtherSync-migrated_sync olds h =
    Pairwise-map OtherOldSync OtherSync migrated_sync olds (λ a b o. o) h

detected : (url : Text) → is_one_of sync_types (detect_sync_type url) ≡ true
unfolding detect_sync_type is_one_of ◌==◌
detected url =
    let lower = to_lower url in
    elim (Bool-cases (has_suffix lower (text ".git"))) [
      | inl e ↦ rw e refl
      | inr e ↦ elim (Bool-cases (has_suffix lower (text ".tar.gz"))) [
        | inl f ↦ rw (e, f) refl
        | inr f ↦ elim (Bool-cases (has_suffix lower (text ".zip"))) [
          | inl g ↦ rw (e, f, g) refl
          | inr g ↦ rw (e, f, g) refl
        ]
      ]
    ]

sync_is_free :
    (r : SyncRow) (rows : List SyncRow)
    → All (λ o. OtherSync o r) rows
    → (any (λ o. eqb o.id r.id) rows ≡ false) × (any (has_filename r.filename) rows ≡ false)
sync_is_free r [] h = (refl, refl)
sync_is_free r (o ∷ rows) (n, h) =
    ground (arith, sync_is_free r rows h, eq_iff o.filename r.filename)

pub copy_syncs-all :
    (olds : List OldSync) (rows : List SyncRow)
    → Pairwise OtherSync (rows ++ map migrated_sync olds)
    → copy_syncs olds rows ≡ done (rows ++ map migrated_sync olds)
unfolding copy_syncs
copy_syncs-all [] rows h = ap done (sym (append-nil rows))
copy_syncs-all (o ∷ olds) rows h =
    let r = migrated_sync o in
    let rest = map migrated_sync olds in
    let same = append_one-append rows r rest in
    let free = sync_is_free r rows (Pairwise-middle OtherSync rows r rest h) in
    let fits : is_insertable_sync r rows ≡ true = ground (arith, free, detected o.url) in
    let copied = copy_syncs-all olds (rows ++ r ∷ []) (subst (Pairwise OtherSync) (sym same) h) in
    rw fits (copied ∙ ap done same)

next_behind-ge : (n : ℕ) (rows : List PeerRow) → n ≤ next_behind n rows
unfolding next_behind
next_behind-ge n [] = omega arith
next_behind-ge n (r ∷ rows) = ground (arith, next_behind-ge n rows, next_behind-ge (suc r.id) rows)

pub next_behind-above : (n : ℕ) (rows : List PeerRow) → All (λ r. r.id < next_behind n rows) rows
unfolding next_behind
next_behind-above n [] = tt
next_behind-above n (r ∷ rows) =
    let m = if ltb r.id n then n else suc r.id in
    (
      ground (arith, next_behind-ge n rows, next_behind-ge (suc r.id) rows),
      next_behind-above m rows,
    )
