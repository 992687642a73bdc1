-- ===== src/Registry/Peers/Listing.antt =====
-- `ListPeers`, `ListPeersByType` and `ListAllExportedPaths` of internal/registry/registry.go.
use red_engine.Prelude.{
  ◌≤◌, ◌≡◌, refl, ap, ◌∙◌, inl, inr, Bool, ◌&&◌, List, [], ◌∷◌, map, arith, if◌then◌else◌, keep,
  leb, any, length, some, Bool-cases,
}
use red_engine.Text.{Text, ◌==◌, sort}
use red_engine.Registry.{PeerRow, Db, Registry, Result, ok, query, is_one_of}
use red_engine.Registry.Peers.{paths_of}

-- ORDER BY added_at DESC
unfoldable pub insert_newest : PeerRow → List PeerRow → List PeerRow
insert_newest r [] = r ∷ []
insert_newest r (o ∷ rows) =
    if leb o.added_at r.added_at then r ∷ o ∷ rows else o ∷ insert_newest r rows

unfoldable pub newest_first : List PeerRow → List PeerRow
unfolding insert_newest
newest_first [] = []
newest_first (r ∷ rows) = insert_newest r (newest_first rows)

abbrev pub with_paths : Db → PeerRow → PeerRow × List Text
with_paths db r = (r, paths_of r.id db)

unfoldable pub list_peers : Registry → Result (List (PeerRow × List Text))
list_peers = query λ db. ok (map (with_paths db) (newest_first db.peers))

unfoldable pub list_peers_by_type : List Text → Registry → Result (List (PeerRow × List Text))
list_peers_by_type types =
    query λ db.
      ok (map (with_paths db) (newest_first (keep (λ r. is_one_of types r.peer_type) db.peers)))

-- SELECT DISTINCT: a path that stands behind is dropped.
unfoldable pub distinct : List Text → List Text
distinct [] = []
distinct (p ∷ ps) = let rest = distinct ps in if any (λ q. q == p) ps then rest else p ∷ rest

unfoldable pub list_all_exported_paths : Registry → Result (List Text)
list_all_exported_paths = query λ db. ok (sort (distinct (map (λ x. x.path) db.exported_paths)))

-- No peer is older than one behind it.
abbrev pub IsNewestFirst : List PeerRow → Type 0
IsNewestFirst [] = Unit
IsNewestFirst (r ∷ []) = Unit
IsNewestFirst (r ∷ o ∷ rows) = (o.added_at ≤ r.added_at) × IsNewestFirst (o ∷ rows)

insert_newest-IsNewestFirst :
    (r : PeerRow) (rows : List PeerRow) → IsNewestFirst rows → IsNewestFirst (insert_newest r rows)
unfolding insert_newest
insert_newest-IsNewestFirst r [] h = tt
insert_newest-IsNewestFirst r (o ∷ []) h = elim (Bool-cases (leb o.added_at r.added_at)) [
  | inl e ↦ rw e (ground arith, tt)
  | inr e ↦ rw e (ground arith, tt)
]
insert_newest-IsNewestFirst r (o ∷ o' ∷ rows) (k, h) =
    let ih = insert_newest-IsNewestFirst r (o' ∷ rows) h in
    elim (Bool-cases (leb o.added_at r.added_at)) [
      | inl e ↦ rw e (ground arith, (k, h))
      | inr e ↦ rw e (elim (Bool-cases (leb o'.added_at r.added_at)) [
        | inl e' ↦ rw e' (ground arith, (ground arith, h))
        | inr e' ↦ rw e' (k, rw (insert_newest, e') at ih)
      ])
    ]

newest_first-IsNewestFirst : (rows : List PeerRow) → IsNewestFirst (newest_first rows)
unfolding newest_first
newest_first-IsNewestFirst [] = tt
newest_first-IsNewestFirst (r ∷ rows) =
    insert_newest-IsNewestFirst r (newest_first rows) (newest_first-IsNewestFirst rows)

count-insert_newest :
    (p : PeerRow → Bool) (r : PeerRow) (rows : List PeerRow)
    → length (keep p (insert_newest r rows)) ≡ length (keep p (r ∷ rows))
unfolding insert_newest
count-insert_newest p r [] = refl
count-insert_newest p r (o ∷ rows) = ground (arith, count-insert_newest p r rows)

count-newest_first :
    (p : PeerRow → Bool) (rows : List PeerRow)
    → length (keep p (newest_first rows)) ≡ length (keep p rows)
unfolding newest_first
count-newest_first p [] = refl
count-newest_first p (r ∷ rows) =
    ground (arith, count-newest_first p rows, count-insert_newest p r (newest_first rows))

keep-keep_and :
    (p q : PeerRow → Bool) (rows : List PeerRow)
    → keep p (keep q rows) ≡ keep (λ r. q r && p r) rows
keep-keep_and p q [] = refl
keep-keep_and p q (r ∷ rows) = ground (arith, keep-keep_and p q rows)

-- The peers of some types are listed with their exported paths and newest first, and those that
-- pass any test are listed as often as the table holds peers of these types that pass it.
pub list_peers_by_type-IsNewestFirst :
    (types : List Text) (db : Db)
    → (listed : List PeerRow) × (list_peers_by_type types (some db)
        ≡ ok (map (with_paths db) listed))
      × IsNewestFirst listed
      × ((p : PeerRow → Bool)
          → length (keep p listed)
            ≡ length (keep (λ r. is_one_of types r.peer_type && p r) db.peers))
unfolding list_peers_by_type
list_peers_by_type-IsNewestFirst types db =
    let rows = keep (λ r. is_one_of types r.peer_type) db.peers in
    (
      newest_first rows,
      refl,
      newest_first-IsNewestFirst rows,
      λ p.
          count-newest_first p rows
          ∙ ap length (keep-keep_and p (λ r. is_one_of types r.peer_type) db.peers),
    )
