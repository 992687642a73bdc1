-- ===== src/Router/Peers/Public.antt =====
-- `publicPeers` of internal/router/admin_peers.go lists the addresses of the peers that have one.
use mathlib.Core.List.{Perm}
use mathlib.Core.List.Perm
use red_engine.Prelude.{
  ◌≡◌, ◌≢◌, refl, ap, inl, inr, some, List, [], ◌∷◌, map, arith, if◌then◌else◌, All, leb,
  Bool-cases,
}
use red_engine.Text.{Text, ◌==◌, eq_iff}
use red_engine.Registry.{PeerRow, Db}
use red_engine.Registry.Peers.Listing.{insert_newest, newest_first, with_paths, list_peers}
use red_engine.Router.Peers.{PeerItem, address, items_of, public_peers}

-- The addresses that are not empty.
unfoldable pub addresses : List PeerRow → List Text
addresses [] = []
addresses (r ∷ rows) = if address r == [] then addresses rows else address r ∷ addresses rows

addresses-swap :
    (r o : PeerRow) (rows : List PeerRow)
    → Perm (addresses (o ∷ r ∷ rows)) (addresses (r ∷ o ∷ rows))
unfolding addresses
addresses-swap r o rows = elim (Bool-cases (address r == [])) [
  | inl e ↦ elim (Bool-cases (address o == [])) [
    | inl e' ↦ rw e (rw e' (Perm.refl (addresses rows)))
    | inr e' ↦ rw e (rw e' (Perm.refl (address o ∷ addresses rows)))
  ]
  | inr e ↦ elim (Bool-cases (address o == [])) [
    | inl e' ↦ rw e (rw e' (Perm.refl (address r ∷ addresses rows)))
    | inr e' ↦ rw e (rw e' (Perm.swap (address r) (address o) (addresses rows)))
  ]
]

addresses-cons :
    (r : PeerRow) (xs ys : List PeerRow)
    → Perm (addresses xs) (addresses ys)
    → Perm (addresses (r ∷ xs)) (addresses (r ∷ ys))
unfolding addresses
addresses-cons r xs ys h = elim (Bool-cases (address r == [])) [
  | inl e ↦ rw e h
  | inr e ↦ rw e (Perm.cons (address r) h)
]

addresses-insert_newest :
    (r : PeerRow) (rows : List PeerRow)
    → Perm (addresses (insert_newest r rows)) (addresses (r ∷ rows))
unfolding insert_newest
addresses-insert_newest r [] = Perm.refl (addresses (r ∷ []))
addresses-insert_newest r (o ∷ rows) = elim (Bool-cases (leb o.added_at r.added_at)) [
  | inl e ↦ rw e (Perm.refl (addresses (r ∷ o ∷ rows)))
  | inr e ↦ rw e (
      Perm.trans
        (addresses-cons o (insert_newest r rows) (r ∷ rows) (addresses-insert_newest r rows))
        (addresses-swap r o rows))
]

addresses-newest_first :
    (rows : List PeerRow) → Perm (addresses (newest_first rows)) (addresses rows)
unfolding newest_first
addresses-newest_first [] = Perm.refl (addresses [])
addresses-newest_first (r ∷ rows) =
    Perm.trans (addresses-insert_newest r (newest_first rows))
      (addresses-cons r (newest_first rows) rows (addresses-newest_first rows))

urls-items_of :
    (db : Db) (rows : List PeerRow)
    → map (λ i. i.url) (items_of (map (with_paths db) rows)) ≡ addresses rows
unfolding items_of addresses
urls-items_of db [] = refl
urls-items_of db (r ∷ rows) = elim (Bool-cases (address r == [])) [
  | inl e ↦ rw e (urls-items_of db rows)
  | inr e ↦ rw e (ap (◌∷◌ (address r)) (urls-items_of db rows))
]

addressed : (peers : List (PeerRow × List Text)) → All (λ i. i.url ≢ []) (items_of peers)
unfolding items_of
addressed [] = tt
addressed ((r, paths) ∷ peers) = elim (Bool-cases (address r == [])) [
  | inl e ↦ rw e (addressed peers)
  | inr e ↦ rw e (ground (arith, eq_iff (address r) []), addressed peers)
]

-- GET /-/peers of an open registry answers a list in which no URL is empty. Its URLs are those of
-- the peers that have an address, each once for each such peer: the public URL that a peer gives,
-- or else the URL that it is reached at.
pub public_peers-perm :
    (db : Db)
    → (items : List PeerItem) × (public_peers (some db) ≡ some items)
      × All (λ i. i.url ≢ []) items
      × Perm (map (λ i. i.url) items) (addresses db.peers)
unfolding public_peers list_peers
public_peers-perm db =
    let peers = map (with_paths db) (newest_first db.peers) in
    (
      items_of peers,
      refl,
      addressed peers,
      rw (urls-items_of db (newest_first db.peers)) (addresses-newest_first db.peers),
    )
