-- ===== src/Router/Peers/Gossip.antt =====
-- What `importPeerGossip` of internal/router/admin_peers.go does to a valid registry, whatever the
-- other node lists.
use red_engine.Prelude.{
  ℕ, ◌<◌, ◌≡◌, ◌≢◌, refl, ◌⊎◌, inl, inr, true, false, none, some, List, [], arith, All,
}
use red_engine.Text.{Text, text, ◌==◌, eq_iff}
use red_engine.Registry.{PeerRow, Db, is_one_of, peer_types, tunnel_types}
use red_engine.Registry.Peers.{has_url, has_key, select, resolve, refreshed, get_peer_by_public_key}
use red_engine.Registry.Peers.Valid.{In}
use red_engine.Registry.Peers.Lookup.{select-upsert}
use red_engine.Registry.Peers.Upsert.{IsValidDb, upsert_refused_iff, upsert-ok_or_constraint}
use red_engine.Router.Peers.{PeerItem, is_own, is_known, gossiped, import_item}

-- The row is new since the count, and then upstream.
abbrev pub IsOldOrUpstream : ℕ → PeerRow → Type 0
IsOldOrUpstream n r = (r.id < n) ⊎ (r.peer_type ≡ text "upstream")

upstream_type : is_one_of peer_types (text "upstream") ≡ true
unfolding is_one_of ◌==◌
upstream_type = refl

refreshed-upstream :
    (now : ℕ) (i : PeerItem) (o : PeerRow)
    → (refreshed (gossiped now i) o).peer_type ≡ text "upstream"
unfolding refreshed ◌==◌
refreshed-upstream now i o = refl

-- What every round keeps, the rows of `Q` among it.
record Kept (n : ℕ) (Q : PeerRow → Type 0) (db : Db) : Type 0 where
  valid : IsValidDb db
  upstream : All (IsOldOrUpstream n) db.peers
  there : (r : PeerRow) → Q r → In r db.peers

-- The item has the URL of none of the rows.
abbrev IsOther : (PeerRow → Type 0) → PeerItem → Type 0
IsOther Q i = (r : PeerRow) → Q r → i.url ≢ r.url

-- A row of the table whose URL no item has.
abbrev pub IsUnlisted : List PeerItem → Db → PeerRow → Type 0
IsUnlisted items db r = In r db.peers × All (λ i. i.url ≢ r.url) items

-- In a valid registry, let an item be neither this node's own nor that of the node that lists it, its
-- key not empty and not known, its URL that of a known peer, and its tunnel type one of the four. The
-- import then takes that peer over: its row has the item's key and is an upstream, whatever it was.
pub import_item-overwrites :
    (peer_url self self_key : Text) (now : ℕ) (i : PeerItem) (r : PeerRow) (db : Db)
    → IsValidDb db
    → is_own peer_url self self_key i ≡ false
    → i.public_key ≢ []
    → select (has_key i.public_key) db.peers ≡ none
    → select (has_url i.url) db.peers ≡ some r
    → is_one_of tunnel_types i.tunnel_type ≡ true
    → (db' : Db) × (r' : PeerRow) × (import_item peer_url self self_key now i (some db) ≡ some db')
      × (select (has_key i.public_key) db'.peers ≡ some r')
      × (r'.id ≡ r.id)
      × (r'.peer_type ≡ text "upstream")
unfolding import_item
import_item-overwrites peer_url self self_key now i r db v own filled unknown known tunnel =
    let p = gossiped now i in
    let keyed : (i.public_key == []) ≡ false = ground (arith, eq_iff i.public_key []) in
    let passed : is_known i (some db) ≡ false =
      unfold is_known get_peer_by_public_key in ground (arith, keyed, unknown) in
    let taken : resolve p db.peers ≡ some r =
      unfold resolve in ground (arith, keyed, unknown, known) in
    elim (upsert-ok_or_constraint p now db) [
      | inl (db', h) ↦
          let found = select-upsert p now db db' v filled h in
          (
            db',
            refreshed p r,
            rw own (rw passed (rw h refl)),
            rw taken at found,
            unfold refreshed in refl,
            refreshed-upstream now i r,
          )
      | inr h ↦ elim ((upsert_refused_iff p now db v).0 h) [
        | inl t ↦ absurd (ground (arith, t, tunnel))
        | inr (s, n, t) ↦ absurd (ground (arith, t, upstream_type))
      ]
    ]
