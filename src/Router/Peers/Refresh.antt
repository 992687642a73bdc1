-- ===== src/Router/Peers/Refresh.antt =====
-- Refreshing a peer by internal/router/admin_peers.go: the node info names its own key.
use red_engine.Prelude.{ℕ, ◌≡◌, ◌≢◌, refl, inl, inr, true, false, none, some, [], arith}
use red_engine.Text.{Text, ◌==◌, eq_iff}
use red_engine.Registry.{PeerRow, Db, ok, is_one_of, tunnel_types}
use red_engine.Registry.Peers.{has_key, select, resolve, refreshed}
use red_engine.Registry.Peers.Lookup.{select-upsert}
use red_engine.Registry.Peers.Upsert.{IsValidDb, upsert_refused_iff, upsert-ok_or_constraint}
use red_engine.Router.Peers.{NodeInfo, Net, fetch_node_info, peer_of, refresh_peer_record}

-- Refreshing a URL, on a valid registry: where the node info that is fetched names a key that some
-- peer has, and a tunnel type that is known, that peer has the URL afterwards, with its id, its peer
-- type and the time at which it was added as they were. Nothing is asked of the node but its answer.
pub refresh_peer_record-moves :
    (net : Net) (now : ℕ) (url : Text) (info : NodeInfo) (r : PeerRow) (db : Db)
    → IsValidDb db
    → fetch_node_info net url ≡ some info
    → info.public_key ≢ []
    → is_one_of tunnel_types info.tunnel_type ≡ true
    → select (has_key info.public_key) db.peers ≡ some r
    → (db' : Db) × (r' : PeerRow) × (refresh_peer_record net now url (some db)
        ≡ (some (ok tt), some db'))
      × (select (has_key info.public_key) db'.peers ≡ some r')
      × (r'.url ≡ url)
      × (r'.id ≡ r.id)
      × (r'.peer_type ≡ r.peer_type)
      × (r'.added_at ≡ r.added_at)
unfolding refresh_peer_record
refresh_peer_record-moves net now url info r db v fetched filled tunnel known =
    let p = peer_of url [] none now info in
    let keyed : (info.public_key == []) ≡ false = ground (arith, eq_iff info.public_key []) in
    let taken : resolve p db.peers ≡ some r = unfold resolve in ground (arith, keyed, known) in
    elim (upsert-ok_or_constraint p now db) [
      | inl (db', h) ↦ (
        db',
        refreshed p r,
        rw (fetched, refresh_peer_record) (rw h refl),
        rw taken at (select-upsert p now db db' v filled h),
        unfold refreshed in refl,
        unfold refreshed in refl,
        unfold refreshed ◌==◌ in refl,
        unfold refreshed in refl,
      )
      | inr h ↦ elim ((upsert_refused_iff p now db v).0 h) [
        | inl t ↦ absurd (ground (arith, t, tunnel))
        | inr (s, n, t) ↦ absurd (n refl)
      ]
    ]
