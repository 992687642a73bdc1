-- ===== src/Registry/Peers.antt =====
-- The peers of internal/registry/registry.go: `AddPeer`, `UpdatePeerURL`, `SetPeerHealth`,
-- `DeletePeer` and the lookups by URL and by public key.
pub mod Valid
pub mod Rows
pub mod Upsert
pub mod Lookup
pub mod Upserted
pub mod Listing
use red_engine.Prelude.{
  ℕ, suc, ◌≡◌, Bool, true, false, not, ◌&&◌, ◌||◌, Option, none, some, List, [], ◌∷◌, ◌++◌, map,
  arith, if◌then◌else◌, find, keep, any, all, eqb, or_else,
}
use red_engine.Text.{Text, text, ◌==◌, sort}
use red_engine.Registry.{
  PeerRow, PathRow, HealthRow, Db, Result, ok, err, not_init, no_rows, constraint, Registry, exec,
  query, is_one_of, peer_types, tunnel_types,
}

-- The fields of `Peer` that callers of `AddPeer` set. A zero time is `none`, a nil slice too.
pub record Peer : Type 0 where
  pub url : Text
  pub public_key : Text
  pub name : Text
  pub peer_type : Text
  pub description : Text
  pub public_url : Text
  pub tunnel_type : Text
  pub exported_paths : Option (List Text)
  pub last_seen : Option ℕ
  pub added_at : Option ℕ

unfoldable pub normalize_peer_type : Text → Text
normalize_peer_type t = if is_one_of peer_types t then t else text "upstream"

abbrev pub null_if_empty : Text → Option Text
null_if_empty s = if s == [] then none else some s

-- CASE WHEN ? = '' THEN column ELSE ? END
abbrev pub unless_empty : Text → Text → Text
unless_empty value column = if value == [] then column else value

abbrev pub has_key : Text → PeerRow → Bool
has_key key row = elim row.node_public_key [ none ↦ false | some k ↦ k == key ]

abbrev pub has_url : Text → PeerRow → Bool
has_url url row = row.url == url

unfoldable pub select : (PeerRow → Bool) → List PeerRow → Option PeerRow
select p [] = none
select p (r ∷ rows) = if p r then some r else select p rows

-- The row that `AddPeer` takes for the peer: by its key if it has one and it is known, else by URL.
unfoldable pub resolve : Peer → List PeerRow → Option PeerRow
resolve p rows =
    let by_url = select (has_url p.url) rows in
    if p.public_key == []
    then by_url
    else elim (select (has_key p.public_key) rows) [ some r ↦ some r | none ↦ by_url ]

unfoldable pub refreshed : Peer → PeerRow → PeerRow
refreshed p r = record r {
  url = p.url;
  node_public_key = or_else (null_if_empty p.public_key) r.node_public_key;
  name = unless_empty p.name r.name;
  peer_type = unless_empty p.peer_type r.peer_type;
  description = unless_empty p.description r.description;
  public_url = unless_empty p.public_url r.public_url;
  tunnel_type = unless_empty p.tunnel_type r.tunnel_type;
  last_seen = or_else p.last_seen r.last_seen;
}

unfoldable pub new_row : Peer → ℕ → ℕ → PeerRow
new_row p id now = record {
  id = id;
  url = p.url;
  node_public_key = null_if_empty p.public_key;
  name = p.name;
  peer_type = normalize_peer_type p.peer_type;
  description = p.description;
  public_url = p.public_url;
  tunnel_type = p.tunnel_type;
  is_online = false;
  online_checked_at = none;
  last_seen = p.last_seen;
  added_at = elim p.added_at [ none ↦ now | some t ↦ t ];
}

-- The CHECK constraints of the table.
abbrev pub checks : PeerRow → Bool
checks r = is_one_of peer_types r.peer_type && is_one_of tunnel_types r.tunnel_type

-- The UNIQUE constraint: no other row has the key.
abbrev pub key_is_free : PeerRow → List PeerRow → Bool
key_is_free r rows = elim r.node_public_key [
  | none ↦ true
  | some k ↦ not (any (λ o. not (eqb o.id r.id) && has_key k o) rows)
]

unfoldable pub replace_row : PeerRow → List PeerRow → List PeerRow
replace_row r [] = []
replace_row r (o ∷ rows) = (if eqb o.id r.id then r else o) ∷ replace_row r rows

-- DELETE and INSERT OR IGNORE of `peer_exported_paths`
abbrev pub is_path : ℕ → Text → PathRow → Bool
is_path id path x = eqb x.peer_id id && x.path == path

unfoldable pub add_paths : ℕ → List Text → List PathRow → List PathRow
add_paths id [] rows = rows
add_paths id (path ∷ paths) rows = add_paths id paths (
    if path == [] || any (is_path id path) rows
    then rows
    else rows ++ record { peer_id = id; path = path } ∷ [])

unfoldable pub replace_paths : ℕ → Option (List Text) → List PathRow → List PathRow
unfolding add_paths
replace_paths id none rows = rows
replace_paths id (some paths) rows = add_paths id paths (keep (λ x. not (eqb x.peer_id id)) rows)

abbrev pub store_row : PeerRow → List PeerRow → ℕ → Peer → Db → Result Db
store_row r rows next_id p db =
    if checks r && key_is_free r db.peers
    then ok (record db {
      peers = rows;
      next_peer_id = next_id;
      exported_paths = replace_paths r.id p.exported_paths db.exported_paths;
    })
    else err constraint

-- The transaction of `AddPeer`; `now` is the clock.
unfoldable pub upsert : Peer → ℕ → Db → Result Db
upsert p now db = elim (resolve p db.peers) [
  | some r ↦ let r' = refreshed p r in store_row r' (replace_row r' db.peers) db.next_peer_id p db
  | none ↦
      let r = new_row p db.next_peer_id now in
      store_row r (db.peers ++ r ∷ []) (suc db.next_peer_id) p db
]

abbrev pub add_peer : Peer → ℕ → Registry → Result (Unit {0}) × Registry
add_peer p now = exec (upsert p now)

-- `UpdatePeerURL`, `SetPeerHealth`, `DeletePeer`
unfoldable pub set_url : Text → Text → ℕ → List PeerRow → List PeerRow
set_url key url now [] = []
set_url key url now (r ∷ rows) =
    (if has_key key r then record r { url = url; last_seen = some now } else r)
    ∷ set_url key url now rows

unfoldable pub update_peer_url : Text → Text → ℕ → Registry → Result (Unit {0}) × Registry
unfolding set_url
update_peer_url key url now = exec λ db.
    if any (has_key key) db.peers
    then ok (record db { peers = set_url key url now db.peers })
    else err no_rows

unfoldable pub set_health : ℕ → Bool → ℕ → List PeerRow → List PeerRow
set_health id online now [] = []
set_health id online now (r ∷ rows) =
    (if eqb r.id id then record r { is_online = online; online_checked_at = some now } else r)
    ∷ set_health id online now rows

-- REFERENCES peers(id) is not enforced: the engine never turns SQLite's foreign keys on.
unfoldable pub set_peer_health : ℕ → Bool → ℕ → ℕ → Registry → Result (Unit {0}) × Registry
unfolding set_health
set_peer_health id online latency now = exec λ db. ok (record db {
  peers = set_health id online now db.peers;
  health =
      db.health
      ++ record { peer_id = id; checked_at = now; is_online = online; latency_ms = latency } ∷ [];
})

unfoldable pub delete_rows : ℕ → Db → Db
delete_rows id db = record db {
  exported_paths = keep (λ x. not (eqb x.peer_id id)) db.exported_paths;
  health = keep (λ x. not (eqb x.peer_id id)) db.health;
  peers = keep (λ r. not (eqb r.id id)) db.peers;
}

unfoldable pub delete_peer : Text → Registry → Result (Unit {0}) × Registry
unfolding delete_rows
delete_peer url =
    exec λ db. elim (select (has_url url) db.peers) [
      | none ↦ ok db
      | some r ↦ ok (delete_rows r.id db)
    ]

-- `GetPeerByURL`, `GetPeerByPublicKey`: the row, and the exported paths of its peer in order.
abbrev pub paths_of : ℕ → Db → List Text
paths_of id db = sort (map (λ x. x.path) (keep (λ x. eqb x.peer_id id) db.exported_paths))

abbrev pub found : Db → Option PeerRow → Result (PeerRow × List Text)
found db none = err no_rows
found db (some r) = ok (r, paths_of r.id db)

unfoldable pub get_peer_by_url : Text → Registry → Result (PeerRow × List Text)
get_peer_by_url url = query λ db. found db (select (has_url url) db.peers)

unfoldable pub get_peer_by_public_key : Text → Registry → Result (PeerRow × List Text)
get_peer_by_public_key key =
    query λ db. if key == [] then err no_rows else found db (select (has_key key) db.peers)
