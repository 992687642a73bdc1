-- ===== src/Router/Peers.antt =====
-- The admin's handlers of peers and the gossip of internal/router/admin_peers.go. Requests and the
-- answers of other nodes are taken as decoded; what is only logged is left out.
pub mod Gossip
pub mod Refresh
pub mod Public
mod Tests
use red_engine.Prelude.{
  ℕ, Bool, true, false, not, ◌&&◌, ◌||◌, Option, none, some, List, [], ◌∷◌, ◌++◌, map,
  if◌then◌else◌, get_or,
}
use red_engine.Text.{Text, text, ◌==◌, has_prefix, trim_suffix}
use red_engine.Registry.{PeerRow, Db, Result, ok, err, Registry}
use red_engine.Registry.Peers.{Peer, get_peer_by_url, get_peer_by_public_key}
use red_engine.Registry.Peers
use red_engine.Registry.Peers.Listing.{list_peers}
use red_engine.Registry.Settings.{get_setting}

-- nodeInfoResponse; a list that is missing is none.
pub record NodeInfo : Type 0 where
  pub name : Text
  pub public_key : Text
  pub exported_paths : Option (List Text)
  pub public_url : Text
  pub tunnel_type : Text
  pub description : Text

-- peerListItem
pub record PeerItem : Type 0 where
  pub url : Text
  pub public_key : Text
  pub name : Text
  pub peer_type : Text
  pub description : Text
  pub public_url : Text
  pub tunnel_type : Text
  pub is_online : Bool
  pub exported_paths : Option (List Text)
  pub last_seen : Option ℕ

-- What a GET of a URL answers: none where it fails, has another status than 200, or is no JSON of
-- that shape.
pub record Net : Type 0 where
  pub node_info : Text → Option NodeInfo
  pub peer_list : Text → Option (List PeerItem)

abbrev has_scheme : Text → Bool
has_scheme u = has_prefix u (text "http://") || has_prefix u (text "https://")

unfoldable pub endpoint : Text → Text → Text
unfolding has_prefix trim_suffix
endpoint base_url path =
    let base = if has_scheme base_url then base_url else text "https://" ++ base_url in
    trim_suffix base (text "/") ++ path

unfoldable pub fetch_node_info : Net → Text → Option NodeInfo
unfolding endpoint ◌==◌
fetch_node_info net base_url = elim (net.node_info (endpoint base_url (text "/-/nodeinfo"))) [
  | none ↦ none
  | some info ↦
      some (record info { name = if info.name == [] then text "Unnamed Node" else info.name })
]

abbrev pub peer_of : Text → Text → Option ℕ → ℕ → NodeInfo → Peer
peer_of url peer_type added_at now info = record {
  url = url;
  public_key = info.public_key;
  name = info.name;
  peer_type = peer_type;
  description = info.description;
  public_url = info.public_url;
  tunnel_type = info.tunnel_type;
  exported_paths = info.exported_paths;
  last_seen = some now;
  added_at = added_at;
}

abbrev status_of : ℕ → ℕ → Result (Unit {0}) → ℕ
status_of done failed (ok _) = done
status_of done failed (err e) = failed

-- addPeerRequest, where the body is JSON.
pub record AddPeerRequest : Type 0 where
  pub url : Text
  pub peer_type : Text
  pub import_peers : Bool

-- The status, the registry, and the URL of the gossip that is started.
pub record Added : Type 0 where
  pub status : ℕ
  pub registry : Registry
  pub gossip : Option Text

abbrev refused : ℕ → Registry → Added
refused status registry = record { status = status; registry = registry; gossip = none }

abbrev store_added : AddPeerRequest → Result (Unit {0}) × Registry → Added
store_added req (err e, registry) = refused 500 registry
store_added req (ok _, registry) = record {
  status = 201;
  registry = registry;
  gossip = if req.import_peers then some req.url else none;
}

abbrev type_or_upstream : Text → Text
type_or_upstream t = if t == [] then text "upstream" else t

unfoldable pub add_peer : Net → ℕ → Option AddPeerRequest → Registry → Added
unfolding fetch_node_info ◌==◌
add_peer net now none registry = refused 400 registry
add_peer net now (some req) registry =
    if req.url == [] then refused 400 registry else elim (fetch_node_info net req.url) [
      | none ↦ refused 502 registry
      | some info ↦ store_added req (
          Peers.add_peer (peer_of req.url (type_or_upstream req.peer_type) (some now) now info) now
            registry)
    ]

-- `deletePeer` of the URL in its body.
unfoldable pub delete_peer : Option Text → Registry → ℕ × Registry
unfolding ◌==◌
delete_peer none registry = (400, registry)
delete_peer (some url) registry =
    if url == []
    then (400, registry)
    else let (r, registry') = Peers.delete_peer url registry in (status_of 200 500 r, registry')

-- `RefreshPeer`: none where the node info cannot be fetched.
unfoldable pub refresh_peer_record :
    Net → ℕ → Text → Registry → Option (Result (Unit {0})) × Registry
unfolding fetch_node_info
refresh_peer_record net now url registry = elim (fetch_node_info net url) [
  | none ↦ (none, registry)
  | some info ↦
      let (r, registry') = Peers.add_peer (peer_of url [] none now info) now registry in
      (some r, registry')
]

abbrev refresh_status : Option (Result (Unit {0})) → ℕ
refresh_status none = 502
refresh_status (some r) = status_of 200 500 r

-- `refreshPeer`: the same on the URL in its body.
unfoldable pub refresh_peer : Net → ℕ → Option Text → Registry → ℕ × Registry
unfolding refresh_peer_record ◌==◌
refresh_peer net now none registry = (400, registry)
refresh_peer net now (some url) registry =
    if url == []
    then (400, registry)
    else let (r, registry') = refresh_peer_record net now url registry in
      (refresh_status r, registry')

-- `publicPeers`: none is its status 500.
abbrev pub address : PeerRow → Text
address r = if r.public_url == [] then r.url else r.public_url

abbrev pub item_of : PeerRow × List Text → PeerItem
item_of (r, paths) = record {
  url = address r;
  public_key = get_or r.node_public_key [];
  name = r.name;
  peer_type = r.peer_type;
  description = r.description;
  public_url = r.public_url;
  tunnel_type = r.tunnel_type;
  is_online = r.is_online;
  exported_paths = some paths;
  last_seen = r.last_seen;
}

unfoldable pub items_of : List (PeerRow × List Text) → List PeerItem
unfolding ◌==◌
items_of [] = []
items_of ((r, paths) ∷ peers) =
    if address r == [] then items_of peers else item_of (r, paths) ∷ items_of peers

unfoldable pub public_peers : Registry → Option (List PeerItem)
unfolding items_of list_peers
public_peers registry = elim (list_peers registry) [
  | err e ↦ none
  | ok peers ↦ some (items_of peers)
]

-- The tests of the loop of `importPeerGossip` by which it passes an item over.
abbrev pub is_ok {ℓ} : {A : Type ℓ} → Result A → Bool
is_ok (ok _) = true
is_ok (err e) = false

unfoldable pub is_own : Text → Text → Text → PeerItem → Bool
unfolding ◌==◌
is_own peer_url self self_key i =
    (i.url == [] || i.url == self || i.url == peer_url)
    || (not (self_key == []) && i.public_key == self_key)

unfoldable pub is_known : PeerItem → Registry → Bool
unfolding ◌==◌
is_known i registry =
    if i.public_key == []
    then is_ok (get_peer_by_url i.url registry)
    else is_ok (get_peer_by_public_key i.public_key registry)

abbrev pub gossiped : ℕ → PeerItem → Peer
gossiped now i = record {
  url = i.url;
  public_key = i.public_key;
  name = i.name;
  peer_type = text "upstream";
  description = i.description;
  public_url = i.public_url;
  tunnel_type = i.tunnel_type;
  exported_paths = i.exported_paths;
  last_seen = some now;
  added_at = some now;
}

-- One round, and the loop. An item that `AddPeer` refuses is passed over.
unfoldable pub import_item : Text → Text → Text → ℕ → PeerItem → Registry → Registry
import_item peer_url self self_key now i registry =
    if is_own peer_url self self_key i || is_known i registry
    then registry
    else (Peers.add_peer (gossiped now i) now registry).1

unfoldable pub import_items : Text → Text → Text → ℕ → List PeerItem → Registry → Registry
import_items peer_url self self_key now [] registry = registry
import_items peer_url self self_key now (i ∷ items) registry =
    import_items peer_url self self_key now items
      (import_item peer_url self self_key now i registry)

unfoldable pub import_peer_gossip : Net → Text → ℕ → Text → Registry → Registry
unfolding endpoint
import_peer_gossip net self_key now peer_url registry =
    elim (net.peer_list (endpoint peer_url (text "/-/peers"))) [
      | none ↦ registry
      | some items ↦
          import_items peer_url (get_setting (text "public_url") registry) self_key now items
            registry
    ]
