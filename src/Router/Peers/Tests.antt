-- ===== src/Router/Peers/Tests.antt =====
-- The handlers of peers on a registry of two, with a node that lists three.
use mathlib.Core.List.{Perm}
use red_engine.Prelude.{◌≡◌, ◌≢◌, refl, true, false, none, some, List, [], ◌∷◌, map, All}
use red_engine.Text.{Text, text, ◌==◌, ne-of_false}
use red_engine.Registry.{PeerRow, Db, ok, is_one_of}
use red_engine.Registry.Tests.{row_of, two_peers, two_peers-IsValid}
use red_engine.Registry.Peers.{has_key, select}
use red_engine.Router.Peers.{
  NodeInfo, PeerItem, Net, endpoint, fetch_node_info, add_peer, refresh_peer_record, is_own,
  import_item, public_peers,
}
use red_engine.Router.Peers.Gossip.{import_item-overwrites}
use red_engine.Router.Peers.Refresh.{refresh_peer_record-moves}
use red_engine.Router.Peers.Public.{addresses, public_peers-perm}

-- A node that names the key of the second peer as its own.
abbrev info : NodeInfo
info = record {
  name = text "N";
  public_key = text "bb";
  exported_paths = none;
  public_url = [];
  tunnel_type = text "direct";
  description = [];
}

abbrev item : Text → Text → PeerItem
item url key = record {
  url = url;
  public_key = key;
  name = text "P";
  peer_type = text "mirror";
  description = [];
  public_url = [];
  tunnel_type = [];
  is_online = true;
  exported_paths = none;
  last_seen = none;
}

-- A new node, one that is known by its key, and one with the URL of a known peer.
abbrev items : List PeerItem
items =
    item (text "http://c") (text "cc")
    ∷ item (text "http://x") (text "bb")
    ∷ item (text "http://b") (text "dd")
    ∷ []

abbrev net : Net
net = record { node_info = λ url. some info; peer_list = λ url. some items }

default_scheme : endpoint (text "node.org/") (text "/-/peers") ≡ text "https://node.org/-/peers"
unfolding endpoint ◌==◌
default_scheme = refl

no_url :
    (add_peer net 9
      (some (record { url = []; peer_type = []; import_peers = true }))
      (some two_peers)).status
    ≡ 400
unfolding add_peer
no_url = refl

others : All (λ i. i.url ≢ text "http://a") items
unfolding ◌==◌
others = (
  ne-of_false (text "http://c") (text "http://a") refl,
  (
    ne-of_false (text "http://x") (text "http://a") refl,
    (ne-of_false (text "http://b") (text "http://a") refl, tt),
  ),
)

not_own : is_own (text "http://c") [] [] (item (text "http://b") (text "dd")) ≡ false
unfolding is_own
not_own = refl

unknown_key : select (has_key (text "dd")) two_peers.peers ≡ none
unfolding select ◌==◌
unknown_key = refl

known_url :
    select (λ r. r.url == text "http://b") two_peers.peers
    ≡ some (row_of 2 (text "http://b") (text "bb"))
unfolding select ◌==◌
known_url = refl

no_tunnel :
    is_one_of ([] ∷ text "direct" ∷ text "cloudflare_quick" ∷ text "cloudflare_named" ∷ []) []
    ≡ true
unfolding is_one_of ◌==◌
no_tunnel = refl

import_item-overwrites_example :
    (db' : Db) × (r' : PeerRow) × (import_item
        (text "http://c")
        []
        []
        9
        (item (text "http://b") (text "dd"))
        (some two_peers)
      ≡ some db')
    × (select (has_key (text "dd")) db'.peers ≡ some r')
    × (r'.id ≡ 2)
    × (r'.peer_type ≡ text "upstream")
import_item-overwrites_example =
    import_item-overwrites (text "http://c") [] [] 9 (item (text "http://b") (text "dd"))
      (row_of 2 (text "http://b") (text "bb")) two_peers two_peers-IsValid not_own (λ e. cc e)
      unknown_key known_url no_tunnel

fetched : fetch_node_info net (text "http://evil") ≡ some info
unfolding fetch_node_info
fetched = refl

known_key :
    select (has_key (text "bb")) two_peers.peers ≡ some (row_of 2 (text "http://b") (text "bb"))
unfolding select ◌==◌
known_key = refl

direct_tunnel :
    is_one_of
      ([] ∷ text "direct" ∷ text "cloudflare_quick" ∷ text "cloudflare_named" ∷ [])
      (text "direct")
    ≡ true
unfolding is_one_of ◌==◌
direct_tunnel = refl

refresh_peer_record-moves_example :
    (db' : Db) × (r' : PeerRow) × (refresh_peer_record net 9 (text "http://evil") (some two_peers)
      ≡ (some (ok tt), some db'))
    × (select (has_key (text "bb")) db'.peers ≡ some r')
    × (r'.url ≡ text "http://evil")
    × (r'.id ≡ 2)
    × (r'.peer_type ≡ text "mirror")
    × (r'.added_at ≡ 7)
refresh_peer_record-moves_example =
    refresh_peer_record-moves net 9 (text "http://evil") info
      (row_of 2 (text "http://b") (text "bb")) two_peers two_peers-IsValid fetched (λ e. cc e)
      direct_tunnel known_key

public_peers-perm_example :
    (listed : List PeerItem) × (public_peers (some two_peers) ≡ some listed)
    × All (λ i. i.url ≢ []) listed
    × Perm (map (λ i. i.url) listed) (addresses two_peers.peers)
public_peers-perm_example = public_peers-perm two_peers
