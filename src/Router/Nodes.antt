-- ===== src/Router/Nodes.antt =====
-- `nodes` of internal/router/nodes.go up to its template, and `nodeInfo` of
-- internal/router/nodeinfo.go.
mod Tests
pub mod Dated
use red_engine.Prelude.{
  ℕ, ◌+◌, ◌-◌, ◌/◌, Bool, ◌||◌, Option, none, some, List, [], ◌∷◌, ◌++◌, map, if◌then◌else◌, ltb,
  length, take, get_or,
}
use red_engine.Text.{Text, text, ◌==◌, has_prefix}
use red_engine.Registry.{PeerRow, Registry, ok, err}
use red_engine.Registry.Settings.{get_setting}
use red_engine.Registry.Peers.Listing.{list_peers}
use red_engine.Navigation.Scan.{Entry, file, dir, Entries, nil, cons, Listing, unreadable, readable}
use red_engine.Router.Peers.{NodeInfo, address}

unfoldable pub tunnel_label : Text → Text
unfolding ◌==◌
tunnel_label t =
    if t == text "cloudflare_quick"
    then text "Cloudflare Quick"
    else if t == text "cloudflare_named"
    then text "Cloudflare Named"
    else if t == text "direct"
    then text "Direct"
    else []

unfoldable pub ensure_scheme : Text → Text
unfolding has_prefix ◌==◌
ensure_scheme u =
    if u == []
    then []
    else if has_prefix u (text "http://") || has_prefix u (text "https://")
    then u
    else text "https://" ++ u

unfoldable pub short_key : Text → Text
short_key k = if ltb 16 (length k) then take 16 k else k

-- The words of `relativeTime`, with the number that stands in them. Times are in seconds.
pub data Ago : Type 0 where
  never just_now : Ago
  min_ago hr_ago days_ago : ℕ → Ago

unfoldable pub ago : ℕ → Ago
ago d =
    if ltb d 60
    then just_now
    else if ltb d 3600
    then min_ago (d / 60)
    else if ltb d 86400
    then hr_ago (d / 3600)
    else days_ago (d / 86400)

unfoldable pub relative_time : ℕ → Option ℕ → Ago
relative_time now none = never
relative_time now (some t) = ago (now - t)

pub record NodeCard : Type 0 where
  pub name : Text
  pub url : Text
  pub public_key : Text
  pub public_key_short : Text
  pub peer_type : Text
  pub description : Text
  pub tunnel_label : Text
  pub is_online : Bool
  pub exported_paths : List Text
  pub last_seen : Ago

unfoldable pub card_of : ℕ → PeerRow × List Text → NodeCard
card_of now (r, paths) = record {
  name = r.name;
  url = ensure_scheme (address r);
  public_key = get_or r.node_public_key [];
  public_key_short = short_key (get_or r.node_public_key []);
  peer_type = r.peer_type;
  description = r.description;
  tunnel_label = tunnel_label r.tunnel_type;
  is_online = r.is_online;
  exported_paths = paths;
  last_seen = relative_time now r.last_seen;
}

-- `nodeName`: the setting, or the host's name.
unfoldable pub node_name : Text → Registry → Text
unfolding ◌==◌
node_name hostname registry =
    let n = get_setting (text "node_name") registry in if n == [] then hostname else n

pub record NodeSelf : Type 0 where
  pub name : Text
  pub public_key : Text
  pub public_key_short : Text
  pub public_url : Text
  pub tunnel_label : Text
  pub description : Text

unfoldable pub self_of : Text → Text → Registry → NodeSelf
self_of hostname self_key registry = record {
  name = node_name hostname registry;
  public_key = self_key;
  public_key_short = short_key self_key;
  public_url = ensure_scheme (get_setting (text "public_url") registry);
  tunnel_label = tunnel_label (get_setting (text "tunnel_type") registry);
  description = get_setting (text "node_description") registry;
}

-- The data of the page; none is the status 500.
unfoldable pub nodes : Text → Text → ℕ → Registry → Option (NodeSelf × List NodeCard)
nodes hostname self_key now registry = elim (list_peers registry) [
  | err e ↦ none
  | ok peers ↦ some (self_of hostname self_key registry, map (card_of now) peers)
]

unfoldable pub exported_dirs : Entries → List Text
exported_dirs nil = []
exported_dirs (cons (file name content mod_time) es) = exported_dirs es
exported_dirs (cons (dir name l) es) = (text "/" ++ name) ∷ exported_dirs es

abbrev pub exported : Listing → List Text
exported unreadable = []
exported (readable es) = exported_dirs es

-- The answer of `nodeInfo`, in the shape in which another node reads it.
unfoldable pub node_info : Text → Text → Listing → Registry → NodeInfo
unfolding exported_dirs
node_info hostname self_key data_dir registry = record {
  name = node_name hostname registry;
  public_key = self_key;
  exported_paths = some (exported data_dir);
  public_url = get_setting (text "public_url") registry;
  tunnel_type = get_setting (text "tunnel_type") registry;
  description = get_setting (text "node_description") registry;
}
