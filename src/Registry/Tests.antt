-- ===== src/Registry/Tests.antt =====
-- Runs of the registry on tables of two peers and two authors.
use red_engine.Prelude.{
  ℕ, ◌≡◌, refl, ◌≢◌, ◌↔◌, ◌⊎◌, inl, inr, true, false, none, some, [], ◌∷◌, arith, if◌then◌else◌,
  is_some, any,
}
use red_engine.Text.{Text, text, ◌==◌, to_lower}
use red_engine.Dict.{lookup}
use red_engine.Registry.{
  PeerRow, Db, Result, ok, err, no_rows, constraint, is_one_of, peer_types, tunnel_types,
}
use red_engine.Registry.Peers.{
  has_url, Peer, has_key, select, resolve, refreshed, upsert, update_peer_url, delete_peer,
  get_peer_by_public_key,
}
use red_engine.Registry.Peers.Upsert.{IsValidDb, upsert_refused_iff}
use red_engine.Registry.Peers.Lookup.{moved, is_deleted, get-update_peer_url, get-delete_peer}
use red_engine.Registry.Peers.Upserted.{IsKnown, IsRefreshed, IsFresh, select-upsert-IsKnown}
use red_engine.Registry.Sync.{new_sync}
use red_engine.Registry.Authors.{Contributor, new_author, is_revocable, revoke_contributor}
use red_engine.Registry.Authors.Revoked.{trusted_by, revoke_contributor-not-verified}
use red_engine.Store.Verify.{Platform, ManifestEntry, verify}

abbrev pub empty_db : Db
empty_db = record {
  peers = [];
  next_peer_id = 1;
  exported_paths = [];
  health = [];
  node_settings = [];
  startup_sync = [];
  next_sync_id = 1;
  trusted_authors = [];
}

abbrev pub row_of : ℕ → Text → Text → PeerRow
row_of id url key = record {
  id = id;
  url = url;
  node_public_key = some key;
  name = [];
  peer_type = text "mirror";
  description = [];
  public_url = [];
  tunnel_type = [];
  is_online = false;
  online_checked_at = none;
  last_seen = none;
  added_at = 7;
}

abbrev pub two_peers : Db
two_peers = record empty_db {
  peers = row_of 1 (text "http://a") (text "aa") ∷ row_of 2 (text "http://b") (text "bb") ∷ [];
  next_peer_id = 3;
  exported_paths = record { peer_id = 2; path = text "/linux" } ∷ [];
}

pub two_peers-IsValid : IsValidDb two_peers
unfolding is_one_of ◌==◌
two_peers-IsValid = record {
  ids_below = (omega arith, (omega arith, tt));
  ids_differ = ((ground arith, tt), (tt, tt));
  keys_differ = ((inr (ground arith), tt), (tt, tt));
  checked = (refl, (refl, tt));
}

-- Peer "bb" again, at a new URL.
abbrev known_peer : Peer
known_peer = record {
  url = text "http://c";
  public_key = text "bb";
  name = [];
  peer_type = text "downstream";
  description = [];
  public_url = [];
  tunnel_type = text "direct";
  exported_paths = none;
  last_seen = some 9;
  added_at = none;
}

abbrev db_of : Result Db → Db
db_of (ok db) = db
db_of (err e) = empty_db

abbrev after_upsert : Db
after_upsert = db_of (upsert known_peer 9 two_peers)

upserted : upsert known_peer 9 two_peers ≡ ok after_upsert
unfolding is_one_of ◌==◌ upsert resolve select refreshed
upserted = refl

upsert_refused_iff_example : (upsert known_peer 9 two_peers ≡ err constraint) ↔ (
    (is_one_of tunnel_types (text "direct") ≡ false)
    ⊎ ((is_some (resolve known_peer two_peers.peers) ≡ true)
        × (text "downstream" ≢ [])
        × (is_one_of peer_types (text "downstream") ≡ false)))
upsert_refused_iff_example = upsert_refused_iff known_peer 9 two_peers two_peers-IsValid

select-upsert-IsKnown_example :
    (r : PeerRow) × (select (has_key (text "bb")) after_upsert.peers ≡ some r)
    × (((old : PeerRow) × IsKnown known_peer two_peers.peers old × IsRefreshed known_peer old r)
        ⊎ ((select (has_key (text "bb")) two_peers.peers ≡ none)
            × (select (has_url known_peer.url) two_peers.peers ≡ none)
            × IsFresh known_peer 3 9 r))
select-upsert-IsKnown_example =
    select-upsert-IsKnown known_peer 9 two_peers after_upsert two_peers-IsValid (λ e. cc) upserted

get-update_peer_url_example :
    let (result, registry) = update_peer_url (text "bb") (text "http://d") 5 (some two_peers) in
    ((result ≡ err no_rows) ↔ (is_some (select (has_key (text "bb")) two_peers.peers) ≡ false))
    × (get_peer_by_public_key (text "bb") registry
        ≡ elim (get_peer_by_public_key (text "bb") (some two_peers)) [
          | err e ↦ err e
          | ok (r, paths) ↦
              ok (if text "bb" == text "bb" then moved (text "http://d") 5 r else r, paths)
        ])
get-update_peer_url_example =
    get-update_peer_url (text "bb") (text "bb") (text "http://d") 5 two_peers (λ e. cc)

get-delete_peer_example :
    get_peer_by_public_key (text "bb") (delete_peer (text "http://a") (some two_peers)).1
    ≡ elim (get_peer_by_public_key (text "bb") (some two_peers)) [
      | err e ↦ err e
      | ok (r, paths) ↦
          if is_deleted (text "http://a") two_peers r then err no_rows else ok (r, paths)
    ]
get-delete_peer_example = get-delete_peer (text "http://a") (text "bb") two_peers two_peers-IsValid

abbrev sync_db : Db
sync_db = record empty_db {
  startup_sync = new_sync (text "https://x/a.zip") (text "a.zip") 1 4 ∷ [];
  next_sync_id = 2;
}

abbrev ada_key : Text
ada_key = text "abababababababababababababababababababababababababababababababab"

abbrev author_db : Db
author_db = record empty_db {
  trusted_authors = new_author ada_key (text "Ada") ∷ new_author (text "cd") (text "Bob") ∷ [];
}

-- Every content is signed and every hash is empty.
abbrev lenient : Platform
lenient = record {
  sha256 = λ s. [];
  ed25519_verify = λ public_key message signature. true;
  markdown = λ source article_path. some source;
  data_dir = [];
  exists = λ path. false;
  read_file = λ path. none;
  rel = λ path. none;
}

abbrev ada_entry : ManifestEntry
ada_entry = record { file_hash = []; hash = []; public_key = ada_key; signature = [] }

other_spelling : to_lower (text "cd") ≢ to_lower ada_key
unfolding to_lower
other_spelling e = cc

looked_up : lookup (text "a.md") ((text "a.md", ada_entry) ∷ []) ≡ some ada_entry
unfolding lookup ◌==◌
looked_up = refl

revoke_contributor-not-verified_example :
    let (status, registry) = revoke_contributor (some ada_key) 3 (some author_db) in
    (status ≡ (if any (is_revocable ada_key) author_db.trusted_authors then 200 else 404))
    × ((verify lenient
          (trusted_by registry)
          ((text "a.md", ada_entry) ∷ [])
          (text "a.md")
          (text "x")).is_verified
        ≡ false)
revoke_contributor-not-verified_example =
    revoke_contributor-not-verified ada_key 3 author_db lenient ((text "a.md", ada_entry) ∷ [])
      (text "a.md") (text "x") ada_entry (λ e. cc) (inl refl, (inr other_spelling, tt)) looked_up
      refl

abbrev ada : Contributor
ada = record { name = text "Ada L."; public_key = ada_key }
