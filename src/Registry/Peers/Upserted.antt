-- ===== src/Registry/Peers/Upserted.antt =====
-- What the lookup by a key finds after `AddPeer` of internal/registry/registry.go, column by column.
use red_engine.Prelude.{
  ℕ, ◌≡◌, ◌≢◌, refl, ◌⊎◌, inl, inr, false, true, Option, none, some, List, [], arith, Bool-cases,
  Option-cases, if◌then◌else◌,
}
use red_engine.Text.{Text, text, ◌==◌, eq_iff}
use red_engine.Registry.{PeerRow, Db, ok, is_one_of, peer_types}
use red_engine.Registry.Peers.{
  Peer, has_key, has_url, select, resolve, refreshed, new_row, normalize_peer_type, upsert,
}
use red_engine.Registry.Peers.Valid.{IsValid}
use red_engine.Registry.Peers.Lookup.{select-upsert}

-- A column takes a value that is there, and keeps its own where there is none.
abbrev pub IsUpdated : Text → Text → Text → Type 0
IsUpdated value old column = ((value ≡ []) × (column ≡ old)) ⊎ ((value ≢ []) × (column ≡ value))

abbrev pub IsUpdatedTime : Option ℕ → Option ℕ → Option ℕ → Type 0
IsUpdatedTime value old column =
    ((value ≡ none) × (column ≡ old)) ⊎ ((t : ℕ) × (value ≡ some t) × (column ≡ some t))

-- The row of a peer that was known.
pub record IsRefreshed (p : Peer) (old r : PeerRow) : Type 0 where
  same_id : r.id ≡ old.id
  new_url : r.url ≡ p.url
  new_key : r.node_public_key ≡ some p.public_key
  new_name : IsUpdated p.name old.name r.name
  new_type : IsUpdated p.peer_type old.peer_type r.peer_type
  new_description : IsUpdated p.description old.description r.description
  new_public_url : IsUpdated p.public_url old.public_url r.public_url
  new_tunnel_type : IsUpdated p.tunnel_type old.tunnel_type r.tunnel_type
  new_last_seen : IsUpdatedTime p.last_seen old.last_seen r.last_seen
  same_health : (r.is_online ≡ old.is_online) × (r.online_checked_at ≡ old.online_checked_at)
  same_added_at : r.added_at ≡ old.added_at

-- The row of a peer that was not.
pub record IsFresh (p : Peer) (id now : ℕ) (r : PeerRow) : Type 0 where
  next_id : r.id ≡ id
  its_url : r.url ≡ p.url
  its_key : r.node_public_key ≡ some p.public_key
  its_texts :
      (r.name ≡ p.name)
      × (r.description ≡ p.description)
      × (r.public_url ≡ p.public_url)
      × (r.tunnel_type ≡ p.tunnel_type)
  known_type :
      ((is_one_of peer_types p.peer_type ≡ true) × (r.peer_type ≡ p.peer_type))
      ⊎ ((is_one_of peer_types p.peer_type ≡ false) × (r.peer_type ≡ text "upstream"))
  never_checked : (r.is_online ≡ false) × (r.online_checked_at ≡ none)
  its_last_seen : r.last_seen ≡ p.last_seen
  its_added_at : ((p.added_at ≡ none) × (r.added_at ≡ now)) ⊎ (p.added_at ≡ some r.added_at)

IsUpdated-of_value : (value old : Text) → IsUpdated value old (if value == [] then old else value)
IsUpdated-of_value value old = elim (Bool-cases (value == [])) [
  | inl e ↦ inl ((eq_iff value []).0 e, rw e refl)
  | inr e ↦ inr (ground (arith, e, eq_iff value []), rw e refl)
]

refreshed-IsRefreshed :
    (p : Peer) (old : PeerRow) → p.public_key ≢ [] → IsRefreshed p old (refreshed p old)
unfolding refreshed
refreshed-IsRefreshed p old filled = record {
  same_id = refl;
  new_url = refl;
  new_key = ground (arith, eq_iff p.public_key []);
  new_name = IsUpdated-of_value p.name old.name;
  new_type = IsUpdated-of_value p.peer_type old.peer_type;
  new_description = IsUpdated-of_value p.description old.description;
  new_public_url = IsUpdated-of_value p.public_url old.public_url;
  new_tunnel_type = IsUpdated-of_value p.tunnel_type old.tunnel_type;
  new_last_seen = elim (Option-cases p.last_seen) [
    | inl e ↦ inl (e, rw e refl)
    | inr (t, e) ↦ inr (t, e, rw e refl)
  ];
  same_health = (refl, refl);
  same_added_at = refl;
}

new_row-IsFresh : (p : Peer) (id now : ℕ) → p.public_key ≢ [] → IsFresh p id now (new_row p id now)
unfolding new_row
new_row-IsFresh p id now filled = record {
  next_id = refl;
  its_url = refl;
  its_key = ground (arith, eq_iff p.public_key []);
  its_texts = (refl, refl, refl, refl);
  known_type =
      unfold normalize_peer_type in
      elim (Bool-cases (is_one_of peer_types p.peer_type)) [
        | inl e ↦ inl (e, rw e refl)
        | inr e ↦ inr (e, rw e refl)
      ];
  never_checked = (refl, refl);
  its_last_seen = refl;
  its_added_at = elim (Option-cases p.added_at) [
    | inl e ↦ inl (e, rw e refl)
    | inr (t, e) ↦ inr (rw e refl)
  ];
}

-- The row that is known by the key or, where none is, by the URL.
abbrev pub IsKnown : Peer → List PeerRow → PeerRow → Type 0
IsKnown p rows old =
    (select (has_key p.public_key) rows ≡ some old)
    ⊎ ((select (has_key p.public_key) rows ≡ none) × (select (has_url p.url) rows ≡ some old))

resolve-IsKnown :
    (p : Peer) (rows : List PeerRow) (old : PeerRow)
    → p.public_key ≢ []
    → resolve p rows ≡ some old
    → IsKnown p rows old
unfolding resolve
resolve-IsKnown p rows old filled h = ground (arith, eq_iff p.public_key [])

resolve-unknown :
    (p : Peer) (rows : List PeerRow)
    → p.public_key ≢ []
    → resolve p rows ≡ none
    → (select (has_key p.public_key) rows ≡ none) × (select (has_url p.url) rows ≡ none)
unfolding resolve
resolve-unknown p rows filled h = ground (arith, eq_iff p.public_key [])

-- Let `AddPeer` of a peer with a key succeed on a valid registry. A lookup by the key then finds a
-- row. If the key was known, or else the URL, it is that row with the peer's URL and key, with its
-- other texts and its time of the last contact where they are not empty, and with the id, the health
-- and the time of addition that it had. If neither was known it is a new row of the peer's fields,
-- with the next id, an unknown type taken for upstream, and the present time where none is given.
pub select-upsert-IsKnown :
    (p : Peer) (now : ℕ) (db db' : Db)
    → IsValid db.peers db.next_peer_id
    → p.public_key ≢ []
    → upsert p now db ≡ ok db'
    → (r : PeerRow) × (select (has_key p.public_key) db'.peers ≡ some r)
      × (((old : PeerRow) × IsKnown p db.peers old × IsRefreshed p old r)
          ⊎ ((select (has_key p.public_key) db.peers ≡ none)
              × (select (has_url p.url) db.peers ≡ none)
              × IsFresh p db.next_peer_id now r))
select-upsert-IsKnown p now db db' v filled h =
    let found = select-upsert p now db db' v filled h in
    elim (Option-cases (resolve p db.peers)) [
      | inl e ↦
          let (no_key, no_url) = resolve-unknown p db.peers filled e in
          (
            new_row p db.next_peer_id now,
            rw e at found,
            inr (no_key, no_url, new_row-IsFresh p db.next_peer_id now filled),
          )
      | inr (old, e) ↦ (
        refreshed p old,
        rw e at found,
        inl (old, resolve-IsKnown p db.peers old filled e, refreshed-IsRefreshed p old filled),
      )
    ]
