-- ===== src/Registry/Peers/Lookup.antt =====
-- What the lookups of internal/registry/registry.go find after a peer's URL was updated and after a
-- peer was deleted.
use red_engine.Prelude.{
  Pairwise, ℕ, ◌≡◌, ◌≢◌, ◌↔◌, ◌⊎◌, refl, inl, inr, Bool, true, false, not, none, some, List, [],
  ◌∷◌, arith, if◌then◌else◌, ◌++◌, All, any, keep, eqb, is_some, Bool-cases, Option-cases,
}
use red_engine.Text.{Text, ◌==◌, eq_iff}
use red_engine.Registry.{PeerRow, PathRow, Db, ok, err, no_rows}
use red_engine.Registry.Peers.{
  has_key, has_url, select, found, set_url, update_peer_url, Peer, resolve, refreshed, new_row,
  replace_row, upsert, delete_peer, get_peer_by_public_key,
}
use red_engine.Registry.Peers.Valid.{
  IsValid, IsFree, OtherKey, In, has_key_iff, resolve-In, refreshed-IsFree,
}

-- The row after the update.
abbrev pub moved : Text → ℕ → PeerRow → PeerRow
moved url now r = record r { url = url; last_seen = some now }

select-set_url :
    (key asked url : Text) (now : ℕ) (rows : List PeerRow)
    → select (has_key asked) (set_url key url now rows) ≡ elim (select (has_key asked) rows) [
      | none ↦ none
      | some r ↦ some (if key == asked then moved url now r else r)
    ]
unfolding select set_url
select-set_url key asked url now [] = refl
select-set_url key asked url now (r ∷ rows) = elim (Option-cases r.node_public_key) [
  | inl e ↦ ground (arith, select-set_url key asked url now rows)
  | inr (k, e) ↦
      ground (
        arith,
        select-set_url key asked url now rows,
        eq_iff k key,
        eq_iff k asked,
        eq_iff key asked,
      )
]

any-has_key :
    (key : Text) (rows : List PeerRow)
    → (any (has_key key) rows ≡ true) ↔ (is_some (select (has_key key) rows) ≡ true)
unfolding select
any-has_key key [] = ground arith
any-has_key key (r ∷ rows) = ground (arith, any-has_key key rows)

-- The lookup of a key that is not empty, in an open registry.
get_peer_by_key-filled :
    (key : Text) (db : Db)
    → key ≢ []
    → get_peer_by_public_key key (some db) ≡ found db (select (has_key key) db.peers)
unfolding get_peer_by_public_key
get_peer_by_key-filled key db filled = ground (arith, eq_iff key [])

-- In an open registry, `UpdatePeerURL` is an error exactly if no peer has the key. The peer of the
-- key is then found by it as it was, but at the new URL and seen now, and what any other key that
-- is not empty finds stays.
pub get-update_peer_url :
    (key asked url : Text) (now : ℕ) (db : Db)
    → asked ≢ []
    → let (result, registry) = update_peer_url key url now (some db) in
      ((result ≡ err no_rows) ↔ (is_some (select (has_key key) db.peers) ≡ false))
      × (get_peer_by_public_key asked registry ≡ elim (get_peer_by_public_key asked (some db)) [
        | err e ↦ err e
        | ok (r, paths) ↦ ok (if key == asked then moved url now r else r, paths)
      ])
unfolding update_peer_url get_peer_by_public_key
get-update_peer_url key asked url now db filled = ground (
  arith,
  eq_iff asked [],
  eq_iff key asked,
  any-has_key key db.peers,
  select-set_url key asked url now db.peers,
)

-- No row but `r` is found by its key.
select-OtherKey :
    (r : PeerRow) (key : Text) (rows : List PeerRow)
    → r.node_public_key ≡ some key
    → All (OtherKey r) rows
    → select (has_key key) rows ≡ none
unfolding select
select-OtherKey r key [] e h = refl
select-OtherKey r key (o ∷ rows) e (d, h) =
    ground (arith, select-OtherKey r key rows e h, has_key_iff key o)

select-keep :
    (key : Text) (id : ℕ) (rows : List PeerRow)
    → Pairwise OtherKey rows
    → select (has_key key) (keep (λ r. not (eqb r.id id)) rows) ≡ elim (select (has_key key) rows) [
      | none ↦ none
      | some r ↦ if eqb r.id id then none else some r
    ]
unfolding select
select-keep key id [] h = refl
select-keep key id (r ∷ rows) (d, h) = elim (Bool-cases (has_key key r)) [
  | inl e ↦
      ground
        (arith, select-keep key id rows h, select-OtherKey r key rows ((has_key_iff key r).0 e) d)
  | inr e ↦ ground (arith, select-keep key id rows h)
]

keep-keep :
    (id other : ℕ) (rows : List PathRow)
    → eqb other id ≡ false
    → keep (λ x. eqb x.peer_id other) (keep (λ x. not (eqb x.peer_id id)) rows)
      ≡ keep (λ x. eqb x.peer_id other) rows
keep-keep id other [] h = refl
keep-keep id other (x ∷ rows) h = ground (arith, keep-keep id other rows h)

-- Whether a row is the one that `DeletePeer` takes for the URL.
abbrev pub is_deleted : Text → Db → PeerRow → Bool
is_deleted url db r = elim (select (has_url url) db.peers) [ none ↦ false | some d ↦ eqb r.id d.id ]

-- In a valid registry, deleting the peer of a URL takes it away from the lookup by its key, and
-- leaves what every other key finds, exported paths included; a URL that no peer has deletes
-- nothing that a key finds.
pub get-delete_peer :
    (url asked : Text) (db : Db)
    → IsValid db.peers db.next_peer_id
    → get_peer_by_public_key asked (delete_peer url (some db)).1
      ≡ elim (get_peer_by_public_key asked (some db)) [
        | err e ↦ err e
        | ok (r, paths) ↦ if is_deleted url db r then err no_rows else ok (r, paths)
      ]
unfolding delete_peer get_peer_by_public_key
get-delete_peer url asked db v = elim (Option-cases (select (has_url url) db.peers)) [
  | inl e ↦ ground arith
  | inr (d, e) ↦ elim (Option-cases (select (has_key asked) db.peers)) [
    | inl e' ↦ ground (arith, select-keep asked d.id db.peers v.keys_differ)
    | inr (r, e') ↦ ground (
      arith,
      select-keep asked d.id db.peers v.keys_differ,
      keep-keep d.id r.id db.exported_paths,
    )
  ]
]

select-replace_row :
    (r : PeerRow) (key : Text) (rows : List PeerRow)
    → r.node_public_key ≡ some key
    → All (λ o. (o.id ≡ r.id) ⊎ OtherKey r o) rows
    → any (λ o. eqb o.id r.id) rows ≡ true
    → select (has_key key) (replace_row r rows) ≡ some r
unfolding select replace_row
select-replace_row r key [] e h k = cc
select-replace_row r key (o ∷ rows) e (d, h) k =
    ground (arith, select-replace_row r key rows e h, has_key_iff key o, has_key_iff key r)

select-append :
    (r : PeerRow) (key : Text) (rows : List PeerRow)
    → r.node_public_key ≡ some key
    → select (has_key key) rows ≡ none
    → select (has_key key) (rows ++ r ∷ []) ≡ some r
unfolding select
select-append r key [] e h = ground (arith, has_key_iff key r)
select-append r key (o ∷ rows) e h = ground (arith, select-append r key rows e)

In-any : (r : PeerRow) (rows : List PeerRow) → In r rows → any (λ o. eqb o.id r.id) rows ≡ true
In-any r [] i = absurd i
In-any r (o ∷ rows) (inl e) = ground arith
In-any r (o ∷ rows) (inr i) = ground (arith, In-any r rows i)

-- The row that is stored for a peer with a key is the one that the key finds.
pub select-upsert :
    (p : Peer) (now : ℕ) (db db' : Db)
    → IsValid db.peers db.next_peer_id
    → p.public_key ≢ []
    → upsert p now db ≡ ok db'
    → select (has_key p.public_key) db'.peers
      ≡ some (elim (resolve p db.peers) [
        | none ↦ new_row p db.next_peer_id now
        | some r ↦ refreshed p r
      ])
unfolding upsert
select-upsert p now db db' v filled h = elim (Option-cases (resolve p db.peers)) [
  | inl e ↦
      let r = new_row p db.next_peer_id now in
      let keyed : r.node_public_key ≡ some p.public_key =
        unfold new_row in ground (arith, eq_iff p.public_key []) in
      let unknown : select (has_key p.public_key) db.peers ≡ none =
        unfold resolve in ground (arith, eq_iff p.public_key []) in
      ground (arith, select-append r p.public_key db.peers keyed unknown)
  | inr (r, e) ↦
      let r' = refreshed p r in
      let keyed : r'.node_public_key ≡ some p.public_key =
        unfold refreshed in ground (arith, eq_iff p.public_key []) in
      let free : All (λ o. (o.id ≡ r'.id) ⊎ OtherKey r' o) db.peers =
        unfold IsFree in refreshed-IsFree p db.peers r v.keys_differ e in
      let there : any (λ o. eqb o.id r'.id) db.peers ≡ true =
        unfold refreshed in In-any r db.peers (resolve-In p db.peers r e) in
      ground (arith, select-replace_row r' p.public_key db.peers keyed free there)
]
