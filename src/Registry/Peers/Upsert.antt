-- ===== src/Registry/Peers/Upsert.antt =====
-- What the transaction of `AddPeer` of internal/registry/registry.go does, and when it is refused.
use red_engine.Prelude.{
  ◌&&◌, some, Bool, if◌then◌else◌, ℕ, suc, ◌<◌, ◌≡◌, refl, sym, subst, ◌≢◌, ◌↔◌, ◌⊎◌, inl, inr,
  true, false, none, List, [], ◌∷◌, ◌++◌, arith, is_some, Bool-cases, Option-cases,
}
use red_engine.Text.{Text, ◌==◌, eq_iff}
use red_engine.Registry.{PeerRow, Db, ok, err, constraint, is_one_of, peer_types, tunnel_types}
use red_engine.Registry.Peers.{
  Peer, normalize_peer_type, resolve, refreshed, new_row, checks, key_is_free, replace_row,
  store_row, upsert,
}
use red_engine.Registry.Peers.Valid.{
  IsValid, IsFree, IsFree-iff, All_at, IsFree-of_none, resolve-In, refreshed-IsFree,
}
use red_engine.Registry.Peers.Rows.{replace_row-IsValid, append_row-IsValid}

abbrev pub IsValidDb : Db → Type 0
IsValidDb db = IsValid db.peers db.next_peer_id

-- The key of a new row is no other row's, since no row was found by it.
new_row-IsFree :
    (p : Peer) (rows : List PeerRow) (id now : ℕ)
    → resolve p rows ≡ none
    → IsFree (new_row p id now) rows
new_row-IsFree p rows id now h = elim (Bool-cases (p.public_key == [])) [
  | inl e ↦ (IsFree-iff (new_row p id now) rows).0 (unfold new_row in ground arith)
  | inr e ↦
      IsFree-of_none (new_row p id now) p.public_key rows (unfold new_row in ground arith)
        (unfold resolve in ground arith)
]

store_row-eq-ok :
    (r : PeerRow) (rows : List PeerRow) (n : ℕ) (p : Peer) (db db' : Db)
    → store_row r rows n p db ≡ ok db'
    → (checks r ≡ true)
      × (key_is_free r db.peers ≡ true)
      × (db'.peers ≡ rows)
      × (db'.next_peer_id ≡ n)
store_row-eq-ok r rows n p db db' h = ground arith

IsValid-of_eq :
    (rows rows' : List PeerRow) (n n' : ℕ)
    → rows' ≡ rows
    → n' ≡ n
    → IsValid rows n
    → IsValid rows' n'
IsValid-of_eq rows rows' n n' e k v =
    subst (λ m. IsValid rows' m) (sym k) (subst (λ l. IsValid l n) (sym e) v)

-- Whatever peer is added or refreshed, where `AddPeer` succeeds ids and keys stay unique and every
-- row passes its CHECKs, if that was so before.
pub upsert-IsValid :
    (p : Peer) (now : ℕ) (db db' : Db) → IsValidDb db → upsert p now db ≡ ok db' → IsValidDb db'
unfolding upsert
upsert-IsValid p now db db' v h = elim (Option-cases (resolve p db.peers)) [
  | inl e ↦
      let r = new_row p db.next_peer_id now in
      let (c, free, same, next) =
        store_row-eq-ok r (db.peers ++ r ∷ []) (suc db.next_peer_id) p db db'
          (rw (e, upsert) at h) in
      IsValid-of_eq _ _ _ _ same next (
        append_row-IsValid r db.peers db.next_peer_id v (unfold new_row in refl) c
          (new_row-IsFree p db.peers db.next_peer_id now e))
  | inr (r, e) ↦
      let r' = refreshed p r in
      let (c, free, same, next) =
        store_row-eq-ok r' (replace_row r' db.peers) db.next_peer_id p db db'
          (rw (e, upsert) at h) in
      IsValid-of_eq _ _ _ _ same next (
        replace_row-IsValid r' db.peers db.next_peer_id v
          (unfold refreshed in
            All_at (λ x. x.id < db.next_peer_id) r db.peers v.ids_below (resolve-In p db.peers r e))
          c (refreshed-IsFree p db.peers r v.keys_differ e))
]

store_row-eq-err_iff :
    (r : PeerRow) (rows : List PeerRow) (n : ℕ) (p : Peer) (db : Db)
    → IsFree r db.peers
    → (store_row r rows n p db ≡ err constraint) ↔ (checks r ≡ false)
store_row-eq-err_iff r rows n p db free = ground (arith, (IsFree-iff r db.peers).1 free)

pub no_tunnel : is_one_of tunnel_types [] ≡ true
unfolding is_one_of ◌==◌
no_tunnel = refl

checks-refreshed_iff :
    (p : Peer) (r : PeerRow)
    → checks r ≡ true
    → (checks (refreshed p r) ≡ false) ↔ (
        (is_one_of tunnel_types p.tunnel_type ≡ false)
        ⊎ ((p.peer_type ≢ []) × (is_one_of peer_types p.peer_type ≡ false)))
unfolding refreshed
checks-refreshed_iff p r h =
    ground (arith, eq_iff p.peer_type [], eq_iff p.tunnel_type [], no_tunnel)

pub normalized : (t : Text) → is_one_of peer_types (normalize_peer_type t) ≡ true
unfolding normalize_peer_type
normalized t = elim (Bool-cases (is_one_of peer_types t)) [
  | inl e ↦ rw e e
  | inr e ↦ rw e (unfold is_one_of ◌==◌ in refl)
]

checks-new_row_iff :
    (p : Peer) (id now : ℕ)
    → (checks (new_row p id now) ≡ false) ↔ (is_one_of tunnel_types p.tunnel_type ≡ false)
unfolding new_row
checks-new_row_iff p id now = ground (arith, normalized p.peer_type)

-- In a valid registry `AddPeer` never runs into the UNIQUE constraint. It is refused exactly for a
-- tunnel type that is none of the four, or for a peer that is known already and a peer type that
-- is neither empty nor one of the three.
pub upsert_refused_iff :
    (p : Peer) (now : ℕ) (db : Db)
    → IsValidDb db
    → (upsert p now db ≡ err constraint) ↔ (
        (is_one_of tunnel_types p.tunnel_type ≡ false)
        ⊎ ((is_some (resolve p db.peers) ≡ true)
            × (p.peer_type ≢ [])
            × (is_one_of peer_types p.peer_type ≡ false)))
unfolding upsert
upsert_refused_iff p now db v = elim (Option-cases (resolve p db.peers)) [
  | inl e ↦
      let r = new_row p db.next_peer_id now in
      let stored =
        store_row-eq-err_iff r (db.peers ++ r ∷ []) (suc db.next_peer_id) p db
          (new_row-IsFree p db.peers db.next_peer_id now e) in
      let checked = checks-new_row_iff p db.next_peer_id now in
      (
        λ h. inl (checked.0 (stored.0 (rw (e, upsert) at h))),
        λ h. elim h [
          | inl t ↦ rw (e, upsert) (stored.1 (checked.1 t))
          | inr known ↦ cc (known.0, e)
        ],
      )
  | inr (r, e) ↦
      let r' = refreshed p r in
      let stored =
        store_row-eq-err_iff r' (replace_row r' db.peers) db.next_peer_id p db
          (refreshed-IsFree p db.peers r v.keys_differ e) in
      let checked =
        checks-refreshed_iff p r
          (All_at (λ x. checks x ≡ true) r db.peers v.checked (resolve-In p db.peers r e)) in
      (
        λ h. elim (checked.0 (stored.0 (rw (e, upsert) at h))) [
          | inl t ↦ inl t
          | inr (n, t) ↦ inr (rw e refl, n, t)
        ],
        λ h.
            rw (e, upsert)
              (stored.1 (checked.1 (elim h [ inl t ↦ inl t | inr (known, n, t) ↦ inr (n, t) ]))),
      )
]

-- Where `AddPeer` succeeds the peer's row is new, or it took the place of the one that was found.
pub upsert-rows :
    (p : Peer) (now : ℕ) (db db' : Db)
    → upsert p now db ≡ ok db'
    → ((resolve p db.peers ≡ none)
        × (db'.peers ≡ db.peers ++ new_row p db.next_peer_id now ∷ [])
        × (db'.next_peer_id ≡ suc db.next_peer_id))
      ⊎ ((o : PeerRow) × (resolve p db.peers ≡ some o)
          × (db'.peers ≡ replace_row (refreshed p o) db.peers)
          × (db'.next_peer_id ≡ db.next_peer_id))
unfolding upsert
upsert-rows p now db db' h = elim (Option-cases (resolve p db.peers)) [
  | inl e ↦
      let r = new_row p db.next_peer_id now in
      let (c, free, same, next) =
        store_row-eq-ok r (db.peers ++ r ∷ []) (suc db.next_peer_id) p db db'
          (rw (e, upsert) at h) in
      inl (e, same, next)
  | inr (o, e) ↦
      let r = refreshed p o in
      let (c, free, same, next) =
        store_row-eq-ok r (replace_row r db.peers) db.next_peer_id p db db' (rw (e, upsert) at h) in
      inr (o, e, same, next)
]

tested :
    (b : Bool) (d : Db)
    → ((db' : Db) × ((if b then ok d else err constraint) ≡ ok db'))
      ⊎ ((if b then ok d else err constraint) ≡ err constraint)
tested true d = inl (d, refl)
tested false d = inr refl

-- The constraints of the table are the only way to fail.
pub upsert-ok_or_constraint :
    (p : Peer) (now : ℕ) (db : Db)
    → ((db' : Db) × (upsert p now db ≡ ok db')) ⊎ (upsert p now db ≡ err constraint)
unfolding upsert
upsert-ok_or_constraint p now db = elim (Option-cases (resolve p db.peers)) [
  | inl e ↦
      let r = new_row p db.next_peer_id now in
      rw (e, upsert) (stored r (db.peers ++ r ∷ []) (suc db.next_peer_id))
  | inr (o, e) ↦
      let r = refreshed p o in rw (e, upsert) (stored r (replace_row r db.peers) db.next_peer_id)
]
  where
    stored :
        (r : PeerRow) (rows : List PeerRow) (n : ℕ)
        → ((db' : Db) × (store_row r rows n p db ≡ ok db'))
          ⊎ (store_row r rows n p db ≡ err constraint)
    stored r rows n = tested (checks r && key_is_free r db.peers) _
