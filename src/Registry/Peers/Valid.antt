-- ===== src/Registry/Peers/Valid.antt =====
-- The peers of internal/registry/registry.go stay valid: ids and keys are unique and every row
-- passes its CHECKs; and when `AddPeer` is refused.
use red_engine.Prelude.{
  ℕ, ◌<◌, ◌≡◌, refl, sym, ap, subst, ◌≢◌, ◌↔◌, ◌⊎◌, inl, inr, Bool, true, none, some, List, [], ◌∷◌,
  arith, All, Pairwise, Bool-cases, Option-cases,
}
use red_engine.Text.{Text, ◌==◌, eq_iff}
use red_engine.Registry.{PeerRow}
use red_engine.Registry.Peers.{
  Peer, has_key, has_url, select, resolve, refreshed, checks, key_is_free,
}

-- UNIQUE admits NULL in many rows.
abbrev pub OtherKey : PeerRow → PeerRow → Type 0
OtherKey a b = (a.node_public_key ≡ none) ⊎ (a.node_public_key ≢ b.node_public_key)

abbrev pub OtherId : PeerRow → PeerRow → Type 0
OtherId a b = a.id ≢ b.id

pub record IsValid (rows : List PeerRow) (next_id : ℕ) : Type 0 where
  pub ids_below : All (λ r. r.id < next_id) rows
  pub ids_differ : Pairwise OtherId rows
  pub keys_differ : Pairwise OtherKey rows
  pub checked : All (λ r. checks r ≡ true) rows

-- What `key_is_free` tests.
unfoldable pub IsFree : PeerRow → List PeerRow → Type 0
IsFree r rows = All (λ o. (o.id ≡ r.id) ⊎ OtherKey r o) rows

pub has_key_iff : (k : Text) (o : PeerRow) → (has_key k o ≡ true) ↔ (o.node_public_key ≡ some k)
has_key_iff k o = elim (Option-cases o.node_public_key) [
  | inl e ↦ ground arith
  | inr (j, e) ↦ ground (arith, eq_iff j k)
]

pub IsFree-iff : (r : PeerRow) (rows : List PeerRow) → (key_is_free r rows ≡ true) ↔ IsFree r rows
unfolding IsFree
IsFree-iff r [] = ground arith
IsFree-iff r (o ∷ rows) = elim (Option-cases r.node_public_key) [
  | inl e ↦ ground (arith, IsFree-iff r rows)
  | inr (k, e) ↦ ground (arith, IsFree-iff r rows, has_key_iff k o)
]

abbrev pub In : PeerRow → List PeerRow → Type 0
In r [] = ⊥
In r (o ∷ rows) = (r ≡ o) ⊎ In r rows

pub All_at :
    (P : PeerRow → Type 0) (r : PeerRow) (rows : List PeerRow) → All P rows → In r rows → P r
All_at P r (o ∷ rows) (p, h) (inl e) = subst P (sym e) p
All_at P r (o ∷ rows) (p, h) (inr i) = All_at P r rows h i
All_at P r [] h i = absurd i

pub OtherKey-symm : (a b : PeerRow) → OtherKey a b → OtherKey b a
OtherKey-symm a b h = elim (Option-cases b.node_public_key) [
  | inl e ↦ inl e
  | inr (k, e) ↦ inr (λ s. elim h [ inl n ↦ cc | inr d ↦ d (sym s) ])
]

IsFree-of_In :
    (r : PeerRow) (rows : List PeerRow) → In r rows → Pairwise OtherKey rows → IsFree r rows
unfolding IsFree
IsFree-of_In r [] i h = tt
IsFree-of_In r (o ∷ rows) (inl e) (h, hs) =
    (inl (ap (λ (x : PeerRow). x.id) (sym e)), others rows h)
  where
    others : (l : List PeerRow) → All (OtherKey o) l → All (λ x. (x.id ≡ r.id) ⊎ OtherKey r x) l
    others [] k = tt
    others (x ∷ l) (k, ks) = (inr (subst (λ y. OtherKey y x) (sym e) k), others l ks)
IsFree-of_In r (o ∷ rows) (inr i) (h, hs) =
    (inr (OtherKey-symm o r (All_at (OtherKey o) r rows h i)), IsFree-of_In r rows i hs)

IsFree-of_key :
    (r r' : PeerRow) (rows : List PeerRow)
    → r'.id ≡ r.id
    → r'.node_public_key ≡ r.node_public_key
    → IsFree r rows
    → IsFree r' rows
unfolding IsFree
IsFree-of_key r r' [] i k h = tt
IsFree-of_key r r' (o ∷ rows) i k (f, h) = (ground arith, IsFree-of_key r r' rows i k h)

pub IsFree-of_none :
    (r : PeerRow) (k : Text) (rows : List PeerRow)
    → r.node_public_key ≡ some k
    → select (has_key k) rows ≡ none
    → IsFree r rows
unfolding IsFree select
IsFree-of_none r k [] e h = tt
IsFree-of_none r k (o ∷ rows) e h =
    (ground (arith, has_key_iff k o), IsFree-of_none r k rows e (ground arith))

select-In :
    (p : PeerRow → Bool) (rows : List PeerRow) (r : PeerRow) → select p rows ≡ some r → In r rows
unfolding select
select-In p [] r h = cc
select-In p (o ∷ rows) r h = elim (Bool-cases (p o)) [
  | inl e ↦ inl (ground arith)
  | inr e ↦ inr (select-In p rows r (ground arith))
]

pub select-true :
    (p : PeerRow → Bool) (rows : List PeerRow) (r : PeerRow) → select p rows ≡ some r → p r ≡ true
unfolding select
select-true p [] r h = cc
select-true p (o ∷ rows) r h = ground (arith, select-true p rows r)

pub resolve-In :
    (p : Peer) (rows : List PeerRow) (r : PeerRow) → resolve p rows ≡ some r → In r rows
unfolding resolve
resolve-In p rows r h =
    ground (arith, select-In (has_url p.url) rows r, select-In (has_key p.public_key) rows r)

-- The key that a refreshed row takes is no other row's.
pub refreshed-IsFree :
    (p : Peer) (rows : List PeerRow) (r : PeerRow)
    → Pairwise OtherKey rows
    → resolve p rows ≡ some r
    → IsFree (refreshed p r) rows
refreshed-IsFree p rows r d h =
    let free = IsFree-of_In r rows (resolve-In p rows r h) d in
    elim (Bool-cases (p.public_key == [])) [
      | inl e ↦
          IsFree-of_key r (refreshed p r) rows (unfold refreshed in refl)
            (unfold refreshed in ground arith) free
      | inr e ↦ elim (Option-cases (select (has_key p.public_key) rows)) [
        | inl n ↦
            IsFree-of_none (refreshed p r) p.public_key rows (unfold refreshed in ground arith) n
        | inr (o, s) ↦
            IsFree-of_key r (refreshed p r) rows (unfold refreshed in refl)
              (unfold refreshed resolve in
                ground
                  (arith, has_key_iff p.public_key o, select-true (has_key p.public_key) rows o s))
              free
      ]
    ]
