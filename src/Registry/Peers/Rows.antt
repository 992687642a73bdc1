-- ===== src/Registry/Peers/Rows.antt =====
-- Rows of `peers` that are replaced or appended by internal/registry/registry.go.
use red_engine.Prelude.{
  Pairwise, ℕ, suc, ◌<◌, ◌≡◌, refl, ◌≢◌, ◌⊎◌, inl, inr, true, List, [], ◌∷◌, ◌++◌, arith, All,
  All-append, eqb, Bool-cases,
}
use red_engine.Registry.{PeerRow}
use red_engine.Registry.Peers.{checks, replace_row}
use red_engine.Registry.Peers.Valid.{OtherKey, OtherId, IsValid, IsFree, OtherKey-symm}

replace_row_of_absent :
    (r : PeerRow) (rows : List PeerRow) → All (λ o. o.id ≢ r.id) rows → replace_row r rows ≡ rows
unfolding replace_row
replace_row_of_absent r [] h = refl
replace_row_of_absent r (o ∷ rows) (n, h) = ground (arith, replace_row_of_absent r rows h)

module _ (P : PeerRow → Type 0) (r : PeerRow) (new : P r) where
  pub All-replace_row : (rows : List PeerRow) → All P rows → All P (replace_row r rows)
  unfolding replace_row
  All-replace_row [] h = tt
  All-replace_row (o ∷ rows) (p, h) = elim (Bool-cases (eqb o.id r.id)) [
    | inl e ↦ rw e (new, All-replace_row rows h)
    | inr e ↦ rw e (p, All-replace_row rows h)
  ]

All-OtherId_symm :
    (o r : PeerRow) (rows : List PeerRow)
    → o.id ≡ r.id
    → All (OtherId o) rows
    → All (λ x. x.id ≢ r.id) rows
All-OtherId_symm o r [] e h = tt
All-OtherId_symm o r (x ∷ rows) e (n, h) = (ground arith, All-OtherId_symm o r rows e h)

All-OtherId_same :
    (o r : PeerRow) (rows : List PeerRow)
    → o.id ≡ r.id
    → All (OtherId o) rows
    → All (OtherId r) rows
All-OtherId_same o r [] e h = tt
All-OtherId_same o r (x ∷ rows) e (n, h) = (ground arith, All-OtherId_same o r rows e h)

replace_row-ids_differ :
    (r : PeerRow) (rows : List PeerRow)
    → Pairwise OtherId rows
    → Pairwise OtherId (replace_row r rows)
unfolding replace_row
replace_row-ids_differ r [] h = tt
replace_row-ids_differ r (o ∷ rows) (n, h) = elim (Bool-cases (eqb o.id r.id)) [
  | inl e ↦
      let same : o.id ≡ r.id = ground arith in
      rw (e, replace_row_of_absent r rows (All-OtherId_symm o r rows same n))
        (All-OtherId_same o r rows same n, h)
  | inr e ↦
      rw e (All-replace_row (OtherId o) r (ground arith) rows n, replace_row-ids_differ r rows h)
]

All-OtherKey_of_IsFree :
    (r : PeerRow) (rows : List PeerRow)
    → All (λ o. o.id ≢ r.id) rows
    → IsFree r rows
    → All (OtherKey r) rows
unfolding IsFree
All-OtherKey_of_IsFree r [] n h = tt
All-OtherKey_of_IsFree r (o ∷ rows) (n, ns) (f, h) =
    (elim f [ inl e ↦ absurd (n e) | inr d ↦ d ], All-OtherKey_of_IsFree r rows ns h)

replace_row-keys_differ :
    (r : PeerRow) (rows : List PeerRow)
    → Pairwise OtherId rows
    → Pairwise OtherKey rows
    → IsFree r rows
    → Pairwise OtherKey (replace_row r rows)
unfolding replace_row IsFree
replace_row-keys_differ r [] i h f = tt
replace_row-keys_differ r (o ∷ rows) (n, i) (d, h) (f, fs) = elim (Bool-cases (eqb o.id r.id)) [
  | inl e ↦
      let absent = All-OtherId_symm o r rows (ground arith) n in
      rw (e, replace_row_of_absent r rows absent) (All-OtherKey_of_IsFree r rows absent fs, h)
  | inr e ↦
      let other : OtherKey o r = elim f [
        | inl same ↦ absurd (ground arith)
        | inr k ↦ OtherKey-symm r o k
      ] in
      rw e (All-replace_row (OtherKey o) r other rows d, replace_row-keys_differ r rows i h fs)
]

-- A row that passes the constraints takes the place of its old version.
pub replace_row-IsValid :
    (r : PeerRow) (rows : List PeerRow) (next_id : ℕ)
    → IsValid rows next_id
    → r.id < next_id
    → checks r ≡ true
    → IsFree r rows
    → IsValid (replace_row r rows) next_id
replace_row-IsValid r rows next_id v below c free = record {
  ids_below = All-replace_row (λ x. x.id < next_id) r below rows v.ids_below;
  ids_differ = replace_row-ids_differ r rows v.ids_differ;
  keys_differ = replace_row-keys_differ r rows v.ids_differ v.keys_differ free;
  checked = All-replace_row (λ x. checks x ≡ true) r c rows v.checked;
}

Pairwise-append_one :
    (R : PeerRow → PeerRow → Type 0) (r : PeerRow) (rows : List PeerRow)
    → Pairwise R rows
    → All (λ o. R o r) rows
    → Pairwise R (rows ++ r ∷ [])
Pairwise-append_one R r [] h k = (tt, tt)
Pairwise-append_one R r (o ∷ rows) (h, hs) (k, ks) =
    (All-append (R o) rows (r ∷ []) h (k, tt), Pairwise-append_one R r rows hs ks)

All-mono :
    (P Q : PeerRow → Type 0) (rows : List PeerRow)
    → ((o : PeerRow) → P o → Q o)
    → All P rows
    → All Q rows
All-mono P Q [] f h = tt
All-mono P Q (o ∷ rows) f (p, h) = (f o p, All-mono P Q rows f h)

All-both :
    (P Q : PeerRow → Type 0) (rows : List PeerRow)
    → All P rows
    → All Q rows
    → All (λ o. P o × Q o) rows
All-both P Q [] h k = tt
All-both P Q (o ∷ rows) (p, h) (q, k) = ((p, q), All-both P Q rows h k)

-- A row with the next id that passes the constraints joins the table.
pub append_row-IsValid :
    (r : PeerRow) (rows : List PeerRow) (next_id : ℕ)
    → IsValid rows next_id
    → r.id ≡ next_id
    → checks r ≡ true
    → IsFree r rows
    → IsValid (rows ++ r ∷ []) (suc next_id)
unfolding IsFree
append_row-IsValid r rows next_id v e c free =
    let others : All (λ o. OtherKey o r) rows =
      All-mono (λ o. (o.id < next_id) × ((o.id ≡ r.id) ⊎ OtherKey r o)) (λ o. OtherKey o r) rows
        (λ o (below, f). elim f [ inl same ↦ absurd (omega arith) | inr k ↦ OtherKey-symm r o k ])
        (All-both (λ o. o.id < next_id) _ rows v.ids_below free) in
    record {
      ids_below =
          All-append (λ x. x.id < suc next_id) rows (r ∷ [])
            (All-mono (λ x. x.id < next_id) _ rows (λ o h. omega arith) v.ids_below)
            (omega arith, tt);
      ids_differ =
          Pairwise-append_one OtherId r rows v.ids_differ
            (All-mono (λ x. x.id < next_id) _ rows (λ o h. ground arith) v.ids_below);
      keys_differ = Pairwise-append_one OtherKey r rows v.keys_differ others;
      checked = All-append (λ x. checks x ≡ true) rows (r ∷ []) v.checked (c, tt);
    }
