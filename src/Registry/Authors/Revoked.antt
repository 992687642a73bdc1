-- ===== src/Registry/Authors/Revoked.antt =====
-- What revoking and trusting an author, in internal/router/contributors.go, do to the trusted keys
-- that `loadSecurityData` of internal/store/store.go reads and to the articles that it verifies.
use red_engine.Prelude.{
  ℕ, ◌≡◌, ◌≢◌, ◌⊎◌, refl, ap, true, false, none, some, List, [], ◌∷◌, ◌++◌, arith, if◌then◌else◌,
  inl, inr, any, All, Bool-cases, length,
}
use red_engine.Text.{Text, eq_iff, to_lower}
use red_engine.Dict.{Dict, lookup, insert, lookup-insert}
use red_engine.Registry.{AuthorRow, Db, Registry}
use red_engine.Registry.Authors.{
  Contributor, of_key, restore, new_author, trust, add_contributor, is_revocable, revoke,
  revoke_contributor, trusted_of,
}
use red_engine.Store.Verify.{Platform, ManifestEntry, verify, check_entry}
use red_engine.Store.Update.{load_trusted_keys}

-- The row's key is `key` or a spelling of another one, not `key` in other letter case.
abbrev pub IsSpelled : Text → AuthorRow → Type 0
IsSpelled key r = (r.public_key ≡ key) ⊎ (to_lower r.public_key ≢ to_lower key)

lookup-revoke :
    (key : Text) (now : ℕ) (rows : List AuthorRow) (keys : Dict Text)
    → All (IsSpelled key) rows
    → lookup (to_lower key) keys ≡ none
    → lookup (to_lower key) (load_trusted_keys keys (trusted_of (revoke key now rows))) ≡ none
unfolding trusted_of load_trusted_keys revoke
lookup-revoke key now [] keys _ gone = gone
lookup-revoke key now (r ∷ rows) keys (one, others) gone = elim one [
  | inl same ↦ elim (Bool-cases r.revoked) [
    | inl e ↦ ground (arith, lookup-revoke key now rows keys others gone)
    | inr e ↦ ground (arith, lookup-revoke key now rows keys others gone, eq_iff r.public_key key)
  ]
  | inr other ↦
      let keys' = insert (to_lower r.public_key) r.name keys in
      ground (
        arith,
        lookup-revoke key now rows keys others gone,
        lookup-revoke key now rows keys' others,
        lookup-insert (to_lower r.public_key) (to_lower key) r.name keys,
        eq_iff (to_lower r.public_key) (to_lower key),
        eq_iff r.public_key key,
      )
]

lookup-restore :
    (key name : Text) (rows : List AuthorRow) (keys : Dict Text)
    → All (IsSpelled key) rows
    → (any (of_key key) rows ≡ true) ⊎ (lookup (to_lower key) keys ≡ some name)
    → lookup (to_lower key) (load_trusted_keys keys (trusted_of (restore key name rows)))
      ≡ some name
unfolding trusted_of load_trusted_keys restore
lookup-restore key name [] keys _ known = ground arith
lookup-restore key name (r ∷ rows) keys (one, others) known =
    let keys' = insert (to_lower r.public_key) r.name keys in
    elim one [
      | inl same ↦ ground (
        arith,
        lookup-restore key name rows (insert (to_lower r.public_key) name keys) others,
        lookup-insert (to_lower r.public_key) (to_lower key) name keys,
        ap to_lower same,
        eq_iff (to_lower r.public_key) (to_lower key),
        eq_iff r.public_key key,
      )
      | inr other ↦ ground (
        arith,
        lookup-restore key name rows keys others,
        lookup-restore key name rows keys' others,
        lookup-insert (to_lower r.public_key) (to_lower key) r.name keys,
        eq_iff (to_lower r.public_key) (to_lower key),
        eq_iff r.public_key key,
      )
    ]

lookup-new_author :
    (key : Text) (row : AuthorRow) (rows : List AuthorRow) (keys : Dict Text)
    → row.public_key ≡ key
    → row.revoked ≡ false
    → lookup (to_lower key) (load_trusted_keys keys (trusted_of (rows ++ row ∷ []))) ≡ some row.name
unfolding trusted_of load_trusted_keys
lookup-new_author key row [] keys same trusted = ground (
  arith,
  lookup-insert (to_lower row.public_key) (to_lower key) row.name keys,
  ap to_lower same,
  eq_iff (to_lower row.public_key) (to_lower key),
)
lookup-new_author key row (r ∷ rows) keys same trusted = ground (
  arith,
  lookup-new_author key row rows keys same trusted,
  lookup-new_author key row rows (insert (to_lower r.public_key) r.name keys) same trusted,
)

abbrev pub authors_of : Registry → List AuthorRow
authors_of none = []
authors_of (some db) = db.trusted_authors

abbrev pub trusted_by : Registry → Dict Text
trusted_by registry = load_trusted_keys [] (trusted_of (authors_of registry))

-- After a request to revoke a key that is not empty, in a registry where the key is spelled in one
-- letter case only, no content is verified by a manifest entry of the key in any letter case. The
-- reply is 200 if the key had a row that was not revoked and 404 if not.
pub revoke_contributor-not-verified :
    (key : Text) (now : ℕ) (db : Db) (pf : Platform) (signatures : Dict ManifestEntry)
    (path content : Text) (entry : ManifestEntry)
    → key ≢ []
    → All (IsSpelled key) db.trusted_authors
    → lookup path signatures ≡ some entry
    → to_lower entry.public_key ≡ to_lower key
    → let (status, registry) = revoke_contributor (some key) now (some db) in
      (status ≡ (if any (is_revocable key) db.trusted_authors then 200 else 404))
      × ((verify pf (trusted_by registry) signatures path content).is_verified ≡ false)
unfolding revoke_contributor verify check_entry lookup
revoke_contributor-not-verified key now db pf signatures path content entry filled spelled e same =
    let untrusted = lookup-revoke key now db.trusted_authors [] spelled refl in
    ground (arith, eq_iff key [])

-- A contributor who is added with a name and a key of 64 bytes, in a registry where the key is
-- spelled in one letter case only, is trusted under that name afterwards, revoked before or not;
-- every other request leaves the registry alone.
pub add_contributor-trusted :
    (req : Contributor) (db : Db)
    → All (IsSpelled req.public_key) db.trusted_authors
    → let (status, registry) = add_contributor (some req) (some db) in
      ((status ≡ 201)
        × (req.name ≢ [])
        × (length req.public_key ≡ 64)
        × (lookup (to_lower req.public_key) (trusted_by registry) ≡ some req.name))
      ⊎ ((status ≡ 400) × (registry ≡ some db))
unfolding add_contributor trust
add_contributor-trusted req db spelled =
    elim (Bool-cases (any (of_key req.public_key) db.trusted_authors)) [
      | inl known ↦ ground (
        arith,
        eq_iff req.name [],
        lookup-restore req.public_key req.name db.trusted_authors [] spelled (inl known),
      )
      | inr fresh ↦ ground (
        arith,
        eq_iff req.name [],
        lookup-new_author req.public_key (new_author req.public_key req.name) db.trusted_authors []
            refl refl,
      )
    ]
