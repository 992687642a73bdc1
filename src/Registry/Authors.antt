-- ===== src/Registry/Authors.antt =====
-- The table of trusted authors, as `addContributorToDB` and `revokeContributor` of
-- internal/router/contributors.go change it and `loadSecurityData` of internal/store/store.go
-- selects it. The handlers' replies are their HTTP statuses.
pub mod Revoked
use red_engine.Prelude.{
  ℕ, ◌≡◌, Bool, true, false, not, ◌&&◌, ◌||◌, Option, none, some, List, [], ◌∷◌, ◌++◌, map, arith,
  if◌then◌else◌, keep, any, eqb, length,
}
use red_engine.Text.{Text, text, ◌==◌}
use red_engine.Registry.{AuthorRow, Db, Registry}

-- The body of a request, none where it is not the JSON of one.
pub record Contributor : Type 0 where
  pub name : Text
  pub public_key : Text

abbrev pub of_key : Text → AuthorRow → Bool
of_key key row = row.public_key == key

unfoldable pub restore : Text → Text → List AuthorRow → List AuthorRow
restore key name [] = []
restore key name (r ∷ rows) =
    (if of_key key r then record r { name = name; revoked = false; revoked_at = none } else r)
    ∷ restore key name rows

abbrev pub new_author : Text → Text → AuthorRow
new_author key name = record {
  public_key = key;
  name = name;
  imported_from = text "local";
  revoked = false;
  revoked_at = none;
}

-- INSERT … ON CONFLICT(public_key) DO UPDATE
unfoldable pub trust : Text → Text → List AuthorRow → List AuthorRow
unfolding restore
trust key name rows =
    if any (of_key key) rows then restore key name rows else rows ++ new_author key name ∷ []

unfoldable pub add_contributor : Option Contributor → Registry → ℕ × Registry
unfolding trust
add_contributor none registry = (400, registry)
add_contributor (some req) registry =
    if req.name == [] || req.public_key == []
    then (400, registry)
    else if not (eqb (length req.public_key) 64)
    then (400, registry)
    else elim registry [
      | none ↦ (500, none)
      | some db ↦ (
        201,
        some (record db { trusted_authors = trust req.public_key req.name db.trusted_authors }),
      )
    ]

abbrev pub is_revocable : Text → AuthorRow → Bool
is_revocable key row = of_key key row && not row.revoked

unfoldable pub revoke : Text → ℕ → List AuthorRow → List AuthorRow
revoke key now [] = []
revoke key now (r ∷ rows) =
    (if is_revocable key r then record r { revoked = true; revoked_at = some now } else r)
    ∷ revoke key now rows

-- The body is the key of the request.
unfoldable pub revoke_contributor : Option Text → ℕ → Registry → ℕ × Registry
unfolding revoke
revoke_contributor none now registry = (400, registry)
revoke_contributor (some key) now registry = if key == [] then (400, registry) else elim registry [
  | none ↦ (500, none)
  | some db ↦ (
    if any (is_revocable key) db.trusted_authors then 200 else 404,
    some (record db { trusted_authors = revoke key now db.trusted_authors }),
  )
]

-- SELECT public_key, name FROM trusted_authors WHERE revoked = 0
unfoldable pub trusted_of : List AuthorRow → List (Text × Text)
trusted_of [] = []
trusted_of (r ∷ rows) =
    if r.revoked then trusted_of rows else (r.public_key, r.name) ∷ trusted_of rows
