-- ===== src/Registry.antt =====
-- internal/registry/registry.go: the tables of the SQLite registry, the rows that their schemas
-- admit, and the results of statements. A statement is its effect on a table; one that breaks a
-- constraint is an error, after which the transaction is rolled back. Failures of the disk or the
-- driver are not modelled.
pub mod Peers
pub mod Settings
pub mod Sync
pub mod Migrate
pub mod Authors
pub mod Tests
use red_engine.Prelude.{
  ℕ, ◌≡◌, refl, Bool, true, false, ◌||◌, ◌⊎◌, inl, inr, Option, none, some, List, [], ◌∷◌, arith,
  if◌then◌else◌, any,
}
use red_engine.Text.{Text, text, ◌==◌}
use red_engine.Dict.{Dict}

-- peers. The times are counted from some start; NULL is `none`.
pub record PeerRow : Type 0 where
  pub id : ℕ
  pub url : Text
  pub node_public_key : Option Text
  pub name : Text
  pub peer_type : Text
  pub description : Text
  pub public_url : Text
  pub tunnel_type : Text
  pub is_online : Bool
  pub online_checked_at : Option ℕ
  pub last_seen : Option ℕ
  pub added_at : ℕ

-- peer_exported_paths
pub record PathRow : Type 0 where
  pub peer_id : ℕ
  pub path : Text

-- peer_health_history
pub record HealthRow : Type 0 where
  pub peer_id : ℕ
  pub checked_at : ℕ
  pub is_online : Bool
  pub latency_ms : ℕ

-- startup_sync
pub record SyncRow : Type 0 where
  pub id : ℕ
  pub url : Text
  pub filename : Text
  pub sync_type : Text
  pub last_synced_at : Option ℕ
  pub last_error : Text
  pub sync_status : Text
  pub added_at : ℕ

-- trusted_authors
pub record AuthorRow : Type 0 where
  pub public_key : Text
  pub name : Text
  pub imported_from : Text
  pub revoked : Bool
  pub revoked_at : Option ℕ

pub record Db : Type 0 where
  pub peers : List PeerRow
  pub next_peer_id : ℕ
  pub exported_paths : List PathRow
  pub health : List HealthRow
  pub node_settings : Dict Text
  pub startup_sync : List SyncRow
  pub next_sync_id : ℕ
  pub trusted_authors : List AuthorRow

pub data Error : Type 0 where
  not_init no_rows constraint : Error

pub data Result {ℓ} (A : Type ℓ) : Type ℓ where
  ok : A → Result A
  err : Error → Result A

pub Result-cases {ℓ} :
    {A : Type ℓ} (r : Result A) → ((a : A) × (r ≡ ok a)) ⊎ ((e : Error) × (r ≡ err e))
Result-cases (ok a) = inl (a, refl)
Result-cases (err e) = inr (e, refl)

-- The global `db`: none before `InitRegistry`.
abbrev pub Registry : Type 0
Registry = Option Db

-- A mutating function: it commits what it made of the tables, or changes nothing.
abbrev pub commit : Db → Result Db → Result (Unit {0}) × Registry
commit db (ok db') = (ok tt, some db')
commit db (err e) = (err e, some db)

abbrev pub exec : (Db → Result Db) → Registry → Result (Unit {0}) × Registry
exec f none = (err not_init, none)
exec f (some db) = commit db (f db)

abbrev pub query {ℓ} : {A : Type ℓ} → (Db → Result A) → Registry → Result A
query f none = err not_init
query f (some db) = f db

unfoldable pub is_one_of : List Text → Text → Bool
is_one_of l t = any (λ x. x == t) l

-- CHECK(peer_type IN (…)), CHECK(tunnel_type IN (…))
abbrev pub peer_types : List Text
peer_types = text "upstream" ∷ text "downstream" ∷ text "mirror" ∷ []

abbrev pub tunnel_types : List Text
tunnel_types = [] ∷ text "direct" ∷ text "cloudflare_quick" ∷ text "cloudflare_named" ∷ []

-- CHECK(sync_type IN (…)), CHECK(sync_status IN (…))
abbrev pub sync_types : List Text
sync_types = text "auto" ∷ text "git" ∷ text "tar.gz" ∷ text "zip" ∷ text "raw" ∷ text "peer" ∷ []

abbrev pub sync_statuses : List Text
sync_statuses = text "pending" ∷ text "ok" ∷ text "error" ∷ text "disabled" ∷ []
