-- ===== src/Announce/Tests.antt =====
-- A handshake with a signature that is its own message.
use red_engine.Prelude.{
  arith, ◌+◌, ◌≤◌, ◌≡◌, refl, ◌≢◌, ◌↔◌, Bool, true, false, none, some, List, [], ◌∷◌, if◌then◌else◌,
}
use red_engine.Text.{Text, text, ◌==◌}
use red_engine.Dict.{lookup}
use red_engine.Go.Hex.{encode, decode}
use red_engine.Registry.{PeerRow, Db, ok, err}
use red_engine.Registry.Peers
use red_engine.Registry.Peers.{get_peer_by_public_key, select}
use red_engine.Registry.Peers.Lookup.{moved}
use red_engine.Announce.{
  PendingChallenge, Node, ConfirmRequest, updated, confirm, check_nonce, check_proof, register,
}
use red_engine.Announce.Confirm.{IsKnown, IsAuthentic, confirm_updated_iff, confirm_effect}
use red_engine.Announce.Overlap.{check_nonce-confirm}
use red_engine.Announce.Runs.{
  Event, challenge_request, confirm_request, sweeper_tick, registrations, issues, pending_count,
  registrations-le-issues,
}

abbrev own_message : Text → Text → Text → Bool
own_message public_key message signature = signature == message

-- 32 bytes of 0xAA.
abbrev key : Text
key = text "aaaaaaaaaaaaaaaaaaaaaaaaaaaaaaaaaaaaaaaaaaaaaaaaaaaaaaaaaaaaaaaa"

abbrev peer_row : PeerRow
peer_row = record {
  id = 1;
  url = text "http://old";
  node_public_key = some key;
  name = text "mirror";
  peer_type = text "mirror";
  description = [];
  public_url = [];
  tunnel_type = [];
  is_online = false;
  online_checked_at = none;
  last_seen = none;
  added_at = 0;
}

abbrev db : Db
db = record {
  peers = peer_row ∷ [];
  next_peer_id = 2;
  exported_paths = [];
  health = [];
  node_settings = [];
  startup_sync = [];
  next_sync_id = 1;
  trusted_authors = [];
}

abbrev node : Node
node = record {
  registry = some db;
  challenge_store = (key, record { peer_id = 1; nonce = 1 ∷ 2 ∷ []; expires_at = 100 }) ∷ [];
}

-- The signature is the hex of "0102|u".
abbrev request : ConfirmRequest
request = record {
  public_key = key;
  new_url = text "u";
  nonce = text "0102";
  signature = text "303130327c75";
}

-- It is signed for another URL.
abbrev forged : ConfirmRequest
forged = record request { new_url = text "v" }

is_updated_request : (confirm own_message 50 request node).0 ≡ updated
unfolding ◌==◌ lookup encode decode confirm check_nonce check_proof register Peers.update_peer_url
is_updated_request = refl

is_refused_forged : (confirm own_message 50 forged node).0 ≢ updated
unfolding ◌==◌ lookup encode decode confirm check_nonce check_proof register Peers.update_peer_url
is_refused_forged e = cc

confirm_updated_iff_example : ((confirm own_message 50 request node).0 ≡ updated) ↔ (
    (pending : PendingChallenge) × (pub_bytes : Text) × (sig : Text) × IsAuthentic own_message 50
      request node pending pub_bytes sig
    × IsKnown key (some db))
confirm_updated_iff_example = confirm_updated_iff own_message 50 request node

confirm_effect_example :
    (get_peer_by_public_key key (confirm own_message 50 request node).1.registry
      ≡ elim (get_peer_by_public_key key (some db)) [
        | err e ↦ err e
        | ok (r, paths) ↦ ok (if key == key then moved (text "u") 50 r else r, paths)
      ])
    × (lookup key (confirm own_message 50 request node).1.challenge_store ≡ none)
confirm_effect_example =
    confirm_effect own_message 50 request node db key refl (λ e. cc) is_updated_request

abbrev replay : List Event
replay =
    challenge_request 10 (some (3 ∷ [])) true (some key)
    ∷ confirm_request 20 true (some request)
    ∷ confirm_request 30 true (some request)
    ∷ sweeper_tick 40
    ∷ []

registrations-le-issues_example :
    registrations own_message key replay node
    ≤ issues own_message key replay node + pending_count key node
registrations-le-issues_example = registrations-le-issues own_message key replay node

abbrev loaded : PendingChallenge
loaded = record { peer_id = 1; nonce = 1 ∷ 2 ∷ []; expires_at = 100 }

abbrev key_bytes : Text
key_bytes =
    0xaa ∷ 0xaa ∷ 0xaa ∷ 0xaa ∷ 0xaa ∷ 0xaa ∷ 0xaa ∷ 0xaa ∷ 0xaa ∷ 0xaa ∷ 0xaa ∷ 0xaa ∷ 0xaa ∷ 0xaa
    ∷ 0xaa ∷ 0xaa ∷ 0xaa ∷ 0xaa ∷ 0xaa ∷ 0xaa ∷ 0xaa ∷ 0xaa ∷ 0xaa ∷ 0xaa ∷ 0xaa ∷ 0xaa ∷ 0xaa
    ∷ 0xaa ∷ 0xaa ∷ 0xaa ∷ 0xaa ∷ 0xaa ∷ []

request-IsAuthentic : IsAuthentic own_message 50 request node loaded key_bytes (text "0102|u")
unfolding ◌==◌ lookup decode
request-IsAuthentic = record {
  has_key = λ e. cc;
  has_url = λ e. cc;
  has_nonce = λ e. cc;
  has_signature = λ e. cc;
  is_pending = refl;
  in_time = omega arith;
  nonce_matches = refl;
  key_decodes = refl;
  key_size = refl;
  signature_decodes = refl;
  signed = refl;
}

check_nonce-confirm_example :
    ((confirm own_message 50 request node).0 ≡ updated)
    × (lookup key (confirm own_message 50 request node).1.challenge_store ≡ none)
    × ((check_nonce own_message 51 request loaded (confirm own_message 50 request node).1).0
        ≡ updated)
check_nonce-confirm_example =
    check_nonce-confirm own_message 50 51 request node loaded key_bytes (text "0102|u")
      request-IsAuthentic (unfold ◌==◌ in refl) (omega arith)
