-- ===== src/Announce/Overlap.antt =====
-- Two requests to `announceConfirm` of internal/router/announce.go that overlap: both load the pending
-- challenge, and then each goes on from `check_nonce` with what it has loaded.
use red_engine.Prelude.{ℕ, ◌≤◌, ◌≡◌, sym, subst, Bool, true, none, some, List, [], ◌∷◌, arith, any}
use red_engine.Text.{Text, eq_iff}
use red_engine.Dict.{lookup, lookup-delete_self}
use red_engine.Registry.{PeerRow, Registry}
use red_engine.Registry.Peers.{has_key, set_url, update_peer_url}
use red_engine.Announce.{
  PendingChallenge, Node, ConfirmRequest, updated, register, confirm, check_proof, check_nonce,
}
use red_engine.Announce.Confirm.{IsKnown, IsAuthentic, register_updated}

any-set_url :
    (key url : Text) (now : ℕ) (rows : List PeerRow)
    → any (has_key key) rows ≡ true
    → any (has_key key) (set_url key url now rows) ≡ true
unfolding set_url
any-set_url key url now [] h = h
any-set_url key url now (r ∷ rows) h = ground (arith, any-set_url key url now rows)

IsKnown-update_peer_url :
    (key url : Text) (now : ℕ) (registry : Registry)
    → IsKnown key registry
    → IsKnown key (update_peer_url key url now registry).1
unfolding update_peer_url
IsKnown-update_peer_url key url now none h = absurd h
IsKnown-update_peer_url key url now (some db) h = rw h (any-set_url key url now db.peers h)

module _ (verify : Text → Text → Text → Bool) where
  -- A request that is authentic for a challenge that it has loaded registers on any node that knows
  -- its key, whatever is pending there.
  check_nonce-register :
      (now later : ℕ) (req : ConfirmRequest) (node other : Node) (pending : PendingChallenge)
      (pub_bytes sig : Text)
      → IsAuthentic verify now req node pending pub_bytes sig
      → later ≤ pending.expires_at
      → check_nonce verify later req pending other ≡ register later req other
  unfolding check_nonce check_proof
  check_nonce-register now later req node other c k s a in_time = ground (
    arith,
    eq_iff c.nonce c.nonce,
    a.nonce_matches,
    a.key_decodes,
    a.key_size,
    a.signature_decodes,
    a.signed,
  )

  confirm-register :
      (now : ℕ) (req : ConfirmRequest) (node : Node) (pending : PendingChallenge)
      (pub_bytes sig : Text)
      → IsAuthentic verify now req node pending pub_bytes sig
      → confirm verify now req node ≡ register now req node
  unfolding confirm
  confirm-register now req node c k s a =
      let rest = check_nonce-register now now req node node c k s a a.in_time in
      ground (
        arith,
        rest,
        a.is_pending,
        eq_iff req.public_key [],
        eq_iff req.new_url [],
        eq_iff req.nonce [],
        eq_iff req.signature [],
        a.has_key,
        a.has_url,
        a.has_nonce,
        a.has_signature,
      )

  register-registry :
      (now : ℕ) (req : ConfirmRequest) (node : Node)
      → (register now req node).1.registry
        ≡ (update_peer_url req.public_key req.new_url now node.registry).1
  unfolding register
  register-registry now req node = ground arith

  register-gone :
      (now : ℕ) (req : ConfirmRequest) (node : Node)
      → (register now req node).0 ≡ updated
      → lookup req.public_key (register now req node).1.challenge_store ≡ none
  unfolding register
  register-gone now req node h =
      ground (arith, lookup-delete_self req.public_key node.challenge_store)

  register-IsKnown :
      (now : ℕ) (req : ConfirmRequest) (node : Node)
      → IsKnown req.public_key node.registry
      → ((register now req node).0 ≡ updated)
        × IsKnown req.public_key (register now req node).1.registry
        × (lookup req.public_key (register now req node).1.challenge_store ≡ none)
  register-IsKnown now req node known =
      let done = (register_updated verify now req node).1 known in
      let kept = IsKnown-update_peer_url req.public_key req.new_url now node.registry known in
      (
        done,
        subst (IsKnown req.public_key) (sym (register-registry now req node)) kept,
        register-gone now req node done,
      )

  -- Let a request that proves possession of a known key have loaded the pending challenge, and let
  -- the same request then be handled to its end before the first goes on. The one that is handled
  -- registers the URL and takes the challenge away; and the other, in the time of the challenge,
  -- registers it once more, though none is pending.
  pub check_nonce-confirm :
      (now later : ℕ) (req : ConfirmRequest) (node : Node) (pending : PendingChallenge)
      (pub_bytes sig : Text)
      → IsAuthentic verify now req node pending pub_bytes sig
      → IsKnown req.public_key node.registry
      → later ≤ pending.expires_at
      → ((confirm verify now req node).0 ≡ updated)
        × (lookup req.public_key (confirm verify now req node).1.challenge_store ≡ none)
        × ((check_nonce verify later req pending (confirm verify now req node).1).0 ≡ updated)
  check_nonce-confirm now later req node c k s a known in_time =
      let first = confirm-register now req node c k s a in
      let (done, still, gone) = register-IsKnown now req node known in
      let again =
        check_nonce-register now later req node (register now req node).1 c k s a in_time in
      (
        rw first done,
        rw first gone,
        rw (first, again) ((register_updated verify later req (register now req node).1).1 still),
      )
