-- ===== src/Announce/Confirm.antt =====
-- When `announceConfirm` of internal/router/announce.go changes a URL, and what it leaves behind.
use red_engine.Prelude.{
  ℕ, ◌≤◌, ◌≡◌, ◌≢◌, ◌↔◌, ◌⊎◌, inl, inr, Bool, true, none, some, [], ◌++◌, arith, if◌then◌else◌,
  length, any, Option-cases,
}
use red_engine.Text.{Text, text, ◌==◌, eq_iff}
use red_engine.Dict.{lookup, lookup-delete, lookup-delete_self}
use red_engine.Go.Hex.{decode}
use red_engine.Registry.{Db, Registry, ok, err}
use red_engine.Registry.Peers.{has_key, update_peer_url, get_peer_by_public_key}
use red_engine.Registry.Peers.Lookup.{moved, get-update_peer_url}
use red_engine.Announce.{PendingChallenge, Node, ConfirmRequest, updated, register, confirm}

abbrev pub IsKnown : Text → Registry → Type 0
IsKnown key none = ⊥
IsKnown key (some db) = any (has_key key) db.peers ≡ true

-- A request that proves that its sender holds the key, for a challenge that is pending for it.
pub record IsAuthentic (verify : Text → Text → Text → Bool) (now : ℕ) (req : ConfirmRequest)
    (node : Node) (pending : PendingChallenge) (pub_bytes sig : Text) : Type 0 where
  pub has_key : req.public_key ≢ []
  pub has_url : req.new_url ≢ []
  pub has_nonce : req.nonce ≢ []
  pub has_signature : req.signature ≢ []
  pub is_pending : lookup req.public_key node.challenge_store ≡ some pending
  pub in_time : now ≤ pending.expires_at
  pub nonce_matches : decode req.nonce ≡ some pending.nonce
  pub key_decodes : decode req.public_key ≡ some pub_bytes
  pub key_size : length pub_bytes ≡ 32
  pub signature_decodes : decode req.signature ≡ some sig
  pub signed : verify pub_bytes (req.nonce ++ (text "|" ++ req.new_url)) sig ≡ true

module _ (verify : Text → Text → Text → Bool) (now : ℕ) (req : ConfirmRequest) (node : Node) where
  pub register_updated :
      ((register now req node).0 ≡ updated) ↔ IsKnown req.public_key node.registry
  unfolding register update_peer_url
  register_updated = ground arith

  -- A response other than "updated" leaves the registry as it was.
  pub confirm_refused_keeps :
      (confirm verify now req node).0 ≢ updated
      → (confirm verify now req node).1.registry ≡ node.registry
  unfolding confirm update_peer_url
  confirm_refused_keeps h = ground arith

  confirm_sound :
      (confirm verify now req node).0 ≡ updated
      → (pending : PendingChallenge) × (pub_bytes : Text) × (sig : Text) × IsAuthentic verify now
          req node pending pub_bytes sig
        × IsKnown req.public_key node.registry
  unfolding confirm
  confirm_sound h = elim (Option-cases (lookup req.public_key node.challenge_store)) [
    | inl e ↦ ground arith
    | inr (c, e) ↦ elim (Option-cases (decode req.public_key)) [
      | inl e1 ↦ ground arith
      | inr (k, e1) ↦ elim (Option-cases (decode req.signature)) [
        | inl e2 ↦ ground arith
        | inr (s, e2) ↦ elim (Option-cases (decode req.nonce)) [
          | inl e3 ↦ ground arith
          | inr (n, e3) ↦ (
            c,
            k,
            s,
            ground (
              arith,
              eq_iff n c.nonce,
              eq_iff req.public_key [],
              eq_iff req.new_url [],
              eq_iff req.nonce [],
              eq_iff req.signature [],
            ),
            register_updated.0 (ground arith),
          )
        ]
      ]
    ]
  ]

  confirm_complete :
      (pending : PendingChallenge) (pub_bytes sig : Text)
      → IsAuthentic verify now req node pending pub_bytes sig
      → IsKnown req.public_key node.registry
      → (confirm verify now req node).0 ≡ updated
  unfolding confirm
  confirm_complete c k s a known =
      let done = register_updated.1 known in
      ground (
        arith,
        eq_iff c.nonce c.nonce,
        eq_iff req.public_key [],
        eq_iff req.new_url [],
        eq_iff req.nonce [],
        eq_iff req.signature [],
      )

  -- A URL is registered exactly by a request that proves possession of a key which is known to the
  -- registry, within the time of a challenge that is pending for it.
  pub confirm_updated_iff : ((confirm verify now req node).0 ≡ updated) ↔ (
      (pending : PendingChallenge) × (pub_bytes : Text) × (sig : Text) × IsAuthentic verify now req
        node pending pub_bytes sig
      × IsKnown req.public_key node.registry)
  confirm_updated_iff = (confirm_sound, λ (c, k, s, a, known). confirm_complete c k s a known)

  confirm_registers :
      (confirm verify now req node).0 ≡ updated
      → (confirm verify now req node).1.registry
        ≡ (update_peer_url req.public_key req.new_url now node.registry).1
  unfolding confirm
  confirm_registers h = ground arith

  pub confirm_consumes :
      (confirm verify now req node).0 ≡ updated
      → lookup req.public_key (confirm verify now req node).1.challenge_store ≡ none
  unfolding confirm
  confirm_consumes h = ground (arith, lookup-delete_self req.public_key node.challenge_store)

  -- After a request that updates a URL in an open registry, the peer of the request's key is found
  -- by it as it was, but at the new URL and seen now; what any other key that is not empty finds
  -- stays; and the challenge is gone.
  pub confirm_effect :
      (db : Db) (asked : Text)
      → node.registry ≡ some db
      → asked ≢ []
      → (confirm verify now req node).0 ≡ updated
      → (get_peer_by_public_key asked (confirm verify now req node).1.registry
          ≡ elim (get_peer_by_public_key asked (some db)) [
            | err e ↦ err e
            | ok (r, paths) ↦
                ok (if req.public_key == asked then moved req.new_url now r else r, paths)
          ])
        × (lookup req.public_key (confirm verify now req node).1.challenge_store ≡ none)
  confirm_effect db asked open_db filled h = (
    rw (confirm_registers h, open_db)
        ((get-update_peer_url req.public_key asked req.new_url now db filled).1),
    confirm_consumes h,
  )

  -- No request leaves the pending challenge of any key other than it was, except to take the one
  -- of its own key away.
  pub confirm_challenges :
      (key : Text)
      → (lookup key (confirm verify now req node).1.challenge_store
          ≡ lookup key node.challenge_store)
        ⊎ ((key ≡ req.public_key)
            × (lookup key (confirm verify now req node).1.challenge_store ≡ none))
  unfolding confirm
  confirm_challenges key =
      ground
        (arith, lookup-delete req.public_key key node.challenge_store, eq_iff req.public_key key)
