-- ===== src/Announce.antt =====
-- internal/router/announce.go: the handshake by which a peer registers a new URL. The state is the
-- registry with the challenges that are pending. Ed25519 and the random source are parameters; the
-- clock is an argument. A body that is no JSON of the request's form is `none`. Each
-- request is one step here. In the source two requests can both load a challenge before either
-- deletes it: Overlap.antt takes the second up at `check_nonce`.
pub mod Confirm
pub mod Runs
pub mod Overlap
mod Tests
use red_engine.Prelude.{
  ℕ, ◌+◌, ◌*◌, Bool, true, false, not, ◌&&◌, ◌||◌, Option, none, some, List, [], ◌∷◌, ◌++◌,
  if◌then◌else◌, ltb, eqb, length,
}
use red_engine.Text.{Text, text, ◌==◌}
use red_engine.Dict.{Dict, lookup, insert, delete}
use red_engine.Go.Hex.{encode, decode}
use red_engine.Registry.{Db, Registry, Result, ok, err}
use red_engine.Registry.Peers.{get_peer_by_public_key, update_peer_url}

pub record PendingChallenge : Type 0 where
  pub peer_id : ℕ
  pub nonce : Text
  pub expires_at : ℕ

pub record Node : Type 0 where
  pub registry : Registry
  -- challengeStore, by hex public key
  pub challenge_store : Dict PendingChallenge

pub record ConfirmRequest : Type 0 where
  pub public_key : Text
  pub new_url : Text
  pub nonce : Text
  pub signature : Text

pub data Response : Type 0 where
  -- http.Error with its status
  failure : ℕ → Response
  -- the nonce in hex
  challenge : Text → Response
  updated : Response

-- 5 * time.Minute, in nanoseconds
abbrev pub challenge_ttl : ℕ
challenge_ttl = 5 * 60 * 1_000_000_000

-- The response, and the node after the request.
abbrev pub Reply : Type 0
Reply = Response × Node

-- `announceChallenge` after the method and the body are checked; `random` is what `rand.Read` gave.
unfoldable pub issue : ℕ → Option Text → Text → Node → Reply
issue now random public_key node =
    if public_key == []
    then (failure 400, node)
    else elim (get_peer_by_public_key public_key node.registry) [
      | err e ↦ (failure 404, node)
      | ok (row, paths) ↦ elim random [
        | none ↦ (failure 500, node)
        | some nonce ↦ (
          challenge (encode nonce),
          record node {
            challenge_store =
                insert public_key
                  (record { peer_id = row.id; nonce = nonce; expires_at = now + challenge_ttl })
                  node.challenge_store;
          },
        )
      ]
    ]

unfoldable pub announce_challenge : ℕ → Option Text → Bool → Option Text → Node → Reply
announce_challenge now random is_post body node =
    if is_post
    then elim body [
      | none ↦ (failure 400, node)
      | some public_key ↦ issue now random public_key node
    ]
    else (failure 405, node)

-- One tick of `startChallengeSweeper`.
unfoldable pub sweep : ℕ → Dict PendingChallenge → Dict PendingChallenge
sweep now [] = []
sweep now ((key, c) ∷ m) =
    let rest = sweep now m in if ltb c.expires_at now then rest else (key, c) ∷ rest

abbrev pub consume : Text → Node → Node
consume key node = record node { challenge_store = delete key node.challenge_store }

-- The end of `announceConfirm`: the URL is updated, and the nonce is consumed.
unfoldable pub register : ℕ → ConfirmRequest → Node → Reply
register now req node =
    let (result, registry) = update_peer_url req.public_key req.new_url now node.registry in
    let node' = record node { registry = registry } in
    elim result [ err e ↦ (failure 500, node') | ok _ ↦ (updated, consume req.public_key node') ]

module _ (ed25519_verify : Text → Text → Text → Bool) where
  -- The signature over "nonce|new_url".
  unfoldable pub check_proof : ℕ → ConfirmRequest → Node → Reply
  unfolding register
  check_proof now req node = elim (decode req.public_key) [
    | none ↦ (failure 400, node)
    | some pub_bytes ↦
        if eqb (length pub_bytes) 32
        then elim (decode req.signature) [
          | none ↦ (failure 400, node)
          | some sig ↦
              if ed25519_verify pub_bytes (req.nonce ++ (text "|" ++ req.new_url)) sig
              then register now req node
              else (failure 403, node)
        ]
        else (failure 400, node)
  ]

  unfoldable pub check_nonce : ℕ → ConfirmRequest → PendingChallenge → Node → Reply
  unfolding check_proof
  check_nonce now req c node =
      if ltb c.expires_at now
      then (failure 401, consume req.public_key node)
      else elim (decode req.nonce) [
        | none ↦ (failure 401, node)
        | some req_nonce ↦
            if req_nonce == c.nonce then check_proof now req node else (failure 401, node)
      ]

  unfoldable pub confirm : ℕ → ConfirmRequest → Node → Reply
  unfolding check_nonce
  confirm now req node =
      if req.public_key == [] || req.new_url == [] || req.nonce == [] || req.signature == []
      then (failure 400, node)
      else elim (lookup req.public_key node.challenge_store) [
        | none ↦ (failure 401, node)
        | some c ↦ check_nonce now req c node
      ]

  unfoldable pub announce_confirm : ℕ → Bool → Option ConfirmRequest → Node → Reply
  announce_confirm now is_post body node =
      if is_post
      then elim body [ none ↦ (failure 400, node) | some req ↦ confirm now req node ]
      else (failure 405, node)
