-- ===== src/Announce/Runs.antt =====
-- Whole runs of the handshake of internal/router/announce.go: any requests, at any times, in any
-- order, between ticks of the sweeper, each handled to its end before the next.
use red_engine.Prelude.{
  ℕ, ◌+◌, ◌≤◌, ◌≡◌, refl, ap, ◌⊎◌, inl, inr, Bool, true, false, Option, none, some, List, [], ◌∷◌,
  arith, if◌then◌else◌, is_some, Bool-cases, Option-cases,
}
use red_engine.Text.{Text, ◌==◌, eq_iff}
use red_engine.Dict.{Dict, lookup, insert, lookup-insert}
use red_engine.Registry.{Result-cases}
use red_engine.Registry.Peers.{get_peer_by_public_key}
use red_engine.Announce.{
  challenge_ttl, PendingChallenge, Node, ConfirmRequest, Response, failure, challenge, updated,
  Reply, issue, announce_challenge, sweep, confirm, announce_confirm,
}
use red_engine.Announce.Confirm.{confirm_consumes, confirm_challenges, confirm_updated_iff}

pub data Event : Type 0 where
  -- time, what the random source gives, whether the method is POST, the public key of the body
  challenge_request : ℕ → Option Text → Bool → Option Text → Event
  -- time, whether the method is POST, the body
  confirm_request : ℕ → Bool → Option ConfirmRequest → Event
  sweeper_tick : ℕ → Event

abbrev pub is_updated : Response → Bool
is_updated (failure s) = false
is_updated (challenge n) = false
is_updated updated = true

abbrev pub is_challenge : Response → Bool
is_challenge (failure s) = false
is_challenge (challenge n) = true
is_challenge updated = false

is_updated-cases : (r : Response) → (is_updated r ≡ false) ⊎ (r ≡ updated)
is_updated-cases (failure s) = inl refl
is_updated-cases (challenge n) = inl refl
is_updated-cases updated = inr refl

abbrev pub count : Bool → ℕ
count true = 1
count false = 0

abbrev pub pending_count : Text → Node → ℕ
pending_count key node = count (is_some (lookup key node.challenge_store))

insert_budget :
    (k key : Text) (c : PendingChallenge) (m : Dict PendingChallenge)
    → count (is_some (lookup key (insert k c m)))
      ≤ (if k == key then 1 else 0) + count (is_some (lookup key m))
insert_budget k key c m = ground (arith, lookup-insert k key c m)

sweep_budget :
    (now : ℕ) (key : Text) (m : Dict PendingChallenge)
    → count (is_some (lookup key (sweep now m))) ≤ count (is_some (lookup key m))
unfolding sweep lookup
sweep_budget now key [] = omega arith
sweep_budget now key ((k, c) ∷ m) = ground (arith, sweep_budget now key m)

issue_budget :
    (now : ℕ) (random : Option Text) (k key : Text) (node : Node)
    → (is_updated (issue now random k node).0 ≡ false)
      × (pending_count key (issue now random k node).1
          ≤ (if k == key then count (is_challenge (issue now random k node).0) else 0)
            + pending_count key node)
unfolding issue
issue_budget now random k key node = elim (Result-cases (get_peer_by_public_key k node.registry)) [
  | inr (e, h) ↦ ground arith
  | inl ((row, paths), h) ↦ elim (Option-cases random) [
    | inl r ↦ ground arith
    | inr (nonce, r) ↦ ground (
      arith,
      insert_budget k key
          (record { peer_id = row.id; nonce = nonce; expires_at = now + challenge_ttl })
          node.challenge_store,
    )
  ]
]

module _ (verify : Text → Text → Text → Bool) where
  confirm_is_no_challenge :
      (now : ℕ) (req : ConfirmRequest) (node : Node)
      → is_challenge (confirm verify now req node).0 ≡ false
  unfolding confirm
  confirm_is_no_challenge now req node = ground arith

  -- An update takes the challenge that was pending for its key.
  confirm_takes :
      (now : ℕ) (req : ConfirmRequest) (node : Node)
      → (confirm verify now req node).0 ≡ updated
      → (pending_count req.public_key node ≡ 1)
        × (pending_count req.public_key (confirm verify now req node).1 ≡ 0)
  confirm_takes now req node h =
      let (pending, pub_bytes, sig, a, known) = (confirm_updated_iff verify now req node).0 h in
      (
        ap (λ o. count (is_some o)) a.is_pending,
        ap (λ o. count (is_some o)) (confirm_consumes verify now req node h),
      )

  confirm_pending_le :
      (now : ℕ) (req : ConfirmRequest) (key : Text) (node : Node)
      → pending_count key (confirm verify now req node).1 ≤ pending_count key node
  confirm_pending_le now req key node = elim (confirm_challenges verify now req node key) [
    | inl e ↦ rw e (omega arith)
    | inr (same, e) ↦ rw e (omega arith)
  ]

  confirm_budget :
      (now : ℕ) (req : ConfirmRequest) (key : Text) (node : Node)
      → (is_challenge (confirm verify now req node).0 ≡ false)
        × ((if req.public_key == key then count (is_updated (confirm verify now req node).0) else 0)
              + pending_count key (confirm verify now req node).1
            ≤ pending_count key node)
  confirm_budget now req key node = (
    confirm_is_no_challenge now req node,
    elim (Bool-cases (req.public_key == key)) [
      | inr other ↦ rw other (omega (arith, confirm_pending_le now req key node))
      | inl same ↦ elim (is_updated-cases (confirm verify now req node).0) [
        | inl no_update ↦ rw (same, no_update) (omega (arith, confirm_pending_le now req key node))
        | inr update ↦
            rw (same, ← (eq_iff req.public_key key).0 same)
              (let (one, gone) = confirm_takes now req node update in
                rw (one, gone, update) (omega arith))
      ]
    ],
  )

  unfoldable pub step : Event → Node → Reply
  step (challenge_request now random is_post body) node =
      announce_challenge now random is_post body node
  step (confirm_request now is_post body) node = announce_confirm verify now is_post body node
  step (sweeper_tick now) node =
      (failure 0, record node { challenge_store = sweep now node.challenge_store })

  -- The events that are about a key, by the body of the request.
  abbrev pub is_about : Text → Event → Bool
  is_about key (challenge_request now random is_post none) = false
  is_about key (challenge_request now random is_post (some k)) = k == key
  is_about key (confirm_request now is_post none) = false
  is_about key (confirm_request now is_post (some req)) = req.public_key == key
  is_about key (sweeper_tick now) = false

  -- How often the key's URL was registered, and how often a challenge was issued to it.
  unfoldable pub registrations : Text → List Event → Node → ℕ
  registrations key [] node = 0
  registrations key (e ∷ es) node =
      (if is_about key e then count (is_updated (step e node).0) else 0)
      + registrations key es (step e node).1

  unfoldable pub issues : Text → List Event → Node → ℕ
  issues key [] node = 0
  issues key (e ∷ es) node =
      (if is_about key e then count (is_challenge (step e node).0) else 0)
      + issues key es (step e node).1

  step_budget :
      (key : Text) (e : Event) (node : Node)
      → (if is_about key e then count (is_updated (step e node).0) else 0)
          + pending_count key (step e node).1
        ≤ (if is_about key e then count (is_challenge (step e node).0) else 0)
          + pending_count key node
  unfolding step announce_challenge announce_confirm
  step_budget key (challenge_request now random is_post none) node = ground arith
  step_budget key (challenge_request now random is_post (some k)) node =
      ground (arith, issue_budget now random k key node)
  step_budget key (confirm_request now is_post none) node = ground arith
  step_budget key (confirm_request now is_post (some req)) node =
      ground (arith, confirm_budget now req key node)
  step_budget key (sweeper_tick now) node = omega (arith, sweep_budget now key node.challenge_store)

  -- In any run of requests and ticks of the sweeper that are handled one after another, none beginning
  -- before the one before it has ended, a key's URL is registered at most once for each challenge that
  -- was issued to the key in the run or is pending for it at the start.
  pub registrations-le-issues :
      (key : Text) (es : List Event) (node : Node)
      → registrations key es node ≤ issues key es node + pending_count key node
  unfolding registrations issues
  registrations-le-issues key [] node = omega arith
  registrations-le-issues key (e ∷ es) node =
      omega (arith, step_budget key e node, registrations-le-issues key es (step e node).1)
