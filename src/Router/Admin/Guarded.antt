-- ===== src/Router/Admin/Guarded.antt =====
-- Who passes `adminOnly` of internal/router/router.go, and what a request that does not changes.
use red_engine.Prelude.{◌≡◌, ◌≢◌, refl, ap, ◌⊎◌, inl, inr, [], arith, Bool-cases}
use red_engine.Text.{Text, ◌==◌, eq_iff}
use red_engine.Router.Admin.{admin_only}

-- Where SHA-256 does not collide on the two tokens, the handler behind adminOnly answers exactly the
-- requests whose token is the configured one and is not empty; to every other request, and while no
-- token is configured, the answer is the refusal.
pub admin_only_iff {ℓ} :
    {A : Type ℓ} (sha256 : Text → Text) (admin_token token : Text) (unauthorized next : A)
    → ((sha256 token ≢ sha256 admin_token) ⊎ (token ≡ admin_token))
    → ((token ≢ [])
        × (token ≡ admin_token)
        × (admin_only sha256 admin_token token unauthorized next ≡ next))
      ⊎ (((token ≡ []) ⊎ (token ≢ admin_token))
          × (admin_only sha256 admin_token token unauthorized next ≡ unauthorized))
unfolding admin_only
admin_only_iff sha256 admin_token token unauthorized next h = elim (Bool-cases (token == [])) [
  | inl e ↦ inr (inl ((eq_iff token []).0 e), rw e refl)
  | inr e ↦ elim (Bool-cases (admin_token == [])) [
    | inl e' ↦ inr (inr (ground (arith, eq_iff token [], eq_iff admin_token [])), rw e (rw e' refl))
    | inr e' ↦ elim (Bool-cases (sha256 token == sha256 admin_token)) [
      | inr d ↦ inr (
        inr (λ s. cc ((eq_iff (sha256 token) (sha256 admin_token)).1 (ap sha256 s), d)),
        rw e (rw e' (rw d refl)),
      )
      | inl d ↦ elim h [
        | inl n ↦ absurd (n ((eq_iff (sha256 token) (sha256 admin_token)).0 d))
        | inr s ↦ inl (λ z. cc ((eq_iff token []).1 z, e), s, rw e (rw e' (rw d refl)))
      ]
    ]
  ]
]
