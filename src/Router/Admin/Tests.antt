-- ===== src/Router/Admin/Tests.antt =====
-- Requests for the admin, with digests that are the tokens themselves.
use red_engine.Prelude.{ℕ, ◌≡◌, ◌≢◌, refl, ◌⊎◌, inr, []}
use red_engine.Text.{text}
use red_engine.Router.Admin.{admin_only}
use red_engine.Router.Admin.Guarded.{admin_only_iff}

abbrev refused : ℕ
refused = 401

abbrev passed : ℕ
passed = 200

no_token : admin_only (λ t. t) [] [] refused passed ≡ refused
unfolding admin_only
no_token = refl

admin_only_iff_example :
    ((text "secret" ≢ [])
      × (text "secret" ≡ text "secret")
      × (admin_only (λ t. t) (text "secret") (text "secret") refused passed ≡ passed))
    ⊎ (((text "secret" ≡ []) ⊎ (text "secret" ≢ text "secret"))
        × (admin_only (λ t. t) (text "secret") (text "secret") refused passed ≡ refused))
admin_only_iff_example =
    admin_only_iff (λ t. t) (text "secret") (text "secret") refused passed (inr refl)
