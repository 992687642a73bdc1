-- ===== src/Store/Verify/Badge.antt =====
-- When `processArticle` of internal/store/store.go shows the badge of a verified contributor.
use red_engine.Prelude.{◌⊎◌, ◌≡◌, ◌≢◌, true, false, some, [], arith, length}
use red_engine.Text.{Text, to_lower}
use red_engine.Dict.{Dict, lookup}
use red_engine.Go.Hex.{encode, decode}
use red_engine.Store.{verified}
use red_engine.Store.Verify.{
  Platform, ManifestEntry, Verdict, public_key_size, signature_holds, check_signature, entry_hash,
  check_entry, verify, unknown_origin,
}

-- The content is signed under this manifest entry by a trusted author of this name.
abbrev pub IsSigned : Platform → Dict Text → Text → ManifestEntry → Text → Type 0
IsSigned pf trusted_keys content entry author =
    (entry_hash entry ≡ encode (pf.sha256 content))
    × (lookup (to_lower entry.public_key) trusted_keys ≡ some author)
    × ((pub_bytes : Text) × (sig_bytes : Text) × (decode entry.public_key ≡ some pub_bytes)
        × (decode entry.signature ≡ some sig_bytes)
        × (length pub_bytes ≡ public_key_size)
        × (signature_holds pf pub_bytes sig_bytes content ≡ true))

module _ (pf : Platform) (trusted_keys : Dict Text) (all_signatures : Dict ManifestEntry)
    (relative_path content : Text) where
  abbrev verdict : Verdict
  verdict = verify pf trusted_keys all_signatures relative_path content

  -- Either the article is verified, the state says so and there is no error; or it is not, the
  -- state does not say so, the origin is shown as unknown and there is an error.
  pub verified_state :
      ((verdict.is_verified ≡ true)
        × (verdict.verification_state ≡ verified)
        × (verdict.verify_err ≡ []))
      ⊎ ((verdict.is_verified ≡ false)
          × (verdict.verification_state ≢ verified)
          × (verdict.author_name ≡ unknown_origin)
          × (verdict.verify_err ≢ []))
  unfolding verify check_entry check_signature
  verified_state = ground arith
