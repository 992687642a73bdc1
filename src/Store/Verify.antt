-- ===== src/Store/Verify.antt =====
-- `processArticle` of internal/store/store.go: the article of a file and its verification.
-- `Platform` holds what the engine calls and does not implement: SHA-256, Ed25519, the Markdown
-- renderer with its sanitizer, the disk, and the current directory behind `filepath.Rel`.
pub mod Badge
use red_engine.Prelude.{
  ℕ, ◌-◌, Bool, true, false, not, ◌&&◌, ◌||◌, Option, none, some, List, [], ◌∷◌, ◌++◌, map, leb,
  eqb, if◌then◌else◌, ◌>>=◌, length,
}
use red_engine.Text.{Text, text, ◌==◌, has_suffix, trim_prefix, trim_suffix, to_lower}
use red_engine.Dict.{Dict, lookup}
use red_engine.Go.Hex.{encode, decode}
use red_engine.Store.{
  VerificationState, verified, tampered, invalid_sig, untrusted, malformed, unsigned, Article,
}
use red_engine.Store.Nav.{slash, split_path}

pub record Platform : Type 0 where
  -- sha256.Sum256, ed25519.Verify(public key, message, signature)
  pub sha256 : Text → Text
  pub ed25519_verify : Text → Text → Text → Bool
  -- the HTML of `render.Markdown(src, articlePath)`; none on an error
  pub markdown : Text → Text → Option Text
  -- s.dataDir, and whether os.Stat succeeds
  pub data_dir : Text
  pub exists : Text → Bool
  -- os.ReadFile; none on an error
  pub read_file : Text → Option Text
  -- filepath.Rel(absData, absP) after `filepath.Abs` of both; none on an error
  pub rel : Text → Option Text

pub record ManifestEntry : Type 0 where
  pub file_hash : Text
  pub hash : Text
  pub public_key : Text
  pub signature : Text

pub record Verdict : Type 0 where
  pub is_verified : Bool
  pub author_name : Text
  pub verify_err : Text
  pub verification_state : VerificationState

abbrev pub unknown_origin : Text
unknown_origin = text "Unverified / Unknown Origin"

-- What stands in the variables after a failed check.
abbrev pub refused : Text → VerificationState → Verdict
refused err state = record {
  is_verified = false;
  author_name = unknown_origin;
  verify_err = err;
  verification_state = state;
}

abbrev pub accepted : Text → Verdict
accepted author = record {
  is_verified = true;
  author_name = author;
  verify_err = [];
  verification_state = verified;
}

-- ed25519.PublicKeySize
abbrev pub public_key_size : ℕ
public_key_size = 32

-- The signature may be over the content, its hash in hex, or its hash.
unfoldable pub signature_holds : Platform → Text → Text → Text → Bool
signature_holds pf pub_bytes sig_bytes content =
    let hash_bytes = pf.sha256 content in
    pf.ed25519_verify pub_bytes content sig_bytes
    || pf.ed25519_verify pub_bytes (encode hash_bytes) sig_bytes
    || pf.ed25519_verify pub_bytes hash_bytes sig_bytes

unfoldable pub check_signature : Platform → Text → ManifestEntry → Text → Verdict
check_signature pf content entry trusted_author =
    let bad = refused (text "Malformed Signature or Public Key data") malformed in
    elim (decode entry.public_key) [
      | none ↦ bad
      | some pub_bytes ↦ elim (decode entry.signature) [
        | none ↦ bad
        | some sig_bytes ↦
            if eqb (length pub_bytes) public_key_size
            then (if signature_holds pf pub_bytes sig_bytes content
                then accepted trusted_author
                else refused (text "Invalid Signature: Cryptographic verification failed")
                    invalid_sig)
            else bad
      ]
    ]

abbrev pub entry_hash : ManifestEntry → Text
entry_hash entry = if entry.file_hash == [] then entry.hash else entry.file_hash

unfoldable pub check_entry : Platform → Dict Text → Text → ManifestEntry → Verdict
check_entry pf trusted_keys content entry =
    if entry_hash entry == encode (pf.sha256 content)
    then elim (lookup (to_lower entry.public_key) trusted_keys) [
      | none ↦
          refused (text "Untrusted Key: The public key is not mapped in contributors.json")
            untrusted
      | some trusted_author ↦ check_signature pf content entry trusted_author
    ]
    else refused (text "Hash Mismatch: File content was modified after signing") tampered

unfoldable pub verify : Platform → Dict Text → Dict ManifestEntry → Text → Text → Verdict
verify pf trusted_keys all_signatures relative_path content =
    elim (lookup relative_path all_signatures) [
      | none ↦ refused (text "File signature not found in manifest") unsigned
      | some entry ↦ check_entry pf trusted_keys content entry
    ]

abbrev is_letter_or_digit : ℕ → Bool
is_letter_or_digit c =
    leb b'0' c && leb c b'9'
    || leb b'a' c && leb c b'z'
    || leb b'A' c && leb c b'Z'
    || eqb c b'_'
    || leb 128 c

-- strings.Title of ASCII words: a letter goes to upper case where no word goes on.
unfoldable pub title_words : Bool → Text → Text
title_words inside [] = []
title_words inside (c ∷ s) =
    (if not inside && leb b'a' c && leb c b'z' then c - 32 else c)
    ∷ title_words (is_letter_or_digit c) s

-- strings.ReplaceAll(s, "-", " ")
abbrev pub dashes_to_spaces : Text → Text
dashes_to_spaces = map (λ c. if eqb c b'-' then b' ' else c)

abbrev pub last_part : List Text → Text
last_part [] = []
last_part (p ∷ []) = p
last_part (p ∷ q ∷ ps) = last_part (q ∷ ps)

unfoldable pub humanized : Text → Text
unfolding title_words
humanized part = title_words false (dashes_to_spaces part)

-- The article with its parts; none where the file cannot be read, placed or rendered.
unfoldable pub process_article :
    Platform → Text → Dict Text → Dict ManifestEntry → Option (Article × List Text)
process_article pf p trusted_keys all_signatures = do
  content ← pf.read_file p
  rel ← pf.rel p
  let relative_path = trim_prefix rel slash
  let clean_path = trim_suffix relative_path (text ".md")
  let parts = split_path clean_path
  html ← pf.markdown content clean_path
  let v = verify pf trusted_keys all_signatures relative_path content
  some (
    record {
      path = slash ++ clean_path;
      title = humanized (last_part parts);
      body = html;
      raw = content;
      hash = encode (pf.sha256 content);
      verified = v.is_verified;
      author = v.author_name;
      verification_error = v.verify_err;
      verification_state = v.verification_state;
    },
    parts,
  )
