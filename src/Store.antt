-- ===== src/Store.antt =====
-- internal/models/models.go and the navigation tree of internal/store/store.go: articles, sections
-- and the Go map of sections. A nil `Sub` and an empty one read alike, so both are `nil`. A map has
-- no order; the entries stand in the order of their insertion.
pub mod Nav
pub mod Meta
pub mod Verify
pub mod Update
pub mod Search
pub mod Watch
mod Tests
use red_engine.Prelude.{
  ◌≡◌, refl, Bool, true, false, Option, none, some, List, [], ◌∷◌, ◌++◌, arith, if◌then◌else◌,
  is_some,
}
use red_engine.Text.{Text, text, ◌==◌, eq_iff}

pub data VerificationState : Type 0 where
  verified tampered invalid_sig untrusted malformed unsigned : VerificationState

pub record Article : Type 0 where
  pub path : Text
  pub title : Text
  pub body : Text
  pub raw : Text
  pub hash : Text
  pub verified : Bool
  pub author : Text
  pub verification_error : Text
  pub verification_state : VerificationState

mutual
  pub data Section : Type 0 where
    -- name, path, articles, sub, has_cover, has_icon
    section : Text → Text → List Article → Sections → Bool → Bool → Section

  -- map[string]*Section
  pub data Sections : Type 0 where
    nil : Sections
    entry : Text → Section → Sections → Sections

abbrev pub name : Section → Text
name (section n p a s c i) = n

abbrev pub articles : Section → List Article
articles (section n p a s c i) = a

abbrev pub sub : Section → Sections
sub (section n p a s c i) = s

abbrev pub set_articles : List Article → Section → Section
set_articles a (section n p _ s c i) = section n p a s c i

abbrev pub set_sub : Sections → Section → Section
set_sub s (section n p a _ c i) = section n p a s c i

-- m[k]
unfoldable pub lookup : Text → Sections → Option Section
lookup k nil = none
lookup k (entry j s m) = if j == k then some s else lookup k m

-- m[k] = s
unfoldable pub put : Text → Section → Sections → Sections
put k s nil = entry k s nil
put k s (entry j t m) = if j == k then entry k s m else entry j t (put k s m)

-- delete(m, k)
unfoldable pub remove_key : Text → Sections → Sections
remove_key k nil = nil
remove_key k (entry j s m) = let rest = remove_key k m in if j == k then rest else entry j s rest

pub lookup-put :
    (k j : Text) (s : Section) (m : Sections)
    → lookup j (put k s m) ≡ (if k == j then some s else lookup j m)
unfolding lookup put
lookup-put k j s nil = refl
lookup-put k j s (entry i t m) =
    ground (arith, eq_iff k j, eq_iff i k, eq_iff i j, lookup-put k j s m)

pub lookup-remove_key :
    (k j : Text) (m : Sections) → lookup j (remove_key k m) ≡ (if k == j then none else lookup j m)
unfolding lookup remove_key
lookup-remove_key k j nil = ground arith
lookup-remove_key k j (entry i t m) =
    ground (arith, eq_iff k j, eq_iff i k, eq_iff i j, lookup-remove_key k j m)
