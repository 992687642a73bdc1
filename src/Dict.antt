-- ===== src/Dict.antt =====
-- Go's map with string keys, as an association list. No definition of this library that reads one
-- in the order of its entries is used where the order could show.
use red_engine.Prelude.{◌≡◌, refl, Option, none, some, List, [], ◌∷◌, arith, if◌then◌else◌}
use red_engine.Text.{Text, ◌==◌, eq_iff, eq_refl}

abbrev pub Dict {ℓ} : Type ℓ → Type ℓ
Dict V = List (Text × V)

module _ {ℓ} {V : Type ℓ} where
  -- v, ok := m[key]
  unfoldable pub lookup : Text → Dict V → Option V
  lookup key [] = none
  lookup key ((held, value) ∷ m) = if held == key then some value else lookup key m

  -- m[key] = v
  unfoldable pub insert : Text → V → Dict V → Dict V
  insert key v [] = (key, v) ∷ []
  insert key v ((held, value) ∷ m) =
      if held == key then (key, v) ∷ m else (held, value) ∷ insert key v m

  -- delete(m, key)
  unfoldable pub delete : Text → Dict V → Dict V
  delete key [] = []
  delete key ((held, value) ∷ m) =
      let rest = delete key m in if held == key then rest else (held, value) ∷ rest

  pub lookup-insert :
      (key asked : Text) (value : V) (m : Dict V)
      → lookup asked (insert key value m) ≡ (if key == asked then some value else lookup asked m)
  unfolding lookup insert
  lookup-insert key asked value [] = refl
  lookup-insert key asked value ((held, old) ∷ m) =
      ground (
        arith,
        lookup-insert key asked value m,
        eq_iff held key,
        eq_iff held asked,
        eq_iff key asked,
      )

  pub lookup-delete :
      (key asked : Text) (m : Dict V)
      → lookup asked (delete key m) ≡ (if key == asked then none else lookup asked m)
  unfolding lookup delete
  lookup-delete key asked [] = ground arith
  lookup-delete key asked ((held, old) ∷ m) =
      ground
        (arith, lookup-delete key asked m, eq_iff held key, eq_iff held asked, eq_iff key asked)

  pub lookup-insert_self :
      (key : Text) (value : V) (m : Dict V) → lookup key (insert key value m) ≡ some value
  lookup-insert_self key value m = simp (lookup-insert, eq_refl)

  pub lookup-delete_self : (key : Text) (m : Dict V) → lookup key (delete key m) ≡ none
  lookup-delete_self key m = simp (lookup-delete, eq_refl)
