-- ===== src/Store/Meta.antt =====
-- `checkMetaFiles` of internal/store/store.go: which sections have a cover and an icon.
use red_engine.Prelude.{◌≡◌, refl, Bool, ◌||◌, List, [], ◌∷◌, arith, if◌then◌else◌}
use red_engine.Text.{Text, text, ◌==◌}
use red_engine.Go.FilePath.{join_path}
use red_engine.Store.{Section, section, Sections, nil, entry, lookup}
use red_engine.Store.Nav.{root, split_path}
use red_engine.Store.Nav.View.{view_below, view_at, view_parts, view}

-- `exists` says whether os.Stat succeeds.
module _ (exists : Text → Bool) where
  abbrev pub has_meta : Text → Text → Bool
  has_meta dir file = exists (join_path (join_path dir (text ".meta")) file)

  abbrev pub flag : Text → Section → Section
  flag dir (section n p a s cover icon) =
      section n p a s (has_meta dir (text "cover.jpg") || cover)
        (has_meta dir (text "icon.svg") || icon)

  unfoldable pub flag_subs : Text → Sections → Sections
  flag_subs dir nil = nil
  flag_subs dir (entry k s m) = entry k (flag (join_path dir k) s) (flag_subs dir m)

  unfoldable pub flag_all : Text → Section → Section
  unfolding flag_subs
  flag_all dir (section n p a s cover icon) = flag dir (section n p a (flag_subs dir s) cover icon)

  unfoldable pub check_meta_files : Text → Sections → Sections
  unfolding flag_all
  check_meta_files data_dir nil = nil
  check_meta_files data_dir (entry k s m) =
      entry k (if k == root then s else flag_all (join_path data_dir k) s)
        (check_meta_files data_dir m)

  view_below-flag :
      (dir : Text) (s : Section) (ps : List Text) (path : Text)
      → view_below (flag dir s) ps path ≡ view_below s ps path
  unfolding view_below
  view_below-flag dir (section n p a s c i) [] path = refl
  view_below-flag dir (section n p a s c i) (x ∷ []) path = refl
  view_below-flag dir (section n p a s c i) (x ∷ y ∷ ps) path = refl

  view_at-flag_subs :
      (dir k : Text) (m : Sections) (ps : List Text) (path : Text)
      → view_at (flag_subs dir m) k ps path ≡ view_at m k ps path
  unfolding flag_subs lookup
  view_at-flag_subs dir k nil ps path = refl
  view_at-flag_subs dir k (entry j s m) ps path =
      ground (arith, view_at-flag_subs dir k m ps path, view_below-flag (join_path dir j) s ps path)

  view_below-flag_all :
      (dir : Text) (s : Section) (ps : List Text) (path : Text)
      → view_below (flag_all dir s) ps path ≡ view_below s ps path
  unfolding flag_all view_below
  view_below-flag_all dir (section n p a s c i) [] path = refl
  view_below-flag_all dir (section n p a s c i) (x ∷ []) path = refl
  view_below-flag_all dir (section n p a s c i) (x ∷ y ∷ ps) path =
      view_at-flag_subs dir x s (y ∷ ps) path

  view_at-check_meta_files :
      (dir k : Text) (m : Sections) (ps : List Text) (path : Text)
      → view_at (check_meta_files dir m) k ps path ≡ view_at m k ps path
  unfolding check_meta_files lookup
  view_at-check_meta_files dir k nil ps path = refl
  view_at-check_meta_files dir k (entry j s m) ps path = ground (
    arith,
    view_at-check_meta_files dir k m ps path,
    view_below-flag_all (join_path dir j) s ps path,
  )

  view_parts-check_meta_files :
      (dir : Text) (m : Sections) (ps : List Text) (path : Text)
      → view_parts (check_meta_files dir m) ps path ≡ view_parts m ps path
  unfolding view_parts
  view_parts-check_meta_files dir m [] path = refl
  view_parts-check_meta_files dir m (x ∷ []) path =
      view_at-check_meta_files dir root m (x ∷ []) path
  view_parts-check_meta_files dir m (x ∷ y ∷ ps) path =
      view_at-check_meta_files dir x m (y ∷ ps) path

  -- The flags do not touch what the tree holds at any path.
  pub view-check_meta_files :
      (dir : Text) (m : Sections) (q : Text) → view (check_meta_files dir m) q ≡ view m q
  unfolding view
  view-check_meta_files dir m q = view_parts-check_meta_files dir m (split_path q) _
