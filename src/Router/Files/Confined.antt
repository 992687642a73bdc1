-- ===== src/Router/Files/Confined.antt =====
-- The paths that internal/router reads and removes stay below the data directory.
use red_engine.Prelude.{
  ◌≡◌, refl, subst, sym, ap, ◌∙◌, ◌≢◌, ◌⊎◌, inl, inr, Bool, true, false, Option, none, some, List,
  [], ◌∷◌, ◌++◌, arith, any, All, All-append, Bool-cases,
}
use red_engine.Text.{
  Text, text, ◌==◌, eq_iff, has_prefix, trim_prefix, split, join, HasNoByte, split-HasNoByte,
  split-ne-nil,
}
use red_engine.Go.FilePath.{slash, dot, is_rooted, elements, render, clean, join_path, join_all}
use red_engine.Go.FilePath.Clean.{IsPlain}
use red_engine.Go.FilePath.Below.{IsInside, IsBelow-join, IsInside-clean}
use red_engine.Registry.{Registry, Result-cases}
use red_engine.Registry.Sync.{remove_startup_sync}
use red_engine.Store.Verify.{last_part}
use red_engine.Router.Files.{
  all_but_last, is_blocked, cover, icon, RemoveRequest, branch_meta, asset_file, removal_path,
  admin_remove,
}

-- A name that is neither blocked nor holds a slash.
abbrev pub IsOpen : Text → Type 0
IsOpen p = (p ≢ []) × (has_prefix p dot ≡ false)

IsPlain-IsOpen : (p : Text) → IsOpen p → IsPlain p
unfolding has_prefix
IsPlain-IsOpen [] (n, h) = absurd (n refl)
IsPlain-IsOpen (c ∷ p) (n, h) = (n, (λ e. ground arith), (λ e. ground arith))

All-IsOpen : (ps : List Text) → any is_blocked ps ≡ false → All IsOpen ps
All-IsOpen [] h = tt
All-IsOpen (p ∷ ps) h = (ground (arith, eq_iff p []), All-IsOpen ps (ground arith))

All-IsPlain_of_IsOpen : (ps : List Text) → All IsOpen ps → All IsPlain ps
All-IsPlain_of_IsOpen [] h = tt
All-IsPlain_of_IsOpen (p ∷ ps) (o, h) = (IsPlain-IsOpen p o, All-IsPlain_of_IsOpen ps h)

All-all_but_last : (P : Text → Type 0) (ps : List Text) → All P ps → All P (all_but_last ps)
All-all_but_last P [] h = tt
All-all_but_last P (p ∷ []) h = tt
All-all_but_last P (p ∷ q ∷ ps) (a, h) = (a, All-all_but_last P (q ∷ ps) h)

pub last_part-All : (P : Text → Type 0) (ps : List Text) → ps ≢ [] → All P ps → P (last_part ps)
last_part-All P [] n h = absurd (n refl)
last_part-All P (p ∷ []) n (a, _) = a
last_part-All P (p ∷ q ∷ ps) n (_, h) = last_part-All P (q ∷ ps) (λ e. cc) h

append-ne-nil : (ps qs : List Text) → qs ≢ [] → ps ++ qs ≢ []
append-ne-nil [] qs n = n
append-ne-nil (p ∷ ps) qs n = λ e. cc

join-cons :
    (d : Text) (ps : List Text) → ps ≢ [] → join slash (d ∷ ps) ≡ d ++ (slash ++ join slash ps)
unfolding join
join-cons d [] n = absurd (n refl)
join-cons d (p ∷ ps) n = refl

-- What `filepath.Join` makes of a directory and plain names.
join_all-below :
    (dest : Text) (ps qs : List Text)
    → dest ≢ []
    → qs ≢ []
    → All IsPlain ps
    → All (HasNoByte b'/') ps
    → All IsPlain qs
    → All (HasNoByte b'/') qs
    → join_all (dest ∷ (ps ++ qs)) ≡ render (is_rooted dest) (elements dest ++ (ps ++ qs))
unfolding join_all
join_all-below dest ps qs h n a b c d =
    let m = append-ne-nil ps qs n in
    elim (Bool-cases (dest == [])) [
      | inl e ↦ absurd (h ((eq_iff dest []).0 e))
      | inr e ↦ rw e (
          ap clean (join-cons dest (ps ++ qs) m)
          ∙ IsBelow-join dest (ps ++ qs) h m (All-append IsPlain ps qs a c)
              (All-append (HasNoByte b'/') ps qs b d))
    ]

meta-IsPlain : IsPlain (text ".meta")
meta-IsPlain = ((λ e. cc), (λ e. cc), (λ e. cc))

assets-IsPlain : IsPlain (text ".assets")
assets-IsPlain = ((λ e. cc), (λ e. cc), (λ e. cc))

cover-IsPlain : IsPlain cover
unfolding has_prefix
cover-IsPlain = IsPlain-IsOpen cover ((λ e. cc), refl)

icon-IsPlain : IsPlain icon
unfolding has_prefix
icon-IsPlain = IsPlain-IsOpen icon ((λ e. cc), refl)

-- The names of the files of a branch.
fixed : {name : Text} → (name ≡ cover) ⊎ (name ≡ icon) → IsPlain name × HasNoByte b'/' name
fixed (inl e) =
    subst (λ n. IsPlain n × HasNoByte b'/' n) (sym e)
      (cover-IsPlain, (refl, (refl, (refl, (refl, (refl, (refl, (refl, (refl, (refl, tt))))))))))
fixed (inr e) =
    subst (λ n. IsPlain n × HasNoByte b'/' n) (sym e)
      (icon-IsPlain, (refl, (refl, (refl, (refl, (refl, (refl, (refl, (refl, tt)))))))))

module _ (data_dir url_path file : Text) (filled : data_dir ≢ []) where
  -- Where the data directory has a name, a file that is served for a branch is its cover or its
  -- icon in the `.meta` folder under a path below the directory, none of whose names is empty or
  -- hidden.
  pub branch_meta-IsOpen :
      branch_meta data_dir url_path ≡ some file
      → (dirs : List Text) × (name : Text) × All IsOpen dirs
        × ((name ≡ cover) ⊎ (name ≡ icon))
        × (file
            ≡ render (is_rooted data_dir) (elements data_dir ++ (dirs ++ text ".meta" ∷ name ∷ [])))
  unfolding branch_meta
  branch_meta-IsOpen h =
      let parts = split b'/' (trim_prefix url_path (text "/-/branch-meta/")) in
      let dirs = all_but_last parts in
      let open_dirs = All-IsOpen dirs (ground arith) in
      let named : (last_part parts ≡ cover) ⊎ (last_part parts ≡ icon) =
        ground (arith, eq_iff (last_part parts) cover, eq_iff (last_part parts) icon) in
      let served : file ≡ join_all (data_dir ∷ (dirs ++ text ".meta" ∷ last_part parts ∷ [])) =
        ground arith in
      let clear = All-all_but_last (HasNoByte b'/') parts (split-HasNoByte b'/' _) in
      (
        dirs,
        last_part parts,
        open_dirs,
        named,
        served
            ∙ join_all-below data_dir dirs (text ".meta" ∷ last_part parts ∷ []) filled (λ e. cc)
                (All-IsPlain_of_IsOpen dirs open_dirs) clear (meta-IsPlain, ((fixed named).0, tt))
                ((refl, (refl, (refl, (refl, (refl, tt))))), ((fixed named).1, tt)),
      )

  -- Where the data directory has a name, an asset that is served stands in the `.assets` folder
  -- under a path below the directory; no name of the path is empty or hidden, nor is the asset's
  -- own.
  pub asset_file-IsOpen :
      asset_file data_dir url_path ≡ some file
      → (dirs : List Text) × (name : Text) × All IsOpen dirs
        × IsOpen name
        × (file
            ≡ render
                (is_rooted data_dir)
                (elements data_dir ++ (dirs ++ text ".assets" ∷ name ∷ [])))
  unfolding asset_file
  asset_file-IsOpen h =
      let suffix = trim_prefix url_path (text "/-/assets/") in
      let parts = split b'/' suffix in
      let dirs = all_but_last parts in
      let open_parts = All-IsOpen parts (ground arith) in
      let open_dirs = All-all_but_last IsOpen parts open_parts in
      let free = split-HasNoByte b'/' suffix in
      let named = last_part-All IsOpen parts (split-ne-nil b'/' suffix) open_parts in
      let served : file ≡ join_all (data_dir ∷ (dirs ++ text ".assets" ∷ last_part parts ∷ [])) =
        ground arith in
      (
        dirs,
        last_part parts,
        open_dirs,
        named,
        served
            ∙ join_all-below data_dir dirs (text ".assets" ∷ last_part parts ∷ []) filled (λ e. cc)
                (All-IsPlain_of_IsOpen dirs open_dirs)
                (All-all_but_last (HasNoByte b'/') parts free)
                (assets-IsPlain, (IsPlain-IsOpen (last_part parts) named, tt))
                (
                  (refl, (refl, (refl, (refl, (refl, (refl, (refl, tt))))))),
                  (last_part-All (HasNoByte b'/') parts (split-ne-nil b'/' suffix) free, tt),
                ),
      )

removal_path-IsInside :
    (data_dir filename path : Text)
    → data_dir ≢ []
    → removal_path data_dir filename ≡ some path
    → IsInside data_dir path
unfolding removal_path
removal_path-IsInside data_dir filename path h e =
    let safe_name = clean filename in
    let inside =
      IsInside-clean data_dir filename h (ground (arith, eq_iff safe_name []))
        (ground (arith, eq_iff safe_name dot)) (ground arith) (ground arith) in
    let same : path ≡ join_path data_dir safe_name = ground arith in
    subst (IsInside data_dir) (sym same) inside

-- Where the data directory has a name: removing a sync with its local files removes a path inside
-- the directory, never the directory itself or a path beside it, and only on a POST that is
-- answered with 200.
pub admin_remove-IsInside :
    (data_dir path : Text) (is_post : Bool) (body : Option RemoveRequest) (registry : Registry)
    → data_dir ≢ []
    → (admin_remove data_dir is_post body registry).1.0 ≡ some path
    → (is_post ≡ true)
      × ((admin_remove data_dir is_post body registry).0 ≡ 200)
      × IsInside data_dir path
unfolding admin_remove
admin_remove-IsInside data_dir path false body registry h e = cc
admin_remove-IsInside data_dir path true none registry h e = cc
admin_remove-IsInside data_dir path true (some req) registry h e =
    elim (Result-cases (remove_startup_sync req.filename registry).0) [
      | inr (k, refused) ↦ ground arith
      | inl (k, done) ↦
          let removed : removal_path data_dir req.filename ≡ some path = ground arith in
          (refl, ground arith, removal_path-IsInside data_dir req.filename path h removed)
    ]
