-- ===== src/Router/Remote/Placed.antt =====
-- What `importRemote` of internal/router/sync.go does to the disk for the import of a URL.
use red_engine.Prelude.{
  ℕ, ◌≡◌, ◌≢◌, refl, sym, subst, ◌⊎◌, inl, inr, Bool, true, false, not, ◌&&◌, Option, some, List,
  [], ◌∷◌, ◌++◌, arith, any, if◌then◌else◌, All, Bool-cases, Option-cases, >>=-eq-some, none,
  is_some,
}
use red_engine.Text.{Text, text, ◌==◌, eq_iff, has_suffix, to_lower, HasNoByte}
use red_engine.Go.Ip.{Ip}
use red_engine.Go.FilePath.{join_path, dir}
use red_engine.Go.FilePath.Below.{IsInside}
use red_engine.Go.FilePath.Suffix.{IsInside-suffix}
use red_engine.Registry.{Registry, Result, ok, err}
use red_engine.Registry.Sync.{add_startup_sync}
use red_engine.Router.Import.{rewrite_url}
use red_engine.Router.Import.Named.{target_sub_path-IsInside, given_name-IsInside}
use red_engine.Router.Remote.{
  Url, Web, ImportRequest, Effect, pulled, made_dir, wrote, Imported, finish, saved, is_forbidden,
  is_web_scheme, with_md, src_type_of, parsed_again, target_of, store_raw, store_pulled,
  store_remote, import_from_url, guard_url, import_remote,
}

-- What is stored lies inside the data directory. A directory that is made for it is the parent of a
-- path that lies inside, which may be the data directory itself.
abbrev pub IsPlacedIn : Text → Effect → Type 0
IsPlacedIn data_dir (pulled p) = IsInside data_dir p
IsPlacedIn data_dir (made_dir d) = (p : Text) × IsInside data_dir p × (d ≡ dir p)
IsPlacedIn data_dir (wrote p) = IsInside data_dir p

saved-effects :
    (effects : List Effect) (r : Result (Unit {0}) × Registry) → (saved effects r).effects ≡ effects
saved-effects effects (ok _, registry) = refl
saved-effects effects (err e, registry) = refl

finish-effects :
    (web : Web) (save : Bool) (url filename : Text) (now : ℕ) (effects : List Effect)
    (registry : Registry)
    → (finish web save url filename now effects registry).effects ≡ effects
unfolding finish
finish-effects web false url filename now effects registry = elim (Bool-cases web.reload) [
  | inl e ↦ rw e refl
  | inr e ↦ rw e refl
]
finish-effects web true url filename now effects registry = elim (Bool-cases web.reload) [
  | inl e ↦ rw e (saved-effects effects (add_startup_sync url filename now registry))
  | inr e ↦ rw e refl
]

-- Nothing was touched, or the request was let through and what it touched lies inside.
abbrev pub IsGuarded : Text → Web → ImportRequest → Imported → Type 0
IsGuarded data_dir web req r =
    (r.effects ≡ [])
    ⊎ ((u : Url) × (addrs : List (Option Ip)) × (web.parse req.url ≡ some u)
        × ((u.scheme ≡ text "http") ⊎ (u.scheme ≡ text "https"))
        × (web.lookup u.hostname ≡ some addrs)
        × (any is_forbidden addrs ≡ false)
        × All (IsPlacedIn data_dir) r.effects)

module _ (data_dir stamp : Text) (filled : data_dir ≢ []) (digits : HasNoByte b'/' stamp) where
  with_md-IsInside : (p : Text) → IsInside data_dir p → IsInside data_dir (with_md p)
  with_md-IsInside p h = elim (Bool-cases (has_suffix (to_lower p) (text ".md"))) [
    | inl e ↦ rw e h
    | inr e ↦
        rw e (IsInside-suffix data_dir p (text ".md") (omega arith) (refl, (refl, (refl, tt))) h)
  ]

  finish-All :
      (web : Web) (save : Bool) (url filename : Text) (now : ℕ) (effects : List Effect)
      (registry : Registry)
      → All (IsPlacedIn data_dir) effects
      → All (IsPlacedIn data_dir) (finish web save url filename now effects registry).effects
  finish-All web save url filename now effects registry h =
      subst (All (IsPlacedIn data_dir))
        (sym (finish-effects web save url filename now effects registry)) h

  store_remote-All :
      (web : Web) (req : ImportRequest) (url target : Text) (now : ℕ) (registry : Registry)
      → IsInside data_dir (join_path data_dir target)
      → All (IsPlacedIn data_dir) (store_remote web data_dir req url target now registry).effects
  unfolding store_remote store_raw store_pulled
  store_remote-All web req url target now registry h =
      let d = join_path data_dir target in
      let p = with_md d in
      let made : IsPlacedIn data_dir (made_dir (dir d)) = (d, h, refl) in
      elim (Bool-cases (src_type_of url == text "raw")) [
        | inl e ↦ rw e (elim (Bool-cases (web.mkdir (dir d))) [
          | inr m ↦ rw m (made, tt)
          | inl m ↦ rw m (elim (Bool-cases (is_some (web.parse url))) [
            | inr u ↦ rw u (made, tt)
            | inl u ↦ rw u (elim (Bool-cases (web.get url)) [
              | inr g ↦ rw g (made, tt)
              | inl g ↦ rw g (elim (Bool-cases (web.create p)) [
                | inr c ↦ rw c (made, tt)
                | inl c ↦ rw c (elim (Bool-cases (web.copy p)) [
                  | inr w ↦ rw w (made, (with_md-IsInside d h, tt))
                  | inl w ↦ rw w (
                      finish-All web req.save_to_startup url
                        (if has_suffix (to_lower d) (text ".md")
                          then target
                          else target ++ text ".md")
                        now (made_dir (dir d) ∷ wrote p ∷ []) registry
                        (made, (with_md-IsInside d h, tt)))
                ])
              ])
            ])
          ])
        ])
        | inr e ↦ rw e (elim (Bool-cases (web.pull url (src_type_of url) d)) [
          | inr f ↦ rw f (h, tt)
          | inl f ↦
              rw f
                (finish-All web req.save_to_startup url target now (pulled d ∷ []) registry (h, tt))
        ])
      ]

  target_of-IsInside :
      (again : Option Url) (filename t : Text)
      → target_of again filename stamp ≡ some t
      → IsInside data_dir (join_path data_dir t)
  target_of-IsInside none filename t h =
      given_name-IsInside data_dir stamp filled digits filename t h
  target_of-IsInside (some u) filename t h =
      target_sub_path-IsInside data_dir stamp filled digits u.host u.path filename t h

  import_from_url-All :
      (web : Web) (now : ℕ) (req : ImportRequest) (parsed : Url) (registry : Registry)
      (r : Imported)
      → import_from_url web data_dir stamp now req parsed registry ≡ some r
      → All (IsPlacedIn data_dir) r.effects
  unfolding import_from_url
  import_from_url-All web now req parsed registry r h =
      let url = rewrite_url parsed.host parsed.path req.url in
      let again = parsed_again web req parsed in
      let (target, e, h') = >>=-eq-some (target_of again req.filename stamp) _ h in
      let built : store_remote web data_dir req url target now registry ≡ r = cc h' in
      subst (λ x. All (IsPlacedIn data_dir) x.effects) built
        (store_remote-All web req url target now registry
          (target_of-IsInside again req.filename target e))

  guard_url-IsGuarded :
      (web : Web) (now : ℕ) (req : ImportRequest) (registry : Registry) (r : Imported)
      → guard_url web data_dir stamp now req registry ≡ some r
      → IsGuarded data_dir web req r
  unfolding guard_url
  guard_url-IsGuarded web now req registry r h = elim (Option-cases (web.parse req.url)) [
    | inl e ↦ inl (ground (arith, e))
    | inr (u, e) ↦ elim (Bool-cases (is_web_scheme u.scheme)) [
      | inr s ↦ inl (ground (arith, e, s))
      | inl s ↦ elim (Option-cases (web.lookup u.hostname)) [
        | inl f ↦ inl (ground (arith, e, s, f))
        | inr (addrs, f) ↦ elim (Bool-cases (any is_forbidden addrs)) [
          | inl b ↦ inl (ground (arith, e, s, f, b))
          | inr b ↦ inr (
            u,
            addrs,
            e,
            ground (arith, s, eq_iff u.scheme (text "http"), eq_iff u.scheme (text "https")),
            f,
            b,
            import_from_url-All web now req u registry r (ground (arith, e, s, f, b)),
          )
        ]
      ]
    ]
  ]

-- The import of a URL, no peer being named, either touches nothing of the disk, or it is a POST whose
-- URL is one of http or https, each address of its host is an IP outside the loopback, private,
-- link-local and unspecified ranges; and then every file that it writes, whole or in part, and every
-- directory that it pulls into lies strictly inside the data directory, and every directory that it
-- makes is the parent of a path strictly inside, whatever file name is asked for.
pub import_remote-IsGuarded :
    (web : Web) (data_dir stamp : Text) (now : ℕ) (method : Text) (req : ImportRequest)
    (registry : Registry) (r : Imported)
    → data_dir ≢ []
    → HasNoByte b'/' stamp
    → ((req.peer_url ≡ []) ⊎ (req.remote_path ≡ []))
    → import_remote web data_dir stamp now method (some req) registry ≡ some r
    → (r.effects ≡ []) ⊎ ((method ≡ text "POST") × IsGuarded data_dir web req r)
unfolding import_remote
import_remote-IsGuarded web data_dir stamp now method req registry r filled digits no_peer h =
    elim (Bool-cases (method == text "POST")) [
      | inr m ↦ inl (ground (arith, m))
      | inl m ↦
          let url_based : (not (req.peer_url == []) && not (req.remote_path == [])) ≡ false =
            ground (arith, eq_iff req.peer_url [], eq_iff req.remote_path []) in
          elim (Bool-cases (req.url == [])) [
            | inl e ↦ inl (ground (arith, m, url_based, e))
            | inr e ↦ inr (
              (eq_iff method (text "POST")).0 m,
              guard_url-IsGuarded data_dir stamp filled digits web now req registry r
                  (ground (arith, m, url_based, e)),
            )
          ]
    ]
