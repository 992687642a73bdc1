-- ===== src/Router/Remote/Panics.antt =====
-- When `importRemote` of internal/router/sync.go panics.
use red_engine.Prelude.{
  ℕ, ◌≡◌, ◌≢◌, ◌↔◌, ◌⊎◌, refl, inl, inr, true, false, not, ◌&&◌, Option, none, some, List, [],
  arith, any, length, Bool-cases, Option-cases,
}
use red_engine.Text.{Text, text, ◌==◌, eq_iff}
use red_engine.Go.Ip.{Ip}
use red_engine.Go.FilePath.{dot, clean}
use red_engine.Registry.{Registry}
use red_engine.Router.Import.{github, url_parts}
use red_engine.Router.Import.Named.{target_sub_path-none_iff, given_name-none_iff}
use red_engine.Router.Remote.{
  Url, Web, ImportRequest, is_forbidden, is_web_scheme, parsed_again, target_of, import_from_url,
  guard_url, import_remote,
}

-- No file name is given, and the URL to download is no URL, or one of github.com whose path splits
-- into three parts.
abbrev pub IsNameless : Option Url → Text → Type 0
IsNameless again filename =
    (clean filename ≡ dot)
    × ((again ≡ none)
        ⊎ ((u : Url) × (again ≡ some u) × (u.host ≡ github) × (length (url_parts u.path) ≡ 3)))

target_of-none_iff :
    (again : Option Url) (filename stamp : Text)
    → (target_of again filename stamp ≡ none) ↔ IsNameless again filename
target_of-none_iff none filename stamp =
    let given = given_name-none_iff filename stamp in
    ((λ h. (given.0 h, inl refl)), (λ h. given.1 h.0))
target_of-none_iff (some u) filename stamp =
    let named = target_sub_path-none_iff u.host u.path filename stamp in
    (
      (λ h. let (c, g, l) = named.0 h in (c, inr (u, refl, g, l))),
      (λ (c, h). elim h [
        | inl e ↦ absurd (cc e)
        | inr (v, e, g, l) ↦ named.1 (c, ground (arith, e, g), ground (arith, e, l))
      ]),
    )

import_from_url-none_iff :
    (web : Web) (data_dir stamp : Text) (now : ℕ) (req : ImportRequest) (parsed : Url)
    (registry : Registry)
    → (import_from_url web data_dir stamp now req parsed registry ≡ none)
      ↔ IsNameless (parsed_again web req parsed) req.filename
unfolding import_from_url
import_from_url-none_iff web data_dir stamp now req parsed registry =
    let again = parsed_again web req parsed in
    let named = target_of-none_iff again req.filename stamp in
    elim (Option-cases (target_of again req.filename stamp)) [
      | inl e ↦ ((λ h. named.0 e), (λ h. rw e refl))
      | inr (t, e) ↦ ((λ h. absurd (cc (rw e at h))), (λ h. absurd (cc (e, named.1 h))))
    ]

-- The URL passes the guards, and its download has no name.
abbrev pub PassesNameless : Web → ImportRequest → Type 0
PassesNameless web req =
    (u : Url) × (addrs : List (Option Ip)) × (web.parse req.url ≡ some u)
    × (is_web_scheme u.scheme ≡ true)
    × (web.lookup u.hostname ≡ some addrs)
    × (any is_forbidden addrs ≡ false)
    × IsNameless (parsed_again web req u) req.filename

guard_url-none :
    (web : Web) (data_dir stamp : Text) (now : ℕ) (req : ImportRequest) (registry : Registry)
    → guard_url web data_dir stamp now req registry ≡ none
    → PassesNameless web req
unfolding guard_url
guard_url-none web data_dir stamp now req registry h = elim (Option-cases (web.parse req.url)) [
  | inl e ↦ absurd (ground (arith, e))
  | inr (u, e) ↦ elim (Bool-cases (is_web_scheme u.scheme)) [
    | inr s ↦ absurd (ground (arith, e, s))
    | inl s ↦ elim (Option-cases (web.lookup u.hostname)) [
      | inl f ↦ absurd (ground (arith, e, s, f))
      | inr (addrs, f) ↦ elim (Bool-cases (any is_forbidden addrs)) [
        | inl b ↦ absurd (ground (arith, e, s, f, b))
        | inr b ↦ (
          u,
          addrs,
          e,
          s,
          f,
          b,
          (import_from_url-none_iff web data_dir stamp now req u registry).0
              (ground (arith, e, s, f, b)),
        )
      ]
    ]
  ]
]

PassesNameless-none :
    (web : Web) (data_dir stamp : Text) (now : ℕ) (req : ImportRequest) (registry : Registry)
    → PassesNameless web req
    → guard_url web data_dir stamp now req registry ≡ none
unfolding guard_url
PassesNameless-none web data_dir stamp now req registry (u, addrs, e, s, f, b, n) =
    rw (guard_url, e, s, f, b)
      ((import_from_url-none_iff web data_dir stamp now req u registry).1 n)

-- The import panics exactly for a POST that names no peer, whose URL is one of http or https and of a
-- host with public addresses only, and which gives no file name, where the URL as it is rewritten
-- does not parse, or is one of github.com whose path splits into three parts, as that of a repository
-- does.
pub import_remote-none_iff :
    (web : Web) (data_dir stamp : Text) (now : ℕ) (method : Text) (req : ImportRequest)
    (registry : Registry)
    → (import_remote web data_dir stamp now method (some req) registry ≡ none) ↔ (
        (method ≡ text "POST")
        × ((req.peer_url ≡ []) ⊎ (req.remote_path ≡ []))
        × (req.url ≢ [])
        × PassesNameless web req)
unfolding import_remote
import_remote-none_iff web data_dir stamp now method req registry = (
  (λ h. elim (Bool-cases (method == text "POST")) [
    | inr m ↦ absurd (ground (arith, m))
    | inl m ↦ elim (Bool-cases (not (req.peer_url == []) && not (req.remote_path == []))) [
      | inl k ↦ absurd (ground (arith, m, k))
      | inr k ↦ elim (Bool-cases (req.url == [])) [
        | inl e ↦ absurd (ground (arith, m, k, e))
        | inr e ↦ (
          (eq_iff method (text "POST")).0 m,
          ground (arith, k, eq_iff req.peer_url [], eq_iff req.remote_path []),
          ground (arith, e, eq_iff req.url []),
          guard_url-none web data_dir stamp now req registry (ground (arith, m, k, e)),
        )
      ]
    ]
  ]),
  (λ (m, k, e, passes).
      let post : (method == text "POST") ≡ true = (eq_iff method (text "POST")).1 m in
      let no_peer : (not (req.peer_url == []) && not (req.remote_path == [])) ≡ false =
        ground (arith, k, eq_iff req.peer_url [], eq_iff req.remote_path []) in
      let has_url : (req.url == []) ≡ false = ground (arith, e, eq_iff req.url []) in
      rw (post, no_peer, has_url) (PassesNameless-none web data_dir stamp now req registry passes)),
)
