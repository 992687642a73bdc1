-- ===== src/Router/Remote.antt =====
-- `importRemote` of internal/router/sync.go and `pullFromPeer` of internal/router/peer_sync.go: which
-- requests are refused, and where a download is stored. The network, the disk, `net/url` and the
-- store's reload are arguments.
pub mod Placed
pub mod Panics
mod Tests
use red_engine.Prelude.{
  ℕ, Bool, true, false, not, ◌&&◌, ◌||◌, Option, none, some, List, [], ◌∷◌, ◌++◌, any,
  if◌then◌else◌, ◌>>=◌, is_some,
}
use red_engine.Text.{Text, text, ◌==◌, has_suffix, trim_prefix, trim_suffix, to_lower}
use red_engine.Go.FilePath.{slash, dir, join_path}
use red_engine.Go.Ip.{
  Ip, is_loopback, is_private, is_link_local_unicast, is_link_local_multicast, is_unspecified,
}
use red_engine.Registry.{Registry, Result, ok, err}
use red_engine.Registry.Sync.{add_startup_sync}
use red_engine.Router.Import.{rewrite_url, target_sub_path, given_name}

-- A URL that is parsed.
pub record Url : Type 0 where
  pub scheme : Text
  pub host : Text
  pub hostname : Text
  pub path : Text

-- `lookup` gives the addresses of a host, none among them for one that is no IP; `manifest` the file
-- names of a peer's manifest; `get` says whether a URL is answered with status 200; `pull` whether
-- fetch.Pull of a URL and a type into a directory succeeds; `mkdir` whether a
-- directory and those above it can be made, `create` and `copy` whether a file can be, and its
-- content be written to the end.
pub record Web : Type 0 where
  pub parse : Text → Option Url
  pub lookup : Text → Option (List (Option Ip))
  pub manifest : Text → Option (List Text)
  pub get : Text → Bool
  pub pull : Text → Text → Text → Bool
  pub mkdir : Text → Bool
  pub create : Text → Bool
  pub copy : Text → Bool
  pub reload : Bool

pub record ImportRequest : Type 0 where
  pub url : Text
  pub filename : Text
  pub save_to_startup : Bool
  pub peer_url : Text
  pub remote_path : Text

-- What is done to the disk, to the end or to the point where it fails.
pub data Effect : Type 0 where
  -- fetch.Pull into the directory
  pulled : Text → Effect
  -- os.MkdirAll
  made_dir : Text → Effect
  -- a file that was created
  wrote : Text → Effect

pub record Imported : Type 0 where
  pub status : ℕ
  pub effects : List Effect
  pub registry : Registry

abbrev answer : ℕ → List Effect → Registry → Imported
answer status effects registry = record { status = status; effects = effects; registry = registry }

-- The loop of `pullFromPeer` over the files of the manifest, up to the first that fails.
unfoldable pub pull_files : Web → Text → Text → List Text → Bool × List Effect
pull_files web base dest_dir [] = (true, [])
pull_files web base dest_dir (rel ∷ rels) =
    let local_path = join_path dest_dir rel in
    let (done, effects) = pull_files web base dest_dir rels in
    if not (web.get (base ++ (slash ++ rel)))
    then (false, [])
    else if not (web.mkdir (dir local_path) && web.create local_path)
    then (false, made_dir (dir local_path) ∷ [])
    else if web.copy local_path
    then (done, made_dir (dir local_path) ∷ wrote local_path ∷ effects)
    else (false, made_dir (dir local_path) ∷ wrote local_path ∷ [])

unfoldable pub pull_from_peer : Web → Text → Text → Text → Bool × List Effect
unfolding pull_files
pull_from_peer web peer_url remote_path dest_dir =
    let base = trim_suffix peer_url slash ++ (text "/content/" ++ trim_prefix remote_path slash) in
    elim (web.manifest (base ++ text "/manifest.json")) [
      | none ↦ (false, [])
      | some rels ↦
          if web.mkdir dest_dir
          then (let (done, effects) = pull_files web base dest_dir rels in
              (done, made_dir dest_dir ∷ effects))
          else (false, made_dir dest_dir ∷ [])
    ]

-- The end of both branches: the reload, and the startup sync.
abbrev saved : List Effect → Result (Unit {0}) × Registry → Imported
saved effects (ok _, registry) = answer 200 effects registry
saved effects (err e, registry) = answer 500 effects registry

unfoldable pub finish : Web → Bool → Text → Text → ℕ → List Effect → Registry → Imported
finish web save url filename now effects registry =
    if not web.reload
    then answer 500 effects registry
    else if save
    then saved effects (add_startup_sync url filename now registry)
    else answer 200 effects registry

unfoldable pub import_from_peer : Web → Text → ℕ → ImportRequest → Registry → Imported
unfolding pull_from_peer finish
import_from_peer web data_dir now req registry =
    let (done, effects) =
      pull_from_peer web req.peer_url req.remote_path (join_path data_dir req.filename) in
    if done
    then finish web req.save_to_startup (req.peer_url ++ req.remote_path) req.filename now effects
        registry
    else answer 502 effects registry

abbrev pub is_forbidden : Option Ip → Bool
is_forbidden none = true
is_forbidden (some ip) =
    is_loopback ip
    || is_private ip
    || is_link_local_unicast ip
    || is_link_local_multicast ip
    || is_unspecified ip

unfoldable pub src_type_of : Text → Text
unfolding has_suffix to_lower
src_type_of url =
    let lower = to_lower url in
    if has_suffix lower (text ".git")
    then text "git"
    else if has_suffix lower (text ".tar.gz")
    then text "tar.gz"
    else if has_suffix lower (text ".zip")
    then text "zip"
    else text "raw"

-- A raw file is stored with the ending ".md".
abbrev with_md : Text → Text
with_md p = if has_suffix (to_lower p) (text ".md") then p else p ++ text ".md"

unfoldable pub store_raw : Web → Text → ImportRequest → Text → Text → ℕ → Registry → Imported
unfolding finish has_suffix to_lower
store_raw web data_dir req url target now registry =
    let destination = with_md (join_path data_dir target) in
    let name =
      if has_suffix (to_lower (join_path data_dir target)) (text ".md")
      then target
      else target ++ text ".md" in
    let made = made_dir (dir (join_path data_dir target)) in
    if not (web.mkdir (dir (join_path data_dir target)))
    then answer 500 (made ∷ []) registry
    else if not (is_some (web.parse url))
    then answer 500 (made ∷ []) registry
    else if not (web.get url)
    then answer 502 (made ∷ []) registry
    else if not (web.create destination)
    then answer 500 (made ∷ []) registry
    else if web.copy destination
    then finish web req.save_to_startup url name now (made ∷ wrote destination ∷ []) registry
    else answer 500 (made ∷ wrote destination ∷ []) registry

unfoldable pub store_pulled : Web → Text → ImportRequest → Text → Text → ℕ → Registry → Imported
unfolding finish src_type_of
store_pulled web data_dir req url target now registry =
    let destination = join_path data_dir target in
    if web.pull url (src_type_of url) destination
    then finish web req.save_to_startup url target now (pulled destination ∷ []) registry
    else answer 502 (pulled destination ∷ []) registry

unfoldable pub store_remote : Web → Text → ImportRequest → Text → Text → ℕ → Registry → Imported
unfolding store_raw store_pulled ◌==◌
store_remote web data_dir req url target now registry =
    if src_type_of url == text "raw"
    then store_raw web data_dir req url target now registry
    else store_pulled web data_dir req url target now registry

-- The URL as it is parsed again where it was rewritten; none where that fails, which is not checked.
abbrev pub parsed_again : Web → ImportRequest → Url → Option Url
parsed_again web req parsed =
    let url = rewrite_url parsed.host parsed.path req.url in
    if url == req.url then some parsed else web.parse url

-- `targetSubPath`; none where the handler panics, also for the nil of a URL that does not parse.
abbrev pub target_of : Option Url → Text → Text → Option Text
target_of none filename stamp = given_name filename stamp
target_of (some u) filename stamp = target_sub_path u.host u.path filename stamp

-- The rest for a URL that may be fetched; none where the handler panics.
unfoldable pub import_from_url :
    Web → Text → Text → ℕ → ImportRequest → Url → Registry → Option Imported
unfolding store_remote
import_from_url web data_dir stamp now req parsed registry =
    let url = rewrite_url parsed.host parsed.path req.url in
    do
      target ← target_of (parsed_again web req parsed) req.filename stamp
      some (store_remote web data_dir req url target now registry)

abbrev is_web_scheme : Text → Bool
is_web_scheme s = s == text "http" || s == text "https"

unfoldable pub guard_url : Web → Text → Text → ℕ → ImportRequest → Registry → Option Imported
unfolding import_from_url ◌==◌
guard_url web data_dir stamp now req registry = elim (web.parse req.url) [
  | none ↦ some (answer 400 [] registry)
  | some parsed ↦
      if not (is_web_scheme parsed.scheme)
      then some (answer 400 [] registry)
      else elim (web.lookup parsed.hostname) [
        | none ↦ some (answer 400 [] registry)
        | some addrs ↦
            if any is_forbidden addrs
            then some (answer 403 [] registry)
            else import_from_url web data_dir stamp now req parsed registry
      ]
]

abbrev pub import_request : Web → Text → Text → ℕ → ImportRequest → Registry → Option Imported
import_request web data_dir stamp now req registry =
    if not (req.peer_url == []) && not (req.remote_path == [])
    then some (import_from_peer web data_dir now req registry)
    else if req.url == []
    then some (answer 400 [] registry)
    else guard_url web data_dir stamp now req registry

unfoldable pub import_remote :
    Web → Text → Text → ℕ → Text → Option ImportRequest → Registry → Option Imported
unfolding import_from_peer guard_url ◌==◌
import_remote web data_dir stamp now method none registry =
    some (answer (if method == text "POST" then 400 else 405) [] registry)
import_remote web data_dir stamp now method (some req) registry =
    if method == text "POST"
    then import_request web data_dir stamp now req registry
    else some (answer 405 [] registry)
