-- ===== src/Fetch/Client.antt =====
-- `SafeClient` and `Pull` of internal/fetch/fetch.go: which addresses are dialed, and which kind of
-- download a source gets.
mod Tests
pub mod Dialed
use red_engine.Prelude.{
  ℕ, Bool, true, false, ◌||◌, ◌&&◌, not, Option, none, some, List, [], ◌∷◌, ◌++◌, any,
  if◌then◌else◌,
}
use red_engine.Text.{Text, text, ◌==◌, has_suffix, to_lower}
use red_engine.Go.Ip.{
  Ip, is_loopback, is_private, is_link_local_unicast, is_multicast, is_unspecified,
}

abbrev pub is_blocked : Ip → Bool
is_blocked ip =
    is_loopback ip
    || is_private ip
    || is_link_local_unicast ip
    || is_multicast ip
    || is_unspecified ip

-- The address that `DialContext` connects to, of those that the lookup gives; none where it fails
-- or refuses.
unfoldable pub dial_address : Option (List Ip) → Option Ip
dial_address none = none
dial_address (some []) = none
dial_address (some (ip ∷ ips)) = if any is_blocked (ip ∷ ips) then none else some ip

-- What `Pull` does for a source type.
pub data Download : Type 0 where
  git_pull : Text → Download
  raw_file : Text → Download
  tar_archive zip_archive : Text → Download
  unsupported : Download

unfoldable pub pull_kind : Text → Text → Download
unfolding ◌==◌ has_suffix to_lower
pull_kind src_type dest_dir =
    if src_type == text "git"
    then git_pull dest_dir
    else if src_type == text "raw"
    then raw_file
        (if has_suffix (to_lower dest_dir) (text ".md") then dest_dir else dest_dir ++ text ".md")
    else if src_type == text "tar.gz" || src_type == text "tgz"
    then tar_archive dest_dir
    else if src_type == text "zip"
    then zip_archive dest_dir
    else unsupported
