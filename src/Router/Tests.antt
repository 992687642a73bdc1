-- ===== src/Router/Tests.antt =====
-- Requests to the router on a store of two articles.
use red_engine.Prelude.{
  ◌≡◌, refl, ◌≢◌, ◌↔◌, ◌⊎◌, true, false, Option, none, some, List, [], ◌∷◌, ◌++◌, All, any,
}
use red_engine.Text.{
  HasNoByte, Text, text, ◌==◌, has_prefix, has_suffix, trim_suffix, trim_prefix, contains, split,
  join, to_lower, trim_left, trim_byte,
}
use red_engine.Go.Hex.{encode}
use red_engine.Go.FilePath.{
  is_rooted, elements, render, clean, clean_step, clean_parts, join_path, join_all,
}
use red_engine.Go.FilePath.Below.{IsInside}
use red_engine.Registry.{Db}
use red_engine.Registry.Sync.{new_sync, remove_startup_sync}
use red_engine.Store.{Article, Section, Sections, nil, entry, section, unsigned, lookup}
use red_engine.Store.Nav.{slash, get, get_section}
use red_engine.Store.Update.{World}
use red_engine.Router.Files.{
  RemoveRequest, cover, icon, branch_meta, asset_file, admin_remove, removal_path,
}
use red_engine.Router.Files.Confined.{
  IsOpen, branch_meta-IsOpen, asset_file-IsOpen, admin_remove-IsInside,
}
use red_engine.Router.Pages.{find_article, find_siblings, is_hidden}
use red_engine.Router.Content.{
  Content, describe, ContentResponse, content, refused, panicked, content_api,
}
use red_engine.Router.Content.Reported.{rooted_path, IsShown, IsReport, content_api-IsReport}
use red_engine.Router.Import
use red_engine.Router.Import.{github, url_parts, auto_name, or_stamp, target_sub_path, destination}
use red_engine.Router.Webhook
use red_engine.Router.Webhook.{
  verify_signature, Repository, WebhookRequest, started, normalize_url, webhook_sync, Pulled,
  everything, is_tracked, sync_tracked,
}
use red_engine.Router.Webhook.Started.{url_of, webhook_sync-started_iff}

abbrev article_of : Text → Article
article_of at = record {
  path = at;
  title = text "Title";
  body = text "<p>x</p>";
  raw = text "x";
  hash = text "ab";
  verified = false;
  author = text "Ada";
  verification_error = [];
  verification_state = unsigned;
}

abbrev boot : Article
boot = article_of (text "/linux/boot")

abbrev disk : Article
disk = article_of (text "/linux/disk")

abbrev linux : Section
linux = section (text "linux") (text "/linux") (boot ∷ disk ∷ []) nil false false

abbrev nav : Sections
nav = entry (text "linux") linux nil

abbrev data_dir : Text
data_dir = text "data"

abbrev cover_url : Text
cover_url = text "/-/branch-meta/linux/cover.jpg"

served_cover : branch_meta data_dir cover_url ≡ some (text "data/linux/.meta/cover.jpg")
unfolding ◌==◌ has_prefix trim_prefix contains split join elements render clean clean_step
    clean_parts join_all branch_meta
served_cover = refl

branch_meta-IsOpen_example :
    (dirs : List Text) × (name : Text) × All IsOpen dirs
    × ((name ≡ cover) ⊎ (name ≡ icon))
    × (text "data/linux/.meta/cover.jpg"
        ≡ render (is_rooted data_dir) (elements data_dir ++ (dirs ++ text ".meta" ∷ name ∷ [])))
branch_meta-IsOpen_example =
    branch_meta-IsOpen data_dir cover_url (text "data/linux/.meta/cover.jpg") (λ e. cc) served_cover

abbrev asset_url : Text
asset_url = text "/-/assets/linux/a.png"

served_asset : asset_file data_dir asset_url ≡ some (text "data/linux/.assets/a.png")
unfolding ◌==◌ has_prefix trim_prefix contains split join elements render clean clean_step
    clean_parts join_all asset_file
served_asset = refl

asset_file-IsOpen_example :
    (dirs : List Text) × (name : Text) × All IsOpen dirs
    × IsOpen name
    × (text "data/linux/.assets/a.png"
        ≡ render (is_rooted data_dir) (elements data_dir ++ (dirs ++ text ".assets" ∷ name ∷ [])))
asset_file-IsOpen_example =
    asset_file-IsOpen data_dir asset_url (text "data/linux/.assets/a.png") (λ e. cc) served_asset

abbrev db : Db
db = record {
  peers = [];
  next_peer_id = 1;
  exported_paths = [];
  health = [];
  node_settings = [];
  startup_sync = new_sync (text "https://x/linux.zip") (text "linux") 1 4 ∷ [];
  next_sync_id = 2;
  trusted_authors = [];
}

abbrev removal : RemoveRequest
removal = record { filename = text "a/../linux"; delete_local_files = true }

removed_linux : (admin_remove data_dir true (some removal) (some db)).1.0 ≡ some (text "data/linux")
unfolding ◌==◌ has_prefix split join elements render clean clean_step clean_parts join_path
    remove_startup_sync removal_path admin_remove
removed_linux = refl

admin_remove-IsInside_example :
    (true ≡ true)
    × ((admin_remove data_dir true (some removal) (some db)).0 ≡ 200)
    × IsInside data_dir (text "data/linux")
admin_remove-IsInside_example =
    admin_remove-IsInside data_dir (text "data/linux") true (some removal) (some db) (λ e. cc)
      removed_linux

section_linux : get_section nav (slash ++ join slash (text "linux" ∷ [])) ≡ some linux
unfolding ◌==◌ has_prefix trim_prefix split join lookup get_section
section_linux = refl

other_path : (boot.path == disk.path) ≡ false
unfolding ◌==◌
other_path = refl

abbrev response_of : Content → ContentResponse → ContentResponse
response_of (content resp) other = resp
response_of (refused status) other = other
response_of panicked other = other

abbrev no_response : ContentResponse
no_response = record {
  title = [];
  body_html = [];
  verification_state = unsigned;
  author = [];
  hash = [];
  crumb = [];
  prev_article = none;
  next_article = none;
  is_directory = false;
}

abbrev shown : ContentResponse
shown = response_of (content_api nav (text "linux/disk")) no_response

found_disk : content_api nav (text "linux/disk") ≡ content shown
unfolding ◌==◌ has_prefix has_suffix trim_prefix split join trim_left trim_byte lookup get is_hidden
    find_article find_siblings get_section describe content_api
found_disk = refl

content_api-IsReport_example :
    (text "linux/disk" ≢ [])
    × (is_hidden (rooted_path (text "linux/disk")) ≡ false)
    × ((art : Article) × IsShown nav (rooted_path (text "linux/disk")) shown.is_directory art
        × IsReport shown art)
content_api-IsReport_example = content_api-IsReport nav (text "linux/disk") shown found_disk

no_empty_name : lookup [] nav ≡ none
unfolding lookup ◌==◌
no_empty_name = refl

hidden_meta : is_hidden (text "/linux/.meta/cover.jpg") ≡ true
unfolding has_prefix split trim_left trim_byte is_hidden
hidden_meta = refl

-- The code of a message is the message.
abbrev own_code : Text → Text → Text
own_code secret body = body

abbrev parse_any : Text → Option Repository
parse_any body = some (record { html_url = []; clone_url = text "https://X/Linux.git" })

abbrev push_event : WebhookRequest
push_event = record { is_post = true; body = some (text "h"); signature = text "sha256=68" }

webhook_sync-started_iff_example :
    (webhook_sync own_code parse_any (text "s") push_event ≡ started (text "https://x/linux")) ↔ (
      (body : Text) × (repository : Repository) × ((true ≡ true)
        × (some (text "h") ≡ some body)
        × (text "s" ≢ [])
        × (text "sha256=68" ≡ text "sha256=" ++ encode (own_code (text "s") body))
        × (parse_any body ≡ some repository)
        × (url_of repository ≢ [])
        × (text "https://x/linux" ≡ normalize_url (url_of repository))))
webhook_sync-started_iff_example =
    webhook_sync-started_iff own_code parse_any (text "s") push_event (text "https://x/linux")

is_started :
    webhook_sync own_code parse_any (text "s") push_event ≡ started (text "https://x/linux")
unfolding ◌==◌ has_prefix has_suffix trim_suffix to_lower encode Webhook.trim_space normalize_url
    verify_signature webhook_sync
is_started = refl

abbrev world : World
world = record {
  platform = record {
    sha256 = λ s. s;
    ed25519_verify = λ public_key message signature. false;
    markdown = λ source article_path. some source;
    data_dir = data_dir;
    exists = λ path. false;
    read_file = λ path. none;
    rel = λ path. none;
  };
  trusted_authors = [];
  signers = [];
  files = [];
}

untracked : any (is_tracked (text "https://y/other")) db.startup_sync ≡ false
unfolding ◌==◌ has_prefix has_suffix trim_suffix to_lower Webhook.trim_space normalize_url
untracked = refl

abbrev stamp : Text
stamp = text "20260101000000"

abbrev repository_path : Text
repository_path = text "/owner/repo.git"

import_panics : target_sub_path github repository_path [] stamp ≡ none
unfolding ◌==◌ has_prefix split join trim_left elements render clean clean_step clean_parts
    Import.trim_right auto_name target_sub_path
import_panics = refl

abbrev raw_path : Text
raw_path = text "/owner/repo/main/boot.md"

named_boot :
    target_sub_path (text "raw.githubusercontent.com") raw_path [] stamp ≡ some (text "boot")
unfolding ◌==◌ has_prefix has_suffix trim_suffix split join trim_left elements render clean
    clean_step clean_parts Import.trim_right auto_name or_stamp target_sub_path
named_boot = refl

no_slash : HasNoByte b'/' stamp
no_slash = (
  refl,
  (
    refl,
    (
      refl,
      (refl, (refl, (refl, (refl, (refl, (refl, (refl, (refl, (refl, (refl, (refl, tt))))))))))),
    ),
  ),
)
