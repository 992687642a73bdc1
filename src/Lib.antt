-- ===== src/Lib.antt =====
-- Verification library of the RED engine, a server for signed Markdown guides that nodes mirror from
-- each other. It models the core of the Go program: the store of articles and the verification of
-- their signatures, the registry of peers and trusted authors, the handshake by which a peer moves
-- to a new URL, the extraction of downloaded archives, the index of guides and its scan, and the
-- handlers that show pages, serve, import and remove files, exchange peers and answer webhooks.
--
-- How the parts interact. The store (internal/store/store.go) walks the data directory and keeps a
-- tree of sections. For each file it looks up the signature in the signer databases and the key in
-- the table of trusted authors of the registry (internal/registry/registry.go), which the admin's
-- handlers change (internal/router/contributors.go). Archives of content are unpacked into the data
-- directory (internal/fetch/fetch.go). A peer whose URL changed proves the possession of its key
-- (internal/router/announce.go), after which the registry has the new URL. Requests for pages
-- (internal/router/serve.go) read the store's tree; requests for files (internal/router/router.go)
-- go to the data directory; a webhook (internal/router/webhook.go) pulls the startup syncs of its
-- repository and hot-patches or reloads the store. The index of guides (internal/navigation) is
-- filled by a scan of the data directory and read by its handlers (internal/router/nav_handlers.go).
-- An import (internal/router/sync.go) downloads a file of the web or the files of a peer. Peers are
-- added, refreshed and learnt from the lists of other peers (internal/router/admin_peers.go). The
-- program (cmd/red/main.go) seeds the registry, pulls the startup syncs and then pulls them again
-- every minute.
--
-- Files:
--   Prelude.antt, Prelude/: Boolean tests on numbers, the conditional, lists with native lengths.
--   Text.antt, Text/: Go strings as lists of bytes, and the functions of `strings` that are called.
--   Dict.antt: Go maps with string keys. Go.antt, Go/: encoding/hex, path/filepath on Unix,
--     strconv.Atoi, and the predicates of net.IP.
--   Store.antt: Article and Section of internal/models/models.go.
--   Store/Nav.antt: insertIntoMap, removeFromMap, Get, GetSection; its children say what a tree holds
--     at a path before and after them. Store/Meta.antt: checkMetaFiles and that it changes no article.
--   Store/Verify.antt: processArticle; Store/Verify/Badge.antt: when an article is verified.
--   Store/Update.antt: loadSecurityData, Reload, UpdateFiles; Store/Update/Patch.antt: the hot patch;
--     Store/Update/Rebuild.antt: the reload, and its agreement with the hot patch.
--   Store/Search.antt: BuildSearchIndex; Store/Search/Complete.antt: what it lists.
--   Store/Watch.antt: Watch, BeginRemoteSync, EndRemoteSync, ShouldIgnoreLocalEvents;
--     Store/Watch/Window.antt: the events that a remote sync keeps away.
--   Registry.antt: the tables and the results of statements. Registry/Peers.antt: AddPeer,
--     UpdatePeerURL, SetPeerHealth, DeletePeer, GetPeerByURL, GetPeerByPublicKey, with
--     their invariants and lookups in its children, column by column in Registry/Peers/Upserted.antt; Registry/Peers/Listing.antt: ListPeers,
--     ListPeersByType, ListAllExportedPaths. Registry/Sync.antt: AddStartupSync,
--     MarkSyncResult, RemoveStartupSync, ListStartupSync. Registry/Settings.antt: GetSetting,
--     SetSetting. Registry/Migrate.antt: migrate, migratePeersToV2, migrateStartupSyncToV2, with
--     what they copy in Registry/Migrate/Copied.antt, the paths that they carry over in Paths.antt,
--     and the whole upgrade in Upgraded.antt. Registry/Authors.antt: addContributorToDB,
--     revokeContributor.
--   Announce.antt: announceChallenge, announceConfirm, startChallengeSweeper; Announce/Confirm.antt:
--     one request; Announce/Runs.antt: runs of many, one after another; Announce/Overlap.antt: two
--     that load the same challenge.
--   Fetch.antt: extractTarGz, extractZip, writeEntry; Fetch/Extract.antt: what they can touch.
--   Router/Files.antt: branchMeta, assetFile, adminRemove; Router/Files/Confined.antt: the paths they
--     reach. Router/Pages.antt: serve, findSiblings, buildCrumbs; Router/Content.antt: contentAPI;
--     Router/Webhook.antt: normalizeURL, verifySignature, webhookSync; Router/Import.antt: the names
--     that importRemote gives.
--   Navigation.antt: the tables of internal/navigation/db.go, UpsertFolder, UpsertGuide,
--     updateAggregates, SetFolderDescription, VerifyNavigationDB; Navigation/Extract.antt: helpers.go;
--     Navigation/Scan.antt: scanner.go; Navigation/Rows.antt, Valid.antt, Upsert.antt, Override.antt,
--     Aggregates.antt: what one statement keeps and changes; Navigation/Scan/: what a whole scan does;
--     Navigation/Tree.antt: GetNavigationTree and getChildren; Navigation/Flat.antt:
--     GetNavigationFlat. Router/Navigation.antt: navAPI, navRescan, navFolderDescription.
--   Router/Peers.antt: addPeer, deletePeer, RefreshPeer, publicPeers, importPeerGossip;
--     Router/Nodes.antt: nodes and nodeInfo; Router/Recent.antt: recentFiles; Router/Admin.antt:
--     adminOnly, reload, source, download; Router/Remote.antt: importRemote, pullFromPeer, with the
--     panics of an import in Router/Remote/Panics.antt.
--   Fetch/Client.antt: the address that SafeClient dials, and the kinds of Pull.
--   Start.antt: main and periodicSync of cmd/red/main.go with internal/config/config.go, and PullDelta;
--     Start/Seeded.antt, Syncs.antt, Once.antt: what a start stores; Start/Periodic.antt: a round.
--   The modules named Tests run the definitions on concrete data.
--
-- Parameters, for what the program calls and does not implement: SHA-256, Ed25519, the Markdown
-- renderer with its sanitizer, the disk, the clock, the random source, the readers of archives,
-- the operating system's calls of the extraction, HMAC-SHA256, the JSON decoder, the pull of a
-- URL, the requests to other nodes (the record Net), and for imports the parser of URLs, the lookup
-- of names and the downloads (the record Web). A directory on the disk is a tree of entries or
-- unreadable. SQLite is modelled by what its statements do to the rows of a table; failures of the
-- disk or of the driver are not. One function uses fuel: getChildren follows the ids of folders and
-- is given as many rounds as there are ids, which is enough in a valid index, where the id of a
-- folder is above that of its parent. Every other loop is a recursion on a list, a tree or the parts
-- of a path.
--
-- Not modelled: other interleavings within a handler or under the store's lock, the library that polls
-- the disk, temporary files and git (internal/fetch/git.go), the table of routes, the templates and
-- the health checks of internal/router, the key file of internal/node, the Markdown renderer of
-- internal/render, the flags, the listener and the announcement of cmd/red, and the front end.
-- strings.ToLower, strings.Title and unicode.ToUpper are modelled for ASCII only, strings.TrimSpace
-- too outside of the guides (Text/Space.antt has its Unicode spaces).
pub mod Prelude
pub mod Text
pub mod Dict
pub mod Go
pub mod Fetch
pub mod Registry
pub mod Announce
pub mod Store
pub mod Navigation
pub mod Router
pub mod Start
