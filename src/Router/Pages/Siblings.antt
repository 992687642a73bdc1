-- ===== src/Router/Pages/Siblings.antt =====
-- The neighbours and the crumbs of a page of internal/router/serve.go.
use mathlib.Core.List.{head?}
use red_engine.Prelude.{
  ℕ, suc, ◌≡◌, refl, ap, ◌∙◌, false, Option, none, some, List, [], ◌∷◌, ◌++◌, append_assoc, arith,
  map, All, take, get_elem?, length, ◌<◌, ◌≤◌, zero,
}
use red_engine.Text.{Text, ◌==◌, eq_iff, join}
use red_engine.Store.{Article, Section, Sections, articles}
use red_engine.Store.Nav.{slash, get_section}
use red_engine.Router.Files.{all_but_last}
use red_engine.Router.Pages.{crumbs_from, build_crumbs, siblings_in, find_siblings}

-- The article before a list that ends in the given one.
abbrev pub last_or : Option Article → List Article → Option Article
last_or prev [] = prev
last_or prev (a ∷ arts) = last_or (some a) arts

siblings_in-append :
    (path : Text) (before after : List Article) (art : Article) (prev : Option Article)
    → All (λ a. (a.path == path) ≡ false) before
    → art.path ≡ path
    → siblings_in prev path (before ++ art ∷ after) ≡ (last_or prev before, head? after)
unfolding siblings_in
siblings_in-append path [] [] art prev h e = ground (arith, eq_iff art.path path)
siblings_in-append path [] (x ∷ after) art prev h e = ground (arith, eq_iff art.path path)
siblings_in-append path (b ∷ before) after art prev (k, h) e =
    rw k (siblings_in-append path before after art (some b) h e)

-- For a page of two parts at least, the neighbours of an article in the section of its parent path
-- are the one before it and the one behind it, where it is the first article of its path there.
pub find_siblings-append :
    (nav : Sections) (path : Text) (parts : List Text) (sec : Section) (before after : List Article)
    (art : Article)
    → 2 ≤ length parts
    → get_section nav (slash ++ join slash (all_but_last parts)) ≡ some sec
    → articles sec ≡ before ++ art ∷ after
    → All (λ a. (a.path == path) ≡ false) before
    → art.path ≡ path
    → find_siblings nav path parts ≡ (last_or none before, head? after)
unfolding find_siblings
find_siblings-append nav path parts sec before after art long there held first at =
    rw (there, held) (ground (arith, siblings_in-append path before after art none first at))

crumbs_from-paths :
    (path : Text) (parts : List Text) (i : ℕ)
    → i < length parts
    → get_elem? (map (λ c. c.path) (crumbs_from path parts)) i
      ≡ some (path ++ (slash ++ join slash (take (suc i) parts)))
unfolding crumbs_from join
crumbs_from-paths path [] i h = absurd (omega arith)
crumbs_from-paths path (p ∷ parts) zero h = refl
crumbs_from-paths path (p ∷ []) (suc i) h = absurd (omega arith)
crumbs_from-paths path (p ∷ q ∷ parts) (suc i) h =
    crumbs_from-paths (path ++ (slash ++ p)) (q ∷ parts) i (omega arith)
    ∙ ap some (append_assoc path (slash ++ p) (slash ++ join slash (q ∷ take i parts)))

-- The crumb at each place leads to "/" and the parts up to that place.
pub build_crumbs-paths :
    (parts : List Text) (i : ℕ)
    → i < length parts
    → get_elem? (map (λ c. c.path) (build_crumbs parts)) i
      ≡ some (slash ++ join slash (take (suc i) parts))
build_crumbs-paths parts i h = crumbs_from-paths [] parts i h
