-- ===== src/Router/Nodes/Tests.antt =====
-- Cards and times of the directory of nodes.
use red_engine.Prelude.{◌≡◌, refl, none, some, map, [], ◌∷◌}
use red_engine.Text.{text}
use red_engine.Router.Nodes.{
  never, just_now, min_ago, hr_ago, days_ago, ago, relative_time, ensure_scheme,
}

schemes : ensure_scheme (text "node.org") ≡ text "https://node.org"
unfolding ensure_scheme
schemes = refl

times :
    map (relative_time 100000) (none ∷ some 99990 ∷ some 99000 ∷ some 60000 ∷ some 5 ∷ [])
    ≡ never ∷ just_now ∷ min_ago 16 ∷ hr_ago 11 ∷ days_ago 1 ∷ []
unfolding relative_time ago
times = refl
