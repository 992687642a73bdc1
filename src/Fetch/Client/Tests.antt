-- ===== src/Fetch/Client/Tests.antt =====
-- Addresses that are dialed and refused.
use red_engine.Prelude.{◌≡◌, refl, none, some, [], ◌∷◌}
use red_engine.Text.{text}
use red_engine.Go.Ip.{v4}
use red_engine.Fetch.Client.{dial_address, pull_kind, raw_file}

-- A name that also has an address of the machine itself.
mixed : dial_address (some (v4 1 2 3 4 ∷ v4 127 0 0 1 ∷ [])) ≡ none
unfolding dial_address
mixed = refl

raw : pull_kind (text "raw") (text "data/notes") ≡ raw_file (text "data/notes.md")
unfolding pull_kind
raw = refl

dialed : dial_address (some (v4 1 2 3 4 ∷ [])) ≡ some (v4 1 2 3 4)
unfolding dial_address
dialed = refl
