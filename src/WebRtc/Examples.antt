-- ===== src/WebRtc/Examples.antt =====
-- The relay at concrete connections.
use das_multi_device.Prelude.{true, refl, List, [], ◌∷◌, ◌≡◌, ◌==◌, some, arith}
use das_multi_device.WebRtc.{Conn, Peers, find_cid_of}
use das_multi_device.WebRtc.Sections.{Section, lists, enters, ends, run_sections}
use das_multi_device.WebRtc.Sections.Owners.{spare}
use das_multi_device.WebRtc.Sections.Discovery.{is_told, two_joins, discovery}

abbrev empty_maps : Peers
empty_maps = record { peers = []; cid_of = []; written = [] }

-- The first device gets its list, and a third device comes and goes.
abbrev between : List Section
between = lists 1 "b1" ∷ enters 3 "b3" ∷ lists 3 "b3" ∷ ends 3 ∷ []

nobody : (e : Conn) → find_cid_of e [] ≡ some "b1" → (e == 1) ≡ true
unfolding find_cid_of
nobody e h = ground (arith, h)

abbrev joins : List Section
joins = two_joins "b1" "b2" 1 2 between []

discovery_example :
    (is_told 1 "b2" (run_sections (λ _. true) joins empty_maps).written ≡ true)
    × (is_told 2 "b1" (run_sections (λ _. true) joins empty_maps).written ≡ true)
unfolding spare
discovery_example =
    discovery (λ _. true) "b1" "b2" 1 2 between [] empty_maps refl refl refl refl nobody refl refl
