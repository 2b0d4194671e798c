-- ===== src/Stratum/Tests.antt =====
-- util.cpp: the theorem on the extranonce at a concrete message.
use ccminer.Common.{List, [], ◌∷◌}
use ccminer.Common.Int.{pos}
use ccminer.Cstring.{codes}
use ccminer.Fixtures.{a_stratum}
use ccminer.Stratum.{Json, stratum_parse_extranonce}
use ccminer.Stratum.Extranonce.{Checked, parse_extranonce-Checked}

abbrev extranonce : List Json
extranonce = Json.text (codes "abcdef01") ∷ Json.integer (pos 4) ∷ []

parse_extranonce-Checked_example :
    Checked a_stratum (stratum_parse_extranonce (codes "equihash") extranonce 0 a_stratum)
parse_extranonce-Checked_example =
    parse_extranonce-Checked (codes "equihash") extranonce 0 a_stratum
