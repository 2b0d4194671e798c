-- ===== src/Hex/Tests.antt =====
-- util.cpp: the theorems on hex at concrete texts.
use ccminer.Common.{◌≡◌, true, [], ◌∷◌, arith}
use ccminer.Hex.{hex2bin, bin2hex}
use ccminer.Hex.RoundTrip.{hex2bin-bin2hex}

hex2bin-bin2hex_example : hex2bin (bin2hex (0 ∷ 171 ∷ 255 ∷ [])) 3 ≡ (0 ∷ 171 ∷ 255 ∷ [], true)
hex2bin-bin2hex_example =
    hex2bin-bin2hex (0 ∷ 171 ∷ 255 ∷ []) (omega arith, (omega arith, (omega arith, tt)))
