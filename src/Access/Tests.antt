-- ===== src/Access/Tests.antt =====
-- api.cpp: the theorems on the access list at concrete addresses.
use ccminer.Common.{◌+◌, ◌*◌, ◌%◌, ◌^◌, ◌≡◌, ◌↔◌, refl, inr, false, some, List, [], ◌∷◌, map, arith}
use ccminer.Cstring.{codes, text_eq, atoi}
use ccminer.Access.{mask_of, check_connect, setup_ipaccess}
use ccminer.Access.Masks.{
  Net, netmask, mask_of_iff, entry_for, AreNets, first_net, admitted, check_connect_lem,
}

mask_of_iff_example : (mask_of (2 ^ 31) 12 ≡ netmask 12) ↔ (12 % 8 ≡ 0)
mask_of_iff_example = mask_of_iff (2 ^ 31) 12 (inr refl) (omega arith) (omega arith)

-- 192.168.0.0/16 of group W, and everyone of group R.
abbrev nets : List Net
nets =
    record { address = 192 * 2 ^ 24 + 168 * 2 ^ 16; bits = 16; group = 87 }
    ∷ record { address = 0; bits = 0; group = 82 }
    ∷ []

nets-AreNets : AreNets nets
nets-AreNets = ((omega arith, omega arith), ((omega arith, omega arith), tt))

check_connect_lem_example :
    check_connect (some (map entry_for nets)) [] (192 * 2 ^ 24 + 168 * 2 ^ 16 + 5) []
    ≡ admitted (first_net (192 * 2 ^ 24 + 168 * 2 ^ 16 + 5) nets)
check_connect_lem_example =
    check_connect_lem nets [] (192 * 2 ^ 24 + 168 * 2 ^ 16 + 5) [] nets-AreNets (omega arith)

-- The text gives those entries.
setup_ipaccess_run :
    setup_ipaccess (2 ^ 31) (λ c. false) (codes "W:192.168.0.0/16, 0/0") ≡ map entry_for nets
unfolding setup_ipaccess text_eq atoi
setup_ipaccess_run = refl
