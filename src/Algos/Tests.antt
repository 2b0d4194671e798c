-- ===== src/Algos/Tests.antt =====
-- algos.h: the theorems on the names at concrete texts.
use ccminer.Common.{◌≡◌, refl, map, get_or, []}
use ccminer.Common.Int.{pos}
use ccminer.Cstring.{codes, to_lower}
use ccminer.Algos.{ShaAlgos, to_int, algo_names, algo_to_int}
use ccminer.Algos.Names.{algo_to_int-names}

name_reads :
    map to_lower (codes "VeRus") ≡ map to_lower (get_or algo_names (to_int ShaAlgos.equihash) [])
unfolding to_lower
name_reads = refl

algo_to_int-names_example : algo_to_int (codes "VeRus") ≡ pos (to_int ShaAlgos.equihash)
algo_to_int-names_example = algo_to_int-names ShaAlgos.equihash (codes "VeRus") name_reads
