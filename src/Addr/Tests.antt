-- ===== src/Addr/Tests.antt =====
-- The address of 8 bits, 3, and addresses made from it.
use viengoos.Addr.Laws.{chop-extend, chop-Means, extract-Means, Yields}
use viengoos.Addr.Meaning.{Means}
use viengoos.Addr.{Addr, extend, chop, extract}
use viengoos.Common.{◌*◌, ◌/◌, ◌%◌, ◌^◌, ◌≡◌, refl, arith, some}

abbrev three : Addr
three = record { raw = 7 * 2 ^ 55 }

three-Means : Means three 3 8
three-Means = record { shallow = omega arith; fits = omega arith; word = refl }

chop-extend_example :
    (e : Addr) × (extend three 5 4 ≡ some e) × (extract e 4 ≡ some 5) × (chop e 4 ≡ some three)
chop-extend_example = chop-extend three-Means 5 4 (omega arith) (omega arith)

chop-Means_example : Yields (chop three 1) (3 / 2 ^ 1) 7
chop-Means_example = chop-Means three-Means 1 (omega arith)

extract-Means_example : extract three 1 ≡ some (3 % 2 ^ 1)
extract-Means_example = extract-Means three-Means 1 (omega arith)
