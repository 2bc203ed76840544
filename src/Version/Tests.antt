-- ===== src/Version/Tests.antt =====
-- The theorems about src/common/Version.cpp at releases of the program.
use sclork_tools.Prelude.{ℤ, pos, negsuc, codes, refl, arith, ◌≡◌, ◌↔◌, true}
use sclork_tools.Version.Text.{read_version, to_string-eq}
use sclork_tools.Version.{Version, make, print_int, digits, to_string, lt, eq, ne, gt, le, ge}
use sclork_tools.Version.Order.{Precedes, lt_iff, eq_iff_same, gt-lt}

program : Unit {0}
unfolding make to_string print_int digits lt eq ne gt le ge
program = tt

abbrev release : ℤ → ℤ → ℤ → Version
release major minor patch = record { major = major; minor = minor; patch = patch }

abbrev old : Version
old = release (pos 0) (pos 2) (pos 9)

abbrev current : Version
current = release (pos 0) (pos 3) (pos 0)

abbrev newest : Version
newest = release (pos 1) (pos 0) (pos 0)

lt_iff_example : (lt old current ≡ true) ↔ Precedes old current
lt_iff_example = lt_iff old current

eq_iff_same_example : (eq current current ≡ true) ↔ (current ≡ current)
eq_iff_same_example = eq_iff_same current current

gt-lt_example : gt newest current ≡ lt current newest
gt-lt_example = gt-lt newest current

to_string-current : to_string current ≡ codes "0.3.0"
unfolding program
to_string-current = refl

to_string-eq_example :
    (read_version (to_string (make (pos 0) (pos 12) (negsuc 0))) ≡ (0, 12, 0))
    × ((to_string (make (pos 0) (pos 12) (negsuc 0)) ≡ to_string (make (pos 0) (pos 12) (pos 0)))
        ↔ (eq (make (pos 0) (pos 12) (negsuc 0)) (make (pos 0) (pos 12) (pos 0)) ≡ true))
to_string-eq_example =
    to_string-eq (pos 0) (pos 12) (negsuc 0) (pos 0) (pos 12) (pos 0) (omega arith) (omega arith)
      (omega arith) (omega arith) (omega arith) (omega arith)
