-- ===== src/TribunalHttp/Scan/Numbers.antt =====
-- `%d` of src/tribunal_http.c reads what `std::stoi` reads.
use code_tribunal.Prelude.{◌≡◌, refl, some, Text}
use code_tribunal.Prelude.Int.{ℤ}
use code_tribunal.Prelude.Stoi.{stoi}
use code_tribunal.TribunalHttp.Scan.{scan_int}

pub scan_int-stoi :
    (overflow : Text → ℤ) (s : Text) (v : ℤ) → stoi 10 s ≡ some v → scan_int overflow s ≡ some v
unfolding scan_int
scan_int-stoi overflow s v e = rw (scan_int, e) refl
