-- ===== src/Tests.antt =====
-- Instances of the theorems on `InfoHash`, `SetConnection`, and readable sizes and times.
use bitswash.Prelude.{ℕ, zero, suc, ◌/◌, ◌%◌, ◌<◌, List, [], ◌∷◌, ◌≡◌, refl, arith, replicate}
use bitswash.Readable.{readable_unit, readable_unit-beyond}
use bitswash.InfoHash.{from_native, from_string}
use bitswash.InfoHash.RoundTrip.{hex_digit, AreBytes, from_string-from_native}
use bitswash.Connection.{Ports, set_connection, IsRange, set_connection-IsRange}

-- Two digits for each byte.
abbrev print_hash : List ℕ → List ℕ
print_hash [] = []
print_hash (b ∷ bs) = hex_digit (b / 16) ∷ hex_digit (b % 16) ∷ print_hash bs

repeated-AreBytes : (n b : ℕ) → b < 256 → AreBytes (replicate n b)
repeated-AreBytes zero b h i c e = ground (arith, e)
repeated-AreBytes (suc n) b h zero c e = ground (arith, e)
repeated-AreBytes (suc n) b h (suc i) c e = repeated-AreBytes n b h i c e

from_string-from_native_example :
    from_string (from_native print_hash (replicate 20 171)).hash_string
    ≡ from_native print_hash (replicate 20 171)
from_string-from_native_example =
    from_string-from_native print_hash refl (λ b bs. refl) (replicate 20 171) refl
      (repeated-AreBytes 20 171 (omega arith))

-- Ports out of range.
abbrev ports : Ports
ports = record { port_min = 70_000; port_max = 6_000 }

set_connection-IsRange_example : IsRange (set_connection ports)
set_connection-IsRange_example = set_connection-IsRange ports

abbrev low_ports : Ports
low_ports = record { port_min = 6_000; port_max = 5_000 }

readable_unit-beyond_example : (readable_unit 2_000_000_000_000_000).0 ≡ 5
readable_unit-beyond_example = readable_unit-beyond 2_000_000_000_000_000 (omega arith)
