-- ===== src/Wire/Services/Version.antt =====
-- foundation/adbwire/adbwire.go: the server's version, a number in hex digits, shown in decimal.
use adb_broker.Prelude.{
  ℕ, suc, ◌≤◌, ◌≡◌, ap, ◌∙◌, Option, none, List, [], ◌∷◌, ◌++◌, arith, length, Bytes, codes, Result,
  ok, decimal, decimal_value, decimal_value-digits,
}
use adb_broker.Wire.Socket.{Socket, WireError}
use adb_broker.Wire.Session.Framing.{feed, wrote}
use adb_broker.Wire.Frames.{host_request_max, status_okay, hex_prefix, parse_hex}
use adb_broker.Wire.Frames.RoundTrip.{payload_wire, parse_hex-hex_prefix, length-hex_prefix}
use adb_broker.Wire.Conn.{state_spent, svc_version}
use adb_broker.Wire.Conn.Exchange.{fresh, host_request, query_lem}
use adb_broker.Wire.Services.{reading, version_of, server_version}

-- On a fresh connection whose server answers its version as four hex digits, `ServerVersion` gives "1.0."
-- and the decimal digits of that number, not of the payload's length; the connection is spent.
pub server_version_lem :
    (n : ℕ) (rest : Bytes) (s : Socket) (dials : List (Result WireError Socket))
    (retired : List Socket)
    → n ≤ host_request_max
    → length (host_request svc_version) ≤ s.room
    → (server_version
          (fresh (feed s (status_okay ++ payload_wire (hex_prefix n) rest)) dials retired)
        ≡ (
          record {
            nc = none;
            state = state_spent;
            dials = dials;
            retired = feed (wrote s (host_request svc_version)) rest ∷ retired;
          },
          ok (codes "1.0." ++ decimal n),
        ))
      × (decimal_value 0 (decimal n) ≡ n)
unfolding server_version decimal
server_version_lem n rest s dials retired h w = (
  ap (reading (λ payload. version_of (parse_hex payload)))
        (query_lem svc_version (hex_prefix n) rest s dials retired (omega arith)
          (omega (arith, length-hex_prefix n)) w).0
      ∙ ap
          (λ (o : Option ℕ). (
            record {
              nc = none;
              state = state_spent;
              dials = dials;
              retired = feed (wrote s (host_request svc_version)) rest ∷ retired;
            },
            version_of o,
          ))
          (parse_hex-hex_prefix n h),
  decimal_value-digits (suc n) n [] (omega arith),
)
