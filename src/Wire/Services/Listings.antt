-- ===== src/Wire/Services/Listings.antt =====
-- foundation/adbwire/adbwire.go: a list of devices, written by a server and read by `Devices`.
use adb_broker.Prelude.{
  ◌≤◌, ◌≡◌, refl, ap, ◌∙◌, ◌≢◌, false, none, some, List, [], ◌∷◌, ◌++◌, arith, length, All, Bytes,
  bytes_eq, contains_byte, Result, ok, cut_at, split_on, cut_at_line, split_on_line,
  contains_byte-append,
}
use adb_broker.Wire.Socket.{Socket, WireError}
use adb_broker.Wire.Session.Framing.{feed, wrote}
use adb_broker.Wire.Frames.{host_request_max, status_okay}
use adb_broker.Wire.Frames.RoundTrip.{payload_wire}
use adb_broker.Wire.Conn.{state_spent, svc_devices}
use adb_broker.Wire.Conn.Exchange.{fresh, host_request, query_lem}
use adb_broker.Wire.Services.{DeviceEntry, reading, entry_of, parse_lines, devices}

-- What a line can spell.
pub record IsEntry (e : DeviceEntry) : Type 0 where
  pub no_tab : contains_byte 9 e.serial ≡ false
  pub serial_line : contains_byte 10 e.serial ≡ false
  pub state_line : contains_byte 10 e.state ≡ false
  pub serial_some : e.serial ≢ []
  pub state_some : e.state ≢ []

-- Each entry on a line of its own, as the server writes them.
unfoldable pub devices_wire : List DeviceEntry → Bytes
devices_wire [] = []
devices_wire (e ∷ es) = (e.serial ++ (9 ∷ e.state)) ++ (10 ∷ devices_wire es)

bytes_ne : (s : Bytes) → s ≢ [] → bytes_eq s [] ≡ false
bytes_ne [] h = absurd (h refl)
bytes_ne (c ∷ s) h = refl

entry_of_line :
    (e : DeviceEntry) → IsEntry e → entry_of (cut_at 9 (e.serial ++ (9 ∷ e.state))) ≡ some e
entry_of_line e w =
    ap entry_of (cut_at_line 9 e.serial e.state w.no_tab)
    ∙ rw (bytes_ne e.serial w.serial_some, bytes_ne e.state w.state_some)

line_ne : (a b : Bytes) → bytes_eq (a ++ (9 ∷ b)) [] ≡ false
line_ne [] b = refl
line_ne (c ∷ a) b = refl

pub parse_lines-devices_wire :
    (es : List DeviceEntry) → All IsEntry es → parse_lines (split_on 10 (devices_wire es)) ≡ ok es
unfolding devices_wire parse_lines split_on
parse_lines-devices_wire [] h = refl
parse_lines-devices_wire (e ∷ es) (w, h) =
    ap parse_lines (
      split_on_line 10 (e.serial ++ (9 ∷ e.state)) (devices_wire es)
        (contains_byte-append 10 e.serial (9 ∷ e.state) w.serial_line w.state_line))
    ∙ rw (line_ne e.serial e.state, entry_of_line e w, parse_lines-devices_wire es h)

-- On a fresh connection whose server answers OKAY with a list of devices, each on a line of its own,
-- `Devices` gives exactly that list, in order; the empty list is a success too. The connection is spent.
pub devices_lem :
    (es : List DeviceEntry) (rest : Bytes) (s : Socket) (dials : List (Result WireError Socket))
    (retired : List Socket)
    → All IsEntry es
    → length (devices_wire es) ≤ host_request_max
    → length (host_request svc_devices) ≤ s.room
    → devices (fresh (feed s (status_okay ++ payload_wire (devices_wire es) rest)) dials retired)
      ≡ (
        record {
          nc = none;
          state = state_spent;
          dials = dials;
          retired = feed (wrote s (host_request svc_devices)) rest ∷ retired;
        },
        ok es,
      )
unfolding devices
devices_lem es rest s dials retired h fits w =
    ap (reading (λ payload. parse_lines (split_on 10 payload)))
      (query_lem svc_devices (devices_wire es) rest s dials retired (omega arith) fits w).0
    ∙ ap
        (λ (r : Result WireError (List DeviceEntry)). (
          record {
            nc = none;
            state = state_spent;
            dials = dials;
            retired = feed (wrote s (host_request svc_devices)) rest ∷ retired;
          },
          r,
        ))
        (parse_lines-devices_wire es h)
