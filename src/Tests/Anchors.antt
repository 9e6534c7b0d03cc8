-- ===== src/Tests/Anchors.antt =====
-- foundation/audit/anchor.go at a concrete anchor.
use adb_broker.Prelude.{
  ◌≡◌, refl, List, [], ◌∷◌, ◌++◌, All, Bytes, codes, Result, ok, err, digits, decimal, split_on,
}
use adb_broker.Audit.Anchor.{
  Anchor, field_bad_byte, anchor_field, check_anchor_value, anchor_fields, anchor_payload,
  write_anchor,
}
use adb_broker.Audit.Anchor.Fields.{IsAnchorValue, read_fields, anchor_payload_lem}

abbrev head_anchor : Anchor
head_anchor = record { seq = 42; hash = codes "00ff"; log_path = codes "/var/log/a=b" }

abbrev head_payload : Bytes
head_payload =
    codes "MESSAGE_ID=8f3c1d7a5e4b42c9b1d06a2f7c93e5a4"
    ++ (10
        ∷ (codes "MESSAGE=adb-broker audit anchor seq=42"
            ++ (10
                ∷ (codes "PRIORITY=5"
                    ++ (10
                        ∷ (codes "SYSLOG_IDENTIFIER=adb-broker"
                            ++ (10
                                ∷ (codes "ADB_BROKER_SEQ=42"
                                    ++ (10
                                        ∷ (codes "ADB_BROKER_HASH=00ff"
                                            ++ (10
                                                ∷ (codes "ADB_BROKER_LOG=/var/log/a=b"
                                                    ++ (10 ∷ [])))))))))))))

anchor_payload-head_anchor : anchor_payload (anchor_fields head_anchor) ≡ ok head_payload
unfolding anchor_payload check_anchor_value anchor_fields decimal digits
anchor_payload-head_anchor = refl

anchor_payload_lem_example :
    (read_fields (split_on 10 head_payload) ≡ anchor_fields head_anchor)
    × All (λ f. IsAnchorValue f.1) (anchor_fields head_anchor)
anchor_payload_lem_example = anchor_payload_lem head_anchor head_payload anchor_payload-head_anchor

-- A socket that keeps what is sent to it.
abbrev keep : List Bytes → Bytes → List Bytes × Result Bytes (Unit {0})
keep held datagram = (datagram ∷ held, ok tt)

-- A log path with a newline is refused before anything is sent.
write_anchor_refused :
    write_anchor keep (record { seq = 1; hash = codes "00"; log_path = 47 ∷ 10 ∷ [] }) []
    ≡ ([], err (anchor_field (field_bad_byte (codes "ADB_BROKER_LOG"))))
unfolding write_anchor anchor_payload check_anchor_value anchor_fields decimal digits
write_anchor_refused = refl
