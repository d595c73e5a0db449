-- ===== src/RecordWalk/Tests.antt =====
-- crates/tls-probe-cli/src/record_walk.rs on a flight with a certificate.
use tls_probe.Prelude.{ℕ, List, [], ◌∷◌}
use tls_probe.RecordWalk.Flight.{WireRecord}

abbrev first : WireRecord
first = record { content_type = 0x16; version = 771; body = 2 ∷ 0 ∷ [] }

abbrev certificates : List WireRecord
certificates =
    record { content_type = 0x16; version = 771; body = 0x0B ∷ 1 ∷ [] }
    ∷ record { content_type = 0x16; version = 771; body = 0x0C ∷ [] }
    ∷ []

-- A request that is cut off.
abbrev cut : List ℕ
cut = 0x16 ∷ 3 ∷ 3 ∷ 0 ∷ 9 ∷ 0x0D ∷ 1 ∷ []
