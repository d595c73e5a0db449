-- ===== src/Common/Tests.antt =====
-- crates/tls-probe-common/src/codes.rs on single numbers.
use tls_probe.Common.Codes.{is_grease, is_grease_iff}
use tls_probe.Prelude.{ℕ, ◌+◌, ◌*◌, ◌<◌, ◌≡◌, ◌↔◌, true, arith}

is_grease_iff_example :
    (is_grease 0x1A1A ≡ true) ↔ ((k : ℕ) × (k < 16) × (0x1A1A ≡ 0x0A0A + 0x1010 * k))
is_grease_iff_example = is_grease_iff 0x1A1A (omega arith)
