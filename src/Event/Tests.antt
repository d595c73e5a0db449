-- ===== src/Event/Tests.antt =====
-- crates/tls-probe-cli/src/tls.rs on an alert.
use tls_probe.Common.Capture.{RawTlsCapture, default_capture, zeros}
use tls_probe.Event.{Host, CaptureEvent}
use tls_probe.Event.Alerts.{Reports, analyze-alert}
use tls_probe.Event.Build.{analyze_capture_with_payload}
use tls_probe.Event.Names.{alert_description_name}
use tls_probe.Outcome.{ok}
use tls_probe.Prelude.{◌≡◌, refl, [], ◌∷◌, none}
use tls_probe.Text.{text, decimal}
use tls_probe.Wire.{Bytes}

abbrev host : Host
host = record {
  libraries = record { parse_x509_certificate = λ der. none; from_timestamp = λ t. none; now = 0 };
  digest = λ s. zeros 32;
  show_ipv6 = λ a. [];
  timestamp = [];
}

alert_test : alert_description_name 200 ≡ text "unknown(200)"
unfolding alert_description_name decimal
alert_test = refl

abbrev alert_capture : RawTlsCapture
alert_capture = record default_capture { content_type = 0x15 }

-- A fatal alert on the version of the protocol.
abbrev alert_payload : Bytes
alert_payload = 0x15 ∷ 3 ∷ 3 ∷ 0 ∷ 2 ∷ 2 ∷ 70 ∷ []

analyze-alert_example :
    (e : CaptureEvent) × (analyze_capture_with_payload host alert_capture alert_payload ≡ ok e)
    × Reports alert_payload e
analyze-alert_example = analyze-alert host alert_capture alert_payload refl
