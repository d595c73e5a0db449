-- ===== src/Event/Build.antt =====
-- crates/tls-probe-cli/src/tls.rs: what an analysis puts into an event.

use tls_probe.Common.Capture.{RawTlsCapture, payload_slice, is_client_hello}
use tls_probe.Containers.{resolve_cgroup_id}
use tls_probe.Event.{Host, Resumption, Info, CaptureEvent, plain_event}
use tls_probe.Event.Names.{
  tls_version_str, cipher_suite_name, key_exchange_name, signature_algorithm_name, alert_level_name,
  alert_description_name, handshake_type_name,
}
use tls_probe.Ja4.{ja4}
use tls_probe.Outcome.{Outcome, ok, err, panic, spin}
use tls_probe.Parser.Analysis.{
  TlsAnalysis, client_hello, server_hello, parse_tls_payload, effective_version, cipher_suites,
  key_exchange_groups, signature_algorithms, sni,
}
use tls_probe.Prelude.{
  ℕ, false, ◌||◌, List, [], ◌∷◌, map, Option, none, some, head?, ◌==◌, if◌then◌else◌,
}
use tls_probe.Wire.{Bytes}

abbrev pub cipher_info : ℕ → Info
cipher_info id = record { id = id; name = cipher_suite_name id }

abbrev pub group_info : ℕ → Info
group_info id = record { id = id; name = key_exchange_name id }

abbrev pub signature_info : ℕ → Info
signature_info id = record { id = id; name = signature_algorithm_name id }

abbrev infos_of : List ℕ → Option (List Info)
infos_of [] = none
infos_of (id ∷ ids) = some (map signature_info (id ∷ ids))

abbrev group_of : Option ℕ → Option Info
group_of none = none
group_of (some id) = some (group_info id)

unfoldable pub signatures_cert_of : TlsAnalysis → Option (List Info)
signatures_cert_of (client_hello _ hello) = infos_of hello.signature_algorithms_cert
signatures_cert_of (server_hello _ hello) = none

unfoldable pub key_share_of : TlsAnalysis → Option Info
key_share_of (client_hello _ hello) = group_of (head? hello.key_share_groups)
key_share_of (server_hello _ hello) = group_of hello.key_share_group

unfoldable pub resumption_of : TlsAnalysis → Option Resumption
resumption_of (client_hello _ hello) =
    if hello.psk_offered
      || (hello.early_data_offered
          || (hello.psk_key_exchange_modes_offered || hello.session_ticket_offered))
    then some (record {
      psk_offered = hello.psk_offered;
      early_data_offered = hello.early_data_offered;
      psk_selected = false;
      session_ticket_offered = hello.session_ticket_offered;
    })
    else none
resumption_of (server_hello _ hello) =
    if hello.psk_selected
    then some (record {
      psk_offered = false;
      early_data_offered = false;
      psk_selected = hello.psk_selected;
      session_ticket_offered = false;
    })
    else none

unfoldable pub ja4_of : Host → TlsAnalysis → Option Bytes
ja4_of h (client_hello _ hello) = some (ja4 h.digest hello)
ja4_of h (server_hello _ hello) = none

unfoldable pub build_analysis : Host → RawTlsCapture → TlsAnalysis → CaptureEvent
unfolding plain_event signatures_cert_of key_share_of resumption_of ja4_of
build_analysis h capture parsed =
    record (plain_event h capture (tls_version_str (effective_version parsed))
      (handshake_type_name capture.handshake_type)) {
        cipher_suites = map cipher_info (cipher_suites parsed);
        key_exchange_groups = map group_info (key_exchange_groups parsed);
        signature_algorithms = map signature_info (signature_algorithms parsed);
        signature_algorithms_cert = signatures_cert_of parsed;
        key_share_group = key_share_of parsed;
        sni = sni parsed;
        resumption = resumption_of parsed;
        ja4 = ja4_of h parsed;
      }

unfoldable pub build_fallback_analysis : Host → RawTlsCapture → CaptureEvent
unfolding plain_event
build_fallback_analysis h capture =
    plain_event h capture (tls_version_str capture.record_version)
      (handshake_type_name capture.handshake_type)

unfoldable pub build_alert_event : Host → RawTlsCapture → ℕ → ℕ → CaptureEvent
unfolding plain_event
build_alert_event h capture alert_level alert_description =
    record (plain_event h capture (tls_version_str capture.record_version) "Alert") {
      alert_level = some (alert_level_name alert_level);
      alert_description = some (alert_description_name alert_description);
    }

-- The level and the description behind the record header.
unfoldable pub parse_alert : Bytes → Option (ℕ × ℕ)
parse_alert (c ∷ v ∷ w ∷ m ∷ n ∷ level ∷ description ∷ rest) =
    if c == 0x15 then some (level, description) else none
parse_alert _ = none

-- `Err` is matched; a panic or a loop that does not end is neither.
abbrev pub analysed : Host → RawTlsCapture → Outcome TlsAnalysis → Outcome CaptureEvent
analysed h capture (ok analysis) = ok (build_analysis h capture analysis)
analysed h capture (err e) = ok (build_fallback_analysis h capture)
analysed h capture panic = panic
analysed h capture spin = spin

abbrev pub alert_of : Host → RawTlsCapture → Option (ℕ × ℕ) → CaptureEvent
alert_of h capture none = build_fallback_analysis h capture
alert_of h capture (some (level, description)) = build_alert_event h capture level description

unfoldable pub analyze_capture_with_payload : Host → RawTlsCapture → Bytes → Outcome CaptureEvent
unfolding build_analysis build_fallback_analysis build_alert_event parse_alert
analyze_capture_with_payload h capture payload =
    let hello = analysed h capture (parse_tls_payload payload (is_client_hello capture)) in
    if capture.content_type == 0x15 then ok (alert_of h capture (parse_alert payload)) else hello

unfoldable pub analyze_capture : Host → RawTlsCapture → Outcome CaptureEvent
unfolding analyze_capture_with_payload
analyze_capture h capture = analyze_capture_with_payload h capture (payload_slice capture)

unfoldable pub enrich_with_cgroup : CaptureEvent → RawTlsCapture → (ℕ → Option Bytes) → CaptureEvent
enrich_with_cgroup event capture resolve_inode =
    let found = resolve_cgroup_id resolve_inode capture.cgroup_id in
    if capture.cgroup_id == 0 then event else record event {
      cgroup_id = some capture.cgroup_id;
      container_id = found.0;
      pod_uid = found.1;
    }
