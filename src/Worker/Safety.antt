-- ===== src/Worker/Safety.antt =====
-- crates/tls-probe-cli/src/commands/capture.rs: no capture stops the worker.
use tls_probe.Certificate.Framing.{parse_certificate-Returns}
use tls_probe.Common.Capture.{
  RawTlsCapture, ConnKey, has_flag, flag_alert, flag_ingress, payload_slice, is_client_hello,
  is_server_hello,
}
use tls_probe.Event.{Host, CaptureEvent}
use tls_probe.Event.Build.{analysed, analyze_capture, analyze_capture_with_payload}
use tls_probe.Outcome.{
  Outcome, ok, err, panic, spin, ◌>>=◌, Within, Returns, Returns->>=, Returns-map,
}
use tls_probe.Parser.Analysis.{
  TlsAnalysis, IsAnalysis, parse_tls_payload, parse_tls_payload-Within, effective_version,
}
use tls_probe.Prelude.{
  ℕ, ◌+◌, ◌%◌, ◌^◌, Bool, true, false, List, [], ◌∷◌, Option, none, some, leb, ltb, ◌==◌, length,
  drop, All, if◌then◌else◌,
}
use tls_probe.Reasm
use tls_probe.Reasm.{AssembledRecord}
use tls_probe.RecordWalk.{ExtractedRecord, walk_records}
use tls_probe.RecordWalk.Total.{IsExtracted, walk_records-Returns}
use tls_probe.Wire.{Bytes}
use tls_probe.Worker.{
  reassembled_event, is_part, Round, process, expired_events, sweep, handle, work,
}
use tls_probe.Worker.Branches.{
  Worker, Clocks, if_ok, client_branch, server_branch, walked_records,
  synthesize_event_from_walked_record, leaf_of, walked_event, walked_events, flight_branch,
  alert_branch, certificate_branch, request_branch, other_branch, assembled_branch, fast_branch,
  conn_key,
}

-- A value is returned.
abbrev pub Ends : {A : Type 0} → Outcome A → Type 0
Ends m = Returns (λ _. Unit) m

Ends->>= :
    {A B : Type 0} (m : Outcome A) (f : A → Outcome B)
    → Ends m
    → ((a : A) → Ends (f a))
    → Ends (m >>= f)
Ends->>= m f h k = Returns->>= _ _ m f h λ a _. k a

Ends-if : {A : Type 0} (b : Bool) (m n : Outcome A) → Ends m → Ends n → Ends (if b then m else n)
Ends-if true m n h k = h
Ends-if false m n h k = k

if_ok-Ends :
    {A B : Type 0} (P : A → Type 0) (m : Outcome A) (f : A → Outcome B) (other : Outcome B)
    → Within P m
    → ((a : A) → Ends (f a))
    → Ends other
    → Ends (if_ok m f other)
if_ok-Ends P (ok a) f other h k l = k a
if_ok-Ends P (err e) f other h k l = l
if_ok-Ends P panic f other h k l = absurd h
if_ok-Ends P spin f other h k l = absurd h

analysed-Ends :
    (P : TlsAnalysis → Type 0) (h : Host) (c : RawTlsCapture) (m : Outcome TlsAnalysis)
    → Within P m
    → Ends (analysed h c m)
analysed-Ends P h c (ok a) w = tt
analysed-Ends P h c (err e) w = tt
analysed-Ends P h c panic w = absurd w
analysed-Ends P h c spin w = absurd w

pub analyze-Ends :
    (h : Host) (c : RawTlsCapture) (payload : Bytes)
    → Ends (analyze_capture_with_payload h c payload)
unfolding analyze_capture_with_payload
analyze-Ends h c payload = Ends-if (c.content_type == 0x15) _ _ tt (
    analysed-Ends (IsAnalysis payload (is_client_hello c)) h c
      (parse_tls_payload payload (is_client_hello c))
      (parse_tls_payload-Within payload (is_client_hello c)))

module _ (h : Host) (resolve_inode : ℕ → Option Bytes) where
  leaf-Ends : (payload : Bytes) → Ends (leaf_of h.libraries payload)
  unfolding leaf_of
  leaf-Ends payload =
      Ends-if (ltb 4 (length payload)) _ _ (parse_certificate-Returns h.libraries (drop 4 payload))
        tt

  client-Ends :
      (now : Clocks) (w : Worker) (key : ConnKey) (payload : Bytes) (event : CaptureEvent)
      → Ends (client_branch now w key payload event)
  unfolding client_branch
  client-Ends now w key payload event =
      if_ok-Ends (IsAnalysis payload true) (parse_tls_payload payload true) _ _
        (parse_tls_payload-Within payload true) (λ a. tt) tt

  server-Ends :
      (w : Worker) (key : ConnKey) (payload : Bytes) (event : CaptureEvent)
      → Ends (server_branch w key payload event)
  unfolding server_branch
  server-Ends w key payload event =
      if_ok-Ends (IsAnalysis payload false) (parse_tls_payload payload false) _ _
        (parse_tls_payload-Within payload false) (λ a. tt) tt

  walked-Ends : (version : ℕ) (payload : Bytes) → Ends (walked_records version payload)
  unfolding walked_records
  walked-Ends version payload =
      Ends-if (leb version 0x0303) _ _
        (Returns-map (λ rs. All (IsExtracted (length payload)) rs) (λ _. Unit)
          (walk_records payload) (walk_records-Returns payload) (λ rs _. tt))
        tt

  walked_event-Ends :
      (c : RawTlsCapture) (r : ExtractedRecord) → Ends (walked_event h resolve_inode c r)
  unfolding walked_event
  walked_event-Ends c r =
      let is_leaf = (synthesize_event_from_walked_record h c r).1 == 0x0B in
      Ends->>= (if is_leaf then leaf_of h.libraries r.body else ok none) _
        (Ends-if is_leaf (leaf_of h.libraries r.body) (ok none) (leaf-Ends r.body) tt) λ cert. tt

  walked_events-Ends :
      (c : RawTlsCapture) (rs : List ExtractedRecord) → Ends (walked_events h resolve_inode c rs)
  unfolding walked_events
  walked_events-Ends c [] = tt
  walked_events-Ends c (r ∷ rs) =
      Ends->>= (walked_event h resolve_inode c r) _ (walked_event-Ends c r) λ event.
        Ends->>= (walked_events h resolve_inode c rs) _ (walked_events-Ends c rs) λ events. tt

  flight-Ends :
      (w : Worker) (c : RawTlsCapture) (key : ConnKey) (payload : Bytes) (event : CaptureEvent)
      → Ends (flight_branch h resolve_inode w c key payload event)
  unfolding flight_branch
  flight-Ends w c key payload event =
      if_ok-Ends (IsAnalysis payload false) (parse_tls_payload payload false) _ _
        (parse_tls_payload-Within payload false)
        (λ a.
          Ends->>= (walked_records (effective_version a) payload) _
            (walked-Ends (effective_version a) payload)
            λ rs.
              Ends->>= (walked_events h resolve_inode c rs) _ (walked_events-Ends c rs)
                λ events. tt)
        tt

  certificate-Ends :
      (w : Worker) (c : RawTlsCapture) (key : ConnKey) (payload : Bytes) (event : CaptureEvent)
      → Ends (certificate_branch h w c key payload event)
  unfolding certificate_branch
  certificate-Ends w c key payload event =
      Ends->>= (leaf_of h.libraries payload) _ (leaf-Ends payload) λ cert.
        if_ok-Ends (IsAnalysis payload (has_flag c.flags flag_ingress))
          (parse_tls_payload payload (has_flag c.flags flag_ingress)) _ _
          (parse_tls_payload-Within payload (has_flag c.flags flag_ingress)) (λ a. tt) tt

  request-Ends :
      (w : Worker) (key : ConnKey) (payload : Bytes) (event : CaptureEvent)
      → Ends (request_branch w key payload event)
  unfolding request_branch
  request-Ends w key payload event =
      if_ok-Ends (IsAnalysis payload false) (parse_tls_payload payload false) _ _
        (parse_tls_payload-Within payload false) (λ a. tt) tt

  other-Ends :
      (w : Worker) (c : RawTlsCapture) (payload : Bytes) (event : CaptureEvent)
      → Ends (other_branch h w c payload event)
  unfolding other_branch alert_branch
  other-Ends w c payload event = Ends-if (has_flag c.flags flag_alert) _ _ tt (
      Ends-if (c.handshake_type == 0x0B) _ _ (certificate-Ends w c (conn_key c) payload event)
        (Ends-if (c.handshake_type == 0x0D) _ _ (request-Ends w (conn_key c) payload event) tt))

  assembled-Ends :
      (now : Clocks) (w : Worker) (c : RawTlsCapture) (payload : Bytes) (event : CaptureEvent)
      → Ends (assembled_branch h now w c payload event)
  unfolding assembled_branch
  assembled-Ends now w c payload event =
      Ends-if (is_client_hello c) _ _ (client-Ends now w (conn_key c) payload event) (
        Ends-if (is_server_hello c) _ _ (server-Ends w (conn_key c) payload event)
          (other-Ends w c payload event))

  fast-Ends :
      (now : Clocks) (w : Worker) (c : RawTlsCapture) (payload : Bytes) (event : CaptureEvent)
      → Ends (fast_branch h resolve_inode now w c payload event)
  unfolding fast_branch
  fast-Ends now w c payload event =
      Ends-if (is_client_hello c) _ _ (client-Ends now w (conn_key c) payload event) (
        Ends-if (is_server_hello c) _ _ (flight-Ends w c (conn_key c) payload event)
          (other-Ends w c payload event))

  reassembled-Ends : (r : AssembledRecord) → Ends (reassembled_event h r)
  unfolding reassembled_event
  reassembled-Ends r =
      Ends->>= (analyze_capture_with_payload h r.head_capture r.buffer) _
        (analyze-Ends h r.head_capture r.buffer) λ event. tt

  process-Ends :
      (now : Clocks) (w : Worker) (c : RawTlsCapture) (r : Option AssembledRecord)
      → Ends (process h resolve_inode now w c r)
  unfolding process analyze_capture
  process-Ends now w c (some r) = Ends->>= (reassembled_event h r) _ (reassembled-Ends r) λ event.
      Ends->>= (assembled_branch h now w r.head_capture r.buffer event) _
        (assembled-Ends now w r.head_capture r.buffer event) λ s. tt
  process-Ends now w c none = Ends-if (is_part c) _ _ tt (
      Ends->>= (analyze_capture h c) _ (analyze-Ends h c (payload_slice c)) λ event.
        Ends->>= (fast_branch h resolve_inode now w c (payload_slice c) event) _
          (fast-Ends now w c (payload_slice c) event) λ s. tt)

  expired-Ends : (rs : List AssembledRecord) → Ends (expired_events h resolve_inode rs)
  unfolding expired_events
  expired-Ends [] = tt
  expired-Ends (r ∷ rs) =
      Ends->>= (reassembled_event h r) _ (reassembled-Ends r)
        λ event. Ends->>= (expired_events h resolve_inode rs) _ (expired-Ends rs) λ events. tt

  sweep-Ends : (now : Clocks) (r : Round) → Ends (sweep h resolve_inode now r)
  unfolding sweep
  sweep-Ends now r =
      Ends-if ((r.worker.timeout_counter + 1) % 2 ^ 32 % 500 == 0) _ _
        (Ends->>=
          (expired_events h resolve_inode (Reasm.sweep_expired now.instant r.worker.reassembler).1)
          _ (expired-Ends (Reasm.sweep_expired now.instant r.worker.reassembler).1) λ events. tt)
        tt

  handle-Ends :
      (now : Clocks) (w : Worker) (c : RawTlsCapture) → Ends (handle h resolve_inode now w c)
  unfolding handle
  handle-Ends now w c =
      let inserted =
        if is_part c then Reasm.insert now.instant w.reassembler c else (w.reassembler, none) in
      Ends->>= (process h resolve_inode now (record w { reassembler = inserted.0 }) c inserted.1) _
        (process-Ends now (record w { reassembler = inserted.0 }) c inserted.1)
        λ r. Ends-if r.skipped (ok r) (sweep h resolve_inode now r) tt (sweep-Ends now r)

  -- Whatever captures come, at whatever times and with any worker to start with, the worker handles
  -- them all: parsing, reassembly, the walk, correlation, certificates and sweeps never read
  -- out of bounds, and every loop ends.
  pub work-Ends :
      (w : Worker) (captures : List (Clocks × RawTlsCapture))
      → Ends (work h resolve_inode w captures)
  unfolding work
  work-Ends w [] = tt
  work-Ends w ((now, c) ∷ captures) =
      Ends->>= (handle h resolve_inode now w c) _ (handle-Ends now w c) λ r.
        Ends->>= (work h resolve_inode r.worker captures) _ (work-Ends r.worker captures) λ rest. tt
