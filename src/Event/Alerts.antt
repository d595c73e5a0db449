-- ===== src/Event/Alerts.antt =====
-- crates/tls-probe-cli/src/tls.rs on alerts.
use Prim.Native.String.{String}
use tls_probe.Common.Capture.{RawTlsCapture}
use tls_probe.Event.{Host, CaptureEvent}
use tls_probe.Event.Build.{
  build_alert_event, build_fallback_analysis, parse_alert, alert_of, analyze_capture_with_payload,
}
use tls_probe.Event.Names.{alert_level_name, alert_description_name, alert_names, text_in, unknown}
use tls_probe.Outcome.{ok}
use tls_probe.Prelude.{
  ℕ, ◌≡◌, ◌≢◌, ◌⊎◌, ◌<◌, get_elem?, length, none, arith, refl, ap, ◌∙◌, Bool, true, ◌&&◌, List, [],
  ◌∷◌, ◌++◌, some, Bool-cases, and_parts, inl, inr, ◌==◌, ==_iff,
}
use tls_probe.Text.{text, decimal, ends_with}
use tls_probe.Text.Affixes.{ends_with-append}
use tls_probe.Wire.{Bytes}

-- "(n)"
abbrev pub numbered : ℕ → Bytes
numbered n = 40 ∷ (decimal n ++ (41 ∷ []))

-- Every name of a table ends in its number.
abbrev pub names_end : List (ℕ × String) → Bool
names_end [] = true
names_end ((code, name) ∷ table) = ends_with (numbered code) (text name) && names_end table

all_end : names_end alert_names ≡ true
unfolding decimal
all_end = refl

unknown_ends : (n : ℕ) → ends_with (numbered n) (unknown n) ≡ true
unknown_ends n = ends_with-append (numbered n) (text "unknown")

text_in_ends :
    (n : ℕ) (table : List (ℕ × String))
    → names_end table ≡ true
    → ends_with (numbered n) (text_in n table) ≡ true
text_in_ends n [] h = unknown_ends n
text_in_ends n ((code, name) ∷ table) h =
    let parts = and_parts (ends_with (numbered code) (text name)) (names_end table) h in
    elim (Bool-cases (n == code)) [
      | inl same ↦
          let e : n ≡ code = (==_iff n code).0 same in
          rw same (ap (λ (m : ℕ). ends_with (numbered m) (text name)) e ∙ parts.0)
      | inr other ↦ rw other (text_in_ends n table parts.1)
    ]

-- What a level is called.
abbrev pub CallsLevel : ℕ → Bytes → Type 0
CallsLevel level name =
    ((level ≡ 1) × (name ≡ text "warning"))
    ⊎ ((level ≡ 2) × (name ≡ text "fatal"))
    ⊎ ((level ≢ 1) × (level ≢ 2) × (name ≡ text "unknown" ++ numbered level))

level_cases : (level : ℕ) → CallsLevel level (alert_level_name level)
unfolding alert_level_name
level_cases level = elim (Bool-cases (level == 1)) [
  | inl one ↦ rw one (inl ((==_iff level 1).0 one, refl))
  | inr more ↦ rw more (elim (Bool-cases (level == 2)) [
    | inl two ↦ rw two (inr (inl ((==_iff level 2).0 two, refl)))
    | inr other ↦ rw other (inr (inr (ground arith, ground arith, refl)))
  ])
]

-- An event of an alert of this level and description.
pub record Tells (level description : ℕ) (e : CaptureEvent) : Type 0 where
  pub level_name : Bytes
  pub levelled : e.alert_level ≡ some level_name
  pub called : CallsLevel level level_name
  pub name : Bytes
  pub named : e.alert_description ≡ some name
  pub coded : ends_with (numbered description) name ≡ true
  pub kind : e.handshake_type ≡ "Alert"

-- The bytes of a payload that hold an alert.
pub record HoldsAlert (payload : Bytes) (level description : ℕ) : Type 0 where
  pub record_type : get_elem? payload 0 ≡ some 0x15
  pub level_byte : get_elem? payload 5 ≡ some level
  pub description_byte : get_elem? payload 6 ≡ some description

-- Whether there is an alert or not, and what the event then is.
abbrev pub Reports : Bytes → CaptureEvent → Type 0
Reports payload e =
    ((level : ℕ) × (description : ℕ) × HoldsAlert payload level description
      × Tells level description e)
    ⊎ (((get_elem? payload 0 ≢ some 0x15) ⊎ (length payload < 7))
        × (e.alert_level ≡ none)
        × (e.alert_description ≡ none))

no_alert :
    (h : Host) (c : RawTlsCapture) (payload : Bytes)
    → ((get_elem? payload 0 ≢ some 0x15) ⊎ (length payload < 7))
    → Reports payload (build_fallback_analysis h c)
unfolding build_fallback_analysis
no_alert h c payload other = inr (other, refl, refl)

alert_Tells :
    (h : Host) (c : RawTlsCapture) (level description : ℕ)
    → Tells level description (build_alert_event h c level description)
unfolding build_alert_event alert_description_name
alert_Tells h c level description = record {
  level_name = alert_level_name level;
  levelled = refl;
  called = level_cases level;
  name = alert_description_name description;
  named = refl;
  coded = text_in_ends description alert_names all_end;
  kind = refl;
}

alert_of-Reports :
    (h : Host) (c : RawTlsCapture) (payload : Bytes)
    → Reports payload (alert_of h c (parse_alert payload))
unfolding parse_alert
alert_of-Reports h c [] = no_alert h c [] (inr (omega arith))
alert_of-Reports h c (t ∷ []) = no_alert h c _ (inr (omega arith))
alert_of-Reports h c (t ∷ v ∷ []) = no_alert h c _ (inr (omega arith))
alert_of-Reports h c (t ∷ v ∷ w ∷ []) = no_alert h c _ (inr (omega arith))
alert_of-Reports h c (t ∷ v ∷ w ∷ m ∷ []) = no_alert h c _ (inr (omega arith))
alert_of-Reports h c (t ∷ v ∷ w ∷ m ∷ n ∷ []) = no_alert h c _ (inr (omega arith))
alert_of-Reports h c (t ∷ v ∷ w ∷ m ∷ n ∷ level ∷ []) = no_alert h c _ (inr (omega arith))
alert_of-Reports h c (t ∷ v ∷ w ∷ m ∷ n ∷ level ∷ description ∷ rest) =
    elim (Bool-cases (t == 0x15)) [
      | inl same ↦
          let e : t ≡ 0x15 = (==_iff t 0x15).0 same in
          rw same (
            inl (
              level,
              description,
              record { record_type = ap some e; level_byte = refl; description_byte = refl },
              alert_Tells h c level description,
            ))
      | inr other ↦ rw other (no_alert h c _ (inl (ground arith)))
    ]

-- Whatever the payload of a capture whose content type is that of an alert, analysis gives an event.
-- Where the payload's first byte is that of an alert record and there are seven bytes, the event is
-- of kind "Alert", calls the sixth byte's 1 "warning", its 2 "fatal" and any other number unknown,
-- with the number, and names the seventh byte's description by a name that ends in its code in
-- parentheses. Where either fails, the event has no level and no description.
pub analyze-alert :
    (h : Host) (c : RawTlsCapture) (payload : Bytes)
    → (c.content_type == 0x15) ≡ true
    → (e : CaptureEvent) × (analyze_capture_with_payload h c payload ≡ ok e) × Reports payload e
unfolding analyze_capture_with_payload
analyze-alert h c payload is_alert =
    (alert_of h c (parse_alert payload), rw is_alert, alert_of-Reports h c payload)
