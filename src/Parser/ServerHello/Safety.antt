-- ===== src/Parser/ServerHello/Safety.antt =====
-- Total correctness of `parse_server_hello`: on every payload it returns a hello or an error.
use tls_probe.Outcome.{
  Returns, Returns->>=, Within, Within->>=, Within-guard, Returns-Within, unexpected_end,
}
use tls_probe.Parser.ClientHello.{hello_start, tls_random_len}
use tls_probe.Parser.Extensions.{
  ExtensionType, Extension, parse_extensions, extract_key_share_groups,
}
use tls_probe.Parser.Extensions.Framing.{parse_extensions-Returns}
use tls_probe.Parser.Extensions.Names.{extract_key_share_groups-Returns}
use tls_probe.Parser.Extensions.Numbers.{extract_supported_versions_lem}
use tls_probe.Parser.ServerHello.{
  ServerFields, no_server_fields, apply_server_typed, apply_server_extensions, read_server_block,
  read_server_tail, read_server_hello, parse_server_hello,
}
use tls_probe.Parser.Types.{ParsedServerHello}
use tls_probe.Prelude.{
  ℕ, ◌+◌, ◌-◌, ◌≤◌, ◌<◌, min, ◌≡◌, inl, inr, false, List, [], ◌∷◌, arith, Bool-cases, leb, ltb,
  leb→le, ltb→lt, ltb→le, length,
}
use tls_probe.Wire.{Bytes, byte_at, u16_at, slice}
use tls_probe.Wire.Cursor.{u16_at-Returns, byte_at-Returns, slice-Returns}

apply_server_typed-Returns :
    (ty : ExtensionType) (ext : Extension) (f : ServerFields)
    → Returns (λ _. Unit) (apply_server_typed ty ext f)
unfolding apply_server_typed
apply_server_typed-Returns ExtensionType.supported_versions ext f =
    rw (extract_supported_versions_lem ext false) tt
apply_server_typed-Returns ExtensionType.key_share ext f =
    Returns->>= _ _ (extract_key_share_groups ext false) _
      (extract_key_share_groups-Returns ext false) λ gs _. tt
apply_server_typed-Returns ExtensionType.pre_shared_key ext f = tt
apply_server_typed-Returns _ ext f = tt

-- All extensions are taken in, whatever their contents.
pub apply_server_extensions-Returns :
    (exts : List Extension) (f : ServerFields)
    → Returns (λ _. Unit) (apply_server_extensions exts f)
unfolding apply_server_extensions
apply_server_extensions-Returns [] f = tt
apply_server_extensions-Returns (ext ∷ exts) f =
    Returns->>= _ _ (apply_server_typed ext.ext_type ext f) (apply_server_extensions exts)
      (apply_server_typed-Returns ext.ext_type ext f) λ g u. apply_server_extensions-Returns exts g

read_server_block-Returns :
    (payload : Bytes) (start n : ℕ)
    → start + n ≤ length payload
    → Returns (λ _. Unit) (read_server_block payload start n)
unfolding read_server_block
read_server_block-Returns payload start n h =
    Returns->>= _ _ (slice payload start (start + n)) _
      (slice-Returns payload start (start + n) (omega arith) h)
      λ bytes _.
        Returns->>= _ _ (parse_extensions bytes) _ (parse_extensions-Returns bytes) λ exts _.
          Returns->>= _ _ (apply_server_extensions exts no_server_fields) _
            (apply_server_extensions-Returns exts no_server_fields) λ f t. tt

read_server_tail-Returns :
    (payload : Bytes) (offset : ℕ) → Returns (λ _. Unit) (read_server_tail payload offset)
unfolding read_server_tail
read_server_tail-Returns payload offset = elim (Bool-cases (leb (offset + 2) (length payload))) [
  | inr none' ↦ rw none' tt
  | inl some' ↦
      let fits : offset + 2 ≤ length payload = leb→le (offset + 2) (length payload) some' in
      rw some' (
        Returns->>= _ _ (u16_at payload offset) _ (u16_at-Returns payload offset (omega arith))
          λ n _. elim (Bool-cases (ltb 0 (min (length payload - (offset + 2)) n))) [
            | inr empty ↦ rw empty tt
            | inl block ↦ rw block (
                read_server_block-Returns payload (offset + 2)
                  (min (length payload - (offset + 2)) n) (omega arith))
          ])
]

pub record IsServerHello (payload : Bytes) (h : ParsedServerHello) : Type 0 where
  pub random_size : length h.random ≡ 32
  pub parts_fit : hello_start + 2 + 32 + 1 + length h.session_id + 3 ≤ length payload

read_server_hello-Within :
    (payload : Bytes)
    → hello_start + 2 + tls_random_len + 1 ≤ length payload
    → Within (IsServerHello payload) (read_server_hello payload)
unfolding read_server_hello
read_server_hello-Within payload long =
    Within->>= _ _ (u16_at payload hello_start) _
      (Returns-Within _ (u16_at payload hello_start)
        (u16_at-Returns payload hello_start (omega arith)))
      λ version _.
        Within->>= _ _ (slice payload 11 43) _
          (Returns-Within _ (slice payload 11 43)
            (slice-Returns payload 11 43 (omega arith) (omega arith)))
          λ random r.
            Within->>= _ _ (byte_at payload 43) _
              (Returns-Within _ (byte_at payload 43) (byte_at-Returns payload 43 (omega arith)))
              λ n _. Within-guard _ (leb (44 + n) (length payload)) (unexpected_end 44) _ λ g₁.
                let fits₁ : 44 + n ≤ length payload = leb→le (44 + n) (length payload) g₁ in
                Within->>= _ _ (slice payload 44 (44 + n)) _
                  (Returns-Within _ (slice payload 44 (44 + n))
                    (slice-Returns payload 44 (44 + n) (omega arith) fits₁))
                  λ session s.
                    Within-guard _ (leb (44 + n + 2) (length payload)) (unexpected_end (44 + n)) _
                      λ g₂.
                        let fits₂ : 44 + n + 2 ≤ length payload =
                          leb→le (44 + n + 2) (length payload) g₂ in
                        Within->>= _ _ (u16_at payload (44 + n)) _
                          (Returns-Within _ (u16_at payload (44 + n))
                            (u16_at-Returns payload (44 + n) (omega arith)))
                          λ suite _.
                            Within-guard _ (ltb (44 + n + 2) (length payload))
                              (unexpected_end (44 + n + 2)) _
                              λ g₃.
                                let fits₃ : 44 + n + 2 < length payload =
                                  ltb→lt (44 + n + 2) (length payload) g₃ in
                                Within->>= _ _ (byte_at payload (44 + n + 2)) _
                                  (Returns-Within _ (byte_at payload (44 + n + 2))
                                    (byte_at-Returns payload (44 + n + 2) fits₃))
                                  λ k _.
                                    Within->>= _ _ (read_server_tail payload (44 + n + 2 + 1)) _
                                      (Returns-Within _ (read_server_tail payload (44 + n + 2 + 1))
                                        (read_server_tail-Returns payload (44 + n + 2 + 1)))
                                      λ tail t. record { random_size = r; parts_fit = omega arith }

-- On every payload the parser returns an error, or a hello whose parts lie within the payload: it
-- never reads out of bounds, and each of its loops ends.
pub parse_server_hello-Within :
    (payload : Bytes) → Within (IsServerHello payload) (parse_server_hello payload)
unfolding parse_server_hello
parse_server_hello-Within payload = elim (Bool-cases (ltb (length payload) 44)) [
  | inl short ↦ rw short tt
  | inr long ↦ rw long (read_server_hello-Within payload (ltb→le (length payload) 44 long))
]
