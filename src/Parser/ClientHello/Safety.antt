-- ===== src/Parser/ClientHello/Safety.antt =====
-- Total correctness of `parse_client_hello`: on every payload it returns a hello or an error.
use tls_probe.Outcome.{
  Returns, Returns->>=, Within, Within->>=, Within-guard, Returns-Within, unexpected_end,
}
use tls_probe.Parser.ClientHello.{
  hello_start, tls_random_len, cipher_loop, extension_ids_loop, HelloFields, no_fields, apply_typed,
  apply_extensions, HelloTail, read_block, read_tail, read_hello, parse_client_hello,
}
use tls_probe.Parser.ClientHello.Loops.{cipher_loop-Returns, extension_ids_loop-Returns}
use tls_probe.Parser.Extensions.{
  ExtensionType, Extension, parse_extensions, extract_key_share_groups, extract_sni, extract_alpn,
}
use tls_probe.Parser.Extensions.Framing.{parse_extensions-Returns}
use tls_probe.Parser.Extensions.Names.{extract_key_share_groups-Returns, extract_alpn-Returns}
use tls_probe.Parser.Extensions.Numbers.{
  extract_supported_versions_lem, extract_supported_groups_lem, extract_signature_algorithms_lem,
  extract_signature_algorithms_cert_lem,
}
use tls_probe.Parser.Extensions.Sni.{IsText, extract_sni-Returns}
use tls_probe.Parser.Types.{ParsedClientHello}
use tls_probe.Prelude.{
  ℕ, suc, ◌+◌, ◌-◌, ◌*◌, ◌≤◌, ◌<◌, min, ◌≡◌, inl, inr, true, List, [], ◌∷◌, arith, Bool-cases, leb,
  ltb, leb→le, ltb→lt, ltb→le, length,
}
use tls_probe.Wire.{Bytes, byte_at, u16_at, slice}
use tls_probe.Wire.Cursor.{u16_at-Returns, byte_at-Returns, slice-Returns}

-- The name found so far, if any, is text.
abbrev pub HasText : HelloFields → Type 0
HasText f = IsText f.sni

-- One extension is taken in, whatever its content.
apply_typed-Returns :
    (ty : ExtensionType) (ext : Extension) (f : HelloFields)
    → HasText f
    → Returns HasText (apply_typed ty ext f)
unfolding apply_typed
apply_typed-Returns ExtensionType.supported_versions ext f t =
    rw (extract_supported_versions_lem ext true) t
apply_typed-Returns ExtensionType.supported_groups ext f t = rw (extract_supported_groups_lem ext) t
apply_typed-Returns ExtensionType.signature_algorithms ext f t =
    rw (extract_signature_algorithms_lem ext) t
apply_typed-Returns ExtensionType.signature_algorithms_cert ext f t =
    rw (extract_signature_algorithms_cert_lem ext) t
apply_typed-Returns ExtensionType.key_share ext f t =
    Returns->>= _ _ (extract_key_share_groups ext true) _
      (extract_key_share_groups-Returns ext true) λ gs _. t
apply_typed-Returns ExtensionType.server_name ext f t =
    Returns->>= _ _ (extract_sni ext) _ (extract_sni-Returns ext) λ name h. h
apply_typed-Returns ExtensionType.application_layer_protocol_negotiation ext f t =
    Returns->>= _ _ (extract_alpn ext) _ (extract_alpn-Returns ext) λ names _. t
apply_typed-Returns ExtensionType.pre_shared_key ext f t = t
apply_typed-Returns ExtensionType.early_data ext f t = t
apply_typed-Returns ExtensionType.psk_key_exchange_modes ext f t = t
apply_typed-Returns ExtensionType.session_ticket ext f t = t
apply_typed-Returns (ExtensionType.unknown v) ext f t = t

-- All extensions are taken in, whatever their contents.
pub apply_extensions-Returns :
    (exts : List Extension) (f : HelloFields)
    → HasText f
    → Returns HasText (apply_extensions exts f)
unfolding apply_extensions
apply_extensions-Returns [] f t = t
apply_extensions-Returns (ext ∷ exts) f t =
    Returns->>= _ _ (apply_typed ext.ext_type ext f) (apply_extensions exts)
      (apply_typed-Returns ext.ext_type ext f t) λ g u. apply_extensions-Returns exts g u

abbrev TailHasText : HelloTail → Type 0
TailHasText t = HasText t.fields

read_block-Returns :
    (payload : Bytes) (start n : ℕ)
    → start + n ≤ length payload
    → Returns TailHasText (read_block payload start n)
unfolding read_block
read_block-Returns payload start n h =
    Returns->>= _ _ (extension_ids_loop (suc (length payload)) payload start (start + n) []) _
      (extension_ids_loop-Returns (suc (length payload)) payload start (start + n) [] h
        (omega arith) (omega arith))
      λ ids _.
        Returns->>= _ _ (slice payload start (start + n)) _
          (slice-Returns payload start (start + n) (omega arith) h)
          λ bytes _.
            Returns->>= _ _ (parse_extensions bytes) _ (parse_extensions-Returns bytes) λ exts _.
              Returns->>= _ _ (apply_extensions exts no_fields) _
                (apply_extensions-Returns exts no_fields tt) λ f t. t

-- The extensions of every payload are read: a block that is cut off is read as far as it goes.
pub read_tail-Returns :
    (payload : Bytes) (offset : ℕ) → Returns TailHasText (read_tail payload offset)
unfolding read_tail
read_tail-Returns payload offset = elim (Bool-cases (leb (offset + 2) (length payload))) [
  | inr none' ↦ rw none' tt
  | inl some' ↦
      let fits : offset + 2 ≤ length payload = leb→le (offset + 2) (length payload) some' in
      rw some' (
        Returns->>= _ _ (u16_at payload offset) _ (u16_at-Returns payload offset (omega arith))
          λ n _. elim (Bool-cases (ltb 0 (min (length payload - (offset + 2)) n))) [
            | inr empty ↦ rw empty tt
            | inl block ↦ rw block (
                read_block-Returns payload (offset + 2) (min (length payload - (offset + 2)) n)
                  (omega arith))
          ])
]

-- What a parsed hello is held to: its parts lie one behind the other within the payload.
pub record IsHello (payload : Bytes) (h : ParsedClientHello) : Type 0 where
  pub random_size : length h.random ≡ 32
  pub parts_fit :
      hello_start
        + 2
        + 32
        + 1
        + length h.session_id
        + 2
        + 2 * length h.cipher_suites
        + 1
        + length h.compression_methods
      ≤ length payload
  pub name_text : IsText h.sni

read_hello-Within :
    (payload : Bytes)
    → hello_start + 2 + tls_random_len + 1 ≤ length payload
    → Within (IsHello payload) (read_hello payload)
unfolding read_hello
read_hello-Within payload long =
    Within->>= _ _ (u16_at payload hello_start) _
      (Returns-Within _ (u16_at payload hello_start)
        (u16_at-Returns payload hello_start (omega arith)))
      λ version _.
        Within->>= _ _ (slice payload 11 43) _
          (Returns-Within _ (slice payload 11 43)
            (slice-Returns payload 11 43 (omega arith) (omega arith)))
          λ random r.
            Within->>= _ _ (byte_at payload 43) _
              (Returns-Within _ (byte_at payload 43) (byte_at-Returns payload 43 (omega arith)))
              λ n _. Within-guard _ (leb (44 + n) (length payload)) (unexpected_end 44) _ λ g₁.
                let fits₁ : 44 + n ≤ length payload = leb→le (44 + n) (length payload) g₁ in
                Within->>= _ _ (slice payload 44 (44 + n)) _
                  (Returns-Within _ (slice payload 44 (44 + n))
                    (slice-Returns payload 44 (44 + n) (omega arith) fits₁))
                  λ session s.
                    Within-guard _ (leb (44 + n + 2) (length payload)) (unexpected_end (44 + n)) _
                      λ g₂.
                        let fits₂ : 44 + n + 2 ≤ length payload =
                          leb→le (44 + n + 2) (length payload) g₂ in
                        Within->>= _ _ (u16_at payload (44 + n)) _
                          (Returns-Within _ (u16_at payload (44 + n))
                            (u16_at-Returns payload (44 + n) (omega arith)))
                          λ m _.
                            Within-guard _ (leb (44 + n + 2 + m) (length payload))
                              (unexpected_end (44 + n + 2)) _
                              λ g₃.
                                let end : ℕ = 44 + n + 2 + m in
                                let fits₃ : end ≤ length payload = leb→le end (length payload) g₃ in
                                Within->>= _ _
                                  (cipher_loop (suc (length payload)) payload (44 + n + 2) end []) _
                                  (Returns-Within _
                                    (cipher_loop (suc (length payload)) payload (44 + n + 2) end [])
                                    (cipher_loop-Returns (suc (length payload)) payload (44 + n + 2)
                                      end [] fits₃ (omega arith) (omega arith)))
                                  λ ciphers c.
                                    Within-guard _ (ltb end (length payload)) (unexpected_end end) _
                                      λ g₄.
                                        let fits₄ : end < length payload =
                                          ltb→lt end (length payload) g₄ in
                                        Within->>= _ _ (byte_at payload end) _
                                          (Returns-Within _ (byte_at payload end)
                                            (byte_at-Returns payload end fits₄))
                                          λ k _.
                                            Within-guard _ (leb (end + 1 + k) (length payload))
                                              (unexpected_end (end + 1)) _
                                              λ g₅.
                                                let fits₅ : end + 1 + k ≤ length payload =
                                                  leb→le (end + 1 + k) (length payload) g₅ in
                                                Within->>= _ _
                                                  (slice payload (end + 1) (end + 1 + k)) _
                                                  (Returns-Within _
                                                    (slice payload (end + 1) (end + 1 + k))
                                                    (slice-Returns payload (end + 1) (end + 1 + k)
                                                      (omega arith) fits₅))
                                                  λ compression z.
                                                    Within->>= _ _ (read_tail payload (end + 1 + k))
                                                      _
                                                      (Returns-Within _
                                                        (read_tail payload (end + 1 + k))
                                                        (read_tail-Returns payload (end + 1 + k)))
                                                      λ tail t. record {
                                                        random_size = r;
                                                        parts_fit = omega arith;
                                                        name_text = t;
                                                      }

-- On every payload the parser returns an error, or a hello whose parts lie within the payload and
-- whose name is text: it never reads out of bounds, and each of its loops ends.
pub parse_client_hello-Within :
    (payload : Bytes) → Within (IsHello payload) (parse_client_hello payload)
unfolding parse_client_hello
parse_client_hello-Within payload = elim (Bool-cases (ltb (length payload) 44)) [
  | inl short ↦ rw short tt
  | inr long ↦ rw long (read_hello-Within payload (ltb→le (length payload) 44 long))
]
