-- ===== src/Parser/ServerHello/RoundTrip.antt =====
-- A server hello written field by field is parsed into the same fields.
use tls_probe.Outcome.{ok, ◌>>=◌, Returns-value}
use tls_probe.Parser.Extensions.Framing.{
  RawExtension, IsRaw, frames, IsCut, decode, parse_extensions-frames,
}
use tls_probe.Parser.ServerHello.{
  ServerFields, no_server_fields, apply_server_extensions, ServerTail, read_server_block,
  read_server_tail, read_server_hello, parse_server_hello,
}
use tls_probe.Parser.ServerHello.Safety.{apply_server_extensions-Returns}
use tls_probe.Parser.Types.{ParsedServerHello}
use tls_probe.Prelude.{
  ℕ, ◌+◌, ◌-◌, ◌≤◌, ◌<◌, min, ◌≡◌, refl, ◌∙◌, List, [], ◌∷◌, ◌++◌, map, arith, le→leb, lt→ltb,
  le→ltb, length, All,
}
use tls_probe.Wire.{Bytes, IsU16, u16_be}
use tls_probe.Wire.Cursor.{
  Cursor, Cursor-start, Cursor-skip, Cursor-to, u16_at-be, byte_at-Cursor, slice-Cursor,
}

pub record WireServerHello : Type 0 where
  pub header : Bytes
  pub legacy_version : ℕ
  pub random : Bytes
  pub session_id : Bytes
  pub cipher_suite : ℕ
  pub compression_method : ℕ

pub record IsServerWire (w : WireServerHello) : Type 0 where
  pub header_size : length w.header ≡ 9
  pub random_size : length w.random ≡ 32
  pub session_short : length w.session_id < 256
  pub suite_u16 : IsU16 w.cipher_suite

abbrev suite_part : WireServerHello → Bytes → Bytes
suite_part w rest = u16_be w.cipher_suite ++ (w.compression_method ∷ rest)

abbrev session_part : WireServerHello → Bytes → Bytes
session_part w rest = length w.session_id ∷ (w.session_id ++ suite_part w rest)

abbrev pub server_hello_bytes : WireServerHello → Bytes → Bytes
server_hello_bytes w rest =
    w.header ++ (u16_be w.legacy_version ++ (w.random ++ session_part w rest))

abbrev pub server_core_size : WireServerHello → ℕ
server_core_size w = 44 + length w.session_id + 2 + 1

abbrev pub parsed : WireServerHello → ServerTail → ParsedServerHello
parsed w t = record {
  legacy_version = w.legacy_version;
  random = w.random;
  session_id = w.session_id;
  cipher_suite = w.cipher_suite;
  compression_method = w.compression_method;
  extensions = t.extensions;
  negotiated_version = t.fields.negotiated_version;
  key_share_group = t.fields.key_share_group;
  psk_selected = t.fields.psk_selected;
}

module _ (w : WireServerHello) (rest : Bytes) (h : IsServerWire w) where
  at_version :
      Cursor
        (server_hello_bytes w rest)
        9
        (u16_be w.legacy_version ++ (w.random ++ session_part w rest))
  at_version =
      Cursor-to (server_hello_bytes w rest) 0 w.header
        (u16_be w.legacy_version ++ (w.random ++ session_part w rest)) 9
        (Cursor-start (server_hello_bytes w rest)) (omega (arith, h.header_size))

  at_random : Cursor (server_hello_bytes w rest) 11 (w.random ++ session_part w rest)
  at_random =
      Cursor-skip (server_hello_bytes w rest) 9 (u16_be w.legacy_version)
        (w.random ++ session_part w rest) at_version

  at_session : Cursor (server_hello_bytes w rest) 43 (session_part w rest)
  at_session =
      Cursor-to (server_hello_bytes w rest) 11 w.random (session_part w rest) 43 at_random
        (omega (arith, h.random_size))

  at_suite : Cursor (server_hello_bytes w rest) (44 + length w.session_id) (suite_part w rest)
  at_suite = Cursor-skip (server_hello_bytes w rest) 44 w.session_id (suite_part w rest) (
      Cursor-skip (server_hello_bytes w rest) 43 (length w.session_id ∷ [])
        (w.session_id ++ suite_part w rest) at_session)

  at_method :
      Cursor
        (server_hello_bytes w rest)
        (44 + length w.session_id + 2)
        (w.compression_method ∷ rest)
  at_method =
      Cursor-skip (server_hello_bytes w rest) (44 + length w.session_id) (u16_be w.cipher_suite)
        (w.compression_method ∷ rest) at_suite

  at_rest : Cursor (server_hello_bytes w rest) (server_core_size w) rest
  at_rest =
      Cursor-skip (server_hello_bytes w rest) (44 + length w.session_id + 2)
        (w.compression_method ∷ []) rest at_method

  read_server_hello-wire :
      read_server_hello (server_hello_bytes w rest)
      ≡ (read_server_tail (server_hello_bytes w rest) (server_core_size w) >>= λ t. ok (parsed w t))
  unfolding read_server_hello
  read_server_hello-wire =
      let payload = server_hello_bytes w rest in
      let n = length w.session_id in
      let total : server_core_size w ≤ length payload = omega (arith, at_rest.size) in
      rw (
        u16_at-be payload 9 w.legacy_version _ at_version,
        slice-Cursor payload 11 43 w.random (session_part w rest) at_random
            (omega (arith, h.random_size)),
        byte_at-Cursor payload 43 n _ at_session,
        le→leb (44 + n) (length payload) (omega arith),
        slice-Cursor payload 44 (44 + n) w.session_id (suite_part w rest)
            (Cursor-skip payload 43 (n ∷ []) (w.session_id ++ suite_part w rest) at_session) refl,
        le→leb (44 + n + 2) (length payload) (omega arith),
        u16_at-be payload (44 + n) w.cipher_suite _ at_suite,
        lt→ltb (44 + n + 2) (length payload) (omega arith),
        byte_at-Cursor payload (44 + n + 2) w.compression_method _ at_method,
      )

  parse_server_hello-read :
      parse_server_hello (server_hello_bytes w rest) ≡ read_server_hello (server_hello_bytes w rest)
  unfolding parse_server_hello
  parse_server_hello-read =
      rw (le→ltb (length (server_hello_bytes w rest)) 44 (omega (arith, at_rest.size)))

abbrev pub server_tail_of : List RawExtension → ServerFields → ServerTail
server_tail_of es f = record { extensions = map decode es; fields = f }

read_server_tail-frames :
    (payload : Bytes) (offset ext_len : ℕ) (es : List RawExtension) (cut rest : Bytes)
    (f : ServerFields)
    → All IsRaw es
    → IsCut cut
    → min (length ((frames es ++ cut) ++ rest)) ext_len ≡ length (frames es ++ cut)
    → 0 < length (frames es ++ cut)
    → Cursor payload offset (u16_be ext_len ++ ((frames es ++ cut) ++ rest))
    → apply_server_extensions (map decode es) no_server_fields ≡ ok f
    → read_server_tail payload offset ≡ ok (server_tail_of es f)
unfolding read_server_tail read_server_block
read_server_tail-frames payload offset ext_len es cut rest f h k q p c fields =
    let block = frames es ++ cut in
    let start = Cursor-skip payload offset (u16_be ext_len) (block ++ rest) c in
    let avail : length payload - (offset + 2) ≡ length (block ++ rest) =
      omega (arith, start.size) in
    rw (
      le→leb (offset + 2) (length payload) (omega (arith, start.size)),
      u16_at-be payload offset ext_len _ c,
      avail,
      q,
      lt→ltb 0 (length block) p,
      slice-Cursor payload (offset + 2) (offset + 2 + length block) block rest start refl,
      parse_extensions-frames es cut h k,
      fields,
    )

-- A payload that holds a server hello, with a block of extensions whole or cut off, is parsed into
-- the fields that were written, with every whole extension in order and the fields that the
-- extensions set one after the other.
pub parse_server_hello-server_hello_bytes :
    (w : WireServerHello) (ext_len : ℕ) (es : List RawExtension) (cut rest : Bytes)
    → IsServerWire w
    → IsU16 ext_len
    → All IsRaw es
    → IsCut cut
    → min (length ((frames es ++ cut) ++ rest)) ext_len ≡ length (frames es ++ cut)
    → 0 < length (frames es ++ cut)
    → (f : ServerFields) × (apply_server_extensions (map decode es) no_server_fields ≡ ok f)
      × (parse_server_hello (server_hello_bytes w (u16_be ext_len ++ ((frames es ++ cut) ++ rest)))
          ≡ ok (parsed w (server_tail_of es f)))
parse_server_hello-server_hello_bytes w ext_len es cut rest h u r k q p =
    let more = u16_be ext_len ++ ((frames es ++ cut) ++ rest) in
    let (f, fields, _) =
      Returns-value (λ _. Unit) (apply_server_extensions (map decode es) no_server_fields)
        (apply_server_extensions-Returns (map decode es) no_server_fields) in
    (
      f,
      fields,
      parse_server_hello-read w more h
          ∙ read_server_hello-wire w more h
          ∙ rw (
              read_server_tail-frames (server_hello_bytes w more) (server_core_size w) ext_len es
                cut rest f r k q p (at_rest w more h) fields),
    )
