-- ===== src/Parser/ClientHello/RoundTrip.antt =====
-- A hello written field by field is parsed into the same fields.
use tls_probe.Outcome.{ok, ◌>>=◌, Returns-value}
use tls_probe.Parser.ClientHello.{
  HelloFields, no_fields, apply_extensions, HelloTail, read_block, read_tail, read_hello,
  parse_client_hello,
}
use tls_probe.Parser.ClientHello.Loops.{cipher_loop-u16_list, extension_ids_loop-frames, cut_ids}
use tls_probe.Parser.ClientHello.Safety.{HasText, apply_extensions-Returns}
use tls_probe.Parser.Extensions.Framing.{
  RawExtension, IsRaw, frame, frames, IsCut, decode, parse_extensions-frames,
}
use tls_probe.Parser.Types.{ParsedClientHello}
use tls_probe.Prelude.{
  ℕ, suc, ◌+◌, ◌-◌, ◌*◌, ◌≤◌, ◌<◌, min, ◌≡◌, refl, ◌∙◌, inl, inr, List, [], ◌∷◌, ◌++◌, map,
  append_assoc, arith, Bool-cases, ltb, le→leb, lt→ltb, le→ltb, ltb→lt, ltb→le, length,
  length-append, All,
}
use tls_probe.Wire.{Bytes, IsU16, u16_be, u16_list}
use tls_probe.Wire.Cursor.{
  Cursor, Cursor-start, Cursor-skip, Cursor-to, u16_at-be, byte_at-Cursor, slice-Cursor,
}

-- The parts of a hello in front of its extensions.
pub record WireHello : Type 0 where
  pub header : Bytes
  pub legacy_version : ℕ
  pub random : Bytes
  pub session_id : Bytes
  pub cipher_suites : List ℕ
  pub compression_methods : Bytes

-- Each part has the size that its length field can hold.
pub record IsWire (w : WireHello) : Type 0 where
  pub header_size : length w.header ≡ 9
  pub random_size : length w.random ≡ 32
  pub session_short : length w.session_id < 256
  pub suites_u16 : All IsU16 w.cipher_suites
  pub suites_short : IsU16 (2 * length w.cipher_suites)
  pub compression_short : length w.compression_methods < 256

abbrev suites_part : WireHello → Bytes → Bytes
suites_part w rest =
    u16_be (2 * length w.cipher_suites)
    ++ (u16_list w.cipher_suites
        ++ (length w.compression_methods ∷ (w.compression_methods ++ rest)))

abbrev session_part : WireHello → Bytes → Bytes
session_part w rest = length w.session_id ∷ (w.session_id ++ suites_part w rest)

-- The payload of a packet that holds the hello, with `rest` behind its compression methods.
abbrev pub hello_bytes : WireHello → Bytes → Bytes
hello_bytes w rest = w.header ++ (u16_be w.legacy_version ++ (w.random ++ session_part w rest))

-- Where `rest` starts.
abbrev pub core_size : WireHello → ℕ
core_size w =
    44 + length w.session_id + 2 + 2 * length w.cipher_suites + 1 + length w.compression_methods

abbrev pub parsed : WireHello → HelloTail → ParsedClientHello
parsed w t = record {
  legacy_version = w.legacy_version;
  random = w.random;
  session_id = w.session_id;
  cipher_suites = w.cipher_suites;
  compression_methods = w.compression_methods;
  extensions = t.extensions;
  extension_ids = t.extension_ids;
  supported_versions = t.fields.supported_versions;
  supported_groups = t.fields.supported_groups;
  signature_algorithms = t.fields.signature_algorithms;
  signature_algorithms_cert = t.fields.signature_algorithms_cert;
  key_share_groups = t.fields.key_share_groups;
  sni = t.fields.sni;
  alpn = t.fields.alpn;
  psk_offered = t.fields.psk_offered;
  early_data_offered = t.fields.early_data_offered;
  psk_key_exchange_modes_offered = t.fields.psk_key_exchange_modes_offered;
  session_ticket_offered = t.fields.session_ticket_offered;
}

pub length-u16_list : (vs : List ℕ) → length (u16_list vs) ≡ 2 * length vs
length-u16_list [] = omega arith
length-u16_list (v ∷ vs) = omega (arith, length-u16_list vs)

-- Where each part of the hello stands.
module _ (w : WireHello) (rest : Bytes) (h : IsWire w) where
  at_version :
      Cursor (hello_bytes w rest) 9 (u16_be w.legacy_version ++ (w.random ++ session_part w rest))
  at_version =
      Cursor-to (hello_bytes w rest) 0 w.header
        (u16_be w.legacy_version ++ (w.random ++ session_part w rest)) 9
        (Cursor-start (hello_bytes w rest)) (omega (arith, h.header_size))

  at_random : Cursor (hello_bytes w rest) 11 (w.random ++ session_part w rest)
  at_random =
      Cursor-skip (hello_bytes w rest) 9 (u16_be w.legacy_version) (w.random ++ session_part w rest)
        at_version

  at_session : Cursor (hello_bytes w rest) 43 (session_part w rest)
  at_session =
      Cursor-to (hello_bytes w rest) 11 w.random (session_part w rest) 43 at_random
        (omega (arith, h.random_size))

  at_suites : Cursor (hello_bytes w rest) (44 + length w.session_id) (suites_part w rest)
  at_suites = Cursor-skip (hello_bytes w rest) 44 w.session_id (suites_part w rest) (
      Cursor-skip (hello_bytes w rest) 43 (length w.session_id ∷ [])
        (w.session_id ++ suites_part w rest) at_session)

  at_compression :
      Cursor
        (hello_bytes w rest)
        (44 + length w.session_id + 2 + 2 * length w.cipher_suites)
        (length w.compression_methods ∷ (w.compression_methods ++ rest))
  at_compression =
      let comp : Bytes = length w.compression_methods ∷ (w.compression_methods ++ rest) in
      Cursor-to (hello_bytes w rest) (44 + length w.session_id + 2) (u16_list w.cipher_suites) comp
        (44 + length w.session_id + 2 + 2 * length w.cipher_suites)
        (Cursor-skip (hello_bytes w rest) (44 + length w.session_id)
          (u16_be (2 * length w.cipher_suites)) (u16_list w.cipher_suites ++ comp) at_suites)
        (omega (arith, length-u16_list w.cipher_suites))

  pub at_rest : Cursor (hello_bytes w rest) (core_size w) rest
  at_rest =
      Cursor-to (hello_bytes w rest) (44 + length w.session_id + 2 + 2 * length w.cipher_suites)
        (length w.compression_methods ∷ w.compression_methods) rest (core_size w) at_compression
        (omega arith)

  -- The reads in front of the extensions.
  pub read_hello-wire :
      read_hello (hello_bytes w rest)
      ≡ (read_tail (hello_bytes w rest) (core_size w) >>= λ t. ok (parsed w t))
  unfolding read_hello
  read_hello-wire =
      let payload = hello_bytes w rest in
      let n = length w.session_id in
      let m = 2 * length w.cipher_suites in
      let k = length w.compression_methods in
      let comp : Bytes = k ∷ (w.compression_methods ++ rest) in
      let total : core_size w ≤ length payload = omega (arith, at_rest.size) in
      rw (
        u16_at-be payload 9 w.legacy_version _ at_version,
        slice-Cursor payload 11 43 w.random (session_part w rest) at_random
            (omega (arith, h.random_size)),
        byte_at-Cursor payload 43 n _ at_session,
        le→leb (44 + n) (length payload) (omega arith),
        slice-Cursor payload 44 (44 + n) w.session_id (suites_part w rest)
            (Cursor-skip payload 43 (n ∷ []) (w.session_id ++ suites_part w rest) at_session) refl,
        le→leb (44 + n + 2) (length payload) (omega arith),
        u16_at-be payload (44 + n) m _ at_suites,
        le→leb (44 + n + 2 + m) (length payload) (omega arith),
        cipher_loop-u16_list w.cipher_suites (suc (length payload)) payload (44 + n + 2)
            (44 + n + 2 + m) [] comp h.suites_u16
            (Cursor-skip payload (44 + n) (u16_be m) (u16_list w.cipher_suites ++ comp) at_suites)
            refl (omega arith),
        lt→ltb (44 + n + 2 + m) (length payload) (omega arith),
        byte_at-Cursor payload (44 + n + 2 + m) k _ at_compression,
        le→leb (44 + n + 2 + m + 1 + k) (length payload) total,
        slice-Cursor payload (44 + n + 2 + m + 1) (44 + n + 2 + m + 1 + k) w.compression_methods
            rest
            (Cursor-skip payload (44 + n + 2 + m) (k ∷ []) (w.compression_methods ++ rest)
              at_compression)
            refl,
      )

  -- The first test passes.
  pub parse_client_hello-read :
      parse_client_hello (hello_bytes w rest) ≡ read_hello (hello_bytes w rest)
  unfolding parse_client_hello
  parse_client_hello-read =
      rw (le→ltb (length (hello_bytes w rest)) 44 (omega (arith, at_rest.size)))

-- The hello that a payload holds, with its extensions.
abbrev pub tail_of : List RawExtension → Bytes → HelloFields → HelloTail
tail_of es cut f = record {
  extensions = map decode es;
  extension_ids = map (λ e. e.id) es ++ cut_ids cut;
  fields = f;
}

frames_empty :
    (es : List RawExtension) (cut : Bytes) → length (frames es ++ cut) ≡ 0 → (es ≡ []) × (cut ≡ [])
frames_empty [] [] h = (refl, refl)
frames_empty [] (a ∷ cut) h = absurd (omega arith)
frames_empty (e ∷ es) cut h = absurd (omega arith)

length-frames-le : (es : List RawExtension) → length es * 4 ≤ length (frames es)
length-frames-le [] = omega arith
length-frames-le (e ∷ es) = omega (arith, length-frames-le es, length-append (frame e) (frames es))

read_block-frames :
    (payload : Bytes) (start n : ℕ) (es : List RawExtension) (cut rest : Bytes) (f : HelloFields)
    → All IsRaw es
    → IsCut cut
    → Cursor payload start ((frames es ++ cut) ++ rest)
    → n ≡ length (frames es ++ cut)
    → 0 < n
    → apply_extensions (map decode es) no_fields ≡ ok f
    → read_block payload start n ≡ ok (tail_of es cut f)
unfolding read_block
read_block-frames payload start n es cut rest f h k c q p fields =
    let c' : Cursor payload start (frames es ++ (cut ++ rest)) =
      rw (← append_assoc (frames es) cut rest) c in
    let size : length (frames es ++ cut) + length rest + start ≡ length payload =
      omega (arith, c.size, length-append (frames es ++ cut) rest) in
    let parts = length-append (frames es) cut in
    rw (
      extension_ids_loop-frames es cut (suc (length payload)) payload start (start + n) [] rest h k
          c' (omega (arith, parts)) (omega (arith, length-frames-le es, parts, size, q, p)),
      slice-Cursor payload start (start + n) (frames es ++ cut) rest c (omega arith),
      parse_extensions-frames es cut h k,
      fields,
    )

-- The block of extensions is what the announced length leaves of the bytes there.
pub read_tail-frames :
    (payload : Bytes) (offset ext_len : ℕ) (es : List RawExtension) (cut rest : Bytes)
    (f : HelloFields)
    → All IsRaw es
    → IsCut cut
    → min (length ((frames es ++ cut) ++ rest)) ext_len ≡ length (frames es ++ cut)
    → Cursor payload offset (u16_be ext_len ++ ((frames es ++ cut) ++ rest))
    → apply_extensions (map decode es) no_fields ≡ ok f
    → read_tail payload offset ≡ ok (tail_of es cut f)
unfolding read_tail
read_tail-frames payload offset ext_len es cut rest f h k q c fields =
    let block = frames es ++ cut in
    let start = Cursor-skip payload offset (u16_be ext_len) (block ++ rest) c in
    let avail : length payload - (offset + 2) ≡ length (block ++ rest) =
      omega (arith, start.size) in
    rw
      (
        le→leb (offset + 2) (length payload) (omega (arith, start.size)),
        u16_at-be payload offset ext_len _ c,
        avail,
        q,
      )
      (elim (Bool-cases (ltb 0 (length block))) [
        | inl some' ↦ rw some' (
            read_block-frames payload (offset + 2) (length block) es cut rest f h k start refl
              (ltb→lt 0 (length block) some') fields)
        | inr none' ↦
            let (e, x) = frames_empty es cut (omega (arith, ltb→le 0 (length block) none')) in
            let g : f ≡ no_fields = ground (arith, fields, e) in rw (none', e, x, g)
      ])

-- A payload that holds a hello, with its extensions whole or cut off, is parsed into the fields
-- that were written: the parts in front of the extensions as they stand, every whole extension in
-- order, the number of each extension and of one that is cut off behind its header, and the fields
-- that the extensions set one after the other.
pub parse_client_hello-hello_bytes :
    (w : WireHello) (ext_len : ℕ) (es : List RawExtension) (cut rest : Bytes)
    → IsWire w
    → IsU16 ext_len
    → All IsRaw es
    → IsCut cut
    → min (length ((frames es ++ cut) ++ rest)) ext_len ≡ length (frames es ++ cut)
    → (f : HelloFields) × (apply_extensions (map decode es) no_fields ≡ ok f)
      × (parse_client_hello (hello_bytes w (u16_be ext_len ++ ((frames es ++ cut) ++ rest)))
          ≡ ok (parsed w (tail_of es cut f)))
parse_client_hello-hello_bytes w ext_len es cut rest h u r k q =
    let more = u16_be ext_len ++ ((frames es ++ cut) ++ rest) in
    let (f, fields, text) =
      Returns-value HasText (apply_extensions (map decode es) no_fields)
        (apply_extensions-Returns (map decode es) no_fields tt) in
    (
      f,
      fields,
      parse_client_hello-read w more h
          ∙ read_hello-wire w more h
          ∙ rw (
              read_tail-frames (hello_bytes w more) (core_size w) ext_len es cut rest f r k q
                (at_rest w more h) fields),
    )
