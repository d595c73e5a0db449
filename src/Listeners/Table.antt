-- ===== src/Listeners/Table.antt =====
-- crates/tls-probe-cli/src/commands/listeners.rs on the table of a little-endian host: the kernel
-- prints an address, whose octets stand in memory in their order, as one number in base 16.
use tls_probe.Listeners.{
  IpAddr, ListenEntry, state_listen, parse_hex_port, parse_ipv4_hex, be_bytes, v4_of, parse_local,
  parse_listen_line, collect, read_listeners_proc,
}
use tls_probe.Prelude.{
  ℕ, zero, suc, ◌+◌, ◌*◌, ◌<◌, ◌≡◌, refl, ap, ◌∙◌, true, false, List, [], ◌∷◌, ◌++◌, append_assoc,
  Option, none, some, arith, ltb, ◌==◌, Bool-cases, inl, inr, All, All-append, length, drop,
  if◌then◌else◌,
}
use tls_probe.Text.{split}
use tls_probe.Text.Pieces.{IsFree, split-append, split-IsFree}
use tls_probe.Text.Words.{is_white, is_word, split_whitespace, from_hex}
use tls_probe.Text.Words.Hex.{digit16, hexes, hexes-All, from_hex-hexes, from_hex-trimmed}
use tls_probe.Text.Words.Parts.{
  IsDark, IsWord, split_whitespace-word, indent, split_whitespace-indent, table, rows_of,
  lines-table,
}
use tls_probe.Wire.{Bytes}

-- A socket of the table; the other columns are words that are not read, and a tail.
pub record Socket : Type 0 where
  pub margin : ℕ
  pub slot : Bytes
  pub octet_a : ℕ
  pub octet_b : ℕ
  pub octet_c : ℕ
  pub octet_d : ℕ
  pub port : ℕ
  pub remote : Bytes
  pub state : ℕ
  pub tail : Bytes

pub record IsSocket (s : Socket) : Type 0 where
  pub slot_word : IsWord s.slot
  pub remote_word : IsWord s.remote
  pub tail_line : IsFree 10 s.tail
  pub a_byte : s.octet_a < 256
  pub b_byte : s.octet_b < 256
  pub c_byte : s.octet_c < 256
  pub d_byte : s.octet_d < 256
  pub port_word : s.port < 65536
  pub state_byte : s.state < 256

-- The octets read as a little-endian number.
abbrev pub native_address : Socket → ℕ
native_address s = s.octet_a + 256 * s.octet_b + 65536 * s.octet_c + 16777216 * s.octet_d

abbrev pub local_text : Socket → Bytes
local_text s = hexes 8 (native_address s) [] ++ (58 ∷ hexes 4 s.port [])

abbrev pub socket_row : Socket → Bytes
socket_row s = indent s.margin (
    s.slot
    ++ (32 ∷ (local_text s ++ (32 ∷ (s.remote ++ (32 ∷ (hexes 2 s.state [] ++ (32 ∷ s.tail))))))))

abbrev pub reversed_entry : Socket → ListenEntry
reversed_entry s = record {
  addr = IpAddr.v4 (s.octet_d ∷ s.octet_c ∷ s.octet_b ∷ s.octet_a ∷ []);
  port = s.port;
}

be_bytes-native :
    (s : Socket)
    → IsSocket s
    → be_bytes (native_address s) ≡ s.octet_d ∷ s.octet_c ∷ s.octet_b ∷ s.octet_a ∷ []
be_bytes-native s h = ground arith

parse_ipv4-native :
    (s : Socket)
    → IsSocket s
    → parse_ipv4_hex (hexes 8 (native_address s) [])
      ≡ some (IpAddr.v4 (s.octet_d ∷ s.octet_c ∷ s.octet_b ∷ s.octet_a ∷ []))
unfolding parse_ipv4_hex
parse_ipv4-native s h =
    ap v4_of (from_hex-trimmed 8 (native_address s) 4294967296 (omega arith) (omega arith))
    ∙ ap (λ (o : Bytes). some (IpAddr.v4 o)) (be_bytes-native s h)

digit_colon : (d : ℕ) → d < 16 → (digit16 d == 58) ≡ false
digit_colon d l = ground arith

digit_dark : (d : ℕ) → d < 16 → is_white (digit16 d) ≡ false
digit_dark d l = ground arith

hexes-IsDark : (k n : ℕ) → IsDark (hexes k n [])
hexes-IsDark k n = hexes-All (λ (c : ℕ). is_white c ≡ false) k n [] digit_dark tt

hexes-IsFree : (k n : ℕ) → IsFree 58 (hexes k n [])
hexes-IsFree k n = hexes-All (λ (c : ℕ). (c == 58) ≡ false) k n [] digit_colon tt

local-IsDark : (a b : ℕ) → IsDark (hexes 8 a [] ++ (58 ∷ hexes 4 b []))
local-IsDark a b =
    All-append (λ (c : ℕ). is_white c ≡ false) (hexes 8 a []) (58 ∷ hexes 4 b []) (hexes-IsDark 8 a)
      (refl, hexes-IsDark 4 b)

local_pieces :
    (a b : ℕ) → split 58 (hexes 8 a [] ++ (58 ∷ hexes 4 b [])) ≡ hexes 8 a [] ∷ hexes 4 b [] ∷ []
local_pieces a b =
    split-append 58 (hexes 8 a []) (hexes 4 b []) (hexes-IsFree 8 a)
    ∙ ap (λ (r : List Bytes). hexes 8 a [] ∷ r) (split-IsFree 58 (hexes 4 b []) (hexes-IsFree 4 b))

local_found :
    (address port_text : Bytes) (port : ℕ) (a : IpAddr)
    → parse_hex_port port_text ≡ some port
    → parse_ipv4_hex address ≡ some a
    → parse_local parse_ipv4_hex (address ∷ port_text ∷ [])
      ≡ some (record { addr = a; port = port })
unfolding parse_local
local_found address port_text port a h k = rw (parse_local, h, k)

parse_local-socket :
    (s : Socket)
    → IsSocket s
    → parse_local parse_ipv4_hex (split 58 (local_text s)) ≡ some (reversed_entry s)
unfolding parse_hex_port
parse_local-socket s h =
    let address = hexes 8 (native_address s) [] in
    let port_text = hexes 4 s.port [] in
    let port : parse_hex_port port_text ≡ some s.port =
      from_hex-hexes 4 s.port 65536 (omega arith) (omega (arith, h.port_word)) (h.port_word) in
    ap (parse_local parse_ipv4_hex) (local_pieces (native_address s) s.port)
    ∙ local_found address port_text s.port
        (IpAddr.v4 (s.octet_d ∷ s.octet_c ∷ s.octet_b ∷ s.octet_a ∷ [])) port
        (parse_ipv4-native s h)

word_append : (w : Bytes) (c : ℕ) (r : Bytes) → is_word (w ++ (c ∷ r)) ≡ true
word_append [] c r = refl
word_append (d ∷ w) c r = refl

indent-append : (n : ℕ) (s t : Bytes) → indent n s ++ t ≡ indent n (s ++ t)
indent-append zero s t = refl
indent-append (suc n) s t = rw (indent-append n s t)

regroup :
    (a b c d e : Bytes)
    → (a ++ (32 ∷ (b ++ (32 ∷ (c ++ (32 ∷ (d ++ (32 ∷ e)))))))) ++ (32 ∷ [])
      ≡ a ++ (32 ∷ (b ++ (32 ∷ (c ++ (32 ∷ (d ++ (32 ∷ (e ++ (32 ∷ [])))))))))
regroup a b c d e = simp append_assoc

line_of_columns :
    (line slot local remote state_text : Bytes) (rest : List Bytes) (state : ℕ)
    (entry : ListenEntry)
    → split_whitespace line ≡ slot ∷ local ∷ remote ∷ state_text ∷ rest
    → from_hex 256 state_text ≡ some state
    → parse_local parse_ipv4_hex (split 58 local) ≡ some entry
    → parse_listen_line parse_ipv4_hex line ≡ (if state == state_listen then some entry else none)
unfolding parse_listen_line
line_of_columns line slot local remote state_text rest state entry c h k =
    let four : ltb (4 + length rest) 4 ≡ false = ground arith in
    rw (parse_listen_line, c)
      (elim (Bool-cases (state == state_listen)) [
        | inl listens ↦ ground arith
        | inr other ↦ ground arith
      ])

-- The columns of a row.
columns :
    (s : Socket)
    → IsSocket s
    → split_whitespace (socket_row s ++ (32 ∷ []))
      ≡ s.slot
        ∷ local_text s
        ∷ s.remote
        ∷ hexes 2 s.state []
        ∷ split_whitespace (s.tail ++ (32 ∷ []))
columns s h =
    let address = hexes 8 (native_address s) [] in
    let local : IsWord (local_text s) = record {
      dark = local-IsDark (native_address s) s.port;
      some_of_it = word_append address 58 (hexes 4 s.port []);
    } in
    let state : IsWord (hexes 2 s.state []) = record {
      dark = hexes-IsDark 2 s.state;
      some_of_it = refl;
    } in
    let end = s.tail ++ (32 ∷ []) in
    ap split_whitespace (
      indent-append s.margin _ (32 ∷ [])
      ∙ ap (indent s.margin) (regroup s.slot (local_text s) s.remote (hexes 2 s.state []) s.tail))
    ∙ split_whitespace-indent s.margin (
        s.slot
        ++ (32 ∷ (local_text s ++ (32 ∷ (s.remote ++ (32 ∷ (hexes 2 s.state [] ++ (32 ∷ end))))))))
    ∙ split_whitespace-word s.slot
        (local_text s ++ (32 ∷ (s.remote ++ (32 ∷ (hexes 2 s.state [] ++ (32 ∷ end)))))) h.slot_word
    ∙ ap (λ (r : List Bytes). s.slot ∷ r)
        (split_whitespace-word (local_text s)
            (s.remote ++ (32 ∷ (hexes 2 s.state [] ++ (32 ∷ end)))) local
          ∙ ap (λ (r : List Bytes). local_text s ∷ r)
              (split_whitespace-word s.remote (hexes 2 s.state [] ++ (32 ∷ end)) h.remote_word
                ∙ ap (λ (r : List Bytes). s.remote ∷ r)
                    (split_whitespace-word (hexes 2 s.state []) end state)))

-- What is found in a row.
abbrev pub found_in : Socket → Option ListenEntry
found_in s = if s.state == state_listen then some (reversed_entry s) else none

line-socket :
    (s : Socket)
    → IsSocket s
    → parse_listen_line parse_ipv4_hex (socket_row s ++ (32 ∷ [])) ≡ found_in s
line-socket s h =
    let state : from_hex 256 (hexes 2 s.state []) ≡ some s.state =
      from_hex-hexes 2 s.state 256 (omega arith) (omega (arith, h.state_byte)) (h.state_byte) in
    line_of_columns (socket_row s ++ (32 ∷ [])) s.slot (local_text s) s.remote (hexes 2 s.state [])
      (split_whitespace (s.tail ++ (32 ∷ []))) s.state (reversed_entry s) (columns s h) state
      (parse_local-socket s h)

dark_line : (c : ℕ) → is_white c ≡ false → (c == 10) ≡ false
dark_line c h = ground arith

word-IsFree : (w : Bytes) → IsDark w → IsFree 10 w
word-IsFree [] h = tt
word-IsFree (c ∷ w) h = (dark_line c h.0, word-IsFree w h.1)

join-IsFree : (a b : Bytes) → IsFree 10 a → IsFree 10 b → IsFree 10 (a ++ (32 ∷ b))
join-IsFree a b h k = All-append (λ (c : ℕ). (c == 10) ≡ false) a (32 ∷ b) h (refl, k)

indent-IsFree : (n : ℕ) (s : Bytes) → IsFree 10 s → IsFree 10 (indent n s)
indent-IsFree zero s h = h
indent-IsFree (suc n) s h = (refl, indent-IsFree n s h)

row_line : (s : Socket) → IsSocket s → IsFree 10 (socket_row s)
row_line s h =
    indent-IsFree s.margin
      (s.slot
        ++ (32
            ∷ (local_text s ++ (32 ∷ (s.remote ++ (32 ∷ (hexes 2 s.state [] ++ (32 ∷ s.tail))))))))
      (join-IsFree s.slot
        (local_text s ++ (32 ∷ (s.remote ++ (32 ∷ (hexes 2 s.state [] ++ (32 ∷ s.tail))))))
        (word-IsFree s.slot h.slot_word.dark)
        (join-IsFree (local_text s) (s.remote ++ (32 ∷ (hexes 2 s.state [] ++ (32 ∷ s.tail))))
          (word-IsFree (local_text s) (local-IsDark (native_address s) s.port))
          (join-IsFree s.remote (hexes 2 s.state [] ++ (32 ∷ s.tail))
            (word-IsFree s.remote h.remote_word.dark)
            (join-IsFree (hexes 2 s.state []) s.tail
              (word-IsFree (hexes 2 s.state []) (hexes-IsDark 2 s.state)) h.tail_line))))

abbrev pub socket_rows : List Socket → List Bytes
socket_rows [] = []
socket_rows (s ∷ ss) = socket_row s ∷ socket_rows ss

-- The sockets that listen, with the octets of their addresses reversed.
unfoldable pub listening : List Socket → List ListenEntry
listening [] = []
listening (s ∷ ss) =
    let rest = listening ss in if s.state == state_listen then reversed_entry s ∷ rest else rest

rows_line : (ss : List Socket) → All IsSocket ss → All (IsFree 10) (socket_rows ss)
rows_line [] h = tt
rows_line (s ∷ ss) h = (row_line s h.0, rows_line ss h.1)

collect-rows :
    (ss : List Socket)
    → All IsSocket ss
    → collect (parse_listen_line parse_ipv4_hex) (rows_of (socket_rows ss)) ≡ listening ss
unfolding listening collect
collect-rows [] h = refl
collect-rows (s ∷ ss) h = elim (Bool-cases (s.state == state_listen)) [
  | inl listens ↦
      let e : parse_listen_line parse_ipv4_hex (socket_row s ++ (32 ∷ []))
          ≡ some (reversed_entry s) =
        line-socket s h.0 ∙ rw listens in
      rw (collect, e, listens, collect-rows ss h.1)
  | inr other ↦
      let e : parse_listen_line parse_ipv4_hex (socket_row s ++ (32 ∷ [])) ≡ none =
        line-socket s h.0 ∙ rw other in
      rw (collect, e, other, collect-rows ss h.1)
]

-- Of a table with a heading and a row for each socket, as a little-endian host prints it, exactly
-- the sockets that listen are listed, in their order, with their ports; the octets of each
-- address come out in the reverse of their order.
pub read_listeners_proc-table :
    (heading : Bytes) (ss : List Socket)
    → IsFree 10 heading
    → All IsSocket ss
    → read_listeners_proc (parse_listen_line parse_ipv4_hex) (table (heading ∷ socket_rows ss))
      ≡ listening ss
unfolding read_listeners_proc
read_listeners_proc-table heading ss h k =
    ap (λ (rows : List Bytes). collect (parse_listen_line parse_ipv4_hex) (drop 1 rows))
      (lines-table (heading ∷ socket_rows ss) (h, rows_line ss k))
    ∙ collect-rows ss k
