-- ===== src/Listeners.antt =====
-- crates/tls-probe-cli/src/commands/listeners.rs: the listening sockets in the tables of
-- /proc/net, whose text, in ASCII, is an argument.
pub mod Table
mod Tests
use tls_probe.Prelude.{
  ℕ, ◌+◌, ◌-◌, ◌*◌, ◌/◌, ◌%◌, Bool, true, false, not, List, [], ◌∷◌, ◌++◌, Option, none, some, ltb,
  ◌==◌, length, get_elem?, take, drop, if◌then◌else◌,
}
use tls_probe.Text.{split}
use tls_probe.Text.Words.{split_whitespace, lines, from_hex, trim_start, or_zero}
use tls_probe.Wire.{Bytes}

abbrev pub state_listen : ℕ
state_listen = 0x0A

-- An address by its octets.
pub data IpAddr : Type 0 where
  v4 : Bytes → IpAddr
  v6 : Bytes → IpAddr

pub record ListenEntry : Type 0 where
  pub addr : IpAddr
  pub port : ℕ

unfoldable pub parse_hex_port : Bytes → Option ℕ
unfolding from_hex
parse_hex_port s = from_hex 65536 s

-- `to_be_bytes` of 32 bits
abbrev pub be_bytes : ℕ → Bytes
be_bytes n = n / 16777216 % 256 ∷ n / 65536 % 256 ∷ n / 256 % 256 ∷ n % 256 ∷ []

abbrev pub v4_of : Option ℕ → Option IpAddr
v4_of none = none
v4_of (some value) = some (IpAddr.v4 (be_bytes value))

unfoldable pub parse_ipv4_hex : Bytes → Option IpAddr
unfolding from_hex
parse_ipv4_hex hex = v4_of (from_hex 4294967296 (or_zero (trim_start 48 hex)))

-- The words of eight digits. `u32::from_le` changes nothing on a little-endian host.
infixl 5 ◌>>=◌
abbrev pub ◌>>=◌ {ℓ κ} : {A : Type ℓ} {B : Type κ} → Option A → (A → Option B) → Option B
none >>= f = none
some a >>= f = f a

unfoldable pub parse_ipv6_hex : Bytes → Option IpAddr
unfolding from_hex
parse_ipv6_hex hex =
    let parsed : Option IpAddr = do
      first ← from_hex 4294967296 (take 8 hex)
      second ← from_hex 4294967296 (take 8 (drop 8 hex))
      third ← from_hex 4294967296 (take 8 (drop 16 hex))
      fourth ← from_hex 4294967296 (take 8 (drop 24 hex))
      some (IpAddr.v6 (be_bytes first ++ (be_bytes second ++ (be_bytes third ++ be_bytes fourth))))
    in if not (length hex == 32) then none else parsed

-- The two parts of a local address; what stands behind a second colon is not read.
unfoldable pub parse_local : (Bytes → Option IpAddr) → List Bytes → Option ListenEntry
unfolding parse_hex_port
parse_local parse_addr (ip_hex ∷ port_hex ∷ rest) = do
  port ← parse_hex_port port_hex
  addr ← parse_addr ip_hex
  some (record { addr = addr; port = port })
parse_local parse_addr (ip_hex ∷ []) = none
parse_local parse_addr [] = none

-- `none` for a line that is skipped; no line is an error.
unfoldable pub parse_listen_line : (Bytes → Option IpAddr) → Bytes → Option ListenEntry
unfolding split_whitespace from_hex parse_local
parse_listen_line parse_addr line =
    let parts = split_whitespace line in
    let read : Option ListenEntry = do
      state_hex ← get_elem? parts 3
      state ← from_hex 256 state_hex
      part ← get_elem? parts 1
      if not (state == state_listen) then none else parse_local parse_addr (split 58 part)
    in if ltb (length parts) 4 then none else read

unfoldable pub collect : (Bytes → Option ListenEntry) → List Bytes → List ListenEntry
collect parse_line [] = []
collect parse_line (line ∷ rest) = elim (parse_line line) [
  | some entry ↦ entry ∷ collect parse_line rest
  | none ↦ collect parse_line rest
]

unfoldable pub read_listeners_proc : (Bytes → Option ListenEntry) → Bytes → List ListenEntry
unfolding lines collect
read_listeners_proc parse_line content = collect parse_line (drop 1 (lines content))
