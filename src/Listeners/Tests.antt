-- ===== src/Listeners/Tests.antt =====
-- crates/tls-probe-cli/src/commands/listeners.rs on a table with a socket that listens on 127.0.0.1.
use tls_probe.Listeners.{
  IpAddr, parse_ipv4_hex, parse_ipv6_hex, parse_listen_line, read_listeners_proc,
}
use tls_probe.Listeners.Table.{Socket, IsSocket, socket_rows, listening, read_listeners_proc-table}
use tls_probe.Prelude.{◌≡◌, refl, [], ◌∷◌, arith, some}
use tls_probe.Text.{text}
use tls_probe.Text.Pieces.{is_free-IsFree}
use tls_probe.Text.Words.Parts.{table}

line_test :
    parse_listen_line parse_ipv4_hex
      (text "   0: 0100007F:0050 00000000:0000 0A 00000000:00000000 ")
    ≡ some (record { addr = IpAddr.v4 (1 ∷ 0 ∷ 0 ∷ 127 ∷ []); port = 80 })
unfolding parse_listen_line parse_ipv4_hex
line_test = refl

ipv6_test :
    parse_ipv6_hex (text "00000000000000000000000001000000")
    ≡ some (IpAddr.v6 (0 ∷ 0 ∷ 0 ∷ 0 ∷ 0 ∷ 0 ∷ 0 ∷ 0 ∷ 0 ∷ 0 ∷ 0 ∷ 0 ∷ 1 ∷ 0 ∷ 0 ∷ 0 ∷ []))
unfolding parse_ipv6_hex
ipv6_test = refl

abbrev socket : Socket
socket = record {
  margin = 3;
  slot = text "0:";
  octet_a = 127;
  octet_b = 0;
  octet_c = 0;
  octet_d = 1;
  port = 80;
  remote = text "00000000:0000";
  state = 10;
  tail = text "0";
}

socket-IsSocket : IsSocket socket
socket-IsSocket = record {
  slot_word = record { dark = (refl, (refl, tt)); some_of_it = refl };
  remote_word = record {
    dark = (
      refl,
      (
        refl,
        (refl, (refl, (refl, (refl, (refl, (refl, (refl, (refl, (refl, (refl, (refl, tt))))))))))),
      ),
    );
    some_of_it = refl;
  };
  tail_line = (refl, tt);
  a_byte = omega arith;
  b_byte = omega arith;
  c_byte = omega arith;
  d_byte = omega arith;
  port_word = omega arith;
  state_byte = omega arith;
}

read_listeners_proc-table_example :
    read_listeners_proc
      (parse_listen_line parse_ipv4_hex)
      (table (text "sl" ∷ socket_rows (socket ∷ [])))
    ≡ listening (socket ∷ [])
read_listeners_proc-table_example =
    read_listeners_proc-table (text "sl") (socket ∷ []) (is_free-IsFree 10 (text "sl") refl)
      (socket-IsSocket, tt)
