-- ===== src/Lib.antt =====
-- tls-probe captures TLS handshakes in the kernel and reports them as events. This library models
-- the parts that decide what is reported, and proves what they do:
--   * crates/tls-probe-parser/src: Parser. A payload is parsed by `parse_tls_payload` into a client
--     or a server hello (Parser/ClientHello, Parser/ServerHello), whose extensions are found by
--     `parse_extensions` and read by one function for each kind (Parser/Extensions).
--   * crates/tls-probe-common/src: Common. The capture that the kernel hands over, the key of a
--     connection, and the predicates on protocol numbers.
--   * crates/tls-probe-cli/src/reasm.rs: Reasm. Captures marked as parts of a record are collected
--     by flow until the record is complete, the fourth segment comes, or time is up.
--   * crates/tls-probe-cli/src/record_walk.rs: RecordWalk. The certificate records behind the first
--     record of a packet.
--   * crates/tls-probe-cli/src/correlate.rs: Correlate. A client hello waits for the server's, an
--     alert or a certificate of its connection, and the join is reported as a negotiation.
--   * crates/tls-probe-cli/src/ja4.rs: Ja4. The fingerprint of a client hello.
--   * crates/tls-probe-ebpf/src/tls.rs: Classifier. The kernel's part: a packet's headers are read
--     (Classifier/Packet), the starts of records are filtered, and a capture is made; the state of a
--     record in several segments is kept until enough have come. The map of states is looked up
--     twice, and what other processors do to it in between is an argument (`meanwhile`).
--   * crates/tls-probe-ebpf/src/process.rs: Attribution. The probes that note which process connects
--     or accepts a connection, under the key by which the classifier looks it up (Lookup).
--   * crates/tls-probe-cli/src/containers.rs: Containers. Identifiers of containers and pods are read
--     off cgroup paths (Scopes, Pods), behind a cache of paths by inode (Resolver).
--   * crates/tls-probe-cli/src/commands/listeners.rs: Listeners. The sockets that listen, from the
--     text of the kernel's tables (Table).
--   * crates/tls-probe-cli/src/pipeline.rs: Pipeline. The writer's thread (Thread) puts the lines of
--     events into a file or into a spool of chunks (Spool), whose complete ones are capped (Cap).
--   * crates/tls-probe-cli/src/certificate.rs: Certificate. The leaf certificate of a message.
--   * crates/tls-probe-cli/src/tls.rs: Event. The event of a capture (Build), with the names of
--     protocol numbers (Names).
--   * crates/tls-probe-cli/src/commands/capture.rs: Worker. The task that puts a capture through
--     the reassembler, the parser, the correlator and the walk into events (`handle`), one branch
--     for each kind of message (Branches).
-- Functions of Rust's texts that these use are in Text. Functions keep the source's names, and a
-- local part of a long function is a function of its own under the name of what it does.
--
-- Conventions. A byte is a number below 256 and a slice a list of them (Wire). Reading out of range
-- is the outcome `panic`, and `Err` the outcome `err` (Outcome). A `while` loop takes fuel: one round
-- more than the slice has bytes, enough because each round moves the offset on by one byte at least,
-- and five for the walk over records, which stops after four; without fuel the outcome is `spin`,
-- and the theorems on safety exclude it. Offsets are sums of a few lengths below 2^17, so a 64-bit
-- `usize` does not wrap; sequence numbers and the age of an entry wrap as they do in the source. A
-- `BTreeMap` or `HashMap` is a list of entries sorted by their keys (SortedMap). Time is an argument
-- of the operations that read a clock. A `String` is the list of its UTF-8 bytes (Utf8) where it
-- comes from the wire.
--
-- Files are those of a directory, whose operations succeed (Pipeline/Directory).
--
-- Not modelled: the loading of programs, the ring buffer, the command line, privileges and logs,
-- which are I/O; the schema and the serialisation of events. SHA-256, X.509, the formatting of
-- times and of IPv6 addresses, the walk of the cgroup tree and what the library's buffers let
-- through are arguments; so are the kernel's reads of packets and of its memory, and its maps.
pub mod Attribution
pub mod Certificate
pub mod Classifier
pub mod Common
pub mod Containers
pub mod Correlate
pub mod Event
pub mod Ja4
pub mod Listeners
pub mod Outcome
pub mod Parser
pub mod Pipeline
pub mod Prelude
pub mod Reasm
pub mod RecordWalk
pub mod SortedMap
pub mod Text
pub mod Utf8
pub mod Wire
pub mod Worker
