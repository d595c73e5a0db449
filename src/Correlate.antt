-- ===== src/Correlate.antt =====
-- crates/tls-probe-cli/src/correlate.rs: the join of client hellos with what comes later on their
-- connections. The map is a sorted list of entries, so that among entries of the same time the
-- smallest key is evicted, where the order of a `HashMap` leaves open which. The clock's reading is
-- an argument of the operations that read it, and strings are native texts or bytes.
pub mod Answers
pub mod Bounds
pub mod Eviction
pub mod Events
pub mod Joins
pub mod Mtls
pub mod Names
pub mod Origin
pub mod Sweep
mod Tests
use Prim.Native.String.{String}
use mathlib.Core.Option.{get_or}
use tls_probe.Common.Capture.{ConnKey}
use tls_probe.Common.Codes.{without_grease}
use tls_probe.Correlate.Names.{tls_version_name, key_exchange_name}
use tls_probe.Parser.Analysis.{TlsAnalysis, client_hello, server_hello}
use tls_probe.Parser.Types.{ParsedClientHello, ParsedServerHello}
use tls_probe.Prelude.{
  ℕ, ◌+◌, ◌-◌, ◌%◌, ◌^◌, Bool, true, false, not, List, [], ◌∷◌, map, Option, none, some, is_some,
  ltb, leb, length, if◌then◌else◌,
}
use tls_probe.SortedMap.{KeyOrder, Entries}
use tls_probe.SortedMap
use tls_probe.SortedMap.Orders.{number_order, list_order}
use tls_probe.Wire.{Bytes}

pub record SelectedGroup : Type 0 where
  pub id : ℕ
  pub name : String

pub record OfferedGroup : Type 0 where
  pub id : ℕ
  pub name : String

pub record Negotiation : Type 0 where
  pub outcome : String
  pub client_max_version : String
  pub selected_group : Option SelectedGroup
  pub client_offered_groups : List OfferedGroup
  pub client_sni : Option Bytes
  pub psk_selected : Bool
  pub early_data_offered : Bool
  pub mtls_requested : Bool
  pub mtls : Bool

pub record ClientHelloSummary : Type 0 where
  pub max_version : ℕ
  pub offered_groups : List ℕ
  pub sni : Option Bytes
  pub psk_offered : Bool
  pub early_data_offered : Bool
  pub timestamp_ns : ℕ
  pub mtls_requested : Bool
  pub mtls : Bool
  pub post_sh_negotiation : Option Negotiation

abbrev pub offered_group : ℕ → OfferedGroup
offered_group g = record { id = g; name = key_exchange_name g }

-- The groups that are reported, in both outcomes.
unfoldable pub reported_groups : ClientHelloSummary → List OfferedGroup
reported_groups summary = map offered_group (without_grease summary.offered_groups)

abbrev pub selected_group : Option ℕ → Option SelectedGroup
selected_group none = none
selected_group (some id) = some (record { id = id; name = key_exchange_name id })

unfoldable pub build_negotiation : ClientHelloSummary → ParsedServerHello → Negotiation
build_negotiation summary hello = record {
  outcome = "negotiated";
  client_max_version = tls_version_name summary.max_version;
  selected_group = selected_group hello.key_share_group;
  client_offered_groups = reported_groups summary;
  client_sni = summary.sni;
  psk_selected = hello.psk_selected;
  early_data_offered = summary.early_data_offered;
  mtls_requested = summary.mtls_requested;
  mtls = summary.mtls;
}

-- The negotiation of an alert.
unfoldable pub failed_negotiation : ClientHelloSummary → Negotiation
failed_negotiation summary = record {
  outcome = "failed";
  client_max_version = tls_version_name summary.max_version;
  selected_group = none;
  client_offered_groups = reported_groups summary;
  client_sni = summary.sni;
  psk_selected = false;
  early_data_offered = summary.early_data_offered;
  mtls_requested = summary.mtls_requested;
  mtls = summary.mtls;
}

-- The entries are kept under the codes of their keys.
abbrev pub ConnCode : Type 0
ConnCode = List (List ℕ)

abbrev pub conn_code : ConnKey → ConnCode
conn_code k = k.src_addr ∷ k.dst_addr ∷ (k.src_port ∷ []) ∷ (k.dst_port ∷ []) ∷ []

abbrev pub conn_order : KeyOrder ConnCode
conn_order = list_order (list_order number_order)

-- A summary and the time at which it was put in.
abbrev pub Entry : Type 0
Entry = ClientHelloSummary × ℕ

abbrev pub Pending : Type 0
Pending = Entries ConnCode Entry

pub record Correlator : Type 0 where
  pub pending : Pending
  pub max_entries : ℕ
  pub ttl_ns : ℕ

-- `Correlator::new()`
unfoldable pub new : Correlator
new = record { pending = []; max_entries = 8192; ttl_ns = 10_000_000_000 }

abbrev first_or : ℕ → List ℕ → ℕ
first_or v [] = v
first_or v (w ∷ ws) = w

-- The first version that is not GREASE, `find(..).unwrap_or(legacy_version)`.
unfoldable pub max_version : ParsedClientHello → ℕ
max_version hello = first_or hello.legacy_version (without_grease hello.supported_versions)

-- The key shares' groups where there are any, else the supported groups.
unfoldable pub offered_groups : ParsedClientHello → List ℕ
offered_groups hello = elim hello.key_share_groups [ [] ↦ hello.supported_groups | g ∷ gs ↦ g ∷ gs ]

unfoldable pub summarise : ℕ → ParsedClientHello → ClientHelloSummary
unfolding max_version offered_groups
summarise now hello = record {
  max_version = max_version hello;
  offered_groups = offered_groups hello;
  sni = hello.sni;
  psk_offered = hello.psk_offered;
  early_data_offered = hello.early_data_offered;
  timestamp_ns = now;
  mtls_requested = false;
  mtls = false;
  post_sh_negotiation = none;
}

-- `min_by_key` of the times, which returns the first of the least.
pub oldest_of : ConnCode → ℕ → Pending → ConnCode
oldest_of key ts [] = key
oldest_of key ts ((other, (_, at)) ∷ pending) =
    let newer = oldest_of key ts pending in
    let older = oldest_of other at pending in if ltb at ts then older else newer

pub evict_oldest : Pending → Pending
unfolding oldest_of
evict_oldest [] = []
evict_oldest ((key, (summary, ts)) ∷ pending) =
    SortedMap.remove conn_order (oldest_of key ts pending) ((key, (summary, ts)) ∷ pending)

unfoldable pub on_client_hello :
    ℕ → Correlator → ConnKey → TlsAnalysis → Correlator × Option Negotiation
unfolding evict_oldest summarise
on_client_hello now c key (client_hello _ hello) =
    let room = if leb c.max_entries (length c.pending) then evict_oldest c.pending else c.pending in
    (
      record c {
        pending = SortedMap.insert conn_order (conn_code key) (summarise now hello, now) room;
      },
      none,
    )
on_client_hello now c key (server_hello _ _) = (c, none)

-- The entry stays, with the negotiation, when the server asked for a certificate.
abbrev pub keep_if : Bool → ConnCode → Entry → Pending → Pending
keep_if true key kept pending = SortedMap.insert conn_order key kept pending
keep_if false key kept pending = SortedMap.remove conn_order key pending

-- The join with the entry that is found.
pub join :
    Correlator → ConnCode → ParsedServerHello → Option Entry → Correlator × Option Negotiation
join c key hello none = (c, none)
join c key hello (some (summary, ts)) =
    let negotiation = build_negotiation summary hello in
    let kept : ClientHelloSummary = record summary { post_sh_negotiation = some negotiation } in
    (
      record c { pending = keep_if summary.mtls_requested key (kept, ts) c.pending },
      some negotiation,
    )

unfoldable pub on_server_hello :
    Correlator → ConnKey → TlsAnalysis → Correlator × Option Negotiation
unfolding join
on_server_hello c key (client_hello _ _) = (c, none)
on_server_hello c key (server_hello _ hello) =
    join c (conn_code key) hello (SortedMap.get conn_order (conn_code key) c.pending)

pub fail : Correlator → ConnCode → Option Entry → Correlator × Option Negotiation
fail c key none = (c, none)
fail c key (some (summary, _)) = (
  record c { pending = SortedMap.remove conn_order key c.pending },
  some (failed_negotiation summary),
)

unfoldable pub on_alert : Correlator → ConnKey → ℕ → ℕ → Correlator × Option Negotiation
unfolding fail
on_alert c key _ _ = fail c (conn_code key) (SortedMap.get conn_order (conn_code key) c.pending)

pub request : Correlator → ConnCode → Option Entry → Correlator
request c key none = c
request c key (some (summary, ts)) = record c {
  pending =
      SortedMap.insert conn_order key (record summary { mtls_requested = true }, ts) c.pending;
}

unfoldable pub on_certificate_request : Correlator → ConnKey → Correlator
unfolding request
on_certificate_request c key =
    request c (conn_code key) (SortedMap.get conn_order (conn_code key) c.pending)

-- The entry is removed with the negotiation that it holds; without one it is marked.
pub present :
    Correlator
    → ConnCode
    → ClientHelloSummary
    → ℕ
    → Option Negotiation
    → Correlator × Option Negotiation
present c key summary ts none = (
  record c {
    pending = SortedMap.insert conn_order key (record summary { mtls = true }, ts) c.pending;
  },
  none,
)
present c key summary ts (some negotiation) = (
  record c { pending = SortedMap.remove conn_order key c.pending },
  some (record negotiation { mtls = true }),
)

pub present_found : Correlator → ConnCode → Option Entry → Correlator × Option Negotiation
unfolding present
present_found c key none = (c, none)
present_found c key (some (summary, ts)) = present c key summary ts summary.post_sh_negotiation

unfoldable pub on_client_certificate : Correlator → ConnKey → Correlator × Option Negotiation
unfolding present_found
on_client_certificate c key =
    present_found c (conn_code key) (SortedMap.get conn_order (conn_code key) c.pending)

-- `now_ns - *ts`, which wraps where the clock has been set back.
abbrev pub age : ℕ → ℕ → ℕ
age now ts = (now + 2 ^ 64 - ts) % 2 ^ 64

-- `retain`
unfoldable pub retain_young : ℕ → ℕ → Pending → Pending
retain_young now ttl [] = []
retain_young now ttl ((key, (summary, ts)) ∷ pending) =
    let rest = retain_young now ttl pending in
    if ltb (age now ts) ttl then (key, (summary, ts)) ∷ rest else rest

unfoldable pub sweep_expired : ℕ → Correlator → Correlator × ℕ
unfolding retain_young
sweep_expired now c =
    let kept = retain_young now c.ttl_ns c.pending in
    (record c { pending = kept }, length c.pending - length kept)
