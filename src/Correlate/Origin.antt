-- ===== src/Correlate/Origin.antt =====
-- crates/tls-probe-cli/src/correlate.rs: whose hello a negotiation tells of.
use tls_probe.Common.Capture.{ConnKey}
use tls_probe.Correlate.{
  ConnCode, conn_code, conn_order, Pending, Entry, ClientHelloSummary, Negotiation, Correlator,
  summarise, on_client_hello, join, keep_if, fail, request, present, present_found, evict_oldest,
  build_negotiation, failed_negotiation,
}
use tls_probe.Correlate.Joins.{entry_at}
use tls_probe.Parser.Analysis.{client_hello}
use tls_probe.Parser.Types.{ParsedClientHello, ParsedServerHello}
use tls_probe.Prelude.{
  ℕ, ◌≡◌, refl, ap, Bool, true, false, List, [], ◌∷◌, Option, none, some, Bool-cases, leb, length,
  inl, inr,
}
use Prim.Native.String.{String}
use tls_probe.Wire.{Bytes}
use tls_probe.Correlate.{
  OfferedGroup, oldest_of, offered_group, reported_groups, max_version, offered_groups,
}
use tls_probe.Common.Codes.{without_grease}
use tls_probe.Correlate.Names.{tls_version_name}
use tls_probe.Prelude.{map}
use tls_probe.SortedMap.Every.{Every, Every-insert, Every-remove, Every-get}

-- What the correlator keeps of a client hello.
pub record ClientPart : Type 0 where
  pub version : ℕ
  pub groups : List ℕ
  pub name : Option Bytes
  pub early_data : Bool

abbrev pub hello_part : ParsedClientHello → ClientPart
hello_part hello = record {
  version = max_version hello;
  groups = offered_groups hello;
  name = hello.sni;
  early_data = hello.early_data_offered;
}

abbrev pub summary_part : ClientHelloSummary → ClientPart
summary_part s = record {
  version = s.max_version;
  groups = s.offered_groups;
  name = s.sni;
  early_data = s.early_data_offered;
}

-- What a negotiation says of the client.
pub record Told : Type 0 where
  pub version : String
  pub groups : List OfferedGroup
  pub name : Option Bytes
  pub early_data : Bool

abbrev pub told : Negotiation → Told
told n = record {
  version = n.client_max_version;
  groups = n.client_offered_groups;
  name = n.client_sni;
  early_data = n.early_data_offered;
}

-- The version by its name, and the groups that are not GREASE with theirs.
abbrev pub tell : ClientPart → Told
tell p = record {
  version = tls_version_name p.version;
  groups = map offered_group (without_grease p.groups);
  name = p.name;
  early_data = p.early_data;
}

-- The client hellos that were said on each connection.
module _ (Said : ConnCode → ParsedClientHello → Type 0) where
  abbrev pub AnswerFrom : ConnCode → Option Negotiation → Type 0
  AnswerFrom k none = Unit
  AnswerFrom k (some n) =
      (hello : ParsedClientHello) × Said k hello × (told n ≡ tell (hello_part hello))

  pub record EntryFrom (k : ConnCode) (e : Entry) : Type 0 where
    pub hello : ParsedClientHello
    pub said : Said k hello
    pub sums : summary_part e.0 ≡ hello_part hello
    pub held : AnswerFrom k e.0.post_sh_negotiation

  abbrev pub PendingFrom : Pending → Type 0
  PendingFrom = Every conn_order EntryFrom

  -- The correlator keeps to what was said, and so does the answer for this connection.
  abbrev pub Good : ConnCode → Correlator × Option Negotiation → Type 0
  Good k x = PendingFrom x.0.pending × AnswerFrom k x.1

  negotiation-From :
      (k : ConnCode) (e : Entry) (answer : ParsedServerHello)
      → EntryFrom k e
      → AnswerFrom k (some (build_negotiation e.0 answer))
  unfolding build_negotiation reported_groups
  negotiation-From k e answer f = (f.hello, f.said, ap tell f.sums)

  failed-From :
      (k : ConnCode) (e : Entry) → EntryFrom k e → AnswerFrom k (some (failed_negotiation e.0))
  unfolding failed_negotiation reported_groups
  failed-From k e f = (f.hello, f.said, ap tell f.sums)

  evict_oldest-From : (m : Pending) → PendingFrom m → PendingFrom (evict_oldest m)
  unfolding evict_oldest
  evict_oldest-From [] h = tt
  evict_oldest-From ((key, (s, ts)) ∷ m) h =
      Every-remove conn_order EntryFrom (oldest_of key ts m) ((key, (s, ts)) ∷ m) h

  pub on_client_hello-From :
      (now : ℕ) (c : Correlator) (key : ConnKey) (version : ℕ) (hello : ParsedClientHello)
      → Said (conn_code key) hello
      → PendingFrom c.pending
      → Good (conn_code key) (on_client_hello now c key (client_hello version hello))
  unfolding on_client_hello summarise
  on_client_hello-From now c key version hello said h =
      let e : EntryFrom (conn_code key) (summarise now hello, now) = record {
        hello = hello;
        said = said;
        sums = refl;
        held = tt;
      } in
      elim (Bool-cases (leb c.max_entries (length c.pending))) [
        | inl full ↦ rw full (
          Every-insert conn_order EntryFrom (conn_code key) (summarise now hello, now)
              (evict_oldest c.pending) e (evict_oldest-From c.pending h),
          tt,
        )
        | inr room ↦ rw room (
          Every-insert conn_order EntryFrom (conn_code key) (summarise now hello, now) c.pending e
              h,
          tt,
        )
      ]

  keep_if-From :
      (keep : Bool) (k : ConnCode) (e : Entry) (m : Pending)
      → EntryFrom k e
      → PendingFrom m
      → PendingFrom (keep_if keep k e m)
  keep_if-From true k e m f h = Every-insert conn_order EntryFrom k e m f h
  keep_if-From false k e m f h = Every-remove conn_order EntryFrom k m h

  pub join-From :
      (c : Correlator) (k : ConnCode) (answer : ParsedServerHello) (found : Option Entry)
      → entry_at k c ≡ found
      → PendingFrom c.pending
      → Good k (join c k answer found)
  unfolding join
  join-From c k answer none e h = (h, tt)
  join-From c k answer (some (s, ts)) e h =
      let f = Every-get conn_order EntryFrom k c.pending (s, ts) h e in
      let n = negotiation-From k (s, ts) answer f in
      (
        keep_if-From s.mtls_requested k
            (record s { post_sh_negotiation = some (build_negotiation s answer) }, ts) c.pending
            (record { hello = f.hello; said = f.said; sums = f.sums; held = n }) h,
        n,
      )

  pub fail-From :
      (c : Correlator) (k : ConnCode) (found : Option Entry)
      → entry_at k c ≡ found
      → PendingFrom c.pending
      → Good k (fail c k found)
  unfolding fail
  fail-From c k none e h = (h, tt)
  fail-From c k (some (s, ts)) e h = (
    Every-remove conn_order EntryFrom k c.pending h,
    failed-From k (s, ts) (Every-get conn_order EntryFrom k c.pending (s, ts) h e),
  )

  pub request-From :
      (c : Correlator) (k : ConnCode) (found : Option Entry)
      → entry_at k c ≡ found
      → PendingFrom c.pending
      → PendingFrom (request c k found).pending
  unfolding request
  request-From c k none e h = h
  request-From c k (some (s, ts)) e h =
      let f = Every-get conn_order EntryFrom k c.pending (s, ts) h e in
      Every-insert conn_order EntryFrom k (record s { mtls_requested = true }, ts) c.pending
        (record { hello = f.hello; said = f.said; sums = f.sums; held = f.held }) h

  present-From :
      (c : Correlator) (k : ConnCode) (s : ClientHelloSummary) (ts : ℕ) (held : Option Negotiation)
      → s.post_sh_negotiation ≡ held
      → EntryFrom k (s, ts)
      → PendingFrom c.pending
      → Good k (present c k s ts held)
  unfolding present
  present-From c k s ts none e f h = (
    Every-insert conn_order EntryFrom k (record s { mtls = true }, ts) c.pending
        (record { hello = f.hello; said = f.said; sums = f.sums; held = f.held }) h,
    tt,
  )
  present-From c k s ts (some n) e f h =
      let (hello, said, t) : AnswerFrom k (some n) = rw e at f.held in
      (Every-remove conn_order EntryFrom k c.pending h, (hello, said, t))

  pub present_found-From :
      (c : Correlator) (k : ConnCode) (found : Option Entry)
      → entry_at k c ≡ found
      → PendingFrom c.pending
      → Good k (present_found c k found)
  unfolding present_found
  present_found-From c k none e h = (h, tt)
  present_found-From c k (some (s, ts)) e h =
      present-From c k s ts s.post_sh_negotiation refl
        (Every-get conn_order EntryFrom k c.pending (s, ts) h e) h
