-- ===== src/Correlate/Eviction.antt =====
-- crates/tls-probe-cli/src/correlate.rs: which entry goes when the map is full.
use tls_probe.Correlate.{
  ConnCode, conn_order, Pending, Entry, ClientHelloSummary, oldest_of, evict_oldest,
}
use tls_probe.Prelude.{
  ℕ, suc, ◌≤◌, ◌<◌, ◌≡◌, refl, ◌||◌, [], ◌∷◌, some, arith, Bool-cases, ltb, ltb→lt, ltb→le, length,
  inl, inr,
}
use tls_probe.SortedMap
use tls_probe.SortedMap.{IsSorted, Above, remove-IsSorted, get-behind, length-remove_found}
use tls_probe.SortedMap.Every.{Every}

-- The key is one of the map's, with a time that no entry's is below.
pub record IsOldest (key : ConnCode) (m : Pending) : Type 0 where
  pub summary : ClientHelloSummary
  pub time : ℕ
  pub found : SortedMap.get conn_order key m ≡ some (summary, time)
  pub least : Every conn_order (λ k e. time ≤ e.1) m

-- An entry may be put in behind the first.
get-second :
    (a b k : ConnCode) (v w u : Entry) (m : Pending)
    → IsSorted conn_order ((a, v) ∷ (b, w) ∷ m)
    → SortedMap.get conn_order k ((a, v) ∷ m) ≡ some u
    → SortedMap.get conn_order k ((a, v) ∷ (b, w) ∷ m) ≡ some u
unfolding SortedMap.get
get-second a b k v w u m s h = elim (Bool-cases (conn_order.lt k a || conn_order.lt a k)) [
  | inl other ↦
      let h' : SortedMap.get conn_order k m ≡ some u = rw other at h in
      rw other (get-behind conn_order b k u w m s.1.0 h')
  | inr same ↦ rw same (rw same at h)
]

oldest_of-IsOldest :
    (key : ConnCode) (s : ClientHelloSummary) (ts : ℕ) (m : Pending)
    → IsSorted conn_order ((key, (s, ts)) ∷ m)
    → IsOldest (oldest_of key ts m) ((key, (s, ts)) ∷ m)
unfolding oldest_of SortedMap.get
oldest_of-IsOldest key s ts [] h = record {
  summary = s;
  time = ts;
  found = rw (conn_order.lt_irrefl key);
  least = (omega arith, tt);
}
oldest_of-IsOldest key s ts ((other, (s', at)) ∷ m) h = elim (Bool-cases (ltb at ts)) [
  | inl older ↦
      let p = oldest_of-IsOldest other s' at m h.1 in
      rw older (record {
        summary = p.summary;
        time = p.time;
        found =
            get-behind conn_order key (oldest_of other at m) (p.summary, p.time) (s, ts)
              ((other, (s', at)) ∷ m) h.0 p.found;
        least = (omega (arith, p.least.0, ltb→lt at ts older), p.least);
      })
  | inr newer ↦
      let p = oldest_of-IsOldest key s ts m (h.0.1, h.1.1) in
      rw newer (record {
        summary = p.summary;
        time = p.time;
        found =
            get-second key other (oldest_of key ts m) (s, ts) (s', at) (p.summary, p.time) m h
              p.found;
        least = (p.least.0, (omega (arith, p.least.0, ltb→le at ts newer), p.least.1));
      })
]

-- From a map that is sorted by its keys and not empty, an entry of the least time is removed,
-- and nothing else.
pub evict_oldest-IsOldest :
    (m : Pending)
    → IsSorted conn_order m
    → 0 < length m
    → (key : ConnCode) × IsOldest key m × (evict_oldest m ≡ SortedMap.remove conn_order key m)
unfolding evict_oldest
evict_oldest-IsOldest [] s h = absurd (omega arith)
evict_oldest-IsOldest ((key, (summary, ts)) ∷ m) s h =
    (oldest_of key ts m, oldest_of-IsOldest key summary ts m s, refl)

pub evict_oldest-IsSorted :
    (m : Pending) → IsSorted conn_order m → IsSorted conn_order (evict_oldest m)
unfolding evict_oldest
evict_oldest-IsSorted [] s = tt
evict_oldest-IsSorted ((key, (summary, ts)) ∷ m) s =
    remove-IsSorted conn_order (oldest_of key ts m) ((key, (summary, ts)) ∷ m) s

pub length-evict_oldest :
    (m : Pending) → IsSorted conn_order m → 0 < length m → suc (length (evict_oldest m)) ≡ length m
length-evict_oldest m s h =
    let (key, p, e) = evict_oldest-IsOldest m s h in
    rw e (length-remove_found conn_order key (p.summary, p.time) m p.found)
