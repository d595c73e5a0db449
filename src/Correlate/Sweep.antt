-- ===== src/Correlate/Sweep.antt =====
-- crates/tls-probe-cli/src/correlate.rs: what a sweep removes.
use tls_probe.Correlate.{
  ConnCode, conn_order, Pending, Entry, Correlator, age, retain_young, sweep_expired,
}
use tls_probe.Correlate.Bounds.{IsBounded}
use tls_probe.Correlate.Joins.{entry_at, get-retain_young}
use tls_probe.Prelude.{
  ℕ, ◌<◌, ◌≡◌, ◌↔◌, ◌||◌, [], ◌∷◌, some, arith, Bool-cases, ltb, ltb→lt, inl, inr,
}
use tls_probe.SortedMap
use tls_probe.SortedMap.{IsSorted, get-behind}

retained :
    (k : ConnCode) (now ttl : ℕ) (e : Entry) (m : Pending)
    → IsSorted conn_order m
    → SortedMap.get conn_order k (retain_young now ttl m) ≡ some e
    → (SortedMap.get conn_order k m ≡ some e) × (age now e.1 < ttl)
unfolding retain_young SortedMap.get
retained k now ttl e [] s h = cc
retained k now ttl e ((j, (x, ts)) ∷ m) s h = elim (Bool-cases (ltb (age now ts) ttl)) [
  | inr old ↦
      let later = retained k now ttl e m s.1 (rw old at h) in
      (get-behind conn_order j k e (x, ts) m s.0 later.0, later.1)
  | inl young ↦ elim (Bool-cases (conn_order.lt k j || conn_order.lt j k)) [
    | inl other ↦ rw other (retained k now ttl e m s.1 (rw (young, other) at h))
    | inr same ↦
        let is : some (x, ts) ≡ some e = rw (young, same) at h in
        let time : age now ts < ttl = ltb→lt (age now ts) ttl young in
        rw same (is, ground (arith, time))
  ]
]

-- A sweep of a correlator within its bounds keeps exactly the entries younger than the limit,
-- each as it was.
pub sweep_expired-entry :
    (now : ℕ) (c : Correlator) (k : ConnCode) (e : Entry)
    → IsBounded c
    → (entry_at k (sweep_expired now c).0 ≡ some e)
      ↔ ((entry_at k c ≡ some e) × (age now e.1 < c.ttl_ns))
unfolding sweep_expired
sweep_expired-entry now c k e b = (
  λ h. retained k now c.ttl_ns e c.pending b.sorted h,
  λ h. get-retain_young k now c.ttl_ns e c.pending h.0 h.1,
)
