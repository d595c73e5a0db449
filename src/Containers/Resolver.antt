-- ===== src/Containers/Resolver.antt =====
-- crates/tls-probe-cli/src/containers.rs, DefaultResolver: the cache in front of the walk of the
-- cgroup tree. A time is in seconds; the walk, of the file system, is an argument, `none` where
-- it fails.
use tls_probe.Prelude.{
  ℕ, ◌-◌, ◌≤◌, ◌≡◌, ap, ◌∙◌, Bool, false, ◌&&◌, arith, Option, none, some, ◌==◌, ==_refl, leb, ltb,
  le→leb, if◌then◌else◌,
}
use tls_probe.Wire.{Bytes}

-- A map by its look-up.
abbrev pub Paths : Type 0
Paths = ℕ → Option Bytes

pub record ResolverCache : Type 0 where
  pub ino_map : Paths
  pub negative : ℕ → Option ℕ
  pub last_walk : Option ℕ

abbrev pub empty_cache : ResolverCache
empty_cache = record { ino_map = λ i. none; negative = λ i. none; last_walk = none }

abbrev insert_at {ℓ} : {A : Type ℓ} → (ℕ → Option A) → ℕ → Option A → ℕ → Option A
insert_at f i v j = if j == i then v else f j

-- `neg_time.elapsed().map(|d| d.as_secs() < 5).unwrap_or(false)`: a time that is ahead is expired.
unfoldable pub is_recent : ℕ → Option ℕ → Bool
is_recent now none = false
is_recent now (some neg_time) = leb neg_time now && ltb (now - neg_time) 5

unfoldable pub walked : ℕ → Option Paths → ResolverCache → ResolverCache
walked now none c = c
walked now (some new_map) c = record c { ino_map = new_map; last_walk = some now }

-- What is looked up after a walk; a walk that fails is not followed by a look-up.
unfoldable pub found_by : Option Paths → ℕ → Option Bytes
found_by none inode = none
found_by (some new_map) inode = new_map inode

unfoldable pub miss : ℕ → Option Paths → ResolverCache → ℕ → Option Bytes × ResolverCache
unfolding is_recent walked found_by
miss now walk cache inode =
    let expired = record cache { negative = insert_at cache.negative inode none } in
    let looked = walked now walk expired in
    if is_recent now (cache.negative inode) then (none, cache) else (elim (found_by walk inode) [
      | some path ↦ (some path, looked)
      | none ↦ (none, record looked { negative = insert_at looked.negative inode (some now) })
    ])

unfoldable pub resolve_inode : ℕ → Option Paths → ResolverCache → ℕ → Option Bytes × ResolverCache
unfolding miss
resolve_inode now walk cache inode =
    let looked : Option Bytes × ResolverCache = elim (cache.ino_map inode) [
      | some path ↦ (some path, cache)
      | none ↦ miss now walk cache inode
    ] in
    if inode == 0 then (none, cache) else looked

insert_at-same {ℓ} : {A : Type ℓ} (f : ℕ → Option A) (i : ℕ) (v : Option A) → insert_at f i v i ≡ v
insert_at-same f i v = rw (==_refl i)

-- What a miss leaves: no path, and the time of the miss.
pub record Missed (now inode : ℕ) (c : ResolverCache) : Type 0 where
  pub unknown : c.ino_map inode ≡ none
  pub stamped : c.negative inode ≡ some now

miss-Missed :
    (now : ℕ) (walk : Option Paths) (c : ResolverCache) (inode : ℕ)
    → c.ino_map inode ≡ none
    → is_recent now (c.negative inode) ≡ false
    → found_by walk inode ≡ none
    → Missed now inode (miss now walk c inode).1
unfolding miss
miss-Missed now none c inode u old h = rw old (record {
  unknown = u;
  stamped = insert_at-same (insert_at c.negative inode none) inode (some now);
})
miss-Missed now (some new_map) c inode u old h =
    rw (old, h)
      (record {
        unknown = h;
        stamped = insert_at-same (insert_at c.negative inode none) inode (some now);
      })

resolve-miss :
    (now : ℕ) (walk : Option Paths) (c : ResolverCache) (inode : ℕ)
    → (inode == 0) ≡ false
    → c.ino_map inode ≡ none
    → resolve_inode now walk c inode ≡ miss now walk c inode
unfolding resolve_inode
resolve-miss now walk c inode h u = rw (h, u)

miss-value :
    (now : ℕ) (walk : Option Paths) (c : ResolverCache) (inode : ℕ)
    → (miss now walk c inode).0
      ≡ (if is_recent now (c.negative inode) then none else found_by walk inode)
unfolding miss
miss-value now walk c inode = ground arith

recent_lem : (now later : ℕ) → now ≤ later → is_recent later (some now) ≡ ltb (later - now) 5
unfolding is_recent
recent_lem now later h = rw (le→leb now later h)

-- After a look-up of an inode other than 0 that the cache did not know and the walk did not find, a
-- second look-up of it answers "none" for five seconds, whatever a walk would find, and from
-- then on what a new walk finds.
pub resolve_inode_twice :
    (now later : ℕ) (walk walk' : Option Paths) (c : ResolverCache) (inode : ℕ)
    → (inode == 0) ≡ false
    → now ≤ later
    → c.ino_map inode ≡ none
    → is_recent now (c.negative inode) ≡ false
    → found_by walk inode ≡ none
    → (resolve_inode later walk' (resolve_inode now walk c inode).1 inode).0
      ≡ (if ltb (later - now) 5 then none else found_by walk' inode)
resolve_inode_twice now later walk walk' c inode h le u old none_found =
    let c' = (miss now walk c inode).1 in
    let m = miss-Missed now walk c inode u old none_found in
    let recent : is_recent later (c'.negative inode) ≡ ltb (later - now) 5 =
      ap (is_recent later) m.stamped ∙ recent_lem now later le in
    ap (λ (r : Option Bytes × ResolverCache). (resolve_inode later walk' r.1 inode).0)
      (resolve-miss now walk c inode h u)
    ∙ ap (λ (r : Option Bytes × ResolverCache). r.0) (resolve-miss later walk' c' inode h m.unknown)
    ∙ miss-value later walk' c' inode
    ∙ ap (λ (b : Bool). if b then none else found_by walk' inode) recent
