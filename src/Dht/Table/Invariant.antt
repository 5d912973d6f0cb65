-- ===== src/Dht/Table/Invariant.antt =====
-- The routing table stays well formed: 160 buckets of at most eight entries, each entry in the bucket
-- of its distance, and no id twice.
use p2pnas.Prelude.{
  ℕ, zero, suc, ◌+◌, ◌≤◌, ◌<◌, ◌≡◌, refl, sym, ap, ◌∙◌, ◌≢◌, Bool, List, [], ◌∷◌, some, arith,
  length, length-append, length-set, length-replicate, set, replicate, All, All-append, All-set,
  All-front, Option-cases, inl, inr, Dec-cases,
}
use mathlib.Core.Path.{subst}
use p2pnas.Dht.Ids.{NodeId, xor, bucket_index}
use p2pnas.Dht.Ids.Distance.{IsId, bucket_index-lt}
use p2pnas.Dht.Addr.{SocketAddr, socket_discrete}
use p2pnas.Dht.Table.{
  Node, RoutingTable, new, bucket_at, refresh, add_to_bucket, add, mark_at, map_nodes, map_buckets,
  mark_verified, k,
}
use p2pnas.Dht.Table.Bucket.{
  Fresh, Distinct, Added, refreshed, appended, replaced, refused, add_to_bucket_cases,
  Distinct-snoc, Distinct-middle, Distinct-set, refresh-id,
}

-- The entry stands in the bucket of its distance.
abbrev pub IsPlaced : NodeId → ℕ → Node → Type 0
IsPlaced self i n = IsId n.id × (bucket_index (xor self n.id) ≡ some i)

pub record IsBucket (self : NodeId) (i : ℕ) (b : List Node) : Type 0 where
  pub small : length b ≤ k
  pub distinct : Distinct b
  pub placed : All (IsPlaced self i) b

-- The buckets from number `i` on.
abbrev pub AreBuckets : NodeId → ℕ → List (List Node) → Type 0
AreBuckets self i [] = Unit {0}
AreBuckets self i (b ∷ bs) = IsBucket self i b × AreBuckets self (suc i) bs

pub record IsTable (t : RoutingTable) : Type 0 where
  pub self_id : IsId t.self_id
  pub count : length t.buckets ≡ 160
  pub buckets : AreBuckets t.self_id 0 t.buckets

-- A property of entries that a refresh keeps is kept by the bucket.
pub Added-All :
    (P : Node → Type 0) (b : List Node) (node : Node) {r : List Node × Bool}
    → Added b node r
    → ((e : Node) → e.id ≡ node.id → P e → P (refresh e node))
    → P node
    → All P b
    → All P r.0
Added-All P b node (refreshed e rest out) keep p h =
    let (front, (pe, back)) = All-front P out.front (e ∷ out.back) (subst (All P) out.whole h) in
    All-append P rest (refresh e node ∷ [])
      (subst (All P) (sym out.left) (All-append P out.front out.back front back))
      (keep e out.same pe, tt)
Added-All P b node (appended fresh room) keep p h = All-append P b (node ∷ []) h (p, tt)
Added-All P b node (replaced i m fresh full found) keep p h = All-set P b i node h p
Added-All P b node (refused fresh full found) keep p h = h

Added-Distinct :
    (b : List Node) (node : Node) {r : List Node × Bool}
    → Added b node r
    → Distinct b
    → Distinct r.0
Added-Distinct b node (refreshed e rest out) d =
    let (d', fresh) = Distinct-middle out.front out.back e (subst Distinct out.whole d) in
    Distinct-snoc rest (refresh e node) (subst Distinct (sym out.left) d') (
      subst (λ x. Fresh x rest) (sym (refresh-id e node)) (subst (Fresh e.id) (sym out.left) fresh))
Added-Distinct b node (appended fresh room) d = Distinct-snoc b node d fresh
Added-Distinct b node (replaced i m fresh full found) d = Distinct-set b i node d fresh
Added-Distinct b node (refused fresh full found) d = d

Added-small :
    (b : List Node) (node : Node) {r : List Node × Bool}
    → Added b node r
    → length b ≤ k
    → length r.0 ≤ k
Added-small b node (refreshed e rest out) h = omega (
  arith,
  ap length out.whole,
  ap length out.left,
  length-append out.front (e ∷ out.back),
  length-append out.front out.back,
  length-append rest (refresh e node ∷ []),
)
Added-small b node (appended fresh room) h = omega (arith, length-append b (node ∷ []))
Added-small b node (replaced i m fresh full found) h = omega (arith, length-set b i node)
Added-small b node (refused fresh full found) h = h

add_to_bucket-IsBucket :
    (self : NodeId) (i : ℕ) (b : List Node) (node : Node)
    → IsBucket self i b
    → IsPlaced self i node
    → IsBucket self i (add_to_bucket b node).0
add_to_bucket-IsBucket self i b node h p =
    let view = add_to_bucket_cases b node in
    record {
      small = Added-small b node view h.small;
      distinct = Added-Distinct b node view h.distinct;
      placed =
          Added-All (IsPlaced self i) b node view
            (λ e same pe.
              subst (λ x. IsId x × (bucket_index (xor self x) ≡ some i)) (sym (refresh-id e node))
                pe)
            p h.placed;
    }

pub bucket_at-IsBucket :
    (self : NodeId) (i : ℕ) (bs : List (List Node)) (j n : ℕ)
    → AreBuckets self i bs
    → j < length bs
    → i + j ≡ n
    → IsBucket self n (bucket_at bs j)
bucket_at-IsBucket self i [] j n h lt e = absurd (omega arith)
bucket_at-IsBucket self i (b ∷ bs) zero n (hb, h) lt e =
    subst (λ x. IsBucket self x b) (let e' : i ≡ n = omega arith in e') hb
bucket_at-IsBucket self i (b ∷ bs) (suc j) n (hb, h) lt e =
    bucket_at-IsBucket self (suc i) bs j n h (omega arith) (omega arith)

set-AreBuckets :
    (self : NodeId) (i : ℕ) (bs : List (List Node)) (j n : ℕ) (b : List Node)
    → AreBuckets self i bs
    → i + j ≡ n
    → IsBucket self n b
    → AreBuckets self i (set bs j b)
set-AreBuckets self i [] j n b h e hb = tt
set-AreBuckets self i (b' ∷ bs) zero n b (_, h) e hb =
    (subst (λ x. IsBucket self x b) (let e' : n ≡ i = omega arith in e') hb, h)
set-AreBuckets self i (b' ∷ bs) (suc j) n b (hb', h) e hb =
    (hb', set-AreBuckets self (suc i) bs j n b h (omega arith) hb)

empty-AreBuckets : (self : NodeId) (i n : ℕ) → AreBuckets self i (replicate n [])
empty-AreBuckets self i zero = tt
empty-AreBuckets self i (suc n) =
    (record { small = omega arith; distinct = tt; placed = tt }, empty-AreBuckets self (suc i) n)

-- A new table is well formed.
pub new-IsTable : (self : NodeId) → IsId self → IsTable (new self)
unfolding new
new-IsTable self h = record {
  self_id = h;
  count = length-replicate {A = List Node} 160 [];
  buckets = empty-AreBuckets self 0 160;
}

-- `add` keeps the table well formed on every branch (the node itself, a known id, room in the
-- bucket, an eviction, a refusal), for every node with an id of twenty bytes.
pub add-IsTable :
    (t : RoutingTable) (node : Node) → IsTable t → IsId node.id → IsTable (add t node).0
unfolding add
add-IsTable t node h id = elim (Option-cases (bucket_index (xor t.self_id node.id))) [
  | inl own ↦ rw (own, add) h
  | inr (idx, found) ↦
      let lt = bucket_index-lt t.self_id node.id h.self_id id found in
      let b = bucket_at t.buckets idx in
      let ok_b =
        bucket_at-IsBucket t.self_id 0 t.buckets idx idx h.buckets (omega (arith, h.count))
          (omega arith) in
      rw (found, add)
        (record {
          self_id = h.self_id;
          count = length-set t.buckets idx (add_to_bucket b node).0 ∙ h.count;
          buckets =
              set-AreBuckets t.self_id 0 t.buckets idx idx (add_to_bucket b node).0 h.buckets
                (omega arith) (add_to_bucket-IsBucket t.self_id idx b node ok_b (id, found));
        })
]

mark_at-id : (addr : SocketAddr) (now : ℕ) (n : Node) → (mark_at addr now n).id ≡ n.id
mark_at-id addr now n = elim (Dec-cases (socket_discrete n.udp addr)) [
  | inl (same, d) ↦ rw (d, mark_at)
  | inr (other, d) ↦ rw (d, mark_at)
]

-- Marking changes no id, so that what speaks of ids alone is kept.
map_nodes-All :
    (P : Node → Type 0) (f : Node → Node) (b : List Node)
    → ((n : Node) → P n → P (f n))
    → All P b
    → All P (map_nodes f b)
map_nodes-All P f [] keep h = tt
map_nodes-All P f (n ∷ b) keep (p, h) = (keep n p, map_nodes-All P f b keep h)

map_nodes-Fresh :
    (id : NodeId) (f : Node → Node) (b : List Node)
    → ((n : Node) → (f n).id ≡ n.id)
    → Fresh id b
    → Fresh id (map_nodes f b)
map_nodes-Fresh id f b same h =
    map_nodes-All (λ (m : Node). m.id ≢ id) f b (λ n ne e. ne (sym (same n) ∙ e)) h

map_nodes-Distinct :
    (f : Node → Node) (b : List Node)
    → ((n : Node) → (f n).id ≡ n.id)
    → Distinct b
    → Distinct (map_nodes f b)
map_nodes-Distinct f [] same d = tt
map_nodes-Distinct f (n ∷ b) same (fresh, d) = (
  subst (λ x. Fresh x (map_nodes f b)) (sym (same n)) (map_nodes-Fresh n.id f b same fresh),
  map_nodes-Distinct f b same d,
)

length-map_nodes : (f : Node → Node) (b : List Node) → length (map_nodes f b) ≡ length b
length-map_nodes f [] = refl
length-map_nodes f (n ∷ b) = ap suc (length-map_nodes f b)

length-map_buckets :
    (f : Node → Node) (bs : List (List Node)) → length (map_buckets f bs) ≡ length bs
length-map_buckets f [] = refl
length-map_buckets f (b ∷ bs) = ap suc (length-map_buckets f bs)

map_buckets-AreBuckets :
    (self : NodeId) (f : Node → Node) (i : ℕ) (bs : List (List Node))
    → ((n : Node) → (f n).id ≡ n.id)
    → AreBuckets self i bs
    → AreBuckets self i (map_buckets f bs)
map_buckets-AreBuckets self f i [] same h = tt
map_buckets-AreBuckets self f i (b ∷ bs) same (hb, h) = (
  record {
    small = omega (arith, length-map_nodes f b, hb.small);
    distinct = map_nodes-Distinct f b same hb.distinct;
    placed =
        map_nodes-All (IsPlaced self i) f b
          (λ n p. subst (λ x. IsId x × (bucket_index (xor self x) ≡ some i)) (sym (same n)) p)
          hb.placed;
  },
  map_buckets-AreBuckets self f (suc i) bs same h,
)

-- `mark_verified` keeps the table well formed.
pub mark_verified-IsTable :
    (t : RoutingTable) (addr : SocketAddr) (now : ℕ)
    → IsTable t
    → IsTable (mark_verified t addr now)
unfolding mark_verified
mark_verified-IsTable t addr now h = record {
  self_id = h.self_id;
  count = length-map_buckets (mark_at addr now) t.buckets ∙ h.count;
  buckets =
      map_buckets-AreBuckets t.self_id (mark_at addr now) 0 t.buckets (mark_at-id addr now)
        h.buckets;
}
