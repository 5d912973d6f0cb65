-- ===== src/Dht/Table/Bucket.antt =====
-- One bucket: what `take_out`, `refresh` and `add_to_bucket` keep.
use p2pnas.Prelude.{
  ℕ, zero, suc, ◌≤◌, ◌<◌, ◌≡◌, refl, sym, ap, ◌∙◌, ◌≢◌, Bool, true, false, List, [], ◌∷◌, ◌++◌,
  Option, none, some, arith, length, set, All, All-append, All-set, All-front, Dec-cases, ltb→ge,
  ltb, ltb→lt, Bool-cases, Option-cases, inl, inr,
}
use p2pnas.Dht.Ids.{NodeId}
use p2pnas.Dht.Table.{Node, id_discrete, put_back, take_out, refresh, victim_from, add_to_bucket, k}

abbrev pub Fresh : NodeId → List Node → Type 0
Fresh id b = All (λ (m : Node). m.id ≢ id) b

-- No two entries have the same id.
abbrev pub Distinct : List Node → Type 0
Distinct [] = Unit {0}
Distinct (n ∷ b) = Fresh n.id b × Distinct b

put_back-none : (n : Node) (o : Option (Node × List Node)) → put_back n o ≡ none → o ≡ none
put_back-none n none e = refl
put_back-none n (some p) e = cc

take_out-none : (id : NodeId) (b : List Node) → take_out id b ≡ none → Fresh id b
unfolding take_out
take_out-none id [] e = tt
take_out-none id (n ∷ b) e = elim (Dec-cases (id_discrete n.id id)) [
  | inl (same, d) ↦ cc (rw (d, take_out) at e)
  | inr (other, d) ↦
      (other, take_out-none id b (put_back-none n (take_out id b) (rw (d, take_out) at e)))
]

pub take_out-Fresh : (id : NodeId) (b : List Node) → Fresh id b → take_out id b ≡ none
unfolding take_out
take_out-Fresh id [] f = refl
take_out-Fresh id (n ∷ b) (ne, f) = elim (Dec-cases (id_discrete n.id id)) [
  | inl (same, d) ↦ absurd (ne same)
  | inr (other, d) ↦ rw (d, take_out, take_out-Fresh id b f)
]

-- A bucket with the entry `e` of an id, and the bucket without it.
pub record Out (id : NodeId) (b : List Node) (e : Node) (rest : List Node) : Type 0 where
  pub front : List Node
  pub back : List Node
  pub whole : b ≡ front ++ (e ∷ back)
  pub left : rest ≡ front ++ back
  pub same : e.id ≡ id

shifted :
    (id : NodeId) (n : Node) (b : List Node) (o : Option (Node × List Node)) {e : Node}
    {rest : List Node}
    → ((e : Node) (rest : List Node) → o ≡ some (e, rest) → Out id b e rest)
    → put_back n o ≡ some (e, rest)
    → Out id (n ∷ b) e rest
shifted id n b none found h = cc
shifted id n b (some (e', rest')) {e} {rest} found h =
    let r : Out id b e' rest' = found e' rest' refl in
    let same_e : e' ≡ e = cc in
    record {
      front = n ∷ r.front;
      back = r.back;
      whole = ap (λ t. n ∷ t) (r.whole ∙ ap (λ x. r.front ++ (x ∷ r.back)) same_e);
      left = (let l : rest ≡ n ∷ rest' = cc in l) ∙ ap (λ t. n ∷ t) r.left;
      same = ap Node.id (sym same_e) ∙ r.same;
    }

take_out-some :
    (id : NodeId) (b : List Node) (e : Node) (rest : List Node)
    → take_out id b ≡ some (e, rest)
    → Out id b e rest
unfolding take_out
take_out-some id [] e rest h = cc
take_out-some id (n ∷ b) e rest h = elim (Dec-cases (id_discrete n.id id)) [
  | inl (same, d) ↦
      let pair : ◌≡◌ {A = Option (Node × List Node)} (some (n, b)) (some (e, rest)) =
        rw (d, take_out) at h in
      let n_e : n ≡ e = cc in
      let b_rest : b ≡ rest = cc in
      record {
        front = [];
        back = b;
        whole = ap (λ x. x ∷ b) n_e;
        left = sym b_rest;
        same = ap (λ x. x.id) (sym n_e) ∙ same;
      }
  | inr (other, d) ↦
      shifted id n b (take_out id b) (λ e' r'. take_out-some id b e' r') (rw (d, take_out) at h)
]

pub Distinct-snoc :
    (b : List Node) (n : Node) → Distinct b → Fresh n.id b → Distinct (b ++ (n ∷ []))
Distinct-snoc [] n d f = (tt, tt)
Distinct-snoc (m ∷ b) n (fm, d) (ne, f) = (
  All-append (λ (x : Node). x.id ≢ m.id) b (n ∷ []) fm ((λ e. ne (sym e)), tt),
  Distinct-snoc b n d f,
)

-- Without one of its entries a bucket is still free of duplicates, and free of that entry's id.
pub Distinct-middle :
    (front back : List Node) (e : Node)
    → Distinct (front ++ (e ∷ back))
    → Distinct (front ++ back) × Fresh e.id (front ++ back)
Distinct-middle [] back e (f, d) = (d, f)
Distinct-middle (m ∷ front) back e (f, d) =
    let (d', fe) = Distinct-middle front back e d in
    let (f1, (ne, f2)) = All-front (λ (x : Node). x.id ≢ m.id) front (e ∷ back) f in
    ((All-append (λ (x : Node). x.id ≢ m.id) front back f1 f2, d'), ((λ q. ne (sym q)), fe))

pub Distinct-set :
    (b : List Node) (i : ℕ) (n : Node) → Distinct b → Fresh n.id b → Distinct (set b i n)
Distinct-set [] i n d f = d
Distinct-set (m ∷ b) zero n (fm, d) (ne, f) = (f, d)
Distinct-set (m ∷ b) (suc i) n (fm, d) (ne, f) =
    (All-set (λ (x : Node). x.id ≢ m.id) b i n fm (λ e. ne (sym e)), Distinct-set b i n d f)

pub refresh-id : (existing node : Node) → (refresh existing node).id ≡ existing.id
unfolding refresh
refresh-id existing node = ground arith

-- What `add_to_bucket` does, case by case.
pub data Added (b : List Node) (node : Node) : List Node × Bool → Type 0 where
  refreshed :
      (e : Node) (rest : List Node)
      → Out node.id b e rest
      → Added b node (rest ++ (refresh e node ∷ []), false)
  appended : Fresh node.id b → length b < k → Added b node (b ++ (node ∷ []), true)
  replaced :
      (i : ℕ) (m : Node)
      → Fresh node.id b
      → k ≤ length b
      → victim_from node.last_seen 0 none b ≡ some (i, m)
      → Added b node (set b i node, true)
  refused :
      Fresh node.id b
      → k ≤ length b
      → victim_from node.last_seen 0 none b ≡ none
      → Added b node (b, false)

pub add_to_bucket_cases : (b : List Node) (node : Node) → Added b node (add_to_bucket b node)
unfolding add_to_bucket
add_to_bucket_cases b node = elim (Option-cases (take_out node.id b)) [
  | inr ((e, rest), found) ↦
      rw (found, add_to_bucket) (refreshed e rest (take_out-some node.id b e rest found))
  | inl none_found ↦
      let fresh = take_out-none node.id b none_found in
      elim (Bool-cases (ltb (length b) k)) [
        | inl room ↦
            rw (none_found, add_to_bucket, room) (appended fresh (ltb→lt (length b) k room))
        | inr full ↦
            let k_le = ltb→ge (length b) k full in
            elim (Option-cases (victim_from node.last_seen 0 none b)) [
              | inl nobody ↦
                  rw (none_found, add_to_bucket, full, nobody) (refused fresh k_le nobody)
              | inr ((i, m), found) ↦
                  rw (none_found, add_to_bucket, full, found) (replaced i m fresh k_le found)
            ]
      ]
]
