-- ===== src/Dht/Table/Eviction.antt =====
-- Which entry a newcomer displaces: the stale one with the least key, and none while all are live.
use p2pnas.Prelude.{
  ℕ, zero, suc, ◌≤◌, ◌≡◌, refl, Bool, true, false, ◌&&◌, List, [], ◌∷◌, ◌++◌, append_assoc,
  append-nil, Option, none, some, arith, length, length-append, get_elem?, set, All, All-append,
  All-imp, Bool-cases, Option-cases, ge→ltb, ◌⊎◌, inl, inr, if◌then◌else◌,
}
use mathlib.Core.Path.{subst}
use p2pnas.Dht.Table.{Node, is_stale, key_lt, better, victim_from, add_to_bucket, k}
use p2pnas.Dht.Table.Bucket.{take_out-Fresh, Fresh}

-- `min_by_key` over the stale entries of `l`.
abbrev pub IsVictim : ℕ → List Node → Option (ℕ × Node) → Type 0
IsVictim now l none = All (λ n. is_stale now n ≡ false) l
IsVictim now l (some (j, m)) =
    (get_elem? l j ≡ some m)
    × (is_stale now m ≡ true)
    × All (λ n. (is_stale now n && key_lt n m) ≡ false) l

get_elem?-append :
    (l l' : List Node) (j : ℕ) {m : Node} → get_elem? l j ≡ some m → get_elem? (l ++ l') j ≡ some m
get_elem?-append [] l' j e = cc
get_elem?-append (n ∷ l) l' zero e = e
get_elem?-append (n ∷ l) l' (suc j) e = get_elem?-append l l' j e

get_elem?-snoc : (l : List Node) (n : Node) → get_elem? (l ++ (n ∷ [])) (length l) ≡ some n
get_elem?-snoc [] n = refl
get_elem?-snoc (m ∷ l) n = get_elem?-snoc l n

key_lt_self : (n : Node) → key_lt n n ≡ false
key_lt_self n = ground arith

key_lt_not_trans :
    (s : Bool) (x n m : Node)
    → key_lt n m ≡ true
    → (s && key_lt x m) ≡ false
    → (s && key_lt x n) ≡ false
key_lt_not_trans s x n m less kept = ground arith

-- Taking one more entry into account.
next_best : ℕ → ℕ → Node → Option (ℕ × Node) → Option (ℕ × Node)
next_best now i n best = if is_stale now n then better i n best else best

next_best-IsVictim :
    (now : ℕ) (seen : List Node) (n : Node) (best : Option (ℕ × Node))
    → IsVictim now seen best
    → IsVictim now (seen ++ (n ∷ [])) (next_best now (length seen) n best)
unfolding next_best
next_best-IsVictim now seen n none h = elim (Bool-cases (is_stale now n)) [
  | inl stale ↦ rw stale (
    get_elem?-snoc seen n,
    stale,
    All-append (λ x. (is_stale now x && key_lt x n) ≡ false) seen (n ∷ [])
        (All-imp (λ x. is_stale now x ≡ false) (λ x. (is_stale now x && key_lt x n) ≡ false) seen
          (λ x live. rw live) h)
        (rw stale (key_lt_self n), tt),
  )
  | inr live ↦ rw live (All-append (λ x. is_stale now x ≡ false) seen (n ∷ []) h (live, tt))
]
next_best-IsVictim now seen n (some (j, m)) (at_j, stale_m, least) =
    elim (Bool-cases (is_stale now n)) [
      | inr live ↦ rw live (
        get_elem?-append seen (n ∷ []) j at_j,
        stale_m,
        All-append (λ x. (is_stale now x && key_lt x m) ≡ false) seen (n ∷ []) least (rw live, tt),
      )
      | inl stale ↦ elim (Bool-cases (key_lt n m)) [
        | inl less ↦
            rw (stale, less)
              (
                get_elem?-snoc seen n,
                stale,
                All-append (λ x. (is_stale now x && key_lt x n) ≡ false) seen (n ∷ [])
                    (All-imp (λ x. (is_stale now x && key_lt x m) ≡ false)
                      (λ x. (is_stale now x && key_lt x n) ≡ false) seen
                      (λ x kept. key_lt_not_trans (is_stale now x) x n m less kept) least)
                    (rw stale (key_lt_self n), tt),
              )
        | inr more ↦
            rw (stale, more)
              (
                get_elem?-append seen (n ∷ []) j at_j,
                stale_m,
                All-append (λ x. (is_stale now x && key_lt x m) ≡ false) seen (n ∷ []) least
                    (rw (stale, more), tt),
              )
      ]
    ]

pub victim_from-IsVictim :
    (now : ℕ) (seen b : List Node) (best : Option (ℕ × Node))
    → IsVictim now seen best
    → IsVictim now (seen ++ b) (victim_from now (length seen) best b)
unfolding victim_from next_best
victim_from-IsVictim now seen [] best h = rw append-nil h
victim_from-IsVictim now seen (n ∷ b) best h =
    let longer : length (seen ++ (n ∷ [])) ≡ suc (length seen) =
      omega (arith, length-append seen (n ∷ [])) in
    let rest =
      victim_from-IsVictim now (seen ++ (n ∷ [])) b (next_best now (length seen) n best)
        (next_best-IsVictim now seen n best h) in
    subst
      (λ l.
        IsVictim now l (victim_from now (suc (length seen)) (next_best now (length seen) n best) b))
      (append_assoc seen (n ∷ []) b)
      (subst
        (λ i.
          IsVictim now (seen ++ (n ∷ []) ++ b)
            (victim_from now i (next_best now (length seen) n best) b))
        longer rest)

-- What happens to a bucket of eight entries when a node with an unknown id comes: either one stale
-- entry is replaced by the node, and no stale entry has a smaller key (unverified before verified,
-- and then the one that was silent for longer), or all entries are live and nothing changes.
pub add_to_bucket_full :
    (b : List Node) (node : Node)
    → Fresh node.id b
    → k ≤ length b
    → ((i : ℕ) × (m : Node) × (add_to_bucket b node ≡ (set b i node, true))
        × IsVictim node.last_seen b (some (i, m)))
      ⊎ ((add_to_bucket b node ≡ (b, false)) × IsVictim node.last_seen b none)
unfolding add_to_bucket
add_to_bucket_full b node fresh full =
    let spec : IsVictim node.last_seen b (victim_from node.last_seen 0 none b) =
      victim_from-IsVictim node.last_seen [] b none tt in
    elim (Option-cases (victim_from node.last_seen 0 none b)) [
      | inl nobody ↦ inr (
        rw (take_out-Fresh node.id b fresh, add_to_bucket, ge→ltb (length b) k full, nobody),
        subst (IsVictim node.last_seen b) nobody spec,
      )
      | inr ((i, m), found) ↦ inl (
        i,
        m,
        rw (take_out-Fresh node.id b fresh, add_to_bucket, ge→ltb (length b) k full, found),
        subst (IsVictim node.last_seen b) found spec,
      )
    ]
