-- ===== src/Core/Erasure/Reconstruct.antt =====
-- `reconstruct` gives the sealed chunk back from any ten of its fourteen shards.
use p2pnas.Prelude.{
  ℕ, zero, suc, ◌+◌, ◌*◌, ◌≤◌, ◌<◌, ◌≡◌, refl, sym, ap, ◌∙◌, List, [], ◌∷◌, ◌++◌, append_assoc,
  arith, Option, none, some, true, length, take, drop, get_elem?, length-append, take-append,
  take-append-drop, All, ◌==◌, ==_refl, Bool-cases, inl, inr,
}
use Prim.Native.String.{String}
use mathlib.Core.Path.{ap₂, subst}
use p2pnas.Prelude.Kept.{Kept, held, held-append, held-le, Kept-append, Kept-get_elem?}
use p2pnas.Prelude.Results.{Result, ok, err, panic, ◌>>=◌}
use p2pnas.Core.Bytes.{Bytes}
use p2pnas.Core.Bytes.Slices.{zeros, write_at, write_at-append}
use p2pnas.Core.Erasure.Code.{Code, IsErasureCode}
use p2pnas.Core.Erasure.Stripe.{stripe, concat, concat-stripe, stripe_lengths}
use p2pnas.Core.Erasure.Striping.{shard_len_bounds, data_shards-stripe}
use p2pnas.Core.Erasure.Shards.{
  shard_len, map_err, all_some, concat_held, first_len, pick, reassemble, encode, reconstruct,
  decode_and_reassemble,
}

concat_held-concat :
    (os : List (Option Bytes)) (xs : List Bytes)
    → Kept os xs
    → all_some os ≡ true
    → concat_held os ≡ concat xs
unfolding concat_held all_some
concat_held-concat [] [] h e = refl
concat_held-concat [] (x ∷ xs) h e = absurd h
concat_held-concat (o ∷ os) [] h e = absurd h
concat_held-concat (none ∷ os) (x ∷ xs) h e = cc
concat_held-concat (some v ∷ os) (x ∷ xs) (same, h) e =
    ap₂ (λ a b. a ++ b) same (concat_held-concat os xs h e)

-- The first shard that is held tells the shard length.
first_len-append :
    (os rest : List (Option Bytes)) (xs : List Bytes) (sl : ℕ)
    → Kept os xs
    → All (λ (s : Bytes). length s ≡ sl) xs
    → 0 < held os
    → first_len (os ++ rest) ≡ some sl
unfolding first_len
first_len-append [] rest xs sl h l pos = absurd (omega arith)
first_len-append (o ∷ os) rest [] sl h l pos = absurd h
first_len-append (none ∷ os) rest (x ∷ xs) sl (_, h) (_, l) pos =
    first_len-append os rest xs sl h l pos
first_len-append (some v ∷ os) rest (x ∷ xs) sl (same, _) (l, _) pos = ap some (ap length same ∙ l)

-- The loop of `reconstruct`, from the state after `done`: if each of the `rest` is found, the buffer
-- is filled by them.
reassemble_lem :
    (present : List (Option Bytes)) (restored : ℕ → Option Bytes) (sl k : ℕ) (done : Bytes)
    (rest : List Bytes)
    → length done ≡ k * sl
    → All (λ (s : Bytes). length s ≡ sl) rest
    → ((j : ℕ) (s : Bytes)
        → get_elem? rest j ≡ some s
        → pick (get_elem? present (k + j)) (restored (k + j)) ≡ ok s)
    → reassemble present restored sl (length rest) k (done ++ zeros (length rest * sl))
      ≡ ok (done ++ concat rest)
unfolding reassemble
reassemble_lem present restored sl k done [] d l found =
    ap (λ n. ok (done ++ zeros n)) (let e : 0 * sl ≡ 0 = omega arith in e)
reassemble_lem present restored sl k done (s ∷ rest) d (ls, l) found =
    rw (first, whole, written)
      (reassemble_lem present restored sl (suc k) (done ++ s) rest
          (omega (arith, length-append done s)) l
          (λ j t e.
            ap (λ i. pick (get_elem? present i) (restored i))
              (let i : suc k + j ≡ k + suc j = omega arith in i)
            ∙ found (suc j) t e)
        ∙ ap ok (append_assoc done s (concat rest)))
  where
    first : pick (get_elem? present k) (restored k) ≡ ok s
    first =
        ap (λ i. pick (get_elem? present i) (restored i)) (let i : k ≡ k + 0 = omega arith in i)
        ∙ found 0 s refl

    whole : (length s == sl) ≡ true
    whole = rw ls (==_refl sl)

    written :
        write_at (done ++ zeros (suc (length rest) * sl)) (k * sl) s
        ≡ (done ++ s) ++ zeros (length rest * sl)
    written =
        ap (λ i. write_at (done ++ zeros (suc (length rest) * sl)) i s) (sym d)
        ∙ write_at-append done s (suc (length rest) * sl) (length rest * sl) (omega arith)

get_elem?-take :
    (n : ℕ) (xs : List (Option Bytes)) (i : ℕ) {o : Option Bytes}
    → get_elem? (take n xs) i ≡ some o
    → get_elem? xs i ≡ some o
get_elem?-take zero xs i e = cc
get_elem?-take (suc n) [] i e = cc
get_elem?-take (suc n) (x ∷ xs) zero e = e
get_elem?-take (suc n) (x ∷ xs) (suc i) e = get_elem?-take n xs i e

-- A held shard is found, and so is a lost one that the code restored.
pick_found :
    (n : ℕ) (present : List (Option Bytes)) (restored : ℕ → Option Bytes) (data_part : List Bytes)
    → Kept (take n present) data_part
    → ((i : ℕ) → get_elem? (take n present) i ≡ some none → restored i ≡ get_elem? data_part i)
    → (j : ℕ) (s : Bytes) → get_elem? data_part j ≡ some s
    → pick (get_elem? present j) (restored j) ≡ ok s
pick_found n present restored data_part kept back j s e =
    elim (Kept-get_elem? (take n present) data_part j kept e) [
      | inl there ↦ rw (get_elem?-take n present j there)
      | inr lost ↦ rw (get_elem?-take n present j lost, back j lost ∙ e)
    ]

module _ (code : Code) (lawful : IsErasureCode code) where
  -- A successful `encode` returns the stripes and their four recovery shards.
  encode-eq-ok :
      (cipher : Bytes) {shards : List Bytes}
      → encode code cipher ≡ ok shards
      → (recovery : List Bytes) × (code.encode 10 4 (stripe 10 (shard_len (length cipher)) cipher)
          ≡ ok recovery)
        × (shards ≡ stripe 10 (shard_len (length cipher)) cipher ++ recovery)
  unfolding encode
  encode-eq-ok cipher {shards} e =
      let sl = shard_len (length cipher) in
      by_result (code.encode 10 4 (stripe 10 sl cipher)) (rw (data_shards-stripe cipher) at e)
    where
      by_result :
          (r : Result String (List Bytes))
          → (map_err r >>= λ recovery.
              ok (stripe 10 (shard_len (length cipher)) cipher ++ recovery))
            ≡ ok shards
          → (recovery : List Bytes) × (r ≡ ok recovery)
            × (shards ≡ stripe 10 (shard_len (length cipher)) cipher ++ recovery)
      by_result (ok recovery) h = (recovery, refl, cc)
      by_result (err x) h = cc
      by_result panic h = cc

  -- The stripes, cut at the chunk's length, are the chunk.
  take-concat-stripe :
      (cipher : Bytes)
      → take (length cipher) (concat (stripe 10 (shard_len (length cipher)) cipher)) ≡ cipher
  take-concat-stripe cipher =
      let (_, _, holds, _) = shard_len_bounds (length cipher) in
      ap (take (length cipher)) (concat-stripe 10 (shard_len (length cipher)) cipher (omega arith))
      ∙ take-append cipher _

  -- The path with lost data shards.
  reassembled :
      (cipher : Bytes) (recovery : List Bytes) (present : List (Option Bytes))
      → code.encode 10 4 (stripe 10 (shard_len (length cipher)) cipher) ≡ ok recovery
      → Kept (take 10 present) (stripe 10 (shard_len (length cipher)) cipher)
      → Kept (drop 10 present) recovery
      → 10 ≤ held (take 10 present) + held (drop 10 present)
      → decode_and_reassemble code present (length cipher) ≡ ok cipher
  reassembled cipher recovery present made kept_o kept_r enough =
      let sl = shard_len (length cipher) in
      let stripes = stripe 10 sl cipher in
      let (restored, decoded, back) =
        lawful.decode_encode sl stripes recovery (take 10 present) (drop 10 present) refl
          (stripe_lengths 10 sl cipher) made kept_o kept_r enough in
      let four = lawful.recovery_count stripes recovery made in
      let first : first_len present ≡ some sl =
        ap first_len (sym (take-append-drop 10 present))
        ∙ first_len-append (take 10 present) (drop 10 present) stripes sl kept_o
            (stripe_lengths 10 sl cipher)
            (omega (arith, held-le (drop 10 present) recovery kept_r)) in
      let found = pick_found 10 present restored stripes kept_o back in
      let filled : reassemble present restored sl 10 0 (zeros (sl * 10)) ≡ ok (concat stripes) =
        ap (λ n. reassemble present restored sl 10 0 (zeros n))
          (let e : sl * 10 ≡ 10 * sl = omega arith in e)
        ∙ reassemble_lem present restored sl 0 [] stripes (omega arith)
            (stripe_lengths 10 sl cipher)
            (λ j s e.
              ap (λ i. pick (get_elem? present i) (restored i))
                (let i : 0 + j ≡ j = omega arith in i)
              ∙ found j s e) in
      rw (decoded, first, filled) (ap ok (take-concat-stripe cipher))

  -- Whichever shards of an encoded chunk are lost, if ten of the fourteen are held then
  -- `reconstruct` succeeds and returns the chunk: on the fast path, where the ten data shards are
  -- held, and through the decoder.
  pub reconstruct-encode :
      (cipher : Bytes) (shards : List Bytes) (present : List (Option Bytes))
      → encode code cipher ≡ ok shards
      → Kept present shards
      → 10 ≤ held present
      → reconstruct code present (length cipher) ≡ ok cipher
  unfolding reconstruct
  reconstruct-encode cipher shards present encoded kept enough =
      let sl = shard_len (length cipher) in
      let (recovery, made, parts) = encode-eq-ok cipher encoded in
      let (kept_o, kept_r) =
        Kept-append present (stripe 10 sl cipher) recovery (subst (Kept present) parts kept) in
      let count : held (take 10 present) + held (drop 10 present) ≡ held present =
        sym (held-append (take 10 present) (drop 10 present))
        ∙ ap held (take-append-drop 10 present) in
      elim (Bool-cases (all_some (take 10 present))) [
        | inl whole ↦ rw whole (
            ap ok (
              ap (take (length cipher)) (concat_held-concat (take 10 present) _ kept_o whole)
              ∙ take-concat-stripe cipher))
        | inr lost ↦
            rw lost (reassembled cipher recovery present made kept_o kept_r (omega (arith, count)))
      ]
