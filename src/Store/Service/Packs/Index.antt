-- ===== src/Store/Service/Packs/Index.antt =====
-- store/src/service.rs: the index of a pack is read back from its bytes.
use p2pnas.Prelude.{
  ℕ, zero, suc, ◌+◌, ◌-◌, ◌*◌, ◌/◌, ◌%◌, ◌^◌, ◌≤◌, ◌<◌, ◌≡◌, refl, sym, ap, ◌∙◌, Bool, true, false,
  ltb, ltb→lt, ge→ltb, List, [], ◌∷◌, ◌++◌, append_assoc, none, some, All, length, take, drop,
  length-append, take-append, drop-append, arith, Bool-cases, inl, inr,
}
use p2pnas.Prelude.Results.{ok, ok_steps, ok_inj, ◌>>=◌}
use p2pnas.Core.Bytes.{Bytes, be_bytes, length-be_bytes}
use p2pnas.Store.Errors.{StoreResult}
use p2pnas.Store.Manifest.{Text}
use p2pnas.Store.Service.Packs.{
  PackEntry, PackRange, PackIndexEntry, pack_magic, payload, ranges_from, fits_u32, index_of,
  build_pack, pop, from_be_loop, from_be_bytes, read_index_entry, read_index, parse_at,
  parse_pack_index,
}

-- The entries that an index is meant to have, from an offset on.
abbrev pub index_from : ℕ → List PackEntry → List PackIndexEntry
index_from off [] = []
index_from off (e ∷ es) = (e.file_id, off, length e.bytes) ∷ index_from (off + length e.bytes) es

from_be_loop-append :
    (acc : ℕ) (xs : Bytes) (y : ℕ)
    → from_be_loop acc (xs ++ (y ∷ [])) ≡ from_be_loop acc xs * 256 + y
unfolding from_be_loop
from_be_loop-append acc [] y = refl
from_be_loop-append acc (x ∷ xs) y = from_be_loop-append (acc * 256 + x) xs y

from_be_bytes-be_bytes : (w n : ℕ) → n < 256 ^ w → from_be_bytes (be_bytes w n) ≡ n
unfolding from_be_bytes be_bytes
from_be_bytes-be_bytes zero n lt = unfold from_be_loop in omega arith
from_be_bytes-be_bytes (suc w) n lt =
    let ih : from_be_loop 0 (be_bytes w (n / 256)) ≡ n / 256 =
      from_be_bytes-be_bytes w (n / 256) (omega arith) in
    omega (arith, from_be_loop-append 0 (be_bytes w (n / 256)) (n % 256), ih)

pop-append : (n : ℕ) (xs ys : Bytes) → length xs ≡ n → pop n (xs ++ ys) ≡ some (xs, ys)
unfolding pop
pop-append n xs ys e =
    let enough : ltb (length (xs ++ ys)) n ≡ false =
      ge→ltb _ _ (omega (arith, length-append xs ys)) in
    rw enough (
      ap some (λ i. (
        (ap (λ k. take k (xs ++ ys)) (sym e) ∙ take-append xs ys) i,
        (ap (λ k. drop k (xs ++ ys)) (sym e) ∙ drop-append xs ys) i,
      )))

fits_u32_lt : (n : ℕ) (u : Unit {0}) → fits_u32 n ≡ ok u → n < 4_294_967_296
unfolding fits_u32
fits_u32_lt n u e = elim (Bool-cases (ltb n 4_294_967_296)) [
  | inl t ↦ ltb→lt n 4_294_967_296 t
  | inr t ↦ cc (rw (t, fits_u32) at e)
]

module _ (is_utf8 : Bytes → Bool) where
  read_index_entry_lem :
      (id : Text) (off len : ℕ) (rest : Bytes)
      → is_utf8 id ≡ true
      → length id < 256 ^ 4
      → off < 256 ^ 8
      → len < 256 ^ 8
      → read_index_entry is_utf8
          (be_bytes 4 (length id) ++ (id ++ (be_bytes 8 off ++ (be_bytes 8 len ++ rest))))
        ≡ some ((id, off, len), rest)
  unfolding read_index_entry
  read_index_entry_lem id off len rest u a b c =
      rw
        (pop-append 4 (be_bytes 4 (length id)) (id ++ (be_bytes 8 off ++ (be_bytes 8 len ++ rest)))
          (length-be_bytes 4 (length id)))
        (rw (from_be_bytes-be_bytes 4 (length id) a) (
          rw (pop-append (length id) id (be_bytes 8 off ++ (be_bytes 8 len ++ rest)) refl) (
            rw (pop-append 8 (be_bytes 8 off) (be_bytes 8 len ++ rest) (length-be_bytes 8 off)) (
              rw (pop-append 8 (be_bytes 8 len) rest (length-be_bytes 8 len)) (
                rw u (
                  rw (from_be_bytes-be_bytes 8 off b)
                    (rw (from_be_bytes-be_bytes 8 len c) refl)))))))

  read_index_entry_nil : read_index_entry is_utf8 [] ≡ none
  unfolding read_index_entry pop
  read_index_entry_nil = refl

  read_index_step :
      (fuel : ℕ) (cur rest : Bytes) (entry : PackIndexEntry)
      → read_index_entry is_utf8 cur ≡ some (entry, rest)
      → read_index is_utf8 (suc fuel) cur
        ≡ (read_index is_utf8 fuel rest >>= λ entries. ok (entry ∷ entries))
  unfolding read_index
  read_index_step fuel [] rest entry e = let nothing = read_index_entry_nil in cc
  read_index_step fuel (b ∷ cur) rest entry e = rw (e, read_index) refl

  read_index-index_of :
      (es : List PackEntry) (off fuel : ℕ) (index : Bytes)
      → All (λ e. is_utf8 e.file_id ≡ true) es
      → off + length (payload es) < 256 ^ 8
      → index_of es (ranges_from off es) ≡ ok index
      → length index ≤ fuel
      → read_index is_utf8 fuel index ≡ ok (index_from off es)
  unfolding index_of ranges_from payload
  read_index-index_of [] off fuel index u lt e le =
      ap (read_index is_utf8 fuel) (sym (ok_inj e)) ∙ nothing_left fuel
    where
      nothing_left : (k : ℕ) → read_index is_utf8 k [] ≡ ok []
      nothing_left zero = unfold read_index in refl
      nothing_left (suc k) = unfold read_index in refl
  read_index-index_of (x ∷ es) off fuel index (u, us) lt e le =
      let (v, e1, short) = ok_steps (fits_u32 (length x.file_id)) _ e in
      let (rest, e2, others) =
        ok_steps (index_of es (ranges_from (off + length x.bytes) es)) _ e1 in
      let same = ok_inj e2 in
      let small = fits_u32_lt (length x.file_id) v short in
      let len = length-append x.bytes (payload es) in
      let entry =
        read_index_entry_lem x.file_id off (length x.bytes) rest u (omega arith)
          (omega (arith, len)) (omega (arith, len)) in
      let width = ap length same in
      let size =
        length-append (be_bytes 4 (length x.file_id))
          (x.file_id ++ (be_bytes 8 off ++ (be_bytes 8 (length x.bytes) ++ rest))) in
      let four = length-be_bytes 4 (length x.file_id) in
      let after =
        length-append x.file_id (be_bytes 8 off ++ (be_bytes 8 (length x.bytes) ++ rest)) in
      let then_8 = length-append (be_bytes 8 off) (be_bytes 8 (length x.bytes) ++ rest) in
      let then_len = length-append (be_bytes 8 (length x.bytes)) rest in
      more fuel (omega (arith, width, size, four)) le (λ k le'.
        ap (read_index is_utf8 (suc k)) (sym same)
        ∙ read_index_step k _ rest (x.file_id, off, length x.bytes) entry
        ∙ ap
            (λ (r : StoreResult (List PackIndexEntry)).
              r >>= λ entries. ok ((x.file_id, off, length x.bytes) ∷ entries))
            (read_index-index_of es (off + length x.bytes) k rest us (omega (arith, len)) others
              (omega (arith, width, size, four, after, then_8, then_len, le'))))
    where
      more :
          (k : ℕ)
          → 1 ≤ length index
          → length index ≤ k
          → ((j : ℕ)
              → length index ≤ suc j
              → read_index is_utf8 (suc j) index
                ≡ ok ((x.file_id, off, length x.bytes) ∷ index_from (off + length x.bytes) es))
          → read_index is_utf8 k index
            ≡ ok ((x.file_id, off, length x.bytes) ∷ index_from (off + length x.bytes) es)
      more zero one h step = absurd (omega (arith, one, h))
      more (suc k) one h step = step k h

-- What stands after a front of a known length.
drop_front : (n : ℕ) (xs ys : Bytes) → length xs ≡ n → drop n (xs ++ ys) ≡ ys
drop_front n xs ys e = ap (λ k. drop k (xs ++ ys)) (sym e) ∙ drop-append xs ys

take_front : (n : ℕ) (xs ys : Bytes) → length xs ≡ n → take n (xs ++ ys) ≡ xs
take_front n xs ys e = ap (λ k. take k (xs ++ ys)) (sym e) ∙ take-append xs ys

module _ (is_utf8 : Bytes → Bool) (front index : Bytes) (small : length index < 256 ^ 4) where
  -- A pack in the order of its parts.
  pack : Bytes
  pack = front ++ (index ++ (be_bytes 4 (length index) ++ pack_magic))

  length-pack : length pack ≡ length front + length index + 12
  unfolding pack
  length-pack =
      let a = length-append front (index ++ (be_bytes 4 (length index) ++ pack_magic)) in
      let b = length-append index (be_bytes 4 (length index) ++ pack_magic) in
      let c = length-append (be_bytes 4 (length index)) pack_magic in
      omega (arith, a, b, c, length-be_bytes 4 (length index))

  written : Bytes
  written = be_bytes 4 (length index)

  drop_to_length : drop (length pack - 12) pack ≡ written ++ pack_magic
  unfolding pack written
  drop_to_length =
      ap (drop (length pack - 12)) (sym (append_assoc front index (written ++ pack_magic)))
      ∙ drop_front _ (front ++ index) (written ++ pack_magic)
          (omega (arith, length-pack, length-append front index))

  drop_to_magic : drop (length pack - 8) pack ≡ pack_magic
  unfolding pack written
  drop_to_magic =
      ap (drop (length pack - 8)) (
        sym (append_assoc front index (written ++ pack_magic))
        ∙ sym (append_assoc (front ++ index) written pack_magic))
      ∙ drop_front _ ((front ++ index) ++ written) pack_magic (
          omega (
            arith,
            length-pack,
            length-append front index,
            length-append (front ++ index) written,
            length-be_bytes 4 (length index),
          ))

  drop_to_index : drop (length pack - 12 - length index) pack ≡ index ++ (written ++ pack_magic)
  unfolding pack written
  drop_to_index = drop_front _ front (index ++ (written ++ pack_magic)) (omega (arith, length-pack))

  length_written : from_be_bytes (take 4 (drop (length pack - 12) pack)) ≡ length index
  unfolding written
  length_written = rw drop_to_length (
      rw (take_front 4 written pack_magic (length-be_bytes 4 (length index)))
        (from_be_bytes-be_bytes 4 (length index) small))

  parse_pack_index-pack : parse_pack_index is_utf8 pack ≡ read_index is_utf8 (length index) index
  unfolding parse_pack_index
  parse_pack_index-pack =
      let long8 : ltb (length pack) 8 ≡ false = ge→ltb _ _ (omega (arith, length-pack)) in
      let long12 : ltb (length pack) 12 ≡ false = ge→ltb _ _ (omega (arith, length-pack)) in
      rw long8 (rw drop_to_magic (rw long12 at_length))
    where
      at_length : parse_at is_utf8 pack (length pack - 12) ≡ read_index is_utf8 (length index) index
      at_length =
          unfold parse_at in
          let inside : ltb (length pack - 12) (length index) ≡ false =
            ge→ltb _ _ (omega (arith, length-pack)) in
          rw length_written (
            rw inside (
              rw drop_to_index
                (rw (take_front (length index) index (written ++ pack_magic) refl) refl)))

-- The index of a pack is read back from the pack's bytes alone, and it is the one that is meant: of each
-- member its id, the number of bytes before it, and its length. The ids are UTF-8, and the members have
-- less than 2^64 bytes.
pub parse_pack_index-build_pack :
    (is_utf8 : Bytes → Bool) (entries : List PackEntry) (plain : Bytes) (ranges : List PackRange)
    → build_pack entries ≡ ok (plain, ranges)
    → All (λ e. is_utf8 e.file_id ≡ true) entries
    → length (payload entries) < 256 ^ 8
    → parse_pack_index is_utf8 plain ≡ ok (index_from 0 entries)
unfolding build_pack
parse_pack_index-build_pack is_utf8 entries plain ranges e utf8 fits =
    let (index, e1, indexed) = ok_steps (index_of entries (ranges_from 0 entries)) _ e in
    let (u, e2, short) = ok_steps (fits_u32 (length index)) _ e1 in
    let small = fits_u32_lt (length index) u short in
    let same = ap (λ (t : Bytes × List PackRange). t.0) (ok_inj e2) in
    let whole : parse_pack_index is_utf8
          (payload entries ++ (index ++ (be_bytes 4 (length index) ++ pack_magic)))
        ≡ read_index is_utf8 (length index) index =
      unfold pack in parse_pack_index-pack is_utf8 (payload entries) index (omega (arith, small)) in
    ap (parse_pack_index is_utf8) (sym same)
    ∙ whole
    ∙ read_index-index_of is_utf8 entries 0 (length index) index utf8 (omega (arith, fits)) indexed
        (omega arith)
