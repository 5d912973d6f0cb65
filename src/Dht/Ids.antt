-- ===== src/Dht/Ids.antt =====
-- p2p/src/dht.rs: node ids of 160 bits, the XOR distance, bucket indices, and ids in hexadecimal.
pub mod Distance
pub mod Hex
use Prim.Native.Nat.{bit_xor}
use p2pnas.Prelude.{
  ℕ, zero, suc, ◌+◌, ◌-◌, ◌*◌, ◌/◌, ◌%◌, List, [], ◌∷◌, ◌++◌, Option, none, some, length, take,
  drop, ltb, leb, ◌==◌, ◌&&◌, if◌then◌else◌,
}

abbrev pub id_len : ℕ
id_len = 20

-- `[u8; ID_LEN]`
abbrev pub NodeId : Type 0
NodeId = List ℕ

-- The loop over the bytes of two arrays of one length.
unfoldable pub xor : NodeId → NodeId → NodeId
xor [] bs = []
xor (a ∷ as') [] = []
xor (a ∷ as') (b ∷ bs) = bit_xor a b ∷ xor as' bs

-- `u8::leading_zeros`
unfoldable pub leading_zeros : ℕ → ℕ
leading_zeros b =
    if leb 128 b
    then 0
    else if leb 64 b
    then 1
    else if leb 32 b
    then 2
    else if leb 16 b
    then 3
    else if leb 8 b
    then 4
    else if leb 4 b
    then 5
    else if leb 2 b
    then 6
    else if leb 1 b
    then 7
    else 8

-- The loop from byte `i` on.
unfoldable pub bucket_index_from : ℕ → NodeId → Option ℕ
bucket_index_from i [] = none
bucket_index_from i (b ∷ bs) =
    let rest = bucket_index_from (suc i) bs in
    if b == 0 then rest else some (i * 8 + leading_zeros b)

unfoldable pub bucket_index : NodeId → Option ℕ
unfolding bucket_index_from
bucket_index distance = bucket_index_from 0 distance

-- A hexadecimal digit in lower case, and either case read back.
unfoldable pub hex_digit : ℕ → ℕ
hex_digit n = if ltb n 10 then b'0' + n else b'a' + (n - 10)

unfoldable pub digit_value : ℕ → Option ℕ
digit_value c =
    if leb b'0' c && leb c b'9'
    then some (c - b'0')
    else if leb b'a' c && leb c b'f'
    then some (c - b'a' + 10)
    else if leb b'A' c && leb c b'F'
    then some (c - b'A' + 10)
    else none

-- The text of an id, as its characters.
unfoldable pub hex : NodeId → List ℕ
hex [] = []
hex (b ∷ bs) = hex_digit (b / 16) ∷ hex_digit (b % 16) ∷ hex bs

-- `u8::from_str_radix` at base 16 on two characters: one sign `+` may stand before one digit.
unfoldable pub byte_of : ℕ → ℕ → Option ℕ
byte_of c d = if c == b'+' then digit_value d else elim (digit_value c) [
  | none ↦ none
  | some high ↦ elim (digit_value d) [ none ↦ none | some low ↦ some (high * 16 + low) ]
]

-- A byte that is read goes in front of the others; any failure is final.
abbrev pub cons_byte : Option ℕ → Option NodeId → Option NodeId
cons_byte none r = none
cons_byte (some b) none = none
cons_byte (some b) (some bs) = some (b ∷ bs)

-- The loop over the bytes; two characters are taken for each.
unfoldable pub unhex_pairs : List ℕ → Option NodeId
unhex_pairs [] = some []
unhex_pairs (c ∷ []) = none
unhex_pairs (c ∷ d ∷ s) = cons_byte (byte_of c d) (unhex_pairs s)

unfoldable pub unhex : List ℕ → Option NodeId
unfolding unhex_pairs
unhex s = if length s == id_len * 2 then unhex_pairs s else none
