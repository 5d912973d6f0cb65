-- ===== src/Store/Chunkstore/Confinement.antt =====
-- Which ids have a path, and where it leads.
use p2pnas.Prelude.{
  ℕ, ◌≡◌, ◌≢◌, true, ◌==◌, ==_iff, [], ◌∷◌, ◌++◌, length, take, All, All-take, Bool-cases, inl, inr,
  arith,
}
use p2pnas.Prelude.Results.{ok}
use p2pnas.Store.Chunkstore.{Text, PathBuf, is_ascii_hexdigit, all_hex, is_valid_fragment_id, path}

-- Neither a separator nor a dot.
abbrev pub IsPlain : ℕ → Type 0
IsPlain c = (c ≢ b'/') × (c ≢ b'.')

hex-IsPlain : (c : ℕ) → is_ascii_hexdigit c ≡ true → IsPlain c
unfolding is_ascii_hexdigit
hex-IsPlain c h = (λ e. cc (rw e at h), λ e. cc (rw e at h))

all_hex-IsPlain : (s : Text) → all_hex s ≡ true → All IsPlain s
unfolding all_hex
all_hex-IsPlain [] h = tt
all_hex-IsPlain (c ∷ s) h =
    let split : (is_ascii_hexdigit c ≡ true) × (all_hex s ≡ true) = (ground arith, ground arith) in
    (hex-IsPlain c split.0, all_hex-IsPlain s split.1)

pub valid_parts :
    (id : Text) → is_valid_fragment_id id ≡ true → (length id ≡ 32) × (all_hex id ≡ true)
unfolding is_valid_fragment_id
valid_parts id h =
    let len : (length id == 32) ≡ true = ground arith in
    let hex : all_hex id ≡ true = ground arith in ((==_iff (length id) 32).0 len, hex)

-- Whatever id comes over the wire, a path that is made of it is the root's with two components more: the
-- first two characters of the id and the id, of 32 characters, none of them a separator or a dot. So no
-- id leads out of the root.
pub path_confined :
    (root : PathBuf) (id : Text) (p : PathBuf)
    → path root id ≡ ok p
    → (p ≡ root ++ (take 2 id ∷ id ∷ []))
      × (length id ≡ 32)
      × All IsPlain id
      × All IsPlain (take 2 id)
unfolding path
path_confined root id p e = elim (Bool-cases (is_valid_fragment_id id)) [
  | inr invalid ↦ cc (rw invalid at e)
  | inl valid ↦
      let (len, hex) = valid_parts id valid in
      let here : p ≡ root ++ (take 2 id ∷ id ∷ []) = cc (rw valid at e) in
      let plain = all_hex-IsPlain id hex in (here, len, plain, All-take IsPlain 2 id plain)
]
