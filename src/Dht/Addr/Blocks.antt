-- ===== src/Dht/Addr/Blocks.antt =====
-- The address filter against the registered address blocks, and what the permissive policy lets pass.
use p2pnas.Prelude.{
  ℕ, ◌+◌, ◌*◌, ◌/◌, ◌%◌, ◌≤◌, ◌<◌, ◌≡◌, refl, ◌↔◌, ◌⊎◌, inl, inr, Bool, true, false, not, ◌&&◌,
  ◌||◌, ltb, leb, ◌==◌, List, [], ◌∷◌, arith,
}
use p2pnas.Dht.Addr.{
  IpAddr, v4, v6, allow_private, is_unspecified_v4, is_loopback_v4, is_private, is_link_local,
  is_broadcast_v4, is_multicast_v4, is_documentation, is_routable_v4, is_routable_v6,
  is_routable_ip, is_broadcast, accepts_ip,
}

-- An address as one number of 32 bits.
abbrev pub value : ℕ → ℕ → ℕ → ℕ → ℕ
value a b c d = a * 16_777_216 + b * 65_536 + c * 256 + d

-- A block: its first address and how many it has.
abbrev pub Block : Type 0
Block = ℕ × ℕ

-- The address lies in one of the blocks.
abbrev pub InSome : ℕ → List Block → Type 0
InSome x [] = ⊥
InSome x ((base, size) ∷ blocks) = ((base ≤ x) × (x < base + size)) ⊎ InSome x blocks

-- 0.0.0.0/8, 10.0.0.0/8, 100.64.0.0/10, 127.0.0.0/8, 169.254.0.0/16, 172.16.0.0/12, 192.0.2.0/24,
-- 192.168.0.0/16, 198.18.0.0/15, 198.51.100.0/24, 203.0.113.0/24, 224.0.0.0/4 and 240.0.0.0/4.
abbrev pub special_blocks : List Block
special_blocks =
    (value 0 0 0 0, 16_777_216)
    ∷ (value 10 0 0 0, 16_777_216)
    ∷ (value 100 64 0 0, 4_194_304)
    ∷ (value 127 0 0 0, 16_777_216)
    ∷ (value 169 254 0 0, 65_536)
    ∷ (value 172 16 0 0, 1_048_576)
    ∷ (value 192 0 2 0, 256)
    ∷ (value 192 168 0 0, 65_536)
    ∷ (value 198 18 0 0, 131_072)
    ∷ (value 198 51 100 0, 256)
    ∷ (value 203 0 113 0, 256)
    ∷ (value 224 0 0 0, 268_435_456)
    ∷ (value 240 0 0 0, 268_435_456)
    ∷ []

pub or_true : (x : Bool) → (x || true) ≡ true
or_true true = refl
or_true false = refl

or_split : (x y : Bool) → (x || y) ≡ true → (x ≡ true) ⊎ (y ≡ true)
or_split true y h = inl refl
or_split false y h = inr h

negated : (x : Bool) → not x ≡ false → x ≡ true
negated true h = refl
negated false h = cc

module _ (a b c d : ℕ) (ha : a < 256) (hb : b < 256) (hc : c < 256) (hd : d < 256) where
  abbrev x : ℕ
  x = value a b c d

  hit_unspecified : (is_unspecified_v4 a b c d) ≡ true → InSome x special_blocks
  hit_unspecified h = ground arith

  hit_loopback : (is_loopback_v4 a b c d) ≡ true → InSome x special_blocks
  hit_loopback h = ground arith

  hit_private : (is_private a b c d) ≡ true → InSome x special_blocks
  hit_private h = ground arith

  hit_link_local : (is_link_local a b c d) ≡ true → InSome x special_blocks
  hit_link_local h = ground arith

  hit_broadcast : (is_broadcast_v4 a b c d) ≡ true → InSome x special_blocks
  hit_broadcast h = ground arith

  hit_multicast : (is_multicast_v4 a b c d) ≡ true → InSome x special_blocks
  hit_multicast h = ground arith

  hit_documentation : (is_documentation a b c d) ≡ true → InSome x special_blocks
  hit_documentation h = ground arith

  hit_this_network : (a == 0) ≡ true → InSome x special_blocks
  hit_this_network h = ground arith

  hit_cgnat : ((a == 100) && (leb 64 b && ltb b 128)) ≡ true → InSome x special_blocks
  hit_cgnat h = ground arith

  hit_benchmarking : ((a == 198) && ((b == 18) || (b == 19))) ≡ true → InSome x special_blocks
  hit_benchmarking h = ground arith

  hit_reserved : (leb 240 a) ≡ true → InSome x special_blocks
  hit_reserved h = ground arith

  inside : is_routable_v4 a b c d ≡ false → InSome x special_blocks
  unfolding is_routable_v4
  inside h = elim (or_split _ _ (negated _ h)) [
    | inl t ↦ hit_unspecified t
    | inr r0 ↦ elim (or_split _ _ r0) [
      | inl t ↦ hit_loopback t
      | inr r1 ↦ elim (or_split _ _ r1) [
        | inl t ↦ hit_private t
        | inr r2 ↦ elim (or_split _ _ r2) [
          | inl t ↦ hit_link_local t
          | inr r3 ↦ elim (or_split _ _ r3) [
            | inl t ↦ hit_broadcast t
            | inr r4 ↦ elim (or_split _ _ r4) [
              | inl t ↦ hit_multicast t
              | inr r5 ↦ elim (or_split _ _ r5) [
                | inl t ↦ hit_documentation t
                | inr r6 ↦ elim (or_split _ _ r6) [
                  | inl t ↦ hit_this_network t
                  | inr r7 ↦ elim (or_split _ _ r7) [
                    | inl t ↦ hit_cgnat t
                    | inr r8 ↦ elim (or_split _ _ r8) [
                      | inl t ↦ hit_benchmarking t
                      | inr r9 ↦ hit_reserved r9
                    ]
                  ]
                ]
              ]
            ]
          ]
        ]
      ]
    ]
  ]

  block_0 : value 0 0 0 0 ≤ x → x < value 0 0 0 0 + 16_777_216 → (a == 0) ≡ true
  block_0 lo hi = ground arith

  block_1 : value 10 0 0 0 ≤ x → x < value 10 0 0 0 + 16_777_216 → (is_private a b c d) ≡ true
  block_1 lo hi = ground arith

  block_2 :
      value 100 64 0 0 ≤ x
      → x < value 100 64 0 0 + 4_194_304
      → ((a == 100) && (leb 64 b && ltb b 128)) ≡ true
  block_2 lo hi = ground arith

  block_3 : value 127 0 0 0 ≤ x → x < value 127 0 0 0 + 16_777_216 → (is_loopback_v4 a b c d) ≡ true
  block_3 lo hi = ground arith

  block_4 : value 169 254 0 0 ≤ x → x < value 169 254 0 0 + 65_536 → (is_link_local a b c d) ≡ true
  block_4 lo hi = ground arith

  block_5 : value 172 16 0 0 ≤ x → x < value 172 16 0 0 + 1_048_576 → (is_private a b c d) ≡ true
  block_5 lo hi = ground arith

  block_6 : value 192 0 2 0 ≤ x → x < value 192 0 2 0 + 256 → (is_documentation a b c d) ≡ true
  block_6 lo hi = ground arith

  block_7 : value 192 168 0 0 ≤ x → x < value 192 168 0 0 + 65_536 → (is_private a b c d) ≡ true
  block_7 lo hi = ground arith

  block_8 :
      value 198 18 0 0 ≤ x
      → x < value 198 18 0 0 + 131_072
      → ((a == 198) && ((b == 18) || (b == 19))) ≡ true
  block_8 lo hi = ground arith

  block_9 :
      value 198 51 100 0 ≤ x → x < value 198 51 100 0 + 256 → (is_documentation a b c d) ≡ true
  block_9 lo hi = ground arith

  block_10 : value 203 0 113 0 ≤ x → x < value 203 0 113 0 + 256 → (is_documentation a b c d) ≡ true
  block_10 lo hi = ground arith

  block_11 :
      value 224 0 0 0 ≤ x → x < value 224 0 0 0 + 268_435_456 → (is_multicast_v4 a b c d) ≡ true
  block_11 lo hi = ground arith

  block_12 : value 240 0 0 0 ≤ x → x < value 240 0 0 0 + 268_435_456 → (leb 240 a) ≡ true
  block_12 lo hi = ground arith

  outside : InSome x special_blocks → is_routable_v4 a b c d ≡ false
  unfolding is_routable_v4
  outside h = elim h [
    | inl (lo, hi) ↦ simp (block_0 lo hi, or_true)
    | inr h0 ↦ elim h0 [
      | inl (lo, hi) ↦ simp (block_1 lo hi, or_true)
      | inr h1 ↦ elim h1 [
        | inl (lo, hi) ↦ simp (block_2 lo hi, or_true)
        | inr h2 ↦ elim h2 [
          | inl (lo, hi) ↦ simp (block_3 lo hi, or_true)
          | inr h3 ↦ elim h3 [
            | inl (lo, hi) ↦ simp (block_4 lo hi, or_true)
            | inr h4 ↦ elim h4 [
              | inl (lo, hi) ↦ simp (block_5 lo hi, or_true)
              | inr h5 ↦ elim h5 [
                | inl (lo, hi) ↦ simp (block_6 lo hi, or_true)
                | inr h6 ↦ elim h6 [
                  | inl (lo, hi) ↦ simp (block_7 lo hi, or_true)
                  | inr h7 ↦ elim h7 [
                    | inl (lo, hi) ↦ simp (block_8 lo hi, or_true)
                    | inr h8 ↦ elim h8 [
                      | inl (lo, hi) ↦ simp (block_9 lo hi, or_true)
                      | inr h9 ↦ elim h9 [
                        | inl (lo, hi) ↦ simp (block_10 lo hi, or_true)
                        | inr h10 ↦ elim h10 [
                          | inl (lo, hi) ↦ simp (block_11 lo hi, or_true)
                          | inr h11 ↦ elim h11 [
                            | inl (lo, hi) ↦ simp (block_12 lo hi, or_true)
                            | inr h12 ↦ absurd h12
                          ]
                        ]
                      ]
                    ]
                  ]
                ]
              ]
            ]
          ]
        ]
      ]
    ]
  ]

  -- An IPv4 address is refused exactly where it lies in one of the thirteen blocks that are never
  -- globally routable.
  pub is_routable_v4_iff : (is_routable_v4 a b c d ≡ false) ↔ InSome x special_blocks
  is_routable_v4_iff = (inside, outside)

  -- The IPv6 spelling `::ffff:a.b.c.d` of the address.
  abbrev pub mapped : IpAddr
  mapped = v6 0 0 0 0 0 0xffff (a * 256 + b) (c * 256 + d)

  -- The public policy judges an IPv4-mapped address as the IPv4 address that it spells.
  pub is_routable_ip-mapped : is_routable_ip mapped ≡ is_routable_ip (v4 a b c d)
  unfolding is_routable_ip is_routable_v6
  is_routable_ip-mapped =
      let first : (a * 256 + b) / 256 ≡ a = omega arith in
      let second : (a * 256 + b) % 256 ≡ b = omega arith in
      let third : (c * 256 + d) / 256 ≡ c = omega arith in
      let fourth : (c * 256 + d) % 256 ≡ d = omega arith in rw (first, second, third, fourth)

  -- The permissive policy accepts the mapped spelling of every IPv4 address, of those too that it
  -- refuses when they are spelled plainly: the unspecified, the multicast and the broadcast ones.
  pub accepts_ip-mapped : accepts_ip allow_private mapped ≡ true
  unfolding accepts_ip is_broadcast
  accepts_ip-mapped = refl
