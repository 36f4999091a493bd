-- ===== src/Broker/Address/Blocks.antt =====
-- The address tests against the blocks that the source's comments name.
use quantmlayer.Prelude.{
  ℕ, ◌+◌, ◌*◌, ◌/◌, ◌%◌, ◌^◌, ◌-◌, ◌<◌, ◌≡◌, refl, Bool, true, false, ◌&&◌, ◌||◌, List, [], ◌∷◌,
  ◌==◌, any, arith,
}
use quantmlayer.Broker.Address.{Ipv4, Ipv6, within, is_blocked_v4, to_ipv4_mapped, is_blocked_v6}

-- An address as the number of its 32 bits.
abbrev pub number : Ipv4 → ℕ
number ip = ip.a * 2 ^ 24 + ip.b * 2 ^ 16 + ip.c * 2 ^ 8 + ip.d

-- A CIDR block: its first address, and how many bits it leaves free.
abbrev pub in_block : ℕ → ℕ × ℕ → Bool
in_block n (base, free) = n / 2 ^ free == base / 2 ^ free

abbrev pub block : ℕ → ℕ → ℕ → ℕ → ℕ → ℕ × ℕ
block a b c d length = (a * 2 ^ 24 + b * 2 ^ 16 + c * 2 ^ 8 + d, 32 - length)

-- The blocks, as the source's comments list them.
abbrev pub blocked_blocks : List (ℕ × ℕ)
blocked_blocks =
    block 0 0 0 0 8
    ∷ block 10 0 0 0 8
    ∷ block 100 64 0 0 10
    ∷ block 127 0 0 0 8
    ∷ block 169 254 0 0 16
    ∷ block 172 16 0 0 12
    ∷ block 192 168 0 0 16
    ∷ block 198 18 0 0 15
    ∷ block 224 0 0 0 4
    ∷ block 240 0 0 0 4
    ∷ block 192 0 2 0 24
    ∷ block 198 51 100 0 24
    ∷ block 203 0 113 0 24
    ∷ block 192 0 0 0 24
    ∷ []

pub record IsOctets (ip : Ipv4) : Type 0 where
  pub a_range : ip.a < 256
  pub b_range : ip.b < 256
  pub c_range : ip.c < 256
  pub d_range : ip.d < 256

module _ (a b c d : ℕ) (ha : a < 256) (hb : b < 256) (hc : c < 256) (hd : d < 256) where
  abbrev bits : ℕ
  bits = a * 2 ^ 24 + b * 2 ^ 16 + c * 2 ^ 8 + d

  one_octet : (x : ℕ) → in_block bits (block x 0 0 0 8) ≡ (a == x)
  one_octet x = ground arith

  two_octets : (x y : ℕ) → y < 256 → in_block bits (block x y 0 0 16) ≡ (a == x && b == y)
  two_octets x y hy = ground arith

  three_octets :
      (x y z : ℕ)
      → y < 256
      → z < 256
      → in_block bits (block x y z 0 24) ≡ (a == x && (b == y && c == z))
  three_octets x y z hy hz = ground arith

  shared_space : in_block bits (block 100 64 0 0 10) ≡ (a == 100 && within 64 127 b)
  shared_space = ground arith

  private_space : in_block bits (block 172 16 0 0 12) ≡ (a == 172 && within 16 31 b)
  private_space = ground arith

  benchmark_space : in_block bits (block 198 18 0 0 15) ≡ (a == 198 && within 18 19 b)
  benchmark_space = ground arith

  multicast_space : in_block bits (block 224 0 0 0 4) ≡ within 224 239 a
  multicast_space = ground arith

  reserved_space : in_block bits (block 240 0 0 0 4) ≡ within 240 255 a
  reserved_space = ground arith

||-shift : (x y z : Bool) → ((x || y) || z) ≡ (x || (y || z))
||-shift true y z = refl
||-shift false y z = refl

||-false : (x : Bool) → (x || false) ≡ x
||-false true = refl
||-false false = refl

-- An IPv4 address is refused exactly when it lies in one of the fourteen blocks that the source's
-- comments name, read as CIDR blocks of the 32-bit number.
pub is_blocked_v4-blocks :
    (ip : Ipv4) → IsOctets ip → is_blocked_v4 ip ≡ any (in_block (number ip)) blocked_blocks
unfolding is_blocked_v4
is_blocked_v4-blocks ip r =
    let record { a = a; b = b; c = c; d = d } = ip in
    let one = one_octet a b c d r.a_range r.b_range r.c_range r.d_range in
    let two = two_octets a b c d r.a_range r.b_range r.c_range r.d_range in
    let three = three_octets a b c d r.a_range r.b_range r.c_range r.d_range in
    let e1 = shared_space a b c d r.a_range r.b_range r.c_range r.d_range in
    let e2 = private_space a b c d r.a_range r.b_range r.c_range r.d_range in
    let e3 = benchmark_space a b c d r.a_range r.b_range r.c_range r.d_range in
    let e4 = multicast_space a b c d r.a_range r.b_range r.c_range r.d_range in
    let e5 = reserved_space a b c d r.a_range r.b_range r.c_range r.d_range in
    rw
      (
        one 0,
        one 10,
        e1,
        one 127,
        two 169 254 (omega arith),
        e2,
        two 192 168 (omega arith),
        e3,
        e4,
        e5,
        three 192 0 2 (omega arith) (omega arith),
        three 198 51 100 (omega arith) (omega arith),
        three 203 0 113 (omega arith) (omega arith),
        three 192 0 0 (omega arith) (omega arith),
      )
      (simp (||-shift, ||-false))

-- The mapped form ::ffff:a.b.c.d.
unfoldable pub mapped : Ipv4 → Ipv6
mapped ip = record {
  s0 = 0;
  s1 = 0;
  s2 = 0;
  s3 = 0;
  s4 = 0;
  s5 = 65535;
  s6 = ip.a * 256 + ip.b;
  s7 = ip.c * 256 + ip.d;
}

-- An IPv4-mapped IPv6 address is refused exactly when the IPv4 address that it carries is.
pub is_blocked_v6-mapped : (ip : Ipv4) → IsOctets ip → is_blocked_v6 (mapped ip) ≡ is_blocked_v4 ip
unfolding is_blocked_v6 to_ipv4_mapped mapped is_blocked_v4
is_blocked_v6-mapped ip r =
    let ha = r.a_range in
    let hb = r.b_range in
    let hc = r.c_range in
    let hd = r.d_range in
    let e1 : (ip.a * 256 + ip.b) / 256 ≡ ip.a = omega arith in
    let e2 : (ip.a * 256 + ip.b) % 256 ≡ ip.b = omega arith in
    let e3 : (ip.c * 256 + ip.d) / 256 ≡ ip.c = omega arith in rw (e1, e2, e3) refl
