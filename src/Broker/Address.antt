-- ===== src/Broker/Address.antt =====
-- crates/ql-broker/src/policy.rs: the addresses that an agent must never reach. An address is its
-- octets or its segments; a mask of high bits is a division.
pub mod Blocks
use quantmlayer.Prelude.{
  ℕ, ◌*◌, ◌/◌, ◌%◌, Bool, true, false, ◌&&◌, ◌||◌, Option, none, some, ◌==◌, leb, if◌then◌else◌,
}

pub record Ipv4 : Type 0 where
  pub a : ℕ
  pub b : ℕ
  pub c : ℕ
  pub d : ℕ

pub record Ipv6 : Type 0 where
  pub s0 : ℕ
  pub s1 : ℕ
  pub s2 : ℕ
  pub s3 : ℕ
  pub s4 : ℕ
  pub s5 : ℕ
  pub s6 : ℕ
  pub s7 : ℕ

pub data IpAddr : Type 0 where
  v4 : Ipv4 → IpAddr
  v6 : Ipv6 → IpAddr

-- The pattern `lo..=hi`.
abbrev pub within : ℕ → ℕ → ℕ → Bool
within lo hi x = leb lo x && leb x hi

unfoldable pub is_blocked_v4 : Ipv4 → Bool
is_blocked_v4 ip =
    (ip.a == 0
      || (ip.a == 10
          || (ip.a == 100 && within 64 127 ip.b
              || (ip.a == 127
                  || (ip.a == 169 && ip.b == 254
                      || (ip.a == 172 && within 16 31 ip.b
                          || (ip.a == 192 && ip.b == 168
                              || (ip.a == 198 && within 18 19 ip.b
                                  || (within 224 239 ip.a || within 240 255 ip.a)))))))))
    || ((ip.a == 192 && (ip.b == 0 && ip.c == 2)
          || (ip.a == 198 && (ip.b == 51 && ip.c == 100)
              || ip.a == 203 && (ip.b == 0 && ip.c == 113)))
        || ip.a == 192 && (ip.b == 0 && ip.c == 0))

-- Ipv6Addr::to_ipv4_mapped
unfoldable pub to_ipv4_mapped : Ipv6 → Option Ipv4
to_ipv4_mapped ip =
    if (ip.s0 == 0
      && (ip.s1 == 0 && (ip.s2 == 0 && (ip.s3 == 0 && (ip.s4 == 0 && ip.s5 == 65535)))))
    then some (record { a = ip.s6 / 256; b = ip.s6 % 256; c = ip.s7 / 256; d = ip.s7 % 256 })
    else none

abbrev pub low_zero : Ipv6 → Bool
low_zero ip =
    ip.s0 == 0
    && (ip.s1 == 0 && (ip.s2 == 0 && (ip.s3 == 0 && (ip.s4 == 0 && (ip.s5 == 0 && ip.s6 == 0)))))

unfoldable pub is_blocked_v6 : Ipv6 → Bool
unfolding to_ipv4_mapped is_blocked_v4
is_blocked_v6 ip = elim (to_ipv4_mapped ip) [
  | some m ↦ is_blocked_v4 m
  | none ↦
      low_zero ip && ip.s7 == 1
      || (low_zero ip && ip.s7 == 0
          || (ip.s0 / 512 * 512 == 64512
              || (ip.s0 / 64 * 64 == 65152
                  || (ip.s0 / 256 * 256 == 65280 || ip.s0 == 8193 && ip.s1 == 3512))))
]

unfoldable pub is_blocked_ip : IpAddr → Bool
unfolding is_blocked_v4 is_blocked_v6
is_blocked_ip (v4 ip) = is_blocked_v4 ip
is_blocked_ip (v6 ip) = is_blocked_v6 ip
