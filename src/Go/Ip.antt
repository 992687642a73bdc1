-- ===== src/Go/Ip.antt =====
-- net.IP, as its four bytes or its eight groups, and the kinds of addresses that the engine tells
-- apart. An IPv4 address within IPv6 is read as the IPv4 address.
use red_engine.Prelude.{ℕ, ◌%◌, Bool, ◌&&◌, ◌||◌, eqb, leb, ltb}

pub data Ip : Type 0 where
  v4 : ℕ → ℕ → ℕ → ℕ → Ip
  -- the first group, whether groups two to seven are 0, and the last one
  v6 : ℕ → Bool → ℕ → Ip

abbrev pub is_loopback : Ip → Bool
is_loopback (v4 a b c d) = eqb a 127
is_loopback (v6 first zeros last) = eqb first 0 && zeros && eqb last 1

abbrev pub is_private : Ip → Bool
is_private (v4 a b c d) =
    eqb a 10 || (eqb a 172 && leb 16 b && leb b 31) || (eqb a 192 && eqb b 168)
is_private (v6 first zeros last) = leb 0xfc00 first && ltb first 0xfe00

abbrev pub is_link_local_unicast : Ip → Bool
is_link_local_unicast (v4 a b c d) = eqb a 169 && eqb b 254
is_link_local_unicast (v6 first zeros last) = leb 0xfe80 first && ltb first 0xfec0

-- 224.0.0.0/24; ff02 with any flags
abbrev pub is_link_local_multicast : Ip → Bool
is_link_local_multicast (v4 a b c d) = eqb a 224 && eqb b 0 && eqb c 0
is_link_local_multicast (v6 first zeros last) =
    leb 0xff00 first && ltb first 0x10000 && eqb (first % 16) 2

abbrev pub is_multicast : Ip → Bool
is_multicast (v4 a b c d) = leb 224 a && leb a 239
is_multicast (v6 first zeros last) = leb 0xff00 first && ltb first 0x10000

abbrev pub is_unspecified : Ip → Bool
is_unspecified (v4 a b c d) = eqb a 0 && eqb b 0 && eqb c 0 && eqb d 0
is_unspecified (v6 first zeros last) = eqb first 0 && zeros && eqb last 0
