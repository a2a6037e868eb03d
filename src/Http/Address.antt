-- ===== src/Http/Address.antt =====
-- `public_address` of src/ingest/http.rs: which destinations the ingestion client may reach.
-- An octet is a number below 256 and a segment one below 65536.
pub mod Blocks
use Prim.Native.Nat.{bit_and}
use cyberwatch_rs.Prelude.{
  ltb, leb, ◌==◌, number_eq, ℕ, ◌≡◌, refl, Bool, true, false, not, ◌&&◌, ◌||◌,
}

pub data IpAddr : Type 0 where
  v4 : (a b c d : ℕ) → IpAddr
  v6 : (s0 s1 s2 s3 s4 s5 s6 s7 : ℕ) → IpAddr

-- `Ipv4Addr::is_private`: 10/8, 172.16/12 and 192.168/16.
abbrev pub is_private : ℕ → ℕ → Bool
is_private a b = a == 10 || (a == 172 && (leb 16 b && leb b 31)) || (a == 192 && b == 168)

abbrev pub is_loopback_v4 : ℕ → Bool
is_loopback_v4 a = a == 127

abbrev pub is_link_local : ℕ → ℕ → Bool
is_link_local a b = a == 169 && b == 254

-- The tests of the IPv4 branch, in the order of the source.
abbrev pub reserved_v4 : ℕ → ℕ → ℕ → Bool
reserved_v4 a b c =
    is_private a b
    || is_loopback_v4 a
    || is_link_local a b
    || a == 0
    || leb 224 a
    || (a == 100 && (leb 64 b && leb b 127))
    || (a == 192 && (b == 0 && (c == 0 || c == 2)))
    || (a == 192 && (b == 88 && c == 99))
    || (a == 198 && (b == 18 || b == 19 || (b == 51 && c == 100)))
    || (a == 203 && (b == 0 && c == 113))

unfoldable pub public_address : IpAddr → Bool
public_address (v4 a b c d) = not (reserved_v4 a b c)
public_address (v6 s0 s1 _ _ _ _ _ _) =
    bit_and s0 0xe000 == 0x2000
    && not (s0 == 0x2002)
    && not (s0 == 0x2001 && (ltb s1 0x200 || s1 == 0xdb8))
    && not (s0 == 0x3fff && ltb s1 0x1000)

metadata_address : public_address (v4 169 254 169 254) ≡ false
unfolding public_address
metadata_address = refl

native_v6 : public_address (v6 0x2606 0x4700 0x4700 0 0 0 0 0x1111) ≡ true
unfolding public_address
native_v6 = refl
