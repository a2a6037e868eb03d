-- ===== src/Http/Address/Blocks.antt =====
-- `public_address` against the address blocks that it stands for, as prefixes of an address.
use Prim.Native.Nat.{bit_and}
use cyberwatch_rs.Prelude.{
  if◌then◌else◌, ltb, leb, ◌==◌, number_eq, any, ℕ, zero, suc, ◌+◌, ◌-◌, ◌*◌, ◌/◌, ◌^◌, ◌<◌, ◌≡◌,
  refl, Bool, true, false, not, ◌&&◌, ◌||◌, List, [], ◌∷◌, arith,
}
use cyberwatch_rs.Http.Address.{public_address, v4, v6}

-- The address block `base/bits`, for addresses of 32 bits.
pub record Block : Type 0 where
  pub base : ℕ
  pub bits : ℕ

abbrev pub quad : ℕ → ℕ → ℕ → ℕ → ℕ
quad a b c d = a * 2 ^ 24 + b * 2 ^ 16 + c * 2 ^ 8 + d

abbrev pub block : ℕ → ℕ → ℕ → ℕ → ℕ → Block
block a b c d bits = record { base = quad a b c d; bits = bits }

abbrev pub covers : ℕ → Block → Bool
covers ip k = ip / 2 ^ (32 - k.bits) == k.base / 2 ^ (32 - k.bits)

-- Private, loopback, link-local, unspecified, multicast and reserved, shared, protocol
-- assignments, documentation, 6to4 relays and benchmarking.
abbrev pub special_v4 : List Block
special_v4 =
    block 10 0 0 0 8
    ∷ block 172 16 0 0 12
    ∷ block 192 168 0 0 16
    ∷ block 127 0 0 0 8
    ∷ block 169 254 0 0 16
    ∷ block 0 0 0 0 8
    ∷ block 224 0 0 0 3
    ∷ block 100 64 0 0 10
    ∷ block 192 0 0 0 24
    ∷ block 192 0 2 0 24
    ∷ block 192 88 99 0 24
    ∷ block 198 18 0 0 15
    ∷ block 198 51 100 0 24
    ∷ block 203 0 113 0 24
    ∷ []

module _ (a b c d : ℕ) (ha : a < 256) (hb : b < 256) (hc : c < 256) (hd : d < 256) where
  covers_8 : (x : ℕ) → (quad a b c d / 2 ^ 24 == x) ≡ (a == x)
  covers_8 x = ground arith

  covers_16 : (x y : ℕ) → y < 256 → (quad a b c d / 2 ^ 16 == x * 256 + y) ≡ (a == x && b == y)
  covers_16 x y h = ground arith

  covers_24 :
      (x y z : ℕ)
      → y < 256
      → z < 256
      → (quad a b c d / 2 ^ 8 == x * 65536 + y * 256 + z) ≡ (a == x && (b == y && c == z))
  covers_24 x y z h k = ground arith

  covers_172 : (quad a b c d / 2 ^ 20 == 2753) ≡ (a == 172 && (leb 16 b && leb b 31))
  covers_172 = ground arith

  covers_224 : (quad a b c d / 2 ^ 29 == 7) ≡ leb 224 a
  covers_224 = ground arith

  covers_100 : (quad a b c d / 2 ^ 22 == 401) ≡ (a == 100 && (leb 64 b && leb b 127))
  covers_100 = ground arith

  covers_198 : (quad a b c d / 2 ^ 17 == 25353) ≡ (a == 198 && (b == 18 || b == 19))
  covers_198 = ground arith

or_assoc : (p q r : Bool) → ((p || q) || r) ≡ (p || (q || r))
or_assoc true q r = refl
or_assoc false q r = refl

or-false : (p : Bool) → (p || false) ≡ p
or-false true = refl
or-false false = refl

and-or : (p q r : Bool) → (p && (q || r)) ≡ (p && q || p && r)
and-or true q r = refl
and-or false q r = refl

ruleset boolean_laws = (or_assoc, or-false, and-or)

-- An IPv4 destination is refused exactly when one of the special blocks covers it.
pub public_address_v4 :
    (a b c d : ℕ)
    → a < 256
    → b < 256
    → c < 256
    → d < 256
    → public_address (v4 a b c d) ≡ not (any (covers (quad a b c d)) special_v4)
unfolding public_address
public_address_v4 a b c d ha hb hc hd =
    rw
      (
        covers_8 a b c d ha hb hc hd 10,
        covers_172 a b c d ha hb hc hd,
        covers_16 a b c d ha hb hc hd 192 168 (omega arith),
        covers_8 a b c d ha hb hc hd 127,
        covers_16 a b c d ha hb hc hd 169 254 (omega arith),
        covers_8 a b c d ha hb hc hd 0,
        covers_224 a b c d ha hb hc hd,
        covers_100 a b c d ha hb hc hd,
        covers_24 a b c d ha hb hc hd 192 0 0 (omega arith) (omega arith),
        covers_24 a b c d ha hb hc hd 192 0 2 (omega arith) (omega arith),
        covers_24 a b c d ha hb hc hd 192 88 99 (omega arith) (omega arith),
        covers_198 a b c d ha hb hc hd,
        covers_24 a b c d ha hb hc hd 198 51 100 (omega arith) (omega arith),
        covers_24 a b c d ha hb hc hd 203 0 113 (omega arith) (omega arith),
      )
      (simp boolean_laws)

-- A test of a segment is decided by running it on every number below a bound.
passes_below : (ℕ → Bool) → ℕ → Bool
passes_below test zero = true
passes_below test (suc bound) = if test bound then passes_below test bound else false

passes_below_sound :
    (test : ℕ → Bool) (segment bound : ℕ)
    → segment < bound
    → passes_below test bound ≡ true
    → test segment ≡ true
unfolding passes_below
passes_below_sound test segment zero below passes = absurd (omega arith)
passes_below_sound test segment (suc bound) below passes =
    ground (arith, passes_below_sound test segment bound)

abbrev same : Bool → Bool → Bool
same true b = b
same false b = not b

eq_of_same : (p q : Bool) → same p q ≡ true → p ≡ q
eq_of_same p q h = ground arith

top_bits_table : passes_below (λ x. same (bit_and x 0xe000 == 0x2000) (x / 8192 == 1)) 65536 ≡ true
unfolding passes_below
top_bits_table = refl

-- The mask test of the source is membership of 2000::/3.
top_bits : (x : ℕ) → x < 65536 → (bit_and x 0xe000 == 0x2000) ≡ (x / 8192 == 1)
top_bits x h = eq_of_same _ _ (passes_below_sound _ x 65536 h top_bits_table)

-- The first 32 bits of an IPv6 address, which hold every prefix that is tested.
abbrev pub head_v6 : ℕ → ℕ → ℕ
head_v6 s0 s1 = s0 * 2 ^ 16 + s1

abbrev pub global_unicast : Block
global_unicast = record { base = 0x20000000; bits = 3 }

-- 6to4, protocol assignments (Teredo), and the two documentation blocks.
abbrev pub special_v6 : List Block
special_v6 =
    record { base = 0x20020000; bits = 16 }
    ∷ record { base = 0x20010000; bits = 23 }
    ∷ record { base = 0x20010db8; bits = 32 }
    ∷ record { base = 0x3fff0000; bits = 20 }
    ∷ []

module _ (s0 s1 : ℕ) (h1 : s1 < 65536) where
  covers_global : (head_v6 s0 s1 / 2 ^ 29 == 1) ≡ (s0 / 8192 == 1)
  covers_global = ground arith

  covers_6to4 : (head_v6 s0 s1 / 2 ^ 16 == 0x2002) ≡ (s0 == 0x2002)
  covers_6to4 = ground arith

  covers_teredo : (head_v6 s0 s1 / 2 ^ 9 == 0x100080) ≡ (s0 == 0x2001 && ltb s1 0x200)
  covers_teredo = ground arith

  covers_example : (head_v6 s0 s1 / 2 ^ 0 == 0x20010db8) ≡ (s0 == 0x2001 && s1 == 0xdb8)
  covers_example = ground arith

  covers_3fff : (head_v6 s0 s1 / 2 ^ 12 == 0x3fff0) ≡ (s0 == 0x3fff && ltb s1 0x1000)
  covers_3fff = ground arith

none_of :
    (g p q r s t : Bool)
    → (g && not p && not (q && (r || s)) && not t)
      ≡ (g && not (p || (q && r || (q && s || (t || false)))))
none_of true true q r s t = refl
none_of true false true r s t = ground arith
none_of true false false r s t = ground arith
none_of false p q r s t = refl

-- An IPv6 destination is allowed exactly when it lies in 2000::/3 and in none of the special
-- blocks of that range.
pub public_address_v6 :
    (s0 s1 s2 s3 s4 s5 s6 s7 : ℕ)
    → s0 < 65536
    → s1 < 65536
    → public_address (v6 s0 s1 s2 s3 s4 s5 s6 s7)
      ≡ (covers (head_v6 s0 s1) global_unicast && not (any (covers (head_v6 s0 s1)) special_v6))
unfolding public_address
public_address_v6 s0 s1 s2 s3 s4 s5 s6 s7 h0 h1 =
    rw
      (
        top_bits s0 h0,
        covers_global s0 s1 h1,
        covers_6to4 s0 s1 h1,
        covers_teredo s0 s1 h1,
        covers_example s0 s1 h1,
        covers_3fff s0 s1 h1,
      )
      (none_of _ _ (s0 == 0x2001) (ltb s1 0x200) (s1 == 0xdb8) (s0 == 0x3fff && ltb s1 0x1000))
