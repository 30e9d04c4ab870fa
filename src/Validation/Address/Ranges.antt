-- ===== src/Validation/Address/Ranges.antt =====
-- The IPv4 addresses that IsPrivateIP (internal/validation/url.go) refuses, as ranges of numbers.
use w8nc.Base.{
  ℕ, ◌+◌, ◌*◌, ◌<◌, ◌≡◌, Bool, false, some, List, [], ◌∷◌, ◌&&◌, ◌||◌, ◌==◌, ◌/◌, leb, any, arith,
}
use w8nc.Validation.Address.{v4, is_private_ip}

-- The address as a number of 32 bits.
abbrev pub number : ℕ → ℕ → ℕ → ℕ → ℕ
number a b c d = a * 16777216 + (b * 65536 + (c * 256 + d))

-- 0.0.0.0, 10.0.0.0/8, 127.0.0.0/8, 169.254.0.0/16, 172.16.0.0/12, 192.168.0.0/16 and 224.0.0.0/24: the
-- first and the last number.
abbrev pub refused : List (ℕ × ℕ)
refused =
    (0, 0)
    ∷ (167772160, 184549375)
    ∷ (2130706432, 2147483647)
    ∷ (2851995648, 2852061183)
    ∷ (2886729728, 2887778303)
    ∷ (3232235520, 3232301055)
    ∷ (3758096384, 3758096639)
    ∷ []

abbrev pub within : ℕ → ℕ × ℕ → Bool
within n (first, last) = leb first n && leb n last

-- The classes of IPv4 addresses, as ranges.
module _ (a b c d : ℕ) (ha : a < 256) (hb : b < 256) (hc : c < 256) (hd : d < 256) where
  unspecified_range : (a == 0 && (b == 0 && (c == 0 && d == 0))) ≡ within (number a b c d) (0, 0)
  unspecified_range = ground arith

  ten_range : (a == 10) ≡ within (number a b c d) (167772160, 184549375)
  ten_range = ground arith

  loopback_range : (a == 127) ≡ within (number a b c d) (2130706432, 2147483647)
  loopback_range = ground arith

  link_local_range : (a == 169 && b == 254) ≡ within (number a b c d) (2851995648, 2852061183)
  link_local_range = ground arith

  twelve_bit_range : (a == 172 && b / 16 == 1) ≡ within (number a b c d) (2886729728, 2887778303)
  twelve_bit_range = ground arith

  sixteen_bit_range : (a == 192 && b == 168) ≡ within (number a b c d) (3232235520, 3232301055)
  sixteen_bit_range = ground arith

  multicast_range :
      (a == 224 && (b == 0 && c == 0)) ≡ within (number a b c d) (3758096384, 3758096639)
  multicast_range = ground arith

-- The order of the tests does not matter, and the address of metadata services is link-local.
reordered :
    (loopback multicast link_local ten twelve sixteen unspecified metadata : Bool)
    → (link_local && metadata) ≡ metadata
    → (loopback
        || (multicast
            || (link_local || ((ten || (twelve || sixteen)) || (unspecified || metadata)))))
      ≡ (unspecified
          || (ten || (loopback || (link_local || (twelve || (sixteen || (multicast || false)))))))
reordered loopback multicast link_local ten twelve sixteen unspecified metadata h = ground arith

metadata_link_local :
    (a b c d : ℕ)
    → ((a == 169 && b == 254) && (a == 169 && (b == 254 && (c == 169 && d == 254))))
      ≡ (a == 169 && (b == 254 && (c == 169 && d == 254)))
metadata_link_local a b c d = ground arith

-- IsPrivateIP refuses exactly the IPv4 addresses in the ranges 0.0.0.0, 10.0.0.0/8, 127.0.0.0/8,
-- 169.254.0.0/16, 172.16.0.0/12, 192.168.0.0/16 and 224.0.0.0/24.
pub is_private_ip_ranges :
    (a b c d : ℕ)
    → a < 256
    → b < 256
    → c < 256
    → d < 256
    → is_private_ip (some (v4 a b c d)) ≡ any (within (number a b c d)) refused
unfolding is_private_ip
is_private_ip_ranges a b c d ha hb hc hd =
    rw
      (
        ← unspecified_range a b c d ha hb hc hd,
        ← ten_range a b c d ha hb hc hd,
        ← loopback_range a b c d ha hb hc hd,
        ← link_local_range a b c d ha hb hc hd,
        ← twelve_bit_range a b c d ha hb hc hd,
        ← sixteen_bit_range a b c d ha hb hc hd,
        ← multicast_range a b c d ha hb hc hd,
      )
      (reordered _ _ _ _ _ _ _ _ (metadata_link_local a b c d))
