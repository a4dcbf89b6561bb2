-- ===== src/AddrInfo.antt =====
-- The lists of addresses of src/net/dns_addrinfo_helper.cpp. A `struct addrinfo` is an entry of a list;
-- its flags, its socket type and its protocol are constants and left out. An address is its bytes.
use yass.Common.{
  ℕ, ◌-◌, ◌%◌, ◌^◌, Bool, true, false, ◌&&◌, ◌||◌, Option, none, some, List, [], ◌∷◌, leb, ◌==◌,
  if◌then◌else◌, length, drop,
}
use yass.Dns.{Response}

pub record AddrInfo : Type 0 where
  pub is_ipv6 : Bool  -- `ai_family`
  pub address : List ℕ
  pub port : ℕ
  pub canonname : Option (List ℕ)

abbrev pub equal : List ℕ → List ℕ → Bool
equal [] [] = true
equal [] (y ∷ ys) = false
equal (x ∷ xs) [] = false
equal (x ∷ xs) (y ∷ ys) = (x == y) && equal xs ys

abbrev pub ends_with : List ℕ → List ℕ → Bool
ends_with s suffix =
    leb (length suffix) (length s) && equal (drop (length s - length suffix) s) suffix

abbrev pub localhost : List ℕ
localhost = b'l' ∷ b'o' ∷ b'c' ∷ b'a' ∷ b'l' ∷ b'h' ∷ b'o' ∷ b's' ∷ b't' ∷ []

unfoldable pub is_localhost : List ℕ → Bool
is_localhost [] = false
is_localhost (c ∷ host) = equal (c ∷ host) localhost || ends_with (c ∷ host) (b'.' ∷ localhost)

-- `address_v4::loopback()` and `address_v6::loopback()`
abbrev pub loopback_v4 : List ℕ
loopback_v4 = 127 ∷ 0 ∷ 0 ∷ 1 ∷ []

abbrev pub loopback_v6 : List ℕ
loopback_v6 = 0 ∷ 0 ∷ 0 ∷ 0 ∷ 0 ∷ 0 ∷ 0 ∷ 0 ∷ 0 ∷ 0 ∷ 0 ∷ 0 ∷ 0 ∷ 0 ∷ 0 ∷ 1 ∷ []

-- `htons(port)` takes 16 bits.
abbrev pub addrinfo_of : Bool → ℕ → Option (List ℕ) → List ℕ → AddrInfo
addrinfo_of is_ipv6 port canonname address = record {
  is_ipv6 = is_ipv6;
  address = address;
  port = port % 2 ^ 16;
  canonname = canonname;
}

unfoldable pub addrinfo_loopback : Bool → ℕ → List AddrInfo
addrinfo_loopback is_ipv6 port =
    addrinfo_of is_ipv6 port none (if is_ipv6 then loopback_v6 else loopback_v4) ∷ []

abbrev pub front_name : List (List ℕ) → Option (List ℕ)
front_name [] = none
front_name (name ∷ names) = some name

-- The loop: the first entry takes the canonical name.
unfoldable pub dup_all : Bool → ℕ → Option (List ℕ) → List (List ℕ) → List AddrInfo
dup_all is_ipv6 port canon_name [] = []
dup_all is_ipv6 port canon_name (a ∷ rest) =
    addrinfo_of is_ipv6 port canon_name a ∷ dup_all is_ipv6 port none rest

unfoldable pub addrinfo_dup : Bool → Response → ℕ → List AddrInfo
addrinfo_dup is_ipv6 response port =
    dup_all is_ipv6 port (front_name response.cname) (if is_ipv6 then response.aaaa else response.a)
