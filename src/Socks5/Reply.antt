-- ===== src/Socks5/Reply.antt =====
-- The reply of SOCKS5: the class `reply` of src/net/socks5.hpp. An endpoint is its address, 4 or 16
-- bytes, and its port.
pub mod Layout
use yass.Common.{
  ℕ, ◌+◌, ◌*◌, ◌/◌, ◌%◌, Bool, true, false, ◌&&◌, ◌||◌, List, [], ◌∷◌, ◌++◌, ◌==◌, if◌then◌else◌,
  length,
}
use yass.Address.{ipv4, ipv6}
use yass.Socks5.{version}

pub record Reply : Type 0 where
  pub ver : ℕ
  pub status : ℕ
  pub null_byte : ℕ
  pub atyp : ℕ
  pub address4 : List ℕ
  pub address6 : List ℕ
  pub port_high_byte : ℕ
  pub port_low_byte : ℕ

abbrev pub request_granted : ℕ
request_granted = 0x00

-- `reply()` leaves the addresses and the port as memory has them: the arguments.
unfoldable pub create_reply : List ℕ → List ℕ → ℕ → ℕ → Reply
create_reply address4 address6 high low = record {
  ver = version;
  status = 0;
  null_byte = 0;
  atyp = 0;
  address4 = address4;
  address6 = address6;
  port_high_byte = high;
  port_low_byte = low;
}

-- The bytes of `buffers()`, one buffer behind the other.
unfoldable pub buffers : Reply → List ℕ
buffers r =
    r.ver
    ∷ r.status
    ∷ r.null_byte
    ∷ r.atyp
    ∷ ((if r.atyp == ipv6 then r.address6 else r.address4)
        ++ (r.port_high_byte ∷ r.port_low_byte ∷ []))

pub success : Reply → Bool
success r = r.null_byte == 0 && r.status == request_granted && (r.atyp == ipv4 || r.atyp == ipv6)

pub reply_endpoint : Reply → List ℕ × ℕ
reply_endpoint r =
    let port = r.port_high_byte * 256 + r.port_low_byte in
    if r.atyp == ipv4 then (r.address4, port) else (r.address6, port)

unfoldable pub set_endpoint : List ℕ → ℕ → Reply → Reply
set_endpoint address port r =
    let high = port / 256 % 256 in
    let low = port % 256 in
    if length address == 4
    then record r { atyp = ipv4; address4 = address; port_high_byte = high; port_low_byte = low }
    else record r { atyp = ipv6; address6 = address; port_high_byte = high; port_low_byte = low }
