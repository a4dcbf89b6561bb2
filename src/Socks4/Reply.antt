-- ===== src/Socks4/Reply.antt =====
-- The reply of SOCKS4: the class `reply` of src/net/socks4.hpp.
use yass.Common.{
  ℕ, ◌+◌, ◌*◌, ◌/◌, ◌%◌, ◌^◌, ◌<◌, ◌≡◌, refl, ap, Bool, ◌&&◌, List, ◌∷◌, ◌==◌, arith, length,
  get_or, drop,
}

pub record Reply : Type 0 where
  pub null_byte : ℕ
  pub status : ℕ
  pub port_high_byte : ℕ
  pub port_low_byte : ℕ
  pub address : List ℕ

abbrev pub request_granted : ℕ
request_granted = 0x5a

-- `reply()` leaves the port and the address as memory has them: the arguments.
unfoldable pub create_reply : ℕ → ℕ → List ℕ → Reply
create_reply high low address = record {
  null_byte = 0;
  status = 0;
  port_high_byte = high;
  port_low_byte = low;
  address = address;
}

unfoldable pub buffers : Reply → List ℕ
buffers r = r.null_byte ∷ r.status ∷ r.port_high_byte ∷ r.port_low_byte ∷ r.address

pub success : Reply → Bool
success r = r.null_byte == 0 && r.status == request_granted

pub reply_port : Reply → ℕ
reply_port r = r.port_high_byte * 256 + r.port_low_byte

pub reply_endpoint : Reply → List ℕ × ℕ
reply_endpoint r = (r.address, r.port_high_byte * 256 + r.port_low_byte)

-- An IPv4 endpoint; `to_v4` throws for another.
unfoldable pub set_endpoint : List ℕ → ℕ → Reply → Reply
set_endpoint address port r = record r {
  address = address;
  port_high_byte = port / 256 % 256;
  port_low_byte = port % 256;
}

pub reply_length : Reply → ℕ
reply_length r = 1 * 4 + 4

-- After an IPv4 endpoint is set, the reply has it, sends as many bytes as its length says, the port
-- with its high byte first and then the address, and its success is what it was.
pub reply-set_endpoint :
    (address : List ℕ) (port : ℕ) (r : Reply)
    → length address ≡ 4
    → port < 2 ^ 16
    → let q = set_endpoint address port r in
      (reply_endpoint q ≡ (address, port))
      × (reply_port q ≡ port)
      × (length (buffers q) ≡ reply_length q)
      × (get_or (buffers q) 2 0 * 256 + get_or (buffers q) 3 0 ≡ port)
      × (drop 4 (buffers q) ≡ address)
      × (success q ≡ success r)
unfolding set_endpoint reply_endpoint reply_port buffers reply_length success
reply-set_endpoint address port r four small =
    let whole : port / 256 % 256 * 256 + port % 256 ≡ port = omega arith in
    (ap (λ p. (address, p)) whole, whole, omega arith, whole, refl, refl)
