-- ===== src/Relay/Tests.antt =====
-- A concrete relay of src/server/server_connection.cpp.
use yass.Common.{refl, inl, inr, false, none, some, [], ◌∷◌}
use yass.Handshake.{would_block}
use yass.Relay.{Relay, Io, connects, writable, pushes, calls}
use yass.Relay.Transparent.{IsRelay, Kept}
use yass.Relay.Calls.{relay_transparent}

abbrev idle : Relay
idle = record {
  upstream = [];
  pending_upstream_read_error = none;
  channel_open = false;
  upstream_writable = false;
  downstream_read_inprogress = false;
  write_waiting = false;
  closed = false;
  received = [];
  sent = [];
}

idle-IsRelay : IsRelay idle
idle-IsRelay = record { conserved = refl; full = tt; wired = inl refl }

-- Two bytes come with the handshake; the channel takes one; then the other, and what is read, of which
-- the last write would block.
abbrev slow : Io
slow = record { read = []; read_error = none; written = 1; write_error = none; yields = false }

abbrev reads : Io
reads = record {
  read = 3 ∷ 4 ∷ [];
  read_error = none;
  written = 2;
  write_error = none;
  yields = false;
}

abbrev blocked : Io
blocked = record {
  read = 5 ∷ [];
  read_error = none;
  written = 0;
  write_error = some would_block;
  yields = false;
}

relay_transparent_example : Kept (
    calls
      (pushes (1 ∷ 2 ∷ []) ∷ connects (slow ∷ []) ∷ writable (slow ∷ reads ∷ blocked ∷ []) ∷ [])
      idle)
relay_transparent_example =
    relay_transparent
      (pushes (1 ∷ 2 ∷ []) ∷ connects (slow ∷ []) ∷ writable (slow ∷ reads ∷ blocked ∷ []) ∷ [])
      idle
      (
        tt,
        (
          ((λ h. absurd (cc h)), tt),
          (((λ h. absurd (cc h)), ((λ h. absurd (cc h)), ((λ h. refl), tt))), tt),
        ),
      )
      idle-IsRelay (inr (inl refl))
