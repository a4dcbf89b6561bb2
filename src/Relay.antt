-- ===== src/Relay.antt =====
-- The relay of the server from its client to the destination: `WriteUpstreamInPipe`,
-- `GetNextUpstreamBuf`, `OnUpstreamWrite`, `connected` and `sent` of src/server/server_connection.cpp,
-- for the methods that pass bytes on as they are (SOCKS and HTTPS). What the sockets give and take in a
-- round of the loop, and whether its time is up, is an `Io`. The loop is run for a list of them.
pub mod Transparent
pub mod Loop
pub mod Calls
mod Tests
use yass.Common.{
  ℕ, zero, suc, ◌+◌, Bool, true, false, not, ◌&&◌, ◌||◌, Option, none, some, List, [], ◌∷◌, ◌++◌,
  if◌then◌else◌, take, drop, ◌==◌,
}
use yass.Handshake.{ErrorCode, try_again, eof, is_retry}
use yass.Server.{is_empty}

pub record Relay : Type 0 where
  pub upstream : List (List ℕ)
  pub pending_upstream_read_error : Option ErrorCode
  pub channel_open : Bool  -- `channel_ && channel_->connected() && !channel_->eof()`
  pub upstream_writable : Bool
  pub downstream_read_inprogress : Bool
  pub write_waiting : Bool  -- `channel_->wait_write` was called
  pub closed : Bool
  pub received : List ℕ  -- what was read and queued
  pub sent : List ℕ  -- what the channel has taken

-- A round: what `read_some` reads, and its error; how much `write_some` takes, and its error; and
-- whether the loop has to yield after it.
pub record Io : Type 0 where
  pub read : List ℕ
  pub read_error : Option ErrorCode
  pub written : ℕ
  pub write_error : Option ErrorCode
  pub yields : Bool

abbrev pub is_try_again : Option ErrorCode → Bool
is_try_again none = false
is_try_again (some ec) = is_retry ec

-- An error that is not to try again.
abbrev pub is_failure : Option ErrorCode → Bool
is_failure none = false
is_failure (some ec) = not (is_retry ec)

-- `if (!ec) ec = asio::error::try_again;`
abbrev pub or_try_again : Option ErrorCode → ErrorCode
or_try_again none = try_again
or_try_again (some ec) = ec

abbrev pub no_buffers : List (List ℕ) → Bool
no_buffers [] = true
no_buffers (b ∷ bs) = false

-- A buffer with the error code beside it; or none, with the error.
pub data Next : Type 0 where
  check_failed : Next
  buffer : List ℕ → Option ErrorCode → Relay → Next
  nothing : ErrorCode → Relay → Next

-- `downlink_->read_some` and what follows it: a failed read closes the connection.
unfoldable pub read_downlink : Io → Relay → Next
read_downlink io t =
    if is_failure io.read_error
    then nothing (or_try_again io.read_error) (record t { closed = true })
    else if is_empty io.read
    then nothing (or_try_again io.read_error) t
    else buffer io.read io.read_error
        (record t { upstream = io.read ∷ []; received = t.received ++ io.read })

unfoldable pub next_or_read : Io → Relay → Option ErrorCode → Next
next_or_read io t (some ec) = nothing ec t
next_or_read io t none = if t.closed then nothing eof t else read_downlink io t

unfoldable pub next_of : Io → Relay → List (List ℕ) → Next
next_of io t [] = next_or_read io t t.pending_upstream_read_error
next_of io t (b ∷ bs) = if is_empty b then check_failed else buffer b none t

unfoldable pub get_next_upstream_buf : Io → Relay → Next
get_next_upstream_buf io t = next_of io t t.upstream

-- How a round ends: it goes on; the loop breaks, with `ec`, `try_again` and the relay; or the function
-- returns.
pub data Round : Type 0 where
  check_failed : Round
  next_round : Bool → Relay → Round
  break_loop : Option ErrorCode → Bool → Relay → Round
  returned : Relay → Round

-- What is left of the front buffer stays, or the buffer is popped.
unfoldable pub put_back : List ℕ → List (List ℕ) → List (List ℕ)
put_back b bs = if is_empty b then bs else b ∷ bs

-- From `write_some` on, for the front buffer `b`
unfoldable pub write_front : Io → Bool → List ℕ → Relay → Round
write_front io again b t =
    let left = drop io.written b in
    let t' : Relay = record t {
      upstream = put_back left (drop 1 t.upstream);
      sent = t.sent ++ take io.written b;
    } in
    if is_try_again io.write_error
    then (if io.written == 0 then break_loop io.write_error again t else check_failed)
    else if is_failure io.write_error
    then returned (record t' { closed = true })
    else if not (is_empty left)
    then break_loop (some try_again) again t'
    else if io.yields
    then (if no_buffers t'.upstream
        then break_loop none true t'
        else break_loop (some try_again) again t')
    else next_round again t'

unfoldable pub round_of : Io → Bool → Next → Round
round_of io again check_failed = check_failed
round_of io again (nothing ec t) = if is_retry ec then break_loop none true t else returned t
round_of io again (buffer b ec t) =
    if is_failure ec
    then returned t
    else if t.channel_open
    then write_front io (again || is_try_again ec) b t
    else break_loop (some try_again) (again || is_try_again ec) t

unfoldable pub round : Io → Bool → Relay → Round
round io again t = round_of io again (get_next_upstream_buf io t)

-- `OnUpstreamWrite`: a buffer that is not empty is queued; then the channel is waited for.
unfoldable pub on_upstream_write_flush : Relay → Relay
on_upstream_write_flush t =
    if not (no_buffers t.upstream) && t.upstream_writable
    then record t { upstream_writable = false; write_waiting = true }
    else t

unfoldable pub on_upstream_write : List ℕ → Relay → Relay
on_upstream_write bytes t = on_upstream_write_flush (
    if is_empty bytes
    then t
    else record t { upstream = t.upstream ++ (bytes ∷ []); received = t.received ++ bytes })

-- `if (try_again) if (!downstream_read_inprogress_) ReadStream(yield);`: a closed connection does not
-- read.
unfoldable pub read_stream : Bool → Relay → Relay
read_stream again t =
    if again && not t.closed then record t { downstream_read_inprogress = true } else t

unfoldable pub after_loop : Option ErrorCode → Bool → Relay → Relay
after_loop ec again t =
    let t' = read_stream again t in if is_try_again ec then on_upstream_write_flush t' else t'

-- The loop has ended; or goes on, after all the rounds that were given.
pub data Piped : Type 0 where
  check_failed : Piped
  running ended : Relay → Piped

unfoldable pub pipe : List Io → Bool → Relay → Piped
pipe [] again t = running t
pipe (io ∷ ios) again t = elim (round io again t) [
  | check_failed ↦ check_failed
  | next_round again' t' ↦ pipe ios again' t'
  | break_loop ec again' t' ↦ ended (after_loop ec again' t')
  | returned t' ↦ ended t'
]

unfoldable pub write_upstream_in_pipe : List Io → Relay → Piped
write_upstream_in_pipe ios t = if t.write_waiting then ended t else pipe ios false t

-- `OnUpstreamWriteFlush()` after the loop
unfoldable pub then_flush : Piped → Piped
then_flush check_failed = check_failed
then_flush (running t) = running t
then_flush (ended t) = ended (on_upstream_write_flush t)

-- `connected`, and `sent`, the callback of `wait_write`, as far as this direction goes
unfoldable pub connected : List Io → Relay → Piped
connected ios t =
    then_flush
      (write_upstream_in_pipe ios (record t { channel_open = true; upstream_writable = true }))

unfoldable pub sent : List Io → Relay → Piped
sent ios t =
    then_flush
      (write_upstream_in_pipe ios (record t { write_waiting = false; upstream_writable = true }))

-- What calls the relay: the channel connected, or can be written; the client's socket can be read; or
-- bytes came with the handshake.
pub data Call : Type 0 where
  connects writable readable : List Io → Call
  pushes : List ℕ → Call

unfoldable pub call : Call → Relay → Piped
call (connects ios) t = connected ios t
call (writable ios) t = sent ios t
call (readable ios) t =
    then_flush (write_upstream_in_pipe ios (record t { downstream_read_inprogress = false }))
call (pushes bytes) t = ended (on_upstream_write bytes t)

unfoldable pub calls : List Call → Relay → Piped
calls [] t = ended t
calls (c ∷ cs) t = elim (call c t) [
  | check_failed ↦ check_failed
  | running t' ↦ running t'
  | ended t' ↦ calls cs t'
]
