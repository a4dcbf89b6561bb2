-- ===== src/Local/Steps.antt =====
-- The steps of a connection of src/cli/cli_connection.cpp that is not closed.
use yass.Common.{ℕ, ◌≡◌, ap, Option, some, List, false, if◌then◌else◌}
use yass.Handshake.{View, ErrorCode}
use yass.Local.{Local}
use yass.Local.Reads.{HttpRequest}
use yass.Local.Replies.{Event}
use yass.Local.Handlers.{step, handle}

pub step-handle :
    (http : View → Option HttpRequest) (make_address : List ℕ → Option (List ℕ))
    (init : Option ErrorCode) (e : Event) (l : Local)
    → l.closed ≡ false
    → step http make_address init e l ≡ handle http make_address init e l
unfolding step
step-handle http make_address init e l alive =
    ap (λ x. if x then some l else handle http make_address init e l) alive
