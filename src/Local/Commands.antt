-- ===== src/Local/Commands.antt =====
-- `PerformCmdOpsV5` and `PerformCmdOpsV4` of src/cli/cli_connection.cpp: what is granted, and what is
-- refused.
use yass.Common.{
  ℕ, ◌≤◌, ◌<◌, ◌≡◌, ◌≢◌, sym, ap, ◌⊎◌, inl, inr, arith, false, not, ◌&&◌, ◌||◌, Option, some, none,
  some-injective, List, ◌==◌, ◌>>=◌, Bool-cases, ltb, length,
}
use yass.Address.{address_type, domain_name, domain}
use yass.Handshake.{View, ErrorCode, invalid_argument, is_unspecified}
use yass.Server.{is_empty, endpoint_or_default}
use yass.Socks4
use yass.Socks4.Reply as Reply4
use yass.Socks5
use yass.Socks5.Reply as Reply5
use yass.Local.{Local}
use yass.Local.Reads.{HttpRequest}
use yass.Local.Handlers.{perform_cmd_ops_v5, perform_cmd_ops_v4}

bind_granted :
    {R : Type 0} (o : Option Local) (granted : R) {l' : Local} {reply : R} {ec : Option ErrorCode}
    → (let next : Local → Option (Local × R × Option ErrorCode) = λ l. some (l, granted, none) in
        o >>= next)
      ≡ some (l', reply, ec)
    → (ec ≡ none) × (reply ≡ granted) × (o ≡ some l')
bind_granted none granted h = absurd (cc h)
bind_granted (some l) granted h =
    let e = some-injective h in (sym (ap (λ x. x.2) e), sym (ap (λ x. x.1) e), ap (λ x. some x.0) e)

module _ (http : View → Option HttpRequest) (make_address : List ℕ → Option (List ℕ))
    (init : Option ErrorCode) where
  -- A SOCKS5 command that comes to an end is either refused, with a status that is not zero, an error
  -- and the connection as it was; or it is CONNECT to a port that is not 0, and granted.
  pub perform_v5-cases :
      (r : Socks5.Request) (reply : Reply5.Reply) (l : Local) {l' : Local} {reply' : Reply5.Reply}
      {ec : Option ErrorCode}
      → perform_cmd_ops_v5 http make_address init r reply l ≡ some (l', reply', ec)
      → ((ec ≡ some invalid_argument)
          × (l' ≡ l)
          × (((reply'.status ≡ 0x07) × (r.command ≢ 1)) ⊎ (reply'.status ≡ 0x03)))
        ⊎ ((ec ≡ none) × (reply'.status ≡ 0) × (r.command ≡ 1) × (0 < Socks5.port r))
  unfolding perform_cmd_ops_v5
  perform_v5-cases r reply l {l'} {reply'} {ec} h =
      let named = address_type r.atyp_req == domain in
      let name = domain_name r.atyp_req in
      let (bytes, port) = endpoint_or_default (Socks5.endpoint r) in
      let empty =
        Socks5.port r == 0 || (named && is_empty name) || (not named && is_unspecified bytes) in
      elim (Bool-cases (r.command == 1)) [
        | inr c ↦
            let e = some-injective (rw c at h) in
            inl (
              sym (ap (λ x. x.2) e),
              sym (ap (λ x. x.0) e),
              inl (ap (λ x. x.1.status) (sym e), ground (arith, c)),
            )
        | inl c ↦ elim (Bool-cases empty) [
          | inl z ↦
              let e = some-injective (rw (c, z) at h) in
              inl (sym (ap (λ x. x.2) e), sym (ap (λ x. x.0) e), inr (ap (λ x. x.1.status) (sym e)))
          | inr z ↦
              let (a, b, made) = bind_granted _ _ (rw (c, z) at h) in
              inr (a, ap (λ x. x.status) b, ground (arith, c), ground (arith, z))
        ]
      ]

  -- A SOCKS4 command that comes to an end is either refused, with the status of a failure, an error and
  -- the connection as it was; or it is CONNECT to a port that is not 0, for a name, if it has one, of at
  -- most 255 bytes, and granted.
  pub perform_v4-cases :
      (r : Socks4.Request) (reply : Reply4.Reply) (l : Local) {l' : Local} {reply' : Reply4.Reply}
      {ec : Option ErrorCode}
      → perform_cmd_ops_v4 http make_address init r reply l ≡ some (l', reply', ec)
      → ((ec ≡ some invalid_argument) × (l' ≡ l) × (reply'.status ≡ 0x5b))
        ⊎ ((ec ≡ none)
            × (reply'.status ≡ 0x5a)
            × (r.command ≡ 1)
            × (0 < (Socks4.endpoint r).1)
            × ((Socks4.is_socks4a r ≡ false) ⊎ (length r.domain_name ≤ 255)))
  unfolding perform_cmd_ops_v4
  perform_v4-cases r reply l {l'} {reply'} {ec} h =
      let named = Socks4.is_socks4a r in
      let (bytes, port) = Socks4.endpoint r in
      let empty =
        port == 0 || (named && is_empty r.domain_name) || (not named && is_unspecified bytes) in
      elim (Bool-cases (r.command == 1)) [
        | inr c ↦
            let e = some-injective (rw c at h) in
            inl (sym (ap (λ x. x.2) e), sym (ap (λ x. x.0) e), ap (λ x. x.1.status) (sym e))
        | inl c ↦ elim (Bool-cases empty) [
          | inl z ↦
              let e = some-injective (rw (c, z) at h) in
              inl (sym (ap (λ x. x.2) e), sym (ap (λ x. x.0) e), ap (λ x. x.1.status) (sym e))
          | inr z ↦ elim (Bool-cases (named && ltb 255 (length r.domain_name))) [
            | inl long ↦
                let e = some-injective (rw (c, z, long) at h) in
                inl (sym (ap (λ x. x.2) e), sym (ap (λ x. x.0) e), ap (λ x. x.1.status) (sym e))
            | inr fits ↦
                let (a, b, made) = bind_granted _ _ (rw (c, z, fits) at h) in
                inr (
                  a,
                  ap (λ x. x.status) b,
                  ground (arith, c),
                  ground (arith, z),
                  elim (Bool-cases named) [ inl n ↦ inr (ground (arith, n, fits)) | inr n ↦ inl n ],
                )
          ]
        ]
      ]
