-- ===== src/Resolver/Reachable.antt =====
-- The runs of a resolver, src/net/dot_resolver.cpp, from its creation on.
use mathlib.Core.Path.{subst}
use mathlib.Core.List.{append_assoc, append-nil}
use yass.Common.{
  ◌⊎◌, inl, inr, true, false, ℕ, ◌*◌, ◌==◌, ltb, length, if◌then◌else◌, ◌≡◌, ◌≤◌, inl, inr, sym, ap,
  ◌∙◌, arith, true, false, Option, none, some, some-injective, List, [], ◌++◌,
}
use yass.Resolver.{ResolveError, Asio, Resolver, create, init_resolver}
use yass.Resolver.Steps.{Event, step}
use yass.Resolver.Valid.{
  idle_state, Valid, idle, looking, asking, Allowed, asked, answered, accounted, to_list,
}
use yass.Resolver.Events.{step-Fine}

-- The state of a new resolver after an `Init` that succeeds.
abbrev pub ready : List ℕ → ℕ → Resolver
ready dot_host timeout_ms = (init_resolver dot_host timeout_ms none create).1

abbrev fresh : List ℕ → ℕ → Resolver
fresh dot_host timeout_ms = idle_state (record create {
  dot_host = dot_host;
  timeout_ms = if timeout_ms == 0 then 300 * 1000 else timeout_ms;
})

ready_lem :
    (dot_host : List ℕ) (timeout_ms : ℕ)
    → length dot_host ≤ 255
    → ready dot_host timeout_ms ≡ fresh dot_host timeout_ms
unfolding init_resolver
ready_lem dot_host timeout_ms h = ap (λ (p : Option ResolveError × Resolver). p.1) whole
  where
    room : ltb 255 (length dot_host) ≡ false
    room = ground arith

    whole : init_resolver dot_host timeout_ms none create ≡ (none, fresh dot_host timeout_ms)
    whole = rw (room, init_resolver)

-- When nothing is under way all is answered, and otherwise the timer is set.
abbrev Progress : List ℕ → Resolver → Type 0
Progress bill r = ((r.done ≡ true) × (answered r ≡ bill)) ⊎ ((r.done ≡ false) × (r.timer ≡ true))

Valid-Progress : (bill : List ℕ) (r : Resolver) → Valid r → accounted r ≡ bill → Progress bill r
Valid-Progress bill r (idle b q) e =
    inl (ap (λ (x : Resolver). x.done) q, rw q (sym (append-nil (answered b))) ∙ e)
Valid-Progress bill r (looking callback b q) e =
    inr (ap (λ (x : Resolver). x.done) q, ap (λ (x : Resolver). x.timer) q)
Valid-Progress bill r (asking callback s b q) e =
    inr (ap (λ (x : Resolver). x.done) q, ap (λ (x : Resolver). x.timer) q)

module _ (asio : Asio) where
  -- What a resolver that was initialised comes to by events that may come, and the callbacks they brought.
  pub data Reach (start : Resolver) : List ℕ → Resolver → Type 0 where
    here : Reach start [] start
    next :
        {bill : List ℕ} {r r' : Resolver} (e : Event)
        → Reach start bill r
        → Allowed e r
        → step asio e r ≡ some r'
        → Reach start (bill ++ asked e) r'

  abbrev Standing : Resolver → List ℕ → Resolver → Type 0
  Standing start bill r = Valid r × (accounted r ≡ accounted start ++ bill)

  next-Standing :
      (start : Resolver) (bill : List ℕ) (e : Event) (r r' : Resolver)
      → Standing start bill r
      → Allowed e r
      → step asio e r ≡ some r'
      → Standing start (bill ++ asked e) r'
  next-Standing start bill e r r' (v, q) h s =
      let f = step-Fine asio e r v h in
      let same : f.after ≡ r' = some-injective (sym f.succeeds ∙ s) in
      (
        subst (λ (x : Resolver). Valid x) same f.valid,
        ap accounted (sym same)
            ∙ f.settled
            ∙ ap (λ l. l ++ asked e) q
            ∙ append_assoc (accounted start) bill (asked e),
      )

  Reach-Standing :
      {start : Resolver} {bill : List ℕ} {r : Resolver}
      → Valid start
      → Reach start bill r
      → Standing start bill r
  Reach-Standing {start} v here = (v, sym (append-nil (accounted start)))
  Reach-Standing {start} v (next {bill} {r} {r'} e p h s) =
      next-Standing start bill e r r' (Reach-Standing v p) h s

  -- In a run of an initialised resolver a new resolution is asked for when none is under way, the timer
  -- fires when it is set and the server's own name is not being looked up, a lookup ends with an error
  -- or an endpoint, a request calls back while it is out, a first request that fails at once makes the
  -- second fail too, and nothing is cancelled. After such a run no DCHECK fails at any such event. The
  -- callbacks that were called, with the one that is still held, are those that the resolutions
  -- brought, each once and in their order; and either no resolution is under way and all have been
  -- called, or one is and the timer is set.
  pub Reach-answers_once :
      (dot_host : List ℕ) (timeout_ms : ℕ) (bill : List ℕ) (r : Resolver) (e : Event)
      → length dot_host ≤ 255
      → Reach (ready dot_host timeout_ms) bill r
      → Allowed e r
      → ((r' : Resolver) × (step asio e r ≡ some r'))
        × (answered r ++ to_list r.cb ≡ bill)
        × (((r.done ≡ true) × (answered r ≡ bill)) ⊎ ((r.done ≡ false) × (r.timer ≡ true)))
  Reach-answers_once dot_host timeout_ms bill r e short reach h =
      let start = ready_lem dot_host timeout_ms short in
      let (v, q) = Reach-Standing (idle (fresh dot_host timeout_ms) start) reach in
      let whole : accounted r ≡ bill = q ∙ ap (λ (x : Resolver). accounted x ++ bill) start in
      let f = step-Fine asio e r v h in
      ((f.after, f.succeeds), whole, Valid-Progress bill r v whole)
