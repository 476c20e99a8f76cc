-- ===== src/Reload/Race.antt =====
-- What becomes of a change that another task makes while a reload builds its endpoints: the reload
-- reads the endpoints, and writes the new ones later, without a lock from the one to the other.
use azoth_balancer.Prelude.{
  Bool, ℕ, ◌≡◌, ◌∙◌, refl, sym, subst, true, false, List, some, Text, find, All, All-mono, All-map,
  Sat, Result, Option-cases, inl, inr,
}
use azoth_balancer.Limiter.{RateLimiter}
use azoth_balancer.Endpoint.{RpcEndpoint}
use azoth_balancer.Balancer.{Client, LoadBalancer, has_url, mark_unhealthy}
use azoth_balancer.Balancer.Invariant.{Inv}
use azoth_balancer.Balancer.Marks.{mark_unhealthy_down}
use azoth_balancer.Float.{Float}
use azoth_balancer.Config.{Config}
use azoth_balancer.Config.Finalize.{FileRead}
use azoth_balancer.Reload.Phases.{Pending, share_metrics, begin_reload, finish_reload}
use azoth_balancer.Reload.Begun.{Begun, begin_reload-safe}
use azoth_balancer.Reload.{ReloadError, install}
use azoth_balancer.Reload.Outcome.{KeepsState}

kept_healthy :
    (before : List RpcEndpoint) (url : Text) (ep e : RpcEndpoint)
    → find (has_url url) before ≡ some ep
    → ep.healthy ≡ true
    → KeepsState (find (has_url e.url) before) e
    → e.url ≡ url
    → e.healthy ≡ true
kept_healthy before url ep e found up k same = (rw (same, found) at k).0 ∙ up

share_metrics-fields :
    (current : List RpcEndpoint) (e : RpcEndpoint)
    → ((share_metrics current e).url ≡ e.url) × ((share_metrics current e).healthy ≡ e.healthy)
unfolding share_metrics
share_metrics-fields current e = elim (Option-cases (find (has_url e.url) current)) [
  | inl new ↦ rw (new, share_metrics) (refl, refl)
  | inr (old, found) ↦ rw (found, share_metrics) (refl, refl)
]

module _ {F L : Type 0} (fl : Float F) (rl : RateLimiter L) (can_build : Client → Bool)
    (b : LoadBalancer F L) (now : ℕ) (read_to_string : Text → FileRead)
    (from_toml : Text → Result Text (Config F)) where
  abbrev IfBegun : Result ReloadError (Pending F L) × LoadBalancer F L → Type 0
  IfBegun (Result.ok p, b') = Begun b p b'
  IfBegun (Result.err e, b') = Unit {0}

  begin_reload-Begun :
      (p : Pending F L) (b' : LoadBalancer F L)
      → Inv b
      → begin_reload fl rl can_build read_to_string from_toml b now ≡ some (Result.ok p, b')
      → Begun b p b'
  begin_reload-Begun p b' inv h =
      elim (begin_reload-safe fl rl can_build b now read_to_string from_toml inv) [
        | inl (e, failed) ↦ absurd (cc (h, failed))
        | inr (p0, b0, done, begun) ↦ subst (λ o. Sat o IfBegun) (sym done ∙ h) begun
      ]

  -- On a balancer with the invariant, an endpoint that was healthy when a reload read the endpoints,
  -- and that another task marks unhealthy before the reload writes the new ones, is unhealthy after
  -- the mark, and every endpoint of its URL is healthy again after the write: the mark is lost.
  pub reload-loses_mark :
      (p : Pending F L) (b' : LoadBalancer F L) (url : Text) (ep : RpcEndpoint) (later end : ℕ)
      → Inv b
      → begin_reload fl rl can_build read_to_string from_toml b now ≡ some (Result.ok p, b')
      → find (has_url url) b.endpoints ≡ some ep
      → ep.healthy ≡ true
      → ((e : RpcEndpoint) × (find (has_url url) (mark_unhealthy b' url later).endpoints ≡ some e)
          × (e.healthy ≡ false))
        × All
            (λ e. e.url ≡ url → e.healthy ≡ true)
            (finish_reload (mark_unhealthy b' url later) p end).endpoints
  unfolding finish_reload install
  reload-loses_mark p b' url ep later end inv h found up =
      let begun = begin_reload-Begun p b' inv h in
      let (e, there, down, unavailable) =
        mark_unhealthy_down b' url later ep (rw begun.same_endpoints found) in
      let current = (mark_unhealthy b' url later).endpoints in
      (
        (e, there, down),
        All-map (λ x. x.url ≡ url → x.healthy ≡ true) (share_metrics current) p.endpoints
            (All-mono
              (λ x k same.
                let (u, healthy) = share_metrics-fields current x in
                healthy ∙ kept_healthy b.endpoints url ep x found up k (sym u ∙ same))
              p.endpoints begun.keeps_state),
      )
