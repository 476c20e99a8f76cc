-- ===== src/Main/Reloading.antt =====
-- The answers of the reload handler.
use azoth_balancer.Prelude.{Bool, ℕ, ◌≡◌, refl, inl, inr, true, false, Text, Result, Given, Sat}
use azoth_balancer.Float.{Float}
use azoth_balancer.Limiter.{RateLimiter}
use azoth_balancer.Config.{Config}
use azoth_balancer.Config.Finalize.{FileRead}
use azoth_balancer.Balancer.{Client, LoadBalancer}
use azoth_balancer.Balancer.Invariant.{Inv}
use azoth_balancer.Reload.{ReloadResponse, NewSettings, client_settings_changed, new_client}
use azoth_balancer.Reload.Safe.{reload-safe}
use azoth_balancer.Main.{
  Reply, answered, dropped, ok_200, internal_server_error_500, default_changes, handle_reload,
  reload_reply,
}

-- An answer and the balancer after it.
pub data Answered {F L : Type 0} (can_build : Client → Bool) (b : LoadBalancer F L)
    : Reply × LoadBalancer F L → Type 0 where
  reloaded :
      (response : ReloadResponse) (b' : LoadBalancer F L)
      → response.success ≡ true
      → Inv b'
      → Answered can_build b (answered ok_200 response, b')
  kept :
      (response : ReloadResponse)
      → response.success ≡ false
      → Given response.error
      → response.changes ≡ default_changes
      → Answered can_build b (answered internal_server_error_500 response, b)
  unanswered :
      (new : NewSettings F)
      → client_settings_changed b new ≡ true
      → can_build (new_client new) ≡ false
      → Answered can_build b (dropped, b)

module _ {F L : Type 0} (fl : Float F) (rl : RateLimiter L) (can_build : Client → Bool) where
  -- On a balancer with the invariant the reload handler answers with status 200, a response that
  -- reports success and a balancer with the invariant, or with status 500, a response that reports
  -- an error and no changes, and the balancer as it was; or it panics without an answer and with
  -- the balancer as it was, which needs settings of the HTTP client that are others than before and
  -- with which no client can be built.
  pub handle_reload-answers :
      (read_to_string : Text → FileRead) (from_toml : Text → Result Text (Config F))
      (b : LoadBalancer F L) (now : ℕ)
      → Inv b
      → Sat (handle_reload fl rl can_build read_to_string from_toml b now) (Answered can_build b)
  unfolding handle_reload reload_reply
  handle_reload-answers read_to_string from_toml b now inv =
      elim (reload-safe fl rl can_build b now read_to_string from_toml inv) [
        | inl (e, ends) ↦ rw (ends, handle_reload) (kept _ refl tt refl)
        | inr (inl (new, changed, refused, ends)) ↦
            rw (ends, handle_reload) (unanswered new changed refused)
        | inr (inr (new, response, b', done, applied)) ↦
            rw (done, handle_reload) (reloaded response b' applied.success applied.inv)
      ]
