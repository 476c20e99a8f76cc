-- ===== src/Refinement.antt =====
-- What an observer sees of the balancer: which URLs it serves, whether it takes each of them for
-- healthy, and what a reload under way is going to serve. The abstract machine knows no metrics,
-- limiters, cooldowns, tasks or settings.
pub mod Operations
pub mod Requests
pub mod Observing
pub mod Simulation
use azoth_balancer.Prelude.{
  ℕ, Bool, true, false, List, [], ◌∷◌, map, Text, text_eq, lookup, get_or, update_first, Option,
  none, some,
}
use azoth_balancer.Endpoint.{RpcEndpoint}

abbrev pub View : Type 0
View = List (Text × Bool)

abbrev pub seen : RpcEndpoint → Text × Bool
seen ep = (ep.url, ep.healthy)

abbrev pub view : List RpcEndpoint → View
view = map seen

-- The health of one URL is written, if the URL is served.
unfoldable pub set_health : Text → Bool → View → View
set_health url healthy v = update_first (λ p. text_eq p.0 url) (λ p. (p.0, healthy)) v

unfoldable pub set_all : List (Text × Bool) → View → View
set_all [] v = v
set_all ((url, healthy) ∷ results) v = set_all results (set_health url healthy v)

-- The URLs that are served from now on: what is known of a URL is kept, and a new one is healthy.
unfoldable pub serve_urls : List Text → View → View
serve_urls urls v = map (λ url. (url, get_or (lookup url v) true)) urls

-- What is done to the URLs that are served.
pub data Act : Type 0 where
  silent : Act
  fail : (url : Text) → Act
  check : (results : List (Text × Bool)) → Act

unfoldable pub act : Act → View → View
act silent v = v
act (fail url) v = set_health url false v
act (check results) v = set_all results v

pub record Observed : Type 0 where
  pub served : View
  pub coming : Option View

-- A reload plans from what is served by then, and switches to its plan later, whatever was done to
-- the URLs that are served in between.
pub data Move : Type 0 where
  touch : Act → Move
  plan : (urls : List Text) → Move
  switch : Move

unfoldable pub switch_to : Option View → Observed → Observed
switch_to none o = o
switch_to (some v) o = record { served = v; coming = none }

unfoldable pub move : Move → Observed → Observed
unfolding switch_to
move (touch a) o = record o { served = act a o.served }
move (plan urls) o = record o { coming = some (serve_urls urls o.served) }
move switch o = switch_to o.coming o

unfoldable pub moves : List Move → Observed → Observed
moves [] o = o
moves (m ∷ rest) o = moves rest (move m o)
