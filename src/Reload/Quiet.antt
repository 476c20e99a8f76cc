-- ===== src/Reload/Quiet.antt =====
-- What the creation and the cleanup of the metrics of an endpoint leave alone.
use azoth_balancer.Prelude.{◌≡◌, refl, ◌∙◌, List, [], ◌∷◌, Text}
use azoth_balancer.Metrics.{Metric, Registry, counter, gauge_moves}
use azoth_balancer.Reload.Rebuild.{
  initialize_endpoint_metrics, cleanup_all, cleanup_endpoint_metrics,
}

-- The metrics of endpoints come and go without the gauge of active requests.
pub initialize-moves :
    (url : Text) (registry : Registry)
    → gauge_moves (initialize_endpoint_metrics url registry) ≡ gauge_moves registry
unfolding initialize_endpoint_metrics gauge_moves
initialize-moves url registry = refl

-- Creating counters leaves their values.
pub initialize-counter :
    (created : Text) (registry : Registry) (m : Metric) (url : Text)
    → counter m url (initialize_endpoint_metrics created registry) ≡ counter m url registry
unfolding initialize_endpoint_metrics counter
initialize-counter created registry m url = refl

pub cleanup-moves :
    (urls : List Text) (registry : Registry)
    → gauge_moves (cleanup_all urls registry) ≡ gauge_moves registry
unfolding cleanup_all cleanup_endpoint_metrics
cleanup-moves [] registry = refl
cleanup-moves (url ∷ urls) registry =
    cleanup-moves urls (cleanup_endpoint_metrics url registry) ∙ (unfold gauge_moves in refl)
