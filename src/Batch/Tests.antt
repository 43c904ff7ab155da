-- ===== src/Batch/Tests.antt =====
-- Runs of the batches, and the theorems at concrete inputs.
use archerdb.Base.{ℕ, ◌≡◌, refl, List, [], ◌∷◌, ok, err, arith}
use archerdb.Base.Int.{ℤ, pos, negsuc}
use archerdb.Errors.{client_error, cluster_unavailable}
use archerdb.Types.{GeoEvent, BatchError, delete_entities_error}
use archerdb.Batch.{create_batch, validate_event, add, commit}
use archerdb.Batch.History.{
  Call, adding, committing, no_calls, perform, perform_all, Balanced, perform_all-Balanced,
}

abbrev event_at : ℕ → ℤ → GeoEvent
event_at entity_id lat_nano = record {
  id = 0;
  entity_id = entity_id;
  correlation_id = 0;
  user_data = 0;
  lat_nano = lat_nano;
  lon_nano = negsuc 122_419_399_999;
  group_id = 1;
  timestamp = 0;
  altitude_mm = pos 0;
  velocity_mms = 0;
  ttl_seconds = 0;
  accuracy_mm = 0;
  heading_cdeg = pos 9_000;
  flags = 0;
}

abbrev calls : List Call
calls =
    adding (event_at 7 (pos 5))
    ∷ adding (event_at 0 (pos 5))
    ∷ committing (λ op events. err (client_error cluster_unavailable))
    ∷ adding (event_at 8 (pos 90_000_000_000))
    ∷ committing (λ op events. ok [])
    ∷ adding (event_at 9 (negsuc 4))
    ∷ []

calls_run : perform_all calls no_calls ≡ record {
  accepted = event_at 7 (pos 5) ∷ event_at 8 (pos 90_000_000_000) ∷ event_at 9 (negsuc 4) ∷ [];
  gone = event_at 7 (pos 5) ∷ event_at 8 (pos 90_000_000_000) ∷ [];
  batch = record create_batch { events = event_at 9 (negsuc 4) ∷ [] };
}
unfolding perform_all perform add commit validate_event
calls_run = refl

perform_all-Balanced_example : Balanced (perform_all calls no_calls)
perform_all-Balanced_example =
    perform_all-Balanced calls no_calls (record { kept = refl; valid = tt; bounded = omega arith })

-- two deletions fail, one of them because there is no such entity
abbrev results : List BatchError
results = delete_entities_error 1 3 ∷ delete_entities_error 2 5 ∷ []
