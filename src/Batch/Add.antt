-- ===== src/Batch/Add.antt =====
-- What a `GeoEventBatch` accepts, and where the accepted events go.
use archerdb.Base.{
  ℕ, suc, ◌<◌, ==_iff, not, not-true, not-false, true≢false, if_elim, leb, leb→le, and_then, leb→gt,
  ◌==◌, ◌≤◌, ◌≡◌, ◌≢◌, ◌∙◌, sym, Bool, true, [], ◌∷◌, ◌++◌, Result, ok, err, length, arith,
}
use archerdb.Base.Int.{ℤ, pos, negsuc, pos_part, neg_part}
use archerdb.Errors.{Error, client_error, batch_too_large, invalid_entity_id, invalid_coordinates}
use archerdb.Types.{GeoEvent, batch_size_max}
use archerdb.Batch.{GeoEventBatch, add, validate_event, within}

-- the absolute value is within the bound
abbrev pub Within : ℤ → ℕ → Type 0
Within value bound = pos_part value ≤ bound × neg_part value ≤ bound

pub record ValidEvent (event : GeoEvent) : Type 0 where
  pub entity : event.entity_id ≢ 0
  pub latitude : Within event.lat_nano 90_000_000_000
  pub longitude : Within event.lon_nano 180_000_000_000
  pub heading : Within event.heading_cdeg 36_000 × neg_part event.heading_cdeg ≡ 0

in_range : (value : ℤ) (b : ℕ) → Within value (suc b) → within (negsuc b) value (pos (suc b)) ≡ true
in_range value b h = ground arith

in_range-inv :
    (value : ℤ) (b : ℕ) → within (negsuc b) value (pos (suc b)) ≡ true → Within value (suc b)
in_range-inv value b h = ground arith

from_zero :
    (value : ℤ) (b : ℕ) → Within value b × neg_part value ≡ 0 → within (pos 0) value (pos b) ≡ true
from_zero value b h = ground arith

from_zero-inv :
    (value : ℤ) (b : ℕ) → within (pos 0) value (pos b) ≡ true → Within value b × neg_part value ≡ 0
from_zero-inv value b h = ground arith

out_of_range : {b : Bool} {P : Type 0} → (P → b ≡ true) → not b ≡ true → ¬ P
out_of_range h n p = true≢false (sym (h p) ∙ not-true _ n)

-- To prove a property of the answer of `_validate_event` it is enough to prove it of each case.
module _ (event : GeoEvent) (P : Result Error GeoEvent → Type 0) where
  validate_event_rule :
      (event.entity_id ≡ 0 → P (err (client_error invalid_entity_id)))
      → (event.entity_id ≢ 0 → ¬ (ValidEvent event) → P (err (client_error invalid_coordinates)))
      → (ValidEvent event → P (ok event))
      → P (validate_event event)
  unfolding validate_event
  validate_event_rule zero bad good =
      if_elim P (event.entity_id == 0) (λ h. zero ((==_iff _ _).0 h))
        (λ some_id.
          let ne : event.entity_id ≢ 0 = λ e. true≢false (sym ((==_iff _ _).1 e) ∙ some_id) in
          if_elim P (not (within (negsuc 89_999_999_999) event.lat_nano (pos 90_000_000_000)))
            (λ h. bad ne (λ v. out_of_range (in_range _ _) h v.latitude))
            (λ lat.
              if_elim P (not (within (negsuc 179_999_999_999) event.lon_nano (pos 180_000_000_000)))
                (λ h. bad ne (λ v. out_of_range (in_range _ _) h v.longitude))
                (λ lon.
                  if_elim P (not (within (pos 0) event.heading_cdeg (pos 36_000)))
                    (λ h. bad ne (λ v. out_of_range (from_zero _ _) h v.heading))
                    (λ heading. good (record {
                      entity = ne;
                      latitude = in_range-inv _ _ (not-false _ lat);
                      longitude = in_range-inv _ _ (not-false _ lon);
                      heading = from_zero-inv _ _ (not-false _ heading);
                    })))))

-- What `add` answers: the error, or the batch with the event behind the others.
pub data Added (batch : GeoEventBatch) (event : GeoEvent)
    : Result Error GeoEventBatch → Type 0 where
  full :
      batch_size_max ≤ length batch.events → Added batch event (err (client_error batch_too_large))
  zero_id :
      length batch.events < batch_size_max
      → event.entity_id ≡ 0
      → Added batch event (err (client_error invalid_entity_id))
  bad_coordinates :
      length batch.events < batch_size_max
      → event.entity_id ≢ 0
      → ¬ (ValidEvent event)
      → Added batch event (err (client_error invalid_coordinates))
  appended :
      length batch.events < batch_size_max
      → ValidEvent event
      → Added batch event (ok (record batch { events = batch.events ++ event ∷ [] }))

-- `add` refuses any event for a full batch, then an event with id 0, then one with a latitude, a
-- longitude or a heading out of range, each with its own error; it appends every other event.
pub add_lem : (batch : GeoEventBatch) (event : GeoEvent) → Added batch event (add batch event)
unfolding add
add_lem batch event =
    if_elim (Added batch event) (leb batch_size_max (length batch.events))
      (λ h. full (leb→le _ _ h))
      (λ room.
        let less : length batch.events < batch_size_max = leb→gt _ _ room in
        validate_event_rule event
          (λ r.
            Added batch event
              (and_then r (λ checked. ok (record batch { events = batch.events ++ checked ∷ [] }))))
          (zero_id less) (bad_coordinates less) (appended less))
