-- ===== src/Types.antt =====
-- The records that requests and replies carry (src/clients/python/src/archerdb/types.py).
use archerdb.Base.{ℕ, Bool, List, Option}
use archerdb.Base.Int.{ℤ}

pub record GeoEvent : Type 0 where
  pub id : ℕ
  pub entity_id : ℕ
  pub correlation_id : ℕ
  pub user_data : ℕ
  pub lat_nano : ℤ
  pub lon_nano : ℤ
  pub group_id : ℕ
  pub timestamp : ℕ
  pub altitude_mm : ℤ
  pub velocity_mms : ℕ
  pub ttl_seconds : ℕ
  pub accuracy_mm : ℕ
  pub heading_cdeg : ℤ
  pub flags : ℕ

pub data GeoOperation : Type 0 where
  insert_events upsert_events delete_entities_operation : GeoOperation

-- The per-event errors of a reply: each has the index in its batch and a code. Anything else that
-- a reply may hold is opaque.
pub data BatchError : Type 0 where
  insert_geo_events_error : ℕ → ℕ → BatchError
  delete_entities_error : ℕ → ℕ → BatchError
  unknown_error : ℕ → BatchError

pub record DeleteResult : Type 0 where
  pub deleted_count : ℤ
  pub not_found_count : ℕ

abbrev pub batch_size_max : ℕ
batch_size_max = 10_000

pub record QueryResult : Type 0 where
  pub events : List GeoEvent
  pub has_more : Bool
  pub cursor : Option ℕ
