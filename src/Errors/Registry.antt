-- ===== src/Errors/Registry.antt =====
-- The codes of the distributed errors (src/clients/python/src/archerdb/errors.py): their ranges, the
-- tables of messages and of retries, and the functions that look a code up. A table is a list of pairs
-- in the order of the source; a code that its enumeration lacks is in no table.
use archerdb.Base.{
  ℕ, Bool, true, false, ◌&&◌, List, [], ◌∷◌, Option, none, some, leb, ◌==◌, if◌then◌else◌,
}
use archerdb.Errors.{codes}

abbrev pub is_state_error : ℕ → Bool
is_state_error code = leb 200 code && leb code 243

abbrev pub is_multi_region_error : ℕ → Bool
is_multi_region_error code = leb 213 code && leb code 218

abbrev pub is_sharding_error : ℕ → Bool
is_sharding_error code = leb 220 code && leb code 224

abbrev pub is_encryption_error : ℕ → Bool
is_encryption_error code = leb 410 code && leb code 414

module _ {V : Type 0} where
  abbrev pub of_code : ℕ → List (ℕ × V) → Option V
  of_code code [] = none
  of_code code ((k, v) ∷ rows) = if k == code then some v else of_code code rows

unfoldable pub state_error_messages : List (ℕ × List ℕ)
state_error_messages =
    (200, codes "Entity not found") ∷ (210, codes "Entity has expired due to TTL") ∷ []

unfoldable pub multi_region_error_messages : List (ℕ × List ℕ)
multi_region_error_messages =
    (213, codes "Write operation rejected: follower regions are read-only")
    ∷ (214, codes "Follower data exceeds maximum staleness threshold")
    ∷ (215, codes "Cannot connect to primary region")
    ∷ (216, codes "Cross-region replication timeout")
    ∷ (217, codes "Write conflict detected in active-active replication")
    ∷ (218, codes "Entity geo-shard does not match target region")
    ∷ []

unfoldable pub sharding_error_messages : List (ℕ × List ℕ)
sharding_error_messages =
    (220, codes "This node is not the leader for target shard")
    ∷ (221, codes "Target shard has no available replicas")
    ∷ (222, codes "Cluster is currently resharding")
    ∷ (223, codes "Target shard count is invalid")
    ∷ (224, codes "Data migration to new shard failed")
    ∷ []

unfoldable pub encryption_error_messages : List (ℕ × List ℕ)
encryption_error_messages =
    (410, codes "Cannot retrieve encryption key from provider")
    ∷ (411, codes "Failed to decrypt data (auth tag mismatch)")
    ∷ (412, codes "Encryption required but not configured")
    ∷ (413, codes "Key rotation in progress, retry later")
    ∷ (414, codes "File encrypted with unsupported version")
    ∷ []

unfoldable pub multi_region_error_retryable : List (ℕ × Bool)
multi_region_error_retryable =
    (213, false) ∷ (214, true) ∷ (215, true) ∷ (216, true) ∷ (217, false) ∷ (218, false) ∷ []

unfoldable pub sharding_error_retryable : List (ℕ × Bool)
sharding_error_retryable =
    (220, true) ∷ (221, true) ∷ (222, true) ∷ (223, false) ∷ (224, false) ∷ []

unfoldable pub encryption_error_retryable : List (ℕ × Bool)
encryption_error_retryable =
    (410, true) ∷ (411, false) ∷ (412, false) ∷ (413, true) ∷ (414, false) ∷ []

abbrev pub state_error_message : ℕ → Option (List ℕ)
state_error_message code = of_code code state_error_messages

-- the three ranges in turn
abbrev pub by_range : {V : Type 0} → ℕ → List (ℕ × V) → List (ℕ × V) → List (ℕ × V) → Option V
by_range code multi_region sharding encryption =
    if is_multi_region_error code
    then of_code code multi_region
    else if is_sharding_error code
    then of_code code sharding
    else if is_encryption_error code
    then of_code code encryption
    else none

abbrev pub or_false : Option Bool → Bool
or_false none = false
or_false (some b) = b

unfoldable pub is_retryable : ℕ → Bool
is_retryable code =
    or_false (
      by_range code multi_region_error_retryable sharding_error_retryable
        encryption_error_retryable)

unfoldable pub error_message : ℕ → Option (List ℕ)
error_message code =
    by_range code multi_region_error_messages sharding_error_messages encryption_error_messages
