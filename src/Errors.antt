-- ===== src/Errors.antt =====
-- The errors of the client (src/clients/python/src/archerdb/client.py): the exception classes with
-- their codes and their `retryable` attribute, and `_is_retryable_error`. A message is a list of
-- code points, and `lower` acts on ASCII letters.
pub mod Registry
pub mod Lookup
mod Tests
use archerdb.Base.{ℕ, ◌+◌, Bool, true, false, ◌&&◌, ◌||◌, List, [], ◌∷◌, leb, ◌==◌, if◌then◌else◌}
use Prim.Native.String.{String}
use Prim.Native.Char.{code}

-- the subclasses of `ArcherDBError`, without `RetryExhausted`, which carries another error
pub data ErrorClass : Type 0 where
  connection_failed connection_timeout cluster_unavailable view_change_in_progress : ErrorClass
  not_primary invalid_coordinates polygon_too_complex batch_too_large : ErrorClass
  invalid_entity_id operation_timeout query_result_too_large out_of_space : ErrorClass
  session_expired client_closed circuit_breaker_open : ErrorClass

unfoldable pub error_code : ErrorClass → ℕ
error_code connection_failed = 1001
error_code connection_timeout = 1002
error_code cluster_unavailable = 2001
error_code view_change_in_progress = 2002
error_code not_primary = 2003
error_code invalid_coordinates = 3001
error_code polygon_too_complex = 3002
error_code batch_too_large = 3003
error_code invalid_entity_id = 3004
error_code operation_timeout = 4001
error_code query_result_too_large = 4002
error_code out_of_space = 4003
error_code session_expired = 4004
error_code client_closed = 5001
error_code circuit_breaker_open = 600

unfoldable pub class_retryable : ErrorClass → Bool
class_retryable connection_failed = true
class_retryable connection_timeout = true
class_retryable cluster_unavailable = true
class_retryable view_change_in_progress = true
class_retryable not_primary = true
class_retryable invalid_coordinates = false
class_retryable polygon_too_complex = false
class_retryable batch_too_large = false
class_retryable invalid_entity_id = false
class_retryable operation_timeout = true
class_retryable query_result_too_large = false
class_retryable out_of_space = false
class_retryable session_expired = true
class_retryable client_closed = false
class_retryable circuit_breaker_open = true

-- An exception: one of the client's, `RetryExhausted(attempts, last_error)`, Python's own
-- `TimeoutError` and `ConnectionError`, or any other with its message.
pub data Error : Type 0 where
  client_error : ErrorClass → Error
  retry_exhausted : ℕ → Error → Error
  timeout_error connection_error : Error
  other : List ℕ → Error

abbrev pub codes : String → List ℕ
codes String.[] = []
codes (String.◌∷◌ c s) = code c ∷ codes s

unfoldable pub lower : List ℕ → List ℕ
lower [] = []
lower (c ∷ cs) = (if leb 65 c && leb c 90 then c + 32 else c) ∷ lower cs

unfoldable pub starts_with : List ℕ → List ℕ → Bool
starts_with [] cs = true
starts_with (p ∷ ps) [] = false
starts_with (p ∷ ps) (c ∷ cs) = (p == c) && starts_with ps cs

-- `part in text`
unfoldable pub contains : List ℕ → List ℕ → Bool
unfolding starts_with
contains part [] = starts_with part []
contains part (c ∷ cs) = starts_with part (c ∷ cs) || contains part cs

unfoldable pub mentions_network : List ℕ → Bool
unfolding lower contains
mentions_network message =
    let msg = lower message in
    contains (codes "timeout") msg
    || contains (codes "connection") msg
    || contains (codes "reset") msg
    || contains (codes "refused") msg
    || contains (codes "network") msg

unfoldable pub is_retryable_error : Error → Bool
unfolding class_retryable mentions_network
is_retryable_error (client_error c) = class_retryable c
is_retryable_error (retry_exhausted attempts last_error) = false
is_retryable_error timeout_error = true
is_retryable_error connection_error = true
is_retryable_error (other message) = mentions_network message
