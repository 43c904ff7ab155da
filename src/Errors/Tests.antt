-- ===== src/Errors/Tests.antt =====
-- Codes of the distributed errors.
use archerdb.Base.{◌≡◌, refl, ◌++◌, none}
use archerdb.Errors.Registry.{
  of_code, or_false, is_retryable, error_message, multi_region_error_messages,
  sharding_error_messages, encryption_error_messages, multi_region_error_retryable,
  sharding_error_retryable, encryption_error_retryable,
}
use archerdb.Errors.Lookup.{error_message-all}

-- An entity that does not exist has a message of its own, which `error_message` does not know.
no_state_message : error_message 200 ≡ none
unfolding error_message
no_state_message = refl

error_message-all_example :
    (error_message 216
      ≡ of_code 216
          (multi_region_error_messages ++ (sharding_error_messages ++ encryption_error_messages)))
    × (is_retryable 216
        ≡ or_false (
            of_code 216 (
              multi_region_error_retryable
              ++ (sharding_error_retryable ++ encryption_error_retryable))))
error_message-all_example = error_message-all 216
