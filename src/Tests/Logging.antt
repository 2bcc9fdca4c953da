-- ===== src/Tests/Logging.antt =====
-- utils/logging.py: the line for a batch.
use llm_serving_runtime.Base.{◌≡◌, refl, none, [], ◌∷◌}
use llm_serving_runtime.Logging.{attribute, batch_formed, log_record, format, format-attribute}

format-attribute_example :
    attribute "request_ids"
      (format "12:00" "INFO" "llm_runtime.request" none (log_record (batch_formed 1 ("r1" ∷ []))))
    ≡ none
format-attribute_example =
    format-attribute "12:00" "INFO" "llm_runtime.request" none
      (log_record (batch_formed 1 ("r1" ∷ []))) "request_ids" refl
