-- ===== src/Logging.antt =====
-- utils/logging.py: the records that `RequestLogger` logs and the dictionary that `JSONFormatter`
-- writes of one. The time, the level and the logger's name are arguments, and so is the text of an
-- exception, if the record has one.
use llm_serving_runtime.Base.{
  ℕ, ◌≡◌, refl, sym, ap, ◌∙◌, inl, inr, Bool, false, ◌||◌, Option, none, some, List, [], ◌∷◌, ◌++◌,
  arith, if◌then◌else◌, Bool-cases,
}
use llm_serving_runtime.Base.Text.{String, str_eq, eq_iff}

pub data Value : Type 0 where
  text : String → Value
  number : ℕ → Value
  milliseconds : ℕ → Value
  flag : Bool → Value
  texts : List String → Value

-- A record, with the attributes that `extra` gives it.
pub record LogRecord : Type 0 where
  pub message : String
  pub extra : List (String × Value)

-- A call of one of the logger's methods.
pub data Call : Type 0 where
  received : (request_id model : String) → (stream : Bool) → Call
  enqueued : (request_id : String) → Call
  rejected : (request_id reason : String) → (status_code : ℕ) → Call
  batch_formed : (batch_size : ℕ) → (request_ids : List String) → Call
  token_generated : (request_id : String) → (token_index : ℕ) → Call
  completed : (request_id : String) → (tokens elapsed_ms : ℕ) → Call
  failed : (request_id error : String) → Call

unfoldable pub log_record : Call → LogRecord
log_record (received id model stream) = record {
  message = "request received";
  extra =
      ("request_id", text id)
      ∷ ("event", text "request_received")
      ∷ ("model", text model)
      ∷ ("stream", flag stream)
      ∷ [];
}
log_record (enqueued id) = record {
  message = "request enqueued";
  extra = ("request_id", text id) ∷ ("event", text "request_enqueued") ∷ [];
}
log_record (rejected id reason status_code) = record {
  message = "request rejected";
  extra =
      ("request_id", text id)
      ∷ ("event", text "request_rejected")
      ∷ ("reason", text reason)
      ∷ ("status_code", number status_code)
      ∷ [];
}
log_record (batch_formed batch_size request_ids) = record {
  message = "batch formed for execution";
  extra =
      ("event", text "batch_formed")
      ∷ ("batch_size", number batch_size)
      ∷ ("request_ids", texts request_ids)
      ∷ [];
}
log_record (token_generated id token_index) = record {
  message = "token generated";
  extra =
      ("request_id", text id)
      ∷ ("event", text "token_generated")
      ∷ ("token_index", number token_index)
      ∷ [];
}
log_record (completed id tokens elapsed_ms) = record {
  message = "request completed";
  extra =
      ("request_id", text id)
      ∷ ("event", text "request_completed")
      ∷ ("tokens", number tokens)
      ∷ ("elapsed_ms", milliseconds elapsed_ms)
      ∷ [];
}
log_record (failed id error) = record {
  message = "request failed";
  extra = ("request_id", text id) ∷ ("event", text "request_failed") ∷ ("error", text error) ∷ [];
}

-- `getattr(record, key, None)`.
abbrev pub attribute : String → List (String × Value) → Option Value
attribute key [] = none
attribute key ((k, value) ∷ entries) = if str_eq k key then some value else attribute key entries

-- The keys that the formatter copies.
abbrev pub known_keys : List String
known_keys =
    "request_id" ∷ "event" ∷ "elapsed_ms" ∷ "tokens" ∷ "batch_size" ∷ "reason" ∷ "status_code"
    ∷ "error" ∷ []

unfoldable pub copy_keys : List String → List (String × Value) → List (String × Value)
copy_keys [] extra = []
copy_keys (key ∷ keys) extra =
    let rest = copy_keys keys extra in
    elim (attribute key extra) [ none ↦ rest | some value ↦ (key, value) ∷ rest ]

unfoldable pub format :
    (timestamp level logger : String) → Option String → LogRecord → List (String × Value)
unfolding copy_keys
format timestamp level logger exception r =
    ("timestamp", text timestamp)
    ∷ ("level", text level)
    ∷ ("logger", text logger)
    ∷ ("message", text r.message)
    ∷ (elim exception [ none ↦ [] | some trace ↦ ("exception", text trace) ∷ [] ]
        ++ copy_keys known_keys r.extra)

abbrev pub is_key : List String → String → Bool
is_key [] key = false
is_key (k ∷ keys) key = str_eq k key || is_key keys key

-- A copied key has the record's value, any other has none.
attribute-copy_keys :
    (keys : List String) (key : String) (extra : List (String × Value))
    → attribute key (copy_keys keys extra) ≡ (if is_key keys key then attribute key extra else none)
unfolding copy_keys
attribute-copy_keys [] key extra = refl
attribute-copy_keys (k ∷ keys) key extra =
    by_value (attribute-copy_keys keys key extra) (attribute k extra) refl
  where
    by_value :
        attribute key (copy_keys keys extra)
          ≡ (if is_key keys key then attribute key extra else none)
        → (v : Option Value) → attribute k extra ≡ v
        → attribute key (copy_keys (k ∷ keys) extra)
          ≡ (if is_key (k ∷ keys) key then attribute key extra else none)
    by_value rest none e = elim (Bool-cases (str_eq k key)) [
      | inl same ↦
          let missing : attribute key extra ≡ none =
            ap (λ x. attribute x extra) (sym ((eq_iff k key).0 same)) ∙ e in
          rw (e, copy_keys, same)
            (rest ∙ elim (Bool-cases (is_key keys key)) [
              | inl known ↦ rw (known, missing) refl
              | inr unknown ↦ rw (unknown, missing) refl
            ])
      | inr other ↦ rw (e, copy_keys, other) rest
    ]
    by_value rest (some x) e = elim (Bool-cases (str_eq k key)) [
      | inl same ↦
          let found : attribute key extra ≡ some x =
            ap (λ x. attribute x extra) (sym ((eq_iff k key).0 same)) ∙ e in
          rw (e, copy_keys, same) (sym found)
      | inr other ↦ rw (e, copy_keys, other) rest
    ]

-- The keys that the formatter writes itself.
abbrev pub own_keys : List String
own_keys = "timestamp" ∷ "level" ∷ "logger" ∷ "message" ∷ "exception" ∷ []

-- A written line has the record's attributes `request_id`, `event`, `elapsed_ms`, `tokens`,
-- `batch_size`, `reason`, `status_code` and `error`, as they are, and no other
-- key besides the formatter's own.
pub format-attribute :
    (timestamp level logger : String) (exception : Option String) (r : LogRecord) (key : String)
    → is_key own_keys key ≡ false
    → attribute key (format timestamp level logger exception r) ≡ (
        if is_key
          ("request_id" ∷ "event" ∷ "elapsed_ms" ∷ "tokens" ∷ "batch_size" ∷ "reason"
            ∷ "status_code" ∷ "error" ∷ [])
          key
        then attribute key r.extra
        else none)
unfolding format
format-attribute timestamp level logger none r key other =
    ground (arith, other, attribute-copy_keys known_keys key r.extra)
format-attribute timestamp level logger (some trace) r key other =
    ground (arith, other, attribute-copy_keys known_keys key r.extra)
