-- ===== src/Stage2/Json.antt =====
-- src/llm_inference_systems/stage2_protocol.py: decoded JSON values, and `_object`, `_array`,
-- `_token_ids`, `_json_without_duplicate_keys` and `_metrics` over them.
use llm_inference_systems.Prelude.{
  ℕ, suc, ◌-◌, ◌^◌, Bool, true, false, ◌&&◌, ◌||◌, not, Option, none, some, List, [], ◌∷◌, leb,
  ◌==◌, if◌then◌else◌, codes, length, all, list_eq, Result, ok, err, ℤ, pos, negsuc,
}
use llm_inference_systems.Sse.Codec.{Text}

-- A Python float that came out of JSON, which also reads NaN and the infinities.
pub data Real : Type 0 where
  finite : Bool → ℕ → ℕ → Real
  infinite : Bool → Real
  nan : Real

-- A value of `json.loads`, with every pair of an object as it was written.
mutual
  pub data Json : Type 0 where
    null : Json
    boolean : Bool → Json
    integer : ℤ → Json
    real : Real → Json
    string : Text → Json
    array : Items → Json
    object : Members → Json

  pub data Items : Type 0 where
    nil : Items
    cons : Json → Items → Items

  pub data Members : Type 0 where
    end : Members
    member : Text → Json → Members → Members

pub data JsonError : Type 0 where
  malformed_json duplicate_field not_an_object not_an_array : JsonError
  bad_token_ids not_a_string bad_metric metrics_shape : JsonError
  -- `float(item)` raises OverflowError, which is no ValueError and is not caught.
  float_overflow : JsonError

abbrev pub has_key : Text → Members → Bool
has_key key end = false
has_key key (member name value rest) = list_eq name key || has_key key rest

-- The hook runs on every object of the document.
unfoldable mutual
  pub has_duplicate : Json → Bool
  has_duplicate (array items) = has_duplicate_items items
  has_duplicate (object members) = has_duplicate_members members
  has_duplicate _ = false

  pub has_duplicate_items : Items → Bool
  has_duplicate_items nil = false
  has_duplicate_items (cons item rest) = has_duplicate item || has_duplicate_items rest

  pub has_duplicate_members : Members → Bool
  has_duplicate_members end = false
  has_duplicate_members (member name value rest) =
      has_key name rest || (has_duplicate value || has_duplicate_members rest)

-- `_json_without_duplicate_keys`, after `json.loads` gave a document or failed.
unfoldable pub without_duplicate_keys : Option Json → Result JsonError Json
without_duplicate_keys none = err malformed_json
without_duplicate_keys (some value) = if has_duplicate value then err duplicate_field else ok value

-- value.get(key)
unfoldable pub get : Text → Members → Option Json
get key end = none
get key (member name value rest) = if list_eq name key then some value else get key rest

unfoldable pub as_object : Option Json → Result JsonError Members
as_object (some (object members)) = ok members
as_object _ = err not_an_object

unfoldable pub as_array : Option Json → Result JsonError Items
as_array (some (array items)) = ok items
as_array _ = err not_an_array

unfoldable pub as_text : Option Json → Result JsonError Text
as_text (some (string text)) = ok text
as_text _ = err not_a_string

abbrev token_before : Json → Result JsonError (List ℕ) → Result JsonError (List ℕ)
token_before (integer (pos id)) (ok ids) = ok (id ∷ ids)
token_before _ _ = err bad_token_ids

token_items : Items → Result JsonError (List ℕ)
token_items nil = ok []
token_items (cons item rest) = token_before item (token_items rest)

-- `_token_ids`: a list of integers that are at least 0. A Boolean is refused although it is an `int`.
unfoldable pub token_ids : Option Json → Result JsonError (List ℕ)
unfolding token_items
token_ids (some (array items)) = token_items items
token_ids _ = err not_an_array

-- `value == 0` in Python: also `False`, `0.0` and `-0.0`.
unfoldable pub is_zero : Option Json → Bool
is_zero (some (integer (pos n))) = n == 0
is_zero (some (boolean b)) = not b
is_zero (some (real (finite negative numerator denominator))) = numerator == 0
is_zero _ = false

-- `value is None`, or no value.
abbrev pub is_null : Option Json → Bool
is_null none = true
is_null (some null) = true
is_null (some _) = false

-- The least magnitude that `float` refuses: halfway from the greatest double to 2 ^ 1024.
abbrev pub float_limit : ℕ
float_limit = 2 ^ 1024 - 2 ^ 970

-- One value of the metrics object: null, or a finite number that is at least 0.
unfoldable pub metric_value : Json → Result JsonError (Unit {0})
metric_value null = ok tt
metric_value (integer (pos n)) = if leb float_limit n then err float_overflow else ok tt
metric_value (integer (negsuc n)) =
    if leb float_limit (suc n) then err float_overflow else err bad_metric
metric_value (real (finite false n d)) = ok tt
metric_value (real (finite true n d)) = if n == 0 then ok tt else err bad_metric
metric_value _ = err bad_metric

metric_values : Members → Result JsonError (Unit {0})
metric_values end = ok tt
metric_values (member name value rest) = elim (metric_value value) [
  | ok _ ↦ metric_values rest
  | err e ↦ err e
]

-- The field names of Stage2PerRequestMetrics.
abbrev pub metric_names : List Text
metric_names =
    codes "time_to_first_token_ms"
    ∷ codes "generation_time_ms"
    ∷ codes "queue_time_ms"
    ∷ codes "mean_itl_ms"
    ∷ codes "tokens_per_second"
    ∷ []

abbrev pub member_count : Members → ℕ
member_count end = 0
member_count (member name value rest) = suc (member_count rest)

abbrev pub has_exactly : List Text → Members → Bool
has_exactly names members =
    all (λ name. has_key name members) names && member_count members == length names

-- `_metrics`: every value is checked, then the exact five-field shape.
unfoldable pub metrics : Option Json → Result JsonError Members
unfolding metric_value metric_values
metrics (some (object members)) = elim (metric_values members) [
  | ok _ ↦ if has_exactly metric_names members then ok members else err metrics_shape
  | err e ↦ err e
]
metrics _ = err not_an_object

abbrev is_integer : ℕ → Option Json → Bool
is_integer n (some (integer (pos m))) = m == n
is_integer n _ = false

-- Stage2Usage.model_validate: three fields with their literal values, and no other.
unfoldable pub is_stage2_usage : Members → Bool
is_stage2_usage usage =
    has_exactly (codes "prompt_tokens" ∷ codes "completion_tokens" ∷ codes "total_tokens" ∷ [])
      usage
    && (is_integer 64 (get (codes "prompt_tokens") usage)
        && (is_integer 32 (get (codes "completion_tokens") usage)
            && is_integer 96 (get (codes "total_tokens") usage)))
