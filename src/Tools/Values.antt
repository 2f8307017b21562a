-- ===== src/Tools/Values.antt =====
-- The values of a tool call, and the builtins of Python that the handler calls on them.
use tiny_ctx.Base.{String, ℕ, Bool}
use tiny_ctx.Base.Dict.{Dict}

-- `negsuc n` is -(n + 1).
pub data ℤ : Type 0 where
  pos : ℕ → ℤ
  negsuc : ℕ → ℤ

-- A value of an argument. A float is known by its `repr`, a list or a dict by its JSON text.
pub data Value : Type 0 where
  null : Value
  bool : Bool → Value
  int : ℤ → Value
  float str container : String → Value

abbrev pub Args : Type 0
Args = Dict String Value

-- The outcome of `int(v)`, `float(v)` or `str(v)`: a value, a `ValueError` or a `TypeError`, or
-- another exception.
pub data Cast : Type 0 where
  value : Value → Cast
  refused raises : Cast

-- `json.loads` of an argument text: `JSONDecodeError`, an object, or another JSON value.
pub data Loaded : Type 0 where
  not_json : Loaded
  object : Args → Loaded
  other : Loaded

-- What the handler takes from Python: conversions, `bool(v)`, `s.strip().lower()`, `json.loads`.
pub record Builtins : Type 0 where
  pub to_int : Value → Cast
  pub to_float : Value → Cast
  pub to_str : Value → Cast
  pub truthy : Value → Bool
  pub strip_lower : String → String
  pub loads : String → Loaded
