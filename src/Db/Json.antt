-- ===== src/Db/Json.antt =====
-- The json package, as far as TinyCTX/db.py uses it: a text of type T and the values V that it
-- can hold. The laws are what its documentation says of objects with text keys and of lists.
use tiny_ctx.Base.{String, ◌≡◌, Bool, true, List, Option, some}
use tiny_ctx.Base.Dict.{Dict}

-- What a text holds, apart from an object or a list of texts nothing is looked at.
pub data Loaded (V : Type 0) : Type 0 where
  object : Dict String V → Loaded V
  array : List String → Loaded V
  other : Loaded V

-- `loads` answers none where the package raises JSONDecodeError.
pub record Json (T V : Type 0) : Type 0 where
  pub loads : T → Option (Loaded V)
  pub dumps : Dict String V → T
  pub dumps_list : List String → T
  pub nonempty_text : T → Bool
  pub true_value : V
  pub truthy : V → Bool

pub record JsonLaws {T V : Type 0} (json : Json T V) : Type 0 where
  pub loads-dumps : (d : Dict String V) → json.loads (json.dumps d) ≡ some (object d)
  pub loads-dumps_list : (xs : List String) → json.loads (json.dumps_list xs) ≡ some (array xs)
  pub dumps-nonempty : (d : Dict String V) → json.nonempty_text (json.dumps d) ≡ true
  pub dumps_list-nonempty : (xs : List String) → json.nonempty_text (json.dumps_list xs) ≡ true
  pub truthy-true : json.truthy json.true_value ≡ true
