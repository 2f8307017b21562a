-- ===== src/Tools/Coerce.antt =====
-- `_coerce_args` of TinyCTX/tool_handling/handler.py: the arguments of a call are cast to the
-- types that the function's signature declares.
use tiny_ctx.Base.{
  String, Bool, true, false, not, List, [], ◌∷◌, Option, none, some, ◌==◌, string_eq, if◌then◌else◌,
  contains,
}
use tiny_ctx.Base.Dict.{Dict, lookup}
use tiny_ctx.Tools.Values.{Value, Args, Cast, refused, raises, Builtins, bool, int, float, str}

-- A type that can stand in an annotation.
pub data PyType : Type 0 where
  int_type float_type bool_type str_type none_type : PyType
  other_type : String → PyType

-- An annotation: missing, a text (under `from __future__ import annotations`), a type, or a union.
pub data Annotation : Type 0 where
  empty : Annotation
  text : String → Annotation
  type : PyType → Annotation
  union : List PyType → Annotation

-- `{'int': int, 'float': float, 'bool': bool, 'str': str}.get(ann, ann)`
resolve_text : String → PyType
resolve_text name =
    if name == "int"
    then int_type
    else if name == "float"
    then float_type
    else if name == "bool"
    then bool_type
    else if name == "str"
    then str_type
    else other_type name

-- `[a for a in ann.__args__ if a is not type(None)]`
without_none : List PyType → List PyType
without_none [] = []
without_none (none_type ∷ ts) = without_none ts
without_none (t ∷ ts) = t ∷ without_none ts

-- A union of one type and None is that type; other unions are no primitive.
unwrap_union : List PyType → PyType
unwrap_union (t ∷ []) = t
unwrap_union _ = other_type "union"

resolve : Annotation → Option PyType
unfolding resolve_text without_none unwrap_union
resolve empty = none
resolve (text name) = some (resolve_text name)
resolve (type t) = some t
resolve (union ts) = some (unwrap_union (without_none ts))

-- `isinstance(value, ann)`; a bool is an int
is_instance : Value → PyType → Bool
is_instance (bool _) bool_type = true
is_instance (bool _) int_type = true
is_instance (int _) int_type = true
is_instance (float _) float_type = true
is_instance (str _) str_type = true
is_instance _ _ = false

-- `value.strip().lower() not in ("false", "0", "no", "")` for texts, `bool(value)` otherwise
cast_bool : Builtins → Value → Value
cast_bool py (str s) = bool (not (contains ("false" ∷ "0" ∷ "no" ∷ "" ∷ []) (py.strip_lower s)))
cast_bool py v = bool (py.truthy v)

-- The cast to a primitive type; another type leaves the value alone.
cast_to : Builtins → PyType → Value → Cast
unfolding cast_bool
cast_to py int_type v = py.to_int v
cast_to py float_type v = py.to_float v
cast_to py bool_type v = Cast.value (cast_bool py v)
cast_to py str_type v = py.to_str v
cast_to py _ v = Cast.value v

-- A refused cast leaves the value; another exception leaves `_coerce_args`, which is `none`.
settle : Cast → Value → Option Value
settle (Cast.value w) v = some w
settle refused v = some v
settle raises v = none

-- The body of the loop for one argument.
unfoldable pub coerce_value : Builtins → Option Annotation → Value → Option Value
unfolding resolve is_instance cast_to settle
coerce_value py none v = some v
coerce_value py (some ann) v = elim (resolve ann) [
  | none ↦ some v
  | some t ↦ if is_instance v t then some v else settle (cast_to py t v) v
]

unfoldable pub coerce_args : Builtins → Dict String Annotation → Args → Option Args
unfolding coerce_value
coerce_args py sig [] = some []
coerce_args py sig ((key, v) ∷ args) =
    let rest = coerce_args py sig args in
    elim (coerce_value py (lookup key sig) v) [
      | none ↦ none
      | some w ↦ elim rest [ none ↦ none | some ws ↦ some ((key, w) ∷ ws) ]
    ]
