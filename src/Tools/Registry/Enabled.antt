-- ===== src/Tools/Registry/Enabled.antt =====
-- Only registered tools are ever enabled, and only by their exact name.
use tiny_ctx.Base.{
  String, ◌≡◌, Bool, true, List, [], ◌∷◌, Option, ◌==◌, string_eq, if◌then◌else◌, contains,
  contains-add, contains-discard, arith,
}
use tiny_ctx.Base.Dict.{Dict, has_key, lookup-insert}
use tiny_ctx.Permissions.{Permission}
use tiny_ctx.Tools.Values.{Args}
use tiny_ctx.Tools.Coerce.{Annotation}
use tiny_ctx.Tools.Registry.{
  Handler, Ran, Required, ToolOverride, make_tool, register_tool, apply_override, apply_overrides,
  enable, tools_search,
}

module _ {W : Type 0} where
  pub record EnabledRegistered (h : Handler W) : Type 0 where
    pub registered : (name : String) → contains h.enabled name ≡ true → has_key name h.tools ≡ true

  register_tool-EnabledRegistered :
      (name : String) (f : Args → W → Ran × W) (description : String)
      (signature : Dict String Annotation) (always_on : Bool) (required : Required)
      (listing : Option (List Permission)) (h : Handler W)
      → EnabledRegistered h
      → EnabledRegistered (register_tool name f description signature always_on required listing h)
  unfolding register_tool
  register_tool-EnabledRegistered name f description signature always_on required listing h e =
      record {
        registered = λ n m. ground (
          arith,
          lookup-insert n name (make_tool f description signature required listing) h.tools,
          contains-add name h.enabled n,
          e.registered n,
        );
      }

  apply_override-EnabledRegistered :
      (name : String) (o : ToolOverride) (h : Handler W)
      → EnabledRegistered h
      → EnabledRegistered (apply_override name o h)
  unfolding apply_override
  apply_override-EnabledRegistered name o h e = record {
    registered = λ n m.
        ground
          (arith, contains-add name h.enabled n, contains-discard name h.enabled n, e.registered n);
  }

  apply_overrides-EnabledRegistered :
      (os : List (String × ToolOverride)) (h : Handler W)
      → EnabledRegistered h
      → EnabledRegistered (apply_overrides os h)
  unfolding apply_overrides
  apply_overrides-EnabledRegistered [] h e = e
  apply_overrides-EnabledRegistered ((name, o) ∷ os) h e =
      apply_overrides-EnabledRegistered os (apply_override name o h)
        (apply_override-EnabledRegistered name o h e)

  pub enable-EnabledRegistered :
      (name : String) (h : Handler W) → EnabledRegistered h → EnabledRegistered (enable name h).0
  unfolding enable
  enable-EnabledRegistered name h e = record {
    registered = λ n m. ground (arith, contains-add name h.enabled n, e.registered n);
  }

  pub tools_search-EnabledRegistered :
      (query : String) (hits : List String) (h : Handler W)
      → EnabledRegistered h
      → EnabledRegistered (tools_search query hits h).0
  unfolding tools_search
  tools_search-EnabledRegistered query hits h e = record {
    registered = λ n m. ground (arith, contains-add query h.enabled n, e.registered n);
  }

  -- A search enables nothing but the registered tool that its query names exactly; whatever else
  -- it finds stays as it was, and so do the registry and the tools of the turn.
  tools_search-enables_exact :
      (query : String) (hits : List String) (h : Handler W) (n : String)
      → (contains (tools_search query hits h).0.enabled n ≡ (
          if has_key query h.tools
          then (if query == n then true else contains h.enabled n)
          else contains h.enabled n))
        × ((tools_search query hits h).0.tools ≡ h.tools)
        × ((tools_search query hits h).0.auto_enabled ≡ h.auto_enabled)
  unfolding tools_search
  tools_search-enables_exact query hits h n =
      (ground (arith, contains-add query h.enabled n), ground arith, ground arith)
