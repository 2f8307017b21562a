-- ===== src/Tools/Listing/Visible.antt =====
-- Which tools the model is shown.
use tiny_ctx.Base.{
  ◌↔◌, String, ◌≡◌, refl, Bool, true, false, ◌&&◌, ◌||◌, List, [], ◌∷◌, Option, none, some, ◌==◌,
  string_eq, contains, contains-union, subset-contains, subset_of_contains, exists, union, arith,
  Option-cases, inl, inr,
}
use tiny_ctx.Base.Dict.{Dict, lookup}
use tiny_ctx.Permissions.{Permission, permission_eq, network_read, network_write}
use tiny_ctx.Permissions.Expansion.{contains-expand}
use tiny_ctx.Users.Models.{User, PermissionsConfig, effective_permissions, has_permission}
use tiny_ctx.Tools.Values.{Args}
use tiny_ctx.Tools.Coerce.{Annotation}
use tiny_ctx.Tools.Registry.{Tool, Handler, Ran, static, make_tool}
use tiny_ctx.Tools.Execute.Guard.{Permits}
use tiny_ctx.Tools.Listing.{
  Definition, tool_visible, shown, definitions_from, effective_of, get_tool_definitions,
}

-- Whether a name is in a list of definitions.
unfoldable pub lists : List Definition → String → Bool
unfolding exists
lists ds n = exists (λ d. d.name == n) ds

module _ {W : Type 0} (h : Handler W) where
  -- Whether a name belongs to a registered tool that is shown.
  abbrev pub shown_at : Bool → Option (List Permission) → String → Bool
  shown_at minimal effective n = elim (lookup n h.tools) [
    | none ↦ false
    | some tool ↦ shown minimal effective tool
  ]

  lists-definitions_from :
      (minimal : Bool) (effective : Option (List Permission)) (names : List String) (n : String)
      → lists (definitions_from h minimal effective names) n
        ≡ (contains names n && shown_at minimal effective n)
  unfolding lists definitions_from contains
  lists-definitions_from minimal effective [] n = refl
  lists-definitions_from minimal effective (m ∷ names) n =
      let ih = lists-definitions_from minimal effective names n in
      elim (Option-cases (lookup m h.tools)) [
        | inl e ↦ ground (arith, ih, e)
        | inr (tool, e) ↦ ground (arith, ih, e)
      ]

  -- The model is shown a name exactly if the name is enabled, for the session or for the turn, and
  -- belongs to a registered tool that the listing filter passes.
  pub lists-get_tool_definitions :
      (caller : Option User) (minimal : Bool) (n : String)
      → lists (get_tool_definitions h caller minimal) n ≡ (
          (contains h.enabled n || contains h.auto_enabled n)
          && shown_at minimal (effective_of h caller minimal) n)
  unfolding get_tool_definitions
  lists-get_tool_definitions caller minimal n = ground (
    arith,
    lists-definitions_from minimal (effective_of h caller minimal) (union h.enabled h.auto_enabled)
        n,
    contains-union h.enabled h.auto_enabled n,
  )

  -- Without a caller the filtered list shows no tool at all.
  pub lists-no_caller : (n : String) → lists (get_tool_definitions h none true) n ≡ false
  unfolding shown effective_of
  lists-no_caller n = elim (Option-cases (lookup n h.tools)) [
    | inl e ↦ ground (arith, lists-get_tool_definitions none true n, e)
    | inr (tool, e) ↦ ground (arith, lists-get_tool_definitions none true n, e)
  ]

module _ {W : Type 0} (f : Args → W → Ran × W) (description : String)
    (signature : Dict String Annotation) (perms : List Permission)
    (listing : Option (List Permission)) (cfg : PermissionsConfig) (caller : User) where
  abbrev gated : Tool W
  gated = make_tool f description signature (static perms) listing

  -- The guard's test for a tool with a fixed set of capabilities, by the test of the listing.
  pub gated-Permits_iff :
      (args : Args)
      → Permits cfg caller (gated).required_permissions args ↔ (
          (tool_visible gated (effective_permissions caller cfg) ≡ true)
          × (contains perms network_write ≡ true → has_permission caller network_read cfg ≡ true))
  unfolding make_tool tool_visible has_permission
  gated-Permits_iff args = (
    λ (needed, e, all). (
      subset_of_contains perms (effective_permissions caller cfg)
          (λ p m. all p (ground (arith, e, contains-expand needed p, m))),
      λ m. all network_read (ground (arith, e, contains-expand needed network_read, m)),
    ),
    λ (seen, gap). (
      perms,
      refl,
      λ p m. ground (
        arith,
        contains-expand perms p,
        subset-contains perms (effective_permissions caller cfg) p seen,
        gap,
        m,
      ),
    ),
  )
