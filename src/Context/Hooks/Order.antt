-- ===== src/Context/Hooks/Order.antt =====
-- The hooks of a stage stand in the order of their priorities, those of one priority in the order
-- in which they were registered.
use tiny_ctx.Base.{String, ℕ, suc, ◌≡◌, refl, true, ◌||◌, List, [], ◌∷◌, ◌++◌, arith}
use tiny_ctx.Base.Sort.{ascending, IsTotalOrder, sort_by-ascending}
use tiny_ctx.Tools.Values.{ℤ, pos, negsuc}
use tiny_ctx.Context.Hooks.{leb_ℤ, Hook, hook_le, register_hook}

leb_ℤ_total : (a b : ℤ) → (leb_ℤ a b || leb_ℤ b a) ≡ true
leb_ℤ_total (pos a) (pos b) = ground arith
leb_ℤ_total (pos a) (negsuc b) = refl
leb_ℤ_total (negsuc a) (pos b) = refl
leb_ℤ_total (negsuc a) (negsuc b) = ground arith

leb_ℤ_trans : (a b c : ℤ) → leb_ℤ a b ≡ true → leb_ℤ b c ≡ true → leb_ℤ a c ≡ true
leb_ℤ_trans (pos a) (pos b) (pos c) h k = ground arith
leb_ℤ_trans (pos a) (pos b) (negsuc c) h k = ground arith
leb_ℤ_trans (pos a) (negsuc b) c h k = ground arith
leb_ℤ_trans (negsuc a) b (pos c) h k = refl
leb_ℤ_trans (negsuc a) (pos b) (negsuc c) h k = ground arith
leb_ℤ_trans (negsuc a) (negsuc b) (negsuc c) h k = ground arith

module _ {ℓ} {F : Type ℓ} where
  hook_le-IsTotalOrder : IsTotalOrder {A = Hook F} hook_le
  unfolding hook_le
  hook_le-IsTotalOrder = (
    λ g h. ground (arith, leb_ℤ_total g.priority h.priority),
    λ f g h p q. ground (
      arith,
      leb_ℤ_trans f.priority g.priority h.priority,
      leb_ℤ_trans h.priority f.priority g.priority,
      leb_ℤ_trans g.priority h.priority f.priority,
      leb_ℤ_total f.priority h.priority,
      leb_ℤ_total f.priority g.priority,
      leb_ℤ_total g.priority h.priority,
    ),
  )

  -- After a registration the hooks of the stage are in order, however they stood before.
  pub register_hook-ascending :
      (name : String) (fn : F) (priority : ℤ) (counter : ℕ) (hooks : List (Hook F))
      → ascending hook_le (register_hook name fn priority (counter, hooks)).1 ≡ true
  unfolding register_hook
  register_hook-ascending name fn priority counter hooks =
      sort_by-ascending hook_le
        (hooks ++ record { priority = priority; order = suc counter; name = name; run = fn } ∷ [])
        hook_le-IsTotalOrder
