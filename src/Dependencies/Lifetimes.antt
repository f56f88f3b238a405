-- ===== src/Dependencies/Lifetimes.antt =====
-- How long an object lives.
use mathlib.Core.Path.{subst}
use ninja_devx.Dependencies.Defs.{
  singleton, pending_build, circular, Inspection, Provider, describe,
}
use ninja_devx.Prelude.{
  ℕ, Bool, ◌∷◌, ◌≡◌, List, some, ok, none, Option-cases, ◌≤◌, refl, nat_in, inr, false, inl, suc,
  unless_ok, bind_ok, arith, ◌∙◌, zero, raise,
}
use ninja_devx.Prelude.Table.{Table, get, get-put_self}
use ninja_devx.Dependencies.Engine.{
  provide, resolve, resolve_key, World, Resolved, build, store_singleton,
}

-- The result of a resolution is what the root keeps for the key.
unfoldable Stored : ℕ → Resolved → Type 0
Stored k (ok (id, w)) = get k w.root.instances ≡ some id
Stored k (raise e) = ⊥

found_stored :
    (k old id : ℕ) (w after : World)
    → get k w.root.instances ≡ some old
    → ◌≡◌ {A = Resolved} (ok (old, w)) (ok (id, after))
    → get k after.root.instances ≡ some id
unfolding Stored
found_stored k old id w after e h = subst (Stored k) h e

new_stored :
    (k new id : ℕ) (w after : World)
    → ◌≡◌ {A = Resolved} (ok (new, store_singleton k new w)) (ok (id, after))
    → get k after.root.instances ≡ some id
unfolding Stored
new_stored k new id w after h = subst (Stored k) h (get-put_self k new w.root.instances)

module _ (inspection : Inspection) (providers : Table Provider) where
  described_lem :
      (k : ℕ) (p : Provider) → get k providers ≡ some p → describe inspection providers k ≡ ok p
  unfolding describe
  described_lem k p h = rw (h, describe) refl

  -- The singleton is stored when it is provided.
  provide-stored :
      (step : Bool → ℕ → World → Resolved) (k : ℕ) (p : Provider) (b : Bool) (w : World) (id : ℕ)
      (after : World)
      → p.lifetime ≡ singleton
      → provide inspection providers step k p b w ≡ ok (id, after)
      → get k after.root.instances ≡ some id
  unfolding provide
  provide-stored step k p b w id after l h = elim (Option-cases (get k w.root.instances)) [
    | inr (old, e) ↦ found_stored k old id w after e (rw (e, provide) at (rw (l, provide) at h))
    | inl e ↦
        (let open_h = rw (e, provide) at (rw (l, provide) at h) in
          let (idle, h1) = unless_ok (nat_in k w.root.pending) pending_build _ (id, after) open_h in
          let ((new, w1), built, h2) =
            bind_ok (build inspection providers (step false) p false w) _ (id, after) h1 in
          new_stored k new id w1 after h2)
  ]

  -- A singleton is built once: whatever key was resolved first, every later resolution, in any
  -- scope and from any stack without it, gives the same object and changes nothing, as long as the
  -- container keeps the instance and the scope brings no value of its own for the key.
  pub resolve-again :
      (fuel key k : ℕ) (p : Provider) (stack : List ℕ) (b : Bool) (w : World) (id : ℕ)
      (after : World)
      → inspection.unwrap_annotated key ≡ k
      → get k providers ≡ some p
      → p.lifetime ≡ singleton
      → get k w.scope.instances ≡ none
      → resolve inspection providers fuel key stack b w ≡ ok (id, after)
      → (later : ℕ) (stack' : List ℕ) (b' : Bool) (w' : World) → 1 ≤ later
      → nat_in k stack' ≡ false
      → get k w'.scope.instances ≡ none
      → get k w'.root.instances ≡ get k after.root.instances
      → resolve inspection providers later key stack' b' w' ≡ ok (id, w')
  unfolding resolve resolve_key provide
  resolve-again zero key k p stack b w id after u e l s h later stack' b' w' n out s' kept = cc
  resolve-again (suc fuel) key k p stack b w id after u e l s h zero stack' b' w' n out s' kept =
      ground arith
  resolve-again (suc fuel) key k p stack b w id after u e l s h (suc later) stack' b' w' n out s'
        kept =
      let (free_stack, h1) = unless_ok (nat_in k stack) circular _ (id, after) (rw u at h) in
      let h2 = rw (described_lem k p e) at (rw (s, resolve_key) at h1) in
      let stored =
        provide-stored (λ scope d w1. resolve inspection providers fuel d (k ∷ stack) scope w1) k p
          b w id after l h2 in
      let found : get k w'.root.instances ≡ some id = kept ∙ stored in
      rw u (
        rw out (
          rw (s', resolve_key)
            (rw (described_lem k p e) (rw (l, provide) (rw (found, provide) refl)))))
