-- ===== src/App/Update/ScaleDown/OneAtATime.antt =====
-- The deletion of the pods past the replica count.
use unicore.Prelude.{
  ℕ, suc, ◌+◌, ◌≤◌, ◌≡◌, refl, ◌⊎◌, inl, inr, Bool, true, false, is_some, List, [], ◌∷◌, Option,
  arith, Bool-cases,
}
use unicore.Api.{Pod}
use unicore.App.Platform.{Platform, World, Call, delete_pod}
use unicore.App.Platform.Traces.{Extends, Extends-refl, Extends-trans, Extends-mono, Extends-call}
use unicore.App.Platform.Changes.{pod_changes}
use unicore.App.PodControl.{delete_stateful_pod}
use unicore.App.PodControl.Changes.{delete_stateful_pod-changes}
use unicore.App.Update.Slots.{Place}
use unicore.App.Update.ScaleDown.{scale_down_from, scale_down}

-- A call that deletes one of the pods, which is not being deleted yet.
abbrev pub DeletesOne : List Pod → Call → Type 0
DeletesOne [] c = ⊥
DeletesOne (pod ∷ pods) c =
    (is_some pod.deletion_timestamp ≡ false) × (c ≡ delete_pod pod.namespace pod.name)
    ⊎ DeletesOne pods c

module _ (p : Platform) (first : Option Place) where
  delete-Extends :
      (pod : Pod) (w : World) → Extends (DeletesOne (pod ∷ [])) w (delete_stateful_pod p pod w).1
  unfolding delete_stateful_pod
  delete-Extends pod w = elim (Bool-cases (is_some pod.deletion_timestamp)) [
    | inl gone ↦ rw gone (Extends-refl w)
    | inr live ↦ rw live (Extends-call p (delete_pod pod.namespace pod.name) w (inl (live, refl)))
  ]

  DeletesOne-head :
      (pod : Pod) (pods : List Pod) (c : Call) → DeletesOne (pod ∷ []) c → DeletesOne (pod ∷ pods) c
  DeletesOne-head pod pods c (inl h) = inl h
  DeletesOne-head pod pods c (inr h) = absurd h

  scale_down_from-Extends :
      (burstable : Bool) (i : ℕ) (pods : List Pod) (w : World)
      → Extends (DeletesOne pods) w (scale_down_from p burstable first i pods w).world
  unfolding scale_down_from
  scale_down_from-Extends burstable i [] w = Extends-refl w
  scale_down_from-Extends burstable i (pod ∷ pods) w =
      let w' = (delete_stateful_pod p pod w).1 in
      let head =
        Extends-mono (DeletesOne (pod ∷ [])) (DeletesOne (pod ∷ pods)) (DeletesOne-head pod pods)
          (delete-Extends pod w) in
      let rest =
        Extends-mono (DeletesOne pods) (DeletesOne (pod ∷ pods)) (λ c h. inr h)
          (scale_down_from-Extends burstable (suc i) pods w') in
      ground (arith, head, Extends-refl {P = DeletesOne (pod ∷ pods)} w, Extends-trans head rest)

  -- In an app that is not managed in parallel, the loop that scales down has no pod past the
  -- replica count and changes nothing, or it ends the pass and has created or deleted at most one
  -- pod.
  pub scale_down_ordered :
      (pods : List Pod) (w : World)
      → let r = scale_down p false first pods w in
        (pods ≡ []) × (r.world ≡ w)
        ⊎ (r.should_exit ≡ true) × (pod_changes r.world ≤ pod_changes w + 1)
  unfolding scale_down scale_down_from
  scale_down_ordered [] w = inl (refl, refl)
  scale_down_ordered (pod ∷ pods) w = ground (arith, delete_stateful_pod-changes p pod w)
