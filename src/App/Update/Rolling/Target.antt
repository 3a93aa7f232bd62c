-- ===== src/App/Update/Rolling/Target.antt =====
-- Which pod a rolling update deletes.
use unicore.Prelude.{
  ap, subst, sym, ℕ, ◌+◌, ◌≤◌, pos, ◌≡◌, ◌⊎◌, inl, inr, false, Str, List, [], ◌∷◌, drop, some,
  arith, All, if◌then◌else◌,
}
use unicore.Api.{App, Pod, AppStatus, RollingUpdate}
use unicore.App.Platform.{Platform, World, Call, delete_pod}
use unicore.App.Platform.Traces.{Extends, Extends-refl, Extends-trans, Extends-mono}
use unicore.App.Platform.Changes.{pod_changes, IsQuiet, pod_changes-quiet}
use mathlib.Core.List.{reverse}
use unicore.App.Versions.{Outcome, value, deref, ◌>>=◌, Returns}
use unicore.App.Versions.Partition.{Returns-bind, Returns-mono}
use unicore.App.Update.Rolling.{roll, from_partition, InPlace, Rolled, roll_pod, roll_targets}
use unicore.App.Update.Rolling.OneTarget.{
  QuietInPlace, Behind, Settled, DeletesBehind, RollOk, roll_pod-ok,
}

-- `t` is the first pod that is behind, and those before it are settled.
pub data FirstBehind (o : InPlace) (update : Str) : List Pod → Pod → Type 0 where
  here : (t : Pod) (pods : List Pod) → Behind update t → FirstBehind o update (t ∷ pods) t
  later :
      (q : Pod) (pods : List Pod) (t : Pod)
      → Settled o update q
      → FirstBehind o update pods t
      → FirstBehind o update (q ∷ pods) t

-- A call of the whole loop changes no pod, or deletes the first target that is behind.
abbrev pub DeletesFirstBehind : InPlace → Str → List Pod → Call → Type 0
DeletesFirstBehind o update targets c =
    IsQuiet c ⊎ ((t : Pod) × FirstBehind o update targets t × (c ≡ delete_pod t.namespace t.name))

abbrev pub LoopOk : InPlace → Str → List Pod → World → Rolled → Type 0
LoopOk o update targets w s =
    (pod_changes s.world ≤ pod_changes w + 1)
    × Extends (DeletesFirstBehind o update targets) w s.world
    × (s.returned ≡ false → All (Settled o update) targets)

module _ (p : Platform) (o : InPlace) (app : App) (update : Str) (r : RollingUpdate)
    (quiet : QuietInPlace o) where
  at_head :
      (t : Pod) (pods : List Pod) (c : Call)
      → DeletesBehind update t c
      → DeletesFirstBehind o update (t ∷ pods) c
  at_head t pods c (inl h) = inl h
  at_head t pods c (inr (behind, e)) = inr (t, here t pods behind, e)

  in_tail :
      (q : Pod) (pods : List Pod) (c : Call)
      → Settled o update q
      → DeletesFirstBehind o update pods c
      → DeletesFirstBehind o update (q ∷ pods) c
  in_tail q pods c settled (inl h) = inl h
  in_tail q pods c settled (inr (t, first, e)) = inr (t, later q pods t settled first, e)

  after_target :
      (t : Pod) (pods : List Pod) (w : World) (s : Rolled) (after : Outcome Rolled)
      → RollOk o update t w s
      → Returns (LoopOk o update pods s.world) after
      → Returns (LoopOk o update (t ∷ pods) w) (if s.returned then value s else after)
  after_target t pods w s after (inl (e, few, calls)) rest = rw e (
    few,
    Extends-mono (DeletesBehind update t) (DeletesFirstBehind o update (t ∷ pods)) (at_head t pods)
        calls,
    λ h. cc,
  )
  after_target t pods w s after (inr (e, settled, before)) rest = rw e (
      Returns-mono (LoopOk o update pods s.world) (LoopOk o update (t ∷ pods) w) after rest
        (λ end (few, calls, all). (
          omega (arith, pod_changes-quiet before),
          Extends-trans
              (Extends-mono IsQuiet (DeletesFirstBehind o update (t ∷ pods)) (λ c h. inl h) before)
              (Extends-mono (DeletesFirstBehind o update pods)
                (DeletesFirstBehind o update (t ∷ pods)) (λ c h. in_tail t pods c settled h) calls),
          λ h. (settled, all h),
        )))

  roll_targets_lem :
      (targets : List Pod) (w : World) (status : AppStatus)
      → Returns (LoopOk o update targets w) (roll_targets p o app update r targets w status)
  unfolding roll_targets
  roll_targets_lem [] w status = (omega arith, Extends-refl w, λ h. tt)
  roll_targets_lem (t ∷ pods) w status =
      Returns-bind (RollOk o update t w) (LoopOk o update (t ∷ pods) w)
        (roll_pod p o app update r t w status) _ (roll_pod-ok p o app update r quiet t w status)
        (λ s ok.
          after_target t pods w s (roll_targets p o app update r pods s.world s.status) ok
            (roll_targets_lem pods s.world s.status))

roll-roll_targets :
    (p : Platform) (o : InPlace) (app : App) (update : Str) (r : RollingUpdate) (m : ℕ)
    (replicas : List Pod) (w : World) (status : AppStatus)
    → r.partition ≡ some (pos m)
    → roll p o app update r replicas w status
      ≡ roll_targets p o app update r (reverse (drop m replicas)) w status
unfolding roll from_partition
roll-roll_targets p o app update r m replicas w status e =
    ap (λ partition. deref partition >>= from_partition p o app update r replicas w status) e

-- A rolling update with partition `m`, and with an in-place update that does not panic and neither
-- creates nor deletes pods, does not panic and creates or deletes at most one pod. Going from the
-- last replica down to the one at the partition: each of its calls neither creates nor deletes a pod,
-- or deletes the first replica in this order that is neither at the update revision nor being
-- deleted, and every one before that is settled. If the pass does not return early, all replicas from
-- the partition up are settled.
pub roll_lem :
    (p : Platform) (o : InPlace) (app : App) (update : Str) (r : RollingUpdate) (m : ℕ)
    (replicas : List Pod) (w : World) (status : AppStatus)
    → QuietInPlace o
    → r.partition ≡ some (pos m)
    → Returns
        (LoopOk o update (reverse (drop m replicas)) w)
        (roll p o app update r replicas w status)
roll_lem p o app update r m replicas w status quiet e =
    subst (Returns (LoopOk o update (reverse (drop m replicas)) w))
      (sym (roll-roll_targets p o app update r m replicas w status e))
      (roll_targets_lem p o app update r quiet (reverse (drop m replicas)) w status)
