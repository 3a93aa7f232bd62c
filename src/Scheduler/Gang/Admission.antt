-- ===== src/Scheduler/Gang/Admission.antt =====
-- Permit admits a gang as a whole or not at all.
use mathlib.Core.Path.{fun_ext}
use unicore.Prelude.{
  or_false, not, ◌||◌, ◌+◌, keep, length, is_some, insert, arith, Map, ap, ℕ, ◌≡◌, refl, ◌∙◌, sym,
  subst, if◌then◌else◌, Bool, true, false, Str, str_eq, str_eq_refl, lookup, lookup-insert, List,
  [], ◌∷◌, ◌++◌, append-nil, append_assoc, map, All, All-mono, Option, some, ℤ, pos, ltb_ℤ,
}
use unicore.Api.{Pod}
use unicore.Strings.{atoi}
use unicore.App.Platform.{ok}
use unicore.Scheduler.{Code, success, wait}
use unicore.Scheduler.Gang.{
  in_gang, running_map, permitted_not_running, Gangs, allowed, gang_name, is_gang_pod, is_rejected,
  running_of, available_count, pod_key, or_no_pods, minute, gang_size, allow, allow_all, admit,
  permit, waiting_pods_in_gang, set_permitted,
}

abbrev pub IsPermitted : Str → Gangs → Pod → Type 0
IsPermitted gang s pod = lookup (pod_key pod) (or_no_pods (lookup gang s.permitted)) ≡ some true

IsPermitted-set :
    (gang : Str) (pod : Pod) (s : Gangs) → IsPermitted gang (set_permitted gang pod s) pod
unfolding set_permitted
IsPermitted-set gang pod s =
    rw (lookup-insert gang gang _ s.permitted, str_eq_refl gang)
      (rw (lookup-insert (pod_key pod) (pod_key pod) true _, str_eq_refl (pod_key pod)))

true_or : (b : Bool) (o : Option Bool) → o ≡ some true → (if b then some true else o) ≡ some true
true_or true o h = refl
true_or false o h = h

IsPermitted-keep :
    (gang : Str) (pod q : Pod) (s : Gangs)
    → IsPermitted gang s q
    → IsPermitted gang (set_permitted gang pod s) q
unfolding set_permitted
IsPermitted-keep gang pod q s h =
    rw (lookup-insert gang gang _ s.permitted, str_eq_refl gang)
      (rw (lookup-insert (pod_key pod) (pod_key q) true _)
        (true_or (str_eq (pod_key pod) (pod_key q)) _ h))

IsPermitted-keep_all :
    (gang : Str) (pods : List Pod) (q : Pod) (s : Gangs)
    → IsPermitted gang s q
    → IsPermitted gang (allow_all gang pods s) q
unfolding allow_all allow
IsPermitted-keep_all gang [] q s h = h
IsPermitted-keep_all gang (pod ∷ pods) q s h =
    IsPermitted-keep_all gang pods q (allow gang pod s) (IsPermitted-keep gang pod q _ h)

allow_all-IsPermitted :
    (gang : Str) (pods : List Pod) (s : Gangs) → All (IsPermitted gang (allow_all gang pods s)) pods
unfolding allow_all allow
allow_all-IsPermitted gang [] s = tt
allow_all-IsPermitted gang (pod ∷ pods) s = (
  IsPermitted-keep_all gang pods pod (allow gang pod s) (IsPermitted-set gang pod _),
  allow_all-IsPermitted gang pods (allow gang pod s),
)

allow_all-decisions :
    (gang : Str) (pods : List Pod) (s : Gangs)
    → (allow_all gang pods s).decisions ≡ s.decisions ++ map allowed pods
unfolding allow_all allow set_permitted
allow_all-decisions gang [] s = sym (append-nil s.decisions)
allow_all-decisions gang (pod ∷ pods) s =
    allow_all-decisions gang pods (allow gang pod s)
    ∙ append_assoc s.decisions (allowed pod ∷ []) (map allowed pods)

-- What a gang other than `gang` keeps.
allow_all_ne :
    (gang other : Str) (pods : List Pod) (s : Gangs)
    → str_eq gang other ≡ false
    → lookup other (allow_all gang pods s).permitted ≡ lookup other s.permitted
unfolding allow_all allow set_permitted
allow_all_ne gang other [] s ne = refl
allow_all_ne gang other (pod ∷ pods) s ne =
    allow_all_ne gang other pods (allow gang pod s) ne
    ∙ lookup-insert gang other _ s.permitted
    ∙ (rw ne)

-- What Permit gives for a pod: `few` says that the gang is too small.
abbrev AdmitOk : Pod → Gangs → Bool → (Code × ℕ) × Gangs → Type 0
AdmitOk pod s few r =
    (few ≡ true → r ≡ ((wait, minute), s))
    × (few ≡ false
        → (r.0 ≡ (success, 0))
          × (r.1.decisions ≡ s.decisions ++ map allowed (waiting_pods_in_gang (gang_name pod) s))
          × All (IsPermitted (gang_name pod) r.1) (pod ∷ waiting_pods_in_gang (gang_name pod) s)
          × ((other : Str)
              → str_eq (gang_name pod) other ≡ false
              → lookup other r.1.permitted ≡ lookup other s.permitted))

all_admitted :
    (pod : Pod) (s : Gangs)
    → AdmitOk pod s false (
      (success, 0),
      set_permitted
          (gang_name pod)
          pod
          (allow_all (gang_name pod) (waiting_pods_in_gang (gang_name pod) s) s),
    )
unfolding set_permitted
all_admitted pod s =
    let gang = gang_name pod in
    let pods = waiting_pods_in_gang gang s in
    let after = allow_all gang pods s in
    (
      λ e. cc,
      λ e. (
        refl,
        allow_all-decisions gang pods s,
        (
          IsPermitted-set gang pod after,
          All-mono (IsPermitted gang after) (IsPermitted gang (set_permitted gang pod after))
              (λ q h. IsPermitted-keep gang pod q after h) pods (allow_all-IsPermitted gang pods s),
        ),
        λ other ne.
            lookup-insert gang other _ after.permitted
            ∙ (rw ne (allow_all_ne gang other pods s ne)),
      ),
    )

admit_if :
    (pod : Pod) (s all : Gangs) (few : Bool)
    → AdmitOk pod s false ((success, 0), all)
    → AdmitOk pod s few (if few then ((wait, minute), s) else ((success, 0), all))
admit_if pod s all true h = (λ e. refl, λ e. cc)
admit_if pod s all false h = h

permit-admit :
    (pods : List Pod) (pod : Pod) (count : ℤ) (s : Gangs)
    → is_gang_pod pod ≡ true
    → is_rejected (gang_name pod) s ≡ false
    → atoi (available_count pod) ≡ some count
    → permit (ok pods) pod s ≡ admit (gang_name pod) pod (running_of pods) (some count) s
unfolding permit
permit-admit pods pod count s member free e = rw (member, free, e)

-- Some of the pods has the key.
abbrev pub has_key : Str → List Pod → Bool
has_key key [] = false
has_key key (pod ∷ pods) = str_eq (pod_key pod) key || has_key key pods

lookup-running_map :
    (key : Str) (pods : List Pod) (m : Map Bool)
    → is_some (lookup key (running_map pods m)) ≡ (has_key key pods || is_some (lookup key m))
unfolding running_map
lookup-running_map key [] m = refl
lookup-running_map key (pod ∷ pods) m =
    lookup-running_map key pods (insert (pod_key pod) true m)
    ∙ (ground (arith, lookup-insert (pod_key pod) key true m))

running_keys :
    (pods : List Pod) (key : Str) → is_some (lookup key (running_map pods [])) ≡ has_key key pods
unfolding lookup
running_keys pods key = lookup-running_map key pods [] ∙ or_false (has_key key pods)

-- The pods of the gang that were permitted before and are not running.
abbrev pub awaited : Str → List Pod → Gangs → Map Bool
awaited gang running s =
    keep (λ e. not (has_key e.0 running)) (or_no_pods (lookup gang s.permitted))

gang_size_lem :
    (gang : Str) (running : List Pod) (s : Gangs)
    → gang_size gang running s
      ≡ length (keep (in_gang gang) s.waiting)
        + length (awaited gang running s)
        + length running
        + 1
unfolding gang_size permitted_not_running waiting_pods_in_gang
gang_size_lem gang running s =
    ap
      (λ (test : Str → Bool).
        length (keep (in_gang gang) s.waiting)
        + length (keep (λ (e : Str × Bool). not (test e.0)) (or_no_pods (lookup gang s.permitted)))
        + length running
        + 1)
      (fun_ext (running_keys running))

-- A pod of a gang that has not been rejected, when the lister gives the gang's pods and the count
-- label is a number. While the waiting pods of the gang, those permitted before that are not running,
-- the running ones and the pod itself are fewer than the count, Permit lets the pod wait a minute and
-- changes nothing. Otherwise it passes the pod, allows every waiting pod of the gang, in order, and no other, records all of
-- them and the pod as permitted, and leaves what is permitted to other gangs.
pub permit_lem :
    (pods : List Pod) (pod : Pod) (count : ℤ) (s : Gangs)
    → is_gang_pod pod ≡ true
    → is_rejected (gang_name pod) s ≡ false
    → atoi (available_count pod) ≡ some count
    → let gang = gang_name pod in
      let running = running_of pods in
      let found =
        length (keep (in_gang gang) s.waiting)
        + length (awaited gang running s)
        + length running
        + 1 in
      let few = ltb_ℤ (pos found) count in
      let r = permit (ok pods) pod s in
      (few ≡ true → r ≡ ((wait, minute), s))
      × (few ≡ false
          → (r.0 ≡ (success, 0))
            × (r.1.decisions ≡ s.decisions ++ map allowed (waiting_pods_in_gang gang s))
            × All (IsPermitted gang r.1) (pod ∷ waiting_pods_in_gang gang s)
            × ((other : Str)
                → str_eq gang other ≡ false
                → lookup other r.1.permitted ≡ lookup other s.permitted))
unfolding admit
permit_lem pods pod count s member free e =
    subst (λ n. AdmitOk pod s (ltb_ℤ (pos n) count) (permit (ok pods) pod s))
      (gang_size_lem (gang_name pod) (running_of pods) s)
      (subst (AdmitOk pod s (ltb_ℤ (pos (gang_size (gang_name pod) (running_of pods) s)) count))
        (sym (permit-admit pods pod count s member free e))
        (admit_if pod s _ (ltb_ℤ (pos (gang_size (gang_name pod) (running_of pods) s)) count)
          (all_admitted pod s)))
