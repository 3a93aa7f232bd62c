-- ===== src/App/Identity/Volumes.antt =====
-- updateVolume and updatePodVolume give a pod the volumes that matchAppPVC asks for.
use unicore.Prelude.{
  Bool-cases, sym, ◌∙◌, ℕ, ℤ, pos, ◌≡◌, refl, true, not, Str, Map, lookup, insert, is_some, List,
  [], ◌∷◌, ◌++◌, some, arith, All, keep, str_eq, str_eq_iff, str_eq_refl, lookup-insert, inl, inr,
}
use mathlib.Core.Bool.{true≢false}
use unicore.Api.{App, Pod, Claim, Volume}
use unicore.App.Identity.{
  get_pod_app_name_and_ordinal, get_pvc_out_name, pvcs_from, get_pvc_from_app, volumes_by_name,
  has_claim, all_claims_match, match_app_pvc, claim_volumes, update_pod_volume,
}

-- Every volume called k mounts the claim `target`.
abbrev Mounts : Str → Str → List Volume → Type 0
Mounts k target = All (λ (v : Volume). v.name ≡ k → v.claim ≡ some target)

Mounts-append :
    (k target : Str) (vs ws : List Volume)
    → Mounts k target vs
    → Mounts k target ws
    → Mounts k target (vs ++ ws)
Mounts-append k target [] ws h g = g
Mounts-append k target (v ∷ vs) ws h g = (h.0, Mounts-append k target vs ws h.1 g)

has_claim-step :
    (k target : Str) (v : Volume) (index : Map Volume)
    → (v.name ≡ k → v.claim ≡ some target)
    → has_claim target (lookup k index) ≡ true
    → has_claim target (lookup k (insert v.name v index)) ≡ true
has_claim-step k target v index h g =
    ground (arith, lookup-insert v.name k v index, str_eq_iff v.name k, str_eq_refl target)

-- Later volumes that mount the right claim do not spoil an index that has it.
has_claim-kept :
    (k target : Str) (vs : List Volume) (index : Map Volume)
    → Mounts k target vs
    → has_claim target (lookup k index) ≡ true
    → has_claim target (lookup k (volumes_by_name vs index)) ≡ true
unfolding volumes_by_name
has_claim-kept k target [] index h g = g
has_claim-kept k target (v ∷ vs) index h g =
    has_claim-kept k target vs (insert v.name v index) h.1 (has_claim-step k target v index h.0 g)

has_claim-first :
    (k target : Str) (v : Volume) (index : Map Volume)
    → v.name ≡ k
    → v.claim ≡ some target
    → has_claim target (lookup k (insert v.name v index)) ≡ true
has_claim-first k target v index e g =
    ground (arith, lookup-insert v.name k v index, str_eq_iff v.name k, str_eq_refl target)

module _ (app : App) (ordinal : ℤ) where
  -- Each claim is named after its key.
  abbrev Named : Map Claim → Type 0
  Named = All (λ (e : Str × Claim). e.1.name ≡ get_pvc_out_name app e.0 ordinal)

  Named-insert :
      (k : Str) (c : Claim) (m : Map Claim)
      → c.name ≡ get_pvc_out_name app k ordinal
      → Named m
      → Named (insert k c m)
  unfolding insert
  Named-insert k c [] h g = (h, tt)
  Named-insert k c ((j, d) ∷ m) h g = ground (arith, Named-insert k c m h g.1)

  Named-pvcs : (ts : List Claim) (m : Map Claim) → Named m → Named (pvcs_from app ordinal ts m)
  unfolding pvcs_from
  Named-pvcs [] m g = g
  Named-pvcs (t ∷ ts) m g = Named-pvcs ts _ (Named-insert t.name _ m refl g)

  pvcs-kept :
      (k : Str) (ts : List Claim) (m : Map Claim)
      → is_some (lookup k m) ≡ true
      → is_some (lookup k (pvcs_from app ordinal ts m)) ≡ true
  unfolding pvcs_from
  pvcs-kept k [] m h = h
  pvcs-kept k (t ∷ ts) m h = pvcs-kept k ts _ (rw lookup-insert (ground arith))

  -- Every template has its entry.
  pvcs-present :
      (ts : List Claim) (m : Map Claim)
      → All (λ (t : Claim). is_some (lookup t.name (pvcs_from app ordinal ts m)) ≡ true) ts
  unfolding pvcs_from
  pvcs-present [] m = tt
  pvcs-present (t ∷ ts) m =
      (pvcs-kept t.name ts _ (rw lookup-insert (rw (str_eq_refl t.name))), pvcs-present ts _)

  Mounts-claims :
      (k : Str) (m : Map Claim)
      → Named m
      → Mounts k (get_pvc_out_name app k ordinal) (claim_volumes m)
  unfolding claim_volumes
  Mounts-claims k [] g = tt
  Mounts-claims k ((j, c) ∷ m) g = ((λ e. cc), Mounts-claims k m g.1)

  -- The volumes of a pod that are kept share no name with a claim.
  Mounts-kept :
      (k target : Str) (m : Map Claim) (vs : List Volume)
      → is_some (lookup k m) ≡ true
      → Mounts k target (keep (λ v. not (is_some (lookup v.name m))) vs)
  Mounts-kept k target m [] h = tt
  Mounts-kept k target m (v ∷ vs) h =
      let rest = Mounts-kept k target m vs h in
      elim (Bool-cases (is_some (lookup v.name m))) [
        | inl shadowed ↦ rw shadowed rest
        | inr kept ↦ rw kept ((λ e. absurd (true≢false (sym h ∙ (rw (← e) kept)))), rest)
      ]

  claims-mounted :
      (k : Str) (m : Map Claim) (rest : List Volume) (index : Map Volume)
      → Named m
      → Mounts k (get_pvc_out_name app k ordinal) rest
      → is_some (lookup k m) ≡ true
      → has_claim
          (get_pvc_out_name app k ordinal)
          (lookup k (volumes_by_name (claim_volumes m ++ rest) index))
        ≡ true
  unfolding volumes_by_name claim_volumes lookup
  claims-mounted k [] rest index g r h = cc
  claims-mounted k ((j, c) ∷ m) rest index g r h =
      let out = get_pvc_out_name app k ordinal in
      elim (Bool-cases (str_eq j k)) [
        | inl hit ↦
            has_claim-kept k out (claim_volumes m ++ rest) _
              (Mounts-append k out (claim_volumes m) rest (Mounts-claims k m g.1) r)
              (has_claim-first k out (record { name = j; claim = some c.name }) index
                ((str_eq_iff j k).0 hit) (ground (arith, str_eq_iff j k)))
        | inr miss ↦ claims-mounted k m rest _ g.1 r (rw miss at h)
      ]

  all_claims_match-present :
      (m : Map Claim) (rest : List Volume) (ts : List Claim)
      → Named m
      → ((k : Str) → is_some (lookup k m) ≡ true → Mounts k (get_pvc_out_name app k ordinal) rest)
      → All (λ (t : Claim). is_some (lookup t.name m) ≡ true) ts
      → all_claims_match app ordinal (volumes_by_name (claim_volumes m ++ rest) []) ts ≡ true
  unfolding all_claims_match
  all_claims_match-present m rest [] g r h = refl
  all_claims_match-present m rest (t ∷ ts) g r h =
      rw (claims-mounted t.name m rest [] g (r t.name h.0) h.0)
        (all_claims_match-present m rest ts g r h.1)

-- A pod whose ordinal is n gets from updateVolume (and updatePodVolume) volumes that pass
-- matchAppPVC, whatever volumes it had, also where claim templates share a name.
pub match_app_pvc-update_pod_volume :
    (app : App) (pod : Pod) (n : ℕ)
    → (get_pod_app_name_and_ordinal pod).1 ≡ pos n
    → match_app_pvc app (update_pod_volume app pod) ≡ true
unfolding match_app_pvc update_pod_volume get_pvc_from_app get_pod_app_name_and_ordinal
match_app_pvc-update_pod_volume app pod n e =
    let templates = app.spec.volume_claim_templates in
    let claims = pvcs_from app (pos n) templates [] in
    rw e (
      ground (
        arith,
        all_claims_match-present app (pos n) claims
            (keep (λ v. not (is_some (lookup v.name claims))) pod.volumes) templates
            (Named-pvcs app (pos n) templates [] tt)
            (λ k h. Mounts-kept app (pos n) k _ claims pod.volumes h)
            (pvcs-present app (pos n) templates []),
      ))
