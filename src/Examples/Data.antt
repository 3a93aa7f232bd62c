-- ===== src/Examples/Data.antt =====
-- An app, its revisions and its pods.
use unicore.Prelude.{ℕ, ◌≡◌, refl, pos, false, Str, codes, List, [], ◌∷◌, Option, none, some}
use unicore.Api.{
  App, AppStatus, Pod, PodCondition, condition_true, Phase, running, RollingUpdate, Claim, Revision,
  rolling_update, ordered_ready, recreate, int_value,
}
use unicore.Strings.{split, join, atoi}
use unicore.App.Identity.{label_pod_owner_app, get_pod_app_name_and_ordinal}
use unicore.App.Readiness.{pod_ready, revision_label}

abbrev pub web_rolling : RollingUpdate
web_rolling = record {
  partition = some (pos 0);
  max_unavailable = some (int_value (pos 1));
  pod_update_policy = recreate;
  paused = false;
  unordered_update = false;
  in_place_update_strategy = none;
  min_ready_seconds = some (pos 0);
}

abbrev pub data_claim : Claim
data_claim = record {
  name = codes "data";
  namespace = codes "prod";
  labels = [];
  deletion_timestamp = none;
}

abbrev pub web_status : AppStatus
web_status = record {
  observed_generation = 3;
  replicas = 2;
  ready_replicas = 1;
  available_replicas = 1;
  current_replicas = pos 2;
  updated_replicas = 0;
  updated_ready_replicas = 4;
  updated_available_replicas = 0;
  current_revision = codes "web-1";
  update_revision = codes "web-2";
  conditions = [];
  label_selector = codes "app=web";
  collision_count = none;
  volume_claims = [];
}

abbrev pub web : App
web = record {
  name = codes "web";
  namespace = codes "prod";
  uid = codes "u1";
  generation = 3;
  finalizers = [];
  deletion_timestamp = none;
  annotations = [];
  spec = record {
    replicas = some (pos 2);
    template = record {
      labels = [];
      annotations = [];
      volumes = [];
      readiness_gates = [];
      containers = [];
    };
    match_labels = (codes "app", codes "web") ∷ [];
    volume_claim_templates = data_claim ∷ [];
    update_strategy = record { strategy_type = rolling_update; rolling = some web_rolling };
    service_name = codes "web";
    revision_history_limit = none;
    pod_management_policy = ordered_ready;
  };
  status = web_status;
}

abbrev pub condition : Str → Option ℕ → PodCondition
condition t since = record {
  condition_type = t;
  status = condition_true;
  last_transition = since;
  reason = [];
}

abbrev pub pod_of : (name revision : Str) → Phase → List PodCondition → Pod
pod_of name revision phase conditions = record {
  name = name;
  namespace = codes "prod";
  labels = (label_pod_owner_app, codes "web") ∷ (revision_label, revision) ∷ [];
  annotations = [];
  creation_timestamp = 0;
  deletion_timestamp = none;
  phase = phase;
  conditions = conditions;
  container_statuses = [];
  volumes = [];
  readiness_gates = [];
  containers = [];
  hostname = name;
  subdomain = codes "web";
}

-- web-0 runs at the current revision, and web-5 is past the replica count.
abbrev pub web_0 : Pod
web_0 = pod_of (codes "web-0") (codes "web-1") running (condition pod_ready (some 1000000000) ∷ [])

abbrev pub web_5 : Pod
web_5 = pod_of (codes "web-5") (codes "web-1") running []

abbrev pub web_pods : List Pod
web_pods = web_5 ∷ web_0 ∷ []

abbrev pub revision_1 : Revision
revision_1 = record { name = codes "web-1"; revision = 1; annotations = []; raw = [] }

abbrev pub revision_2 : Revision
revision_2 = record { name = codes "web-2"; revision = 2; annotations = []; raw = [] }

pub web_0-ordinal : get_pod_app_name_and_ordinal web_0 ≡ (codes "web", pos 0)
unfolding get_pod_app_name_and_ordinal split join atoi
web_0-ordinal = refl

pub web_5-ordinal : get_pod_app_name_and_ordinal web_5 ≡ (codes "web", pos 5)
unfolding get_pod_app_name_and_ordinal split join atoi
web_5-ordinal = refl
