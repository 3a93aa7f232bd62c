-- ===== src/Examples/Codec.antt =====
-- A config map with a text format for lists of reservations: each text is preceded by its length,
-- and each number by its sign.
use unicore.Prelude.{
  ℕ, zero, suc, ℤ, pos, negsuc, ◌≡◌, refl, ◌∙◌, ap, subst, Str, List, [], ◌∷◌, ◌++◌, take, drop,
  length, none,
}
use unicore.App.Platform.{Result, ok, err, other_failure}
use unicore.Scheduler.Reserve.{Reservation, Store}
use unicore.Scheduler.Reserve.Removal.{RetriesAsDocumented}
use unicore.Scheduler.Reserve.Encoding.{ReadsBack}
use unicore.Examples.Cluster.{retry, cluster-Documented}

abbrev put_text : Str → Str → Str
put_text s rest = length s ∷ (s ++ rest)

abbrev put_number : ℤ → Str → Str
put_number (pos n) rest = 0 ∷ n ∷ rest
put_number (negsuc n) rest = 1 ∷ n ∷ rest

abbrev pub put_all : List Reservation → Str
put_all [] = []
put_all (r ∷ rs) = put_text r.reserving_pod (
    put_text r.reserving_pod_namespace
      (put_number r.cpu_milli (put_number r.mem_milli (put_number r.expire_at (put_all rs)))))

abbrev get_text : Str → Str × Str
get_text [] = ([], [])
get_text (n ∷ s) = (take n s, drop n s)

abbrev get_number : Str → ℤ × Str
get_number (zero ∷ n ∷ s) = (pos n, s)
get_number (suc k ∷ n ∷ s) = (negsuc n, s)
get_number s = (pos 0, s)

-- The parts of a reservation, one after the other, and the rest of the list.
module _ (later : Str → List Reservation) where
  abbrev after_expire : (name namespace : Str) (cpu memory : ℤ) → ℤ × Str → List Reservation
  after_expire name namespace cpu memory (expire, s) =
      record {
        reserving_pod = name;
        reserving_pod_namespace = namespace;
        cpu_milli = cpu;
        mem_milli = memory;
        expire_at = expire;
      }
      ∷ later s

  abbrev after_memory : (name namespace : Str) → ℤ → ℤ × Str → List Reservation
  after_memory name namespace cpu (memory, s) =
      after_expire name namespace cpu memory (get_number s)

  abbrev after_cpu : (name namespace : Str) → ℤ × Str → List Reservation
  after_cpu name namespace (cpu, s) = after_memory name namespace cpu (get_number s)

  abbrev after_namespace : Str → Str × Str → List Reservation
  after_namespace name (namespace, s) = after_cpu name namespace (get_number s)

  abbrev after_name : Str × Str → List Reservation
  after_name (name, s) = after_namespace name (get_text s)

abbrev get_all : ℕ → Str → List Reservation
get_all zero s = []
get_all (suc n) s = after_name (get_all n) (get_text s)

abbrev read : Str → Result (List Reservation)
read [] = err other_failure
read (n ∷ s) = ok (get_all n s)

take-length : (s rest : Str) → take (length s) (s ++ rest) ≡ s
take-length [] rest = refl
take-length (c ∷ s) rest = ap (λ t. c ∷ t) (take-length s rest)

drop-length : (s rest : Str) → drop (length s) (s ++ rest) ≡ rest
drop-length [] rest = refl
drop-length (c ∷ s) rest = drop-length s rest

get_text-put_text : (s rest : Str) → get_text (put_text s rest) ≡ (s, rest)
get_text-put_text s rest =
    ap (λ t. (t, drop (length s) (s ++ rest))) (take-length s rest)
    ∙ ap (λ t. (s, t)) (drop-length s rest)

get_number-put_number : (n : ℤ) (rest : Str) → get_number (put_number n rest) ≡ (n, rest)
get_number-put_number (pos n) rest = refl
get_number-put_number (negsuc n) rest = refl

get_all-put_all : (rs : List Reservation) → get_all (length rs) (put_all rs) ≡ rs
get_all-put_all [] = refl
get_all-put_all (r ∷ rs) =
    let later = get_all (length rs) in
    let expire_on = put_number r.expire_at (put_all rs) in
    let memory_on = put_number r.mem_milli expire_on in
    let cpu_on = put_number r.cpu_milli memory_on in
    let namespace_on = put_text r.reserving_pod_namespace cpu_on in
    let name = r.reserving_pod in
    let namespace = r.reserving_pod_namespace in
    ap (after_name later) (get_text-put_text name namespace_on)
    ∙ ap (after_namespace later name) (get_text-put_text namespace cpu_on)
    ∙ ap (after_cpu later name namespace) (get_number-put_number r.cpu_milli memory_on)
    ∙ ap (after_memory later name namespace r.cpu_milli)
        (get_number-put_number r.mem_milli expire_on)
    ∙ ap (after_expire later name namespace r.cpu_milli r.mem_milli)
        (get_number-put_number r.expire_at (put_all rs))
    ∙ ap (λ t. r ∷ t) (get_all-put_all rs)

abbrev pub text_format : Store
text_format = record {
  marshal = λ rs. ok (length rs ∷ put_all rs);
  unmarshal = read;
  get_data = λ sent. ok [];
  answer = λ sent d. none;
  retry_on_conflict = retry 4;
}

abbrev ReadIfOk : List Reservation → Result Str → Type 0
ReadIfOk rs (ok text) = read text ≡ ok rs
ReadIfOk rs (err f) = Unit {0}

pub text_format-ReadsBack : ReadsBack text_format
text_format-ReadsBack = record {
  reads = λ rs text e. subst (ReadIfOk rs) e (ap ok (get_all-put_all rs));
}

pub text_format-Documented : RetriesAsDocumented text_format
text_format-Documented = record { retried = λ S body s. cluster-Documented.retried S body s }
