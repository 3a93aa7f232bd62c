-- ===== src/Daemon/Containerd.antt =====
-- containerd.go: the images that are missing on the node are pulled.
pub mod Pulls
pub mod FailedPulls
pub mod Names
pub mod Chars
use unicore.Prelude.{
  zero, suc, ℕ, ltb, leb, ◌==◌, if◌then◌else◌, Bool, true, false, not, ◌&&◌, ◌||◌, Str, codes,
  str_eq, Map, lookup, insert, is_some, List, [], ◌∷◌, ◌++◌, Option, none, some, keep, ◌≡◌, refl,
}
use unicore.Regexp.{Regexp, one, seq, alt, star, plus, optional, times, literal, matches}
use unicore.App.Platform.{Failure, other_failure, Result, ok, err}

abbrev between : ℕ → ℕ → ℕ → Bool
between a b c = leb a c && leb c b

abbrev pub is_lower_digit : ℕ → Bool
is_lower_digit c = between b'a' b'z' c || between b'0' b'9' c

abbrev pub is_letter_digit : ℕ → Bool
is_letter_digit c = is_lower_digit c || between b'A' b'Z' c

-- [a-zA-Z0-9.-]
abbrev pub is_host_char : ℕ → Bool
is_host_char c = is_letter_digit c || c == b'.' || c == b'-'

-- [._-]
abbrev pub is_separator : ℕ → Bool
is_separator c = c == b'.' || c == b'_' || c == b'-'

-- [\w.-]
abbrev pub is_tag_char : ℕ → Bool
is_tag_char c = is_letter_digit c || is_separator c

-- [a-fA-F0-9]
abbrev pub is_hex : ℕ → Bool
is_hex c = between b'a' b'f' c || between b'A' b'F' c || between b'0' b'9' c

-- [0-9]
abbrev pub is_decimal : ℕ → Bool
is_decimal c = between b'0' b'9' c

-- [a-zA-Z0-9.-]+(?:\:[0-9]+)?/
abbrev pub path_part : Regexp
path_part =
    seq (plus (one is_host_char))
      (seq (optional (seq (literal (codes ":")) (plus (one is_decimal)))) (literal (codes "/")))

-- [a-z0-9]+(?:[._-][a-z0-9]+)*
abbrev pub base_name : Regexp
base_name =
    seq (plus (one is_lower_digit)) (star (seq (one is_separator) (plus (one is_lower_digit))))

-- validImageRegex
abbrev pub valid_image_regex : Regexp
valid_image_regex = seq (seq (star path_part) base_name) (
    seq (optional (seq (literal (codes ":")) (plus (one is_tag_char))))
      (optional (seq (literal (codes "@sha256:")) (times 64 (one is_hex)))))

unfoldable pub is_valid_docker_image_name : Str → Bool
unfolding matches times literal
is_valid_docker_image_name name = matches valid_image_regex name

-- strings.Contains(s, c) for a text of one byte
unfoldable pub contains_byte : ℕ → Str → Bool
contains_byte c [] = false
contains_byte c (d ∷ s) = d == c || contains_byte c s

abbrev with_registry : Str → Str
with_registry image =
    if not (contains_byte b'/' image) then codes "docker.io/library/" ++ image else image

abbrev with_tag : Str → Str
with_tag image = if not (contains_byte b':' image) then image ++ codes ":latest" else image

-- The reference that is asked for.
unfoldable pub reference_of : Str → Str
reference_of image = with_tag (with_registry image)

-- pullSingleImage: its error, and the references that it asked containerd for. `answer` is
-- client.Pull.
unfoldable pub pull_single_image : (answer : Str → Option Failure) → Str → Option Failure × List Str
pull_single_image answer image =
    if not (is_valid_docker_image_name image)
    then (some other_failure, [])
    else (answer (reference_of image), reference_of image ∷ [])

-- getExistingImages, from the images that containerd lists
unfoldable pub existing_images : List Str → Map (Unit {0}) → Map (Unit {0})
existing_images [] m = m
existing_images (name ∷ names) m = existing_images names (insert name tt m)

unfoldable pub filter_missing_images : List Str → Map (Unit {0}) → List Str
filter_missing_images targets existing = keep (λ img. not (is_some (lookup img existing))) targets

-- One goroutine after another, in the order in which they take the lock: the failed pulls, and the
-- references asked for.
unfoldable pub pull_all :
    (answer : Str → Option Failure) → List Str → Map Bool × List Str → Map Bool × List Str
pull_all answer [] s = s
pull_all answer (img ∷ imgs) (failed, asked) =
    let (e, refs) = pull_single_image answer img in
    pull_all answer imgs (if is_some e then insert img true failed else failed, asked ++ refs)

-- What containerd answers during one call: the images it lists, its answer to each pull, and the order
-- in which the pulls end.
pub record Answers : Type 0 where
  pub listed : Result (List Str)
  pub answer : Str → Option Failure
  pub finished : List Str → List Str

-- A map of the failed pulls, which is nil if there is nothing to pull, and the references asked for.
pull_missing : Answers → List Str → Result (Map Bool) × List Str
pull_missing c [] = (ok [], [])
pull_missing c (img ∷ imgs) =
    let (failed, asked) = pull_all c.answer (c.finished (img ∷ imgs)) ([], []) in (ok failed, asked)

pull_listed : Answers → List Str → Result (List Str) → Result (Map Bool) × List Str
unfolding pull_missing
pull_listed c images (err f) = (err f, [])
pull_listed c images (ok names) =
    pull_missing c (filter_missing_images images (existing_images names []))

unfoldable pub check_and_pull : Answers → List Str → Result (Map Bool) × List Str
unfolding pull_listed
check_and_pull c images = pull_listed c images c.listed

reference_test : reference_of (codes "nginx") ≡ codes "docker.io/library/nginx:latest"
unfolding reference_of contains_byte
reference_test = refl

valid_test : is_valid_docker_image_name (codes "a:80/b") ≡ true
unfolding is_valid_docker_image_name
valid_test = refl
