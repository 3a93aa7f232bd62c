-- ===== src/Daemon/Containerd/Chars.antt =====
-- The characters of the references that containerd is asked for.
use unicore.Prelude.{
  if_either, zero, suc, ℕ, ◌==◌, ◌≡◌, refl, sym, subst, inl, inr, Bool, true, not, ◌&&◌, ◌||◌, Str,
  codes, List, [], ◌∷◌, ◌++◌, map, keep, arith, All, All-append, Bool-cases,
}
use unicore.Regexp.{Regexp, fail, empty, one, seq, alt, star, times, literal}
use unicore.Regexp.Language.{
  Matches, nothing, char, both, left, right, done, more, matches-Matches, both_true,
}
use unicore.App.Platform.{Result, ok, err}
use unicore.Daemon.Containerd.{
  Answers, is_lower_digit, is_host_char, is_separator, is_tag_char, is_decimal, is_hex, is_hex,
  valid_image_regex, is_valid_docker_image_name, contains_byte, with_registry, existing_images,
  filter_missing_images, reference_of, check_and_pull, pull_listed, pull_missing,
}
use unicore.Daemon.Containerd.Pulls.{pull_all-asked}

-- The characters of references.
abbrev pub is_image_char : ℕ → Bool
is_image_char c = is_tag_char c || c == b':' || c == b'/' || c == b'@'

-- Every class of the expression stays within P.
Within : (P : ℕ → Type 0) → Regexp → Type 0
Within P fail = Unit
Within P empty = Unit
Within P (one f) = (c : ℕ) → f c ≡ true → P c
Within P (seq r q) = Within P r × Within P q
Within P (alt r q) = Within P r × Within P q
Within P (star r) = Within P r

module _ (P : ℕ → Type 0) where
  All-parts : (s t u : Str) → All P s → All P t → u ≡ s ++ t → All P u
  All-parts s t u a b e = subst (All P) (sym e) (All-append P s t a b)

  Matches-All : (r : Regexp) (s : Str) → Matches r s → Within P r → All P s
  unfolding Within
  Matches-All r s nothing w = tt
  Matches-All r s (char f c h) w = (w c h, tt)
  Matches-All r s (both r' q s1 t _ m n e) w =
      All-parts s1 t s (Matches-All r' s1 m w.0) (Matches-All q t n w.1) e
  Matches-All r s (left r' q _ m) w = Matches-All r' s m w.0
  Matches-All r s (right r' q _ m) w = Matches-All q s m w.1
  Matches-All r s (done r') w = tt
  Matches-All r s (more r' s1 t _ m n e) w =
      All-parts s1 t s (Matches-All r' s1 m w) (Matches-All (star r') t n w) e

  Within-literal : (s : Str) → All P s → Within P (literal s)
  unfolding Within literal
  Within-literal [] h = tt
  Within-literal (c ∷ s) (a, h) =
      ((λ d e. let same : d ≡ c = ground arith in subst P (sym same) a), Within-literal s h)

  Within-times : (n : ℕ) (r : Regexp) → Within P r → Within P (times n r)
  unfolding Within times
  Within-times zero r h = tt
  Within-times (suc n) r h = (h, Within-times n r h)

abbrev pub ImageChar : ℕ → Type 0
ImageChar c = is_image_char c ≡ true

all_image : Str → Bool
all_image [] = true
all_image (c ∷ s) = is_image_char c && all_image s

image_chars : (s : Str) → all_image s ≡ true → All ImageChar s
unfolding all_image
image_chars [] h = tt
image_chars (c ∷ s) h =
    let (a, b) = both_true (is_image_char c) (all_image s) h in (a, image_chars s b)

host-ImageChar : (c : ℕ) → is_host_char c ≡ true → ImageChar c
host-ImageChar c h = ground arith

decimal-ImageChar : (c : ℕ) → is_decimal c ≡ true → ImageChar c
decimal-ImageChar c h = ground arith

lower-ImageChar : (c : ℕ) → is_lower_digit c ≡ true → ImageChar c
lower-ImageChar c h = ground arith

separator-ImageChar : (c : ℕ) → is_separator c ≡ true → ImageChar c
separator-ImageChar c h = ground arith

tag-ImageChar : (c : ℕ) → is_tag_char c ≡ true → ImageChar c
tag-ImageChar c h = ground arith

hex-ImageChar : (c : ℕ) → is_hex c ≡ true → ImageChar c
hex-ImageChar c h = ground arith

valid_image_regex-Within : Within ImageChar valid_image_regex
unfolding Within all_image
valid_image_regex-Within =
    let colon = Within-literal ImageChar (codes ":") (refl, tt) in
    let slash = Within-literal ImageChar (codes "/") (refl, tt) in
    let sha = Within-literal ImageChar (codes "@sha256:") (image_chars (codes "@sha256:") refl) in
    (
      (
        (
          (host-ImageChar, host-ImageChar),
          ((tt, (colon, (decimal-ImageChar, decimal-ImageChar))), slash),
        ),
        (
          (lower-ImageChar, lower-ImageChar),
          (separator-ImageChar, (lower-ImageChar, lower-ImageChar)),
        ),
      ),
      (
        (tt, (colon, (tag-ImageChar, tag-ImageChar))),
        (tt, (sha, Within-times ImageChar 64 (one is_hex) hex-ImageChar)),
      ),
    )

-- A valid name has image characters only.
valid_name-chars : (name : Str) → is_valid_docker_image_name name ≡ true → All ImageChar name
unfolding is_valid_docker_image_name
valid_name-chars name h =
    Matches-All ImageChar valid_image_regex name (matches-Matches valid_image_regex name h)
      valid_image_regex-Within

reference_of-chars : (name : Str) → All ImageChar name → All ImageChar (reference_of name)
unfolding reference_of all_image
reference_of-chars name h =
    let whole : All ImageChar (with_registry name) =
      if_either (All ImageChar) (not (contains_byte b'/' name)) _ name
        (All-append ImageChar (codes "docker.io/library/") name
          (image_chars (codes "docker.io/library/") refl) h)
        h in
    if_either (All ImageChar) (not (contains_byte b':' (with_registry name))) _ (with_registry name)
      (All-append ImageChar (with_registry name) (codes ":latest") whole
        (image_chars (codes ":latest") refl))
      whole

references-chars :
    (l : List Str) → All (All ImageChar) (map reference_of (keep is_valid_docker_image_name l))
references-chars [] = tt
references-chars (name ∷ l) = elim (Bool-cases (is_valid_docker_image_name name)) [
  | inl e ↦ rw e (reference_of-chars name (valid_name-chars name e), references-chars l)
  | inr e ↦ rw e (references-chars l)
]

pull_missing-safe : (c : Answers) (l : List Str) → All (All ImageChar) (pull_missing c l).1
unfolding pull_missing
pull_missing-safe c [] = tt
pull_missing-safe c (img ∷ imgs) =
    subst (All (All ImageChar)) (sym (pull_all-asked c.answer (c.finished (img ∷ imgs)) [] []))
      (references-chars (c.finished (img ∷ imgs)))

pull_listed-safe :
    (c : Answers) (images : List Str) (r : Result (List Str))
    → All (All ImageChar) (pull_listed c images r).1
unfolding pull_listed
pull_listed-safe c images (err f) = tt
pull_listed-safe c images (ok names) =
    pull_missing-safe c (filter_missing_images images (existing_images names []))

-- Whatever the images are called and whatever containerd answers, CheckAndPull asks only for
-- references of letters, digits and the characters . _ - : / @.
pub check_and_pull-safe :
    (c : Answers) (images : List Str) → All (All ImageChar) (check_and_pull c images).1
unfolding check_and_pull
check_and_pull-safe c images = pull_listed-safe c images c.listed
