-- ===== src/Daemon/Containerd/Names.antt =====
-- Which names are valid, and which references are asked for.
use unicore.Prelude.{
  ℕ, ◌==◌, ◌≡◌, ◌≢◌, refl, ◌∙◌, ap, sym, subst, inl, inr, Bool, true, false, ◌||◌, Str, codes, [],
  ◌∷◌, ◌++◌, append-nil, Option, arith, All, Bool-cases,
}
use unicore.Regexp.{one, star, plus, literal}
use unicore.Regexp.Language.{Matches, nothing, char, both, left, right, done, more, Matches-matches}
use unicore.App.Platform.{Failure}
use unicore.Daemon.Containerd.{
  is_lower_digit, is_host_char, is_decimal, path_part, base_name, valid_image_regex,
  is_valid_docker_image_name, contains_byte, reference_of, pull_single_image,
}

-- Characters of a class.
abbrev pub Class : (ℕ → Bool) → Str → Type 0
Class f = All (λ c. f c ≡ true)

star-Matches : (f : ℕ → Bool) (s : Str) → Class f s → Matches (star (one f)) s
star-Matches f [] h = done (one f)
star-Matches f (c ∷ s) (a, h) =
    more (one f) (c ∷ []) s (c ∷ s) (char f c a) (star-Matches f s h) refl

plus-Matches : (f : ℕ → Bool) (s : Str) → s ≢ [] → Class f s → Matches (plus (one f)) s
plus-Matches f [] ne h = absurd (ne refl)
plus-Matches f (c ∷ s) ne (a, h) =
    both (one f) (star (one f)) (c ∷ []) s (c ∷ s) (char f c a) (star-Matches f s h) refl

base-Matches : (s : Str) → s ≢ [] → Class is_lower_digit s → Matches base_name s
base-Matches s ne h =
    both _ _ s [] s (plus-Matches is_lower_digit s ne h) (done _) (sym (append-nil s))

valid_of_parts :
    (a b : Str)
    → Matches (star path_part) a
    → Matches base_name b
    → is_valid_docker_image_name (a ++ b) ≡ true
unfolding is_valid_docker_image_name
valid_of_parts a b m n = Matches-matches valid_image_regex (a ++ b) (
    both _ _ (a ++ b) [] (a ++ b) (both _ _ a b (a ++ b) m n refl)
      (both _ _ [] [] [] (left _ _ [] nothing) (left _ _ [] nothing) refl)
      (sym (append-nil (a ++ b))))

contains_byte-append :
    (c : ℕ) (s t : Str) → contains_byte c (s ++ t) ≡ (contains_byte c s || contains_byte c t)
unfolding contains_byte
contains_byte-append c [] t = refl
contains_byte-append c (d ∷ s) t = ground (arith, contains_byte-append c s t)

-- A byte outside of the class does not occur.
outside : (f : ℕ → Bool) (c : ℕ) (s : Str) → f c ≡ false → Class f s → contains_byte c s ≡ false
unfolding contains_byte
outside f c [] not_c h = refl
outside f c (d ∷ s) not_c (a, h) = elim (Bool-cases (d == c)) [
  | inl e ↦
      let same : d ≡ c = ground arith in
      let bad = sym (subst (λ x. f x ≡ true) same a) ∙ not_c in cc
  | inr e ↦ rw e (outside f c s not_c h)
]

-- A name of lower-case letters and digits is asked for as an image of the library, with the tag latest.
plain_image-asked :
    (answer : Str → Option Failure) (name : Str)
    → name ≢ []
    → Class is_lower_digit name
    → pull_single_image answer name ≡ (
      answer ((codes "docker.io/library/" ++ name) ++ codes ":latest"),
      ((codes "docker.io/library/" ++ name) ++ codes ":latest") ∷ [],
    )
unfolding pull_single_image reference_of contains_byte
plain_image-asked answer name ne h =
    let valid : is_valid_docker_image_name name ≡ true =
      valid_of_parts [] name (done path_part) (base-Matches name ne h) in
    let slash : contains_byte b'/' name ≡ false = outside is_lower_digit b'/' name refl h in
    let colon : contains_byte b':' name ≡ false = outside is_lower_digit b':' name refl h in
    rw (valid, slash) (rw colon refl)

-- An image on a registry with a port, and no tag.
abbrev pub on_port : (host port name : Str) → Str
on_port host port name = (host ++ ((b':' ∷ port) ++ codes "/")) ++ name

literal-Matches : (s : Str) → Matches (literal s) s
unfolding literal
literal-Matches [] = nothing
literal-Matches (c ∷ s) =
    both _ _ (c ∷ []) s (c ∷ s) (char _ c (ground arith)) (literal-Matches s) refl

abbrev registry : (host port : Str) → Str
registry host port = host ++ ((b':' ∷ port) ++ codes "/")

registry-Matches :
    (host port : Str)
    → host ≢ []
    → Class is_host_char host
    → port ≢ []
    → Class is_decimal port
    → Matches path_part (registry host port)
registry-Matches host port a h b i =
    both _ _ host ((b':' ∷ port) ++ codes "/") (registry host port)
      (plus-Matches is_host_char host a h)
      (both _ _ (b':' ∷ port) (codes "/") ((b':' ∷ port) ++ codes "/")
        (right _ _ (b':' ∷ port) (
          both _ _ (codes ":") port (b':' ∷ port) (literal-Matches (codes ":"))
            (plus-Matches is_decimal port b i) refl))
        (literal-Matches (codes "/")) refl)
      refl

or_true : (b : Bool) → (b || true) ≡ true
or_true true = refl
or_true false = refl

port_slash : (port : Str) → contains_byte b'/' ((b':' ∷ port) ++ codes "/") ≡ true
unfolding contains_byte
port_slash port = contains_byte-append b'/' port (codes "/") ∙ or_true (contains_byte b'/' port)

port_colon : (port : Str) → contains_byte b':' ((b':' ∷ port) ++ codes "/") ≡ true
unfolding contains_byte
port_colon port = refl

registry-bytes :
    (c : ℕ) (host port name : Str)
    → contains_byte c ((b':' ∷ port) ++ codes "/") ≡ true
    → contains_byte c (registry host port ++ name) ≡ true
registry-bytes c host port name h =
    contains_byte-append c (registry host port) name
    ∙ ap (λ b. b || contains_byte c name)
        (contains_byte-append c host ((b':' ∷ port) ++ codes "/")
          ∙ ap (λ b. contains_byte c host || b) h
          ∙ or_true (contains_byte c host))

-- Such an image is valid, and is asked for as it stands, without a tag.
port_image-asked :
    (answer : Str → Option Failure) (host port name : Str)
    → host ≢ []
    → Class is_host_char host
    → port ≢ []
    → Class is_decimal port
    → name ≢ []
    → Class is_lower_digit name
    → pull_single_image answer (on_port host port name)
      ≡ (answer (on_port host port name), on_port host port name ∷ [])
unfolding pull_single_image reference_of
port_image-asked answer host port name a h b i d j =
    let part = registry host port in
    let valid : is_valid_docker_image_name (part ++ name) ≡ true =
      valid_of_parts part name
        (more path_part part [] part (registry-Matches host port a h b i) (done path_part)
          (sym (append-nil part)))
        (base-Matches name d j) in
    let slash : contains_byte b'/' (part ++ name) ≡ true =
      registry-bytes b'/' host port name (port_slash port) in
    let colon : contains_byte b':' (part ++ name) ≡ true =
      registry-bytes b':' host port name (port_colon port) in
    rw (valid, slash) (rw colon refl)

-- A name of lower-case letters and digits is asked for as an image of the library, with the tag
-- latest. The same name on a registry with a port is a valid image too, but it is asked for as it
-- stands, without a tag.
pub port_image-untagged :
    (answer : Str → Option Failure) (host port name : Str)
    → host ≢ []
    → Class is_host_char host
    → port ≢ []
    → Class is_decimal port
    → name ≢ []
    → Class is_lower_digit name
    → (pull_single_image answer name ≡ (
      answer ((codes "docker.io/library/" ++ name) ++ codes ":latest"),
      ((codes "docker.io/library/" ++ name) ++ codes ":latest") ∷ [],
    ))
      × (pull_single_image answer (on_port host port name)
          ≡ (answer (on_port host port name), on_port host port name ∷ []))
port_image-untagged answer host port name a h b i d j =
    (plain_image-asked answer name d j, port_image-asked answer host port name a h b i d j)
