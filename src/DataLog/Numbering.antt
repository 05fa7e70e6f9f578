-- ===== src/DataLog/Numbering.antt =====
-- The files that follow one another: `test.1.ulg`, `test.2.ulg`, and so on.
use my_ulog.Base.{
  ℕ, suc, ◌+◌, ◌-◌, ◌<◌, ◌^◌, ◌≡◌, ◌≢◌, refl, sym, ap, ◌∙◌, Bool, ◌||◌, false, Option, none, some,
  [], ◌∷◌, ◌++◌, ◌==◌, pos, length, length-append, take, drop, take-length, drop-suc-length,
  All-append, append_assoc, arith,
}
use my_ulog.Base.Bytes.{Bytes, codes, Lacks}
use my_ulog.Base.Decimal.{
  to_string, stoi, stoi-to_string_alone, is_space, is_digit, read_positive, to_string-Lacks,
}
use my_ulog.Base.Result.{Result, ok, throw, fault, out_of_fuel, Exception, invalid_argument, ◌>>=◌}
use my_ulog.DataLog.Names.{
  last_of, rfind, rfind_before, versioned, increment, next_version, new_path_in,
  generate_new_filename, generate_new_path_or_filename,
}

-- The last position is the one in front of bytes that are different.
rfind-Lacks : (c : ℕ) (s : Bytes) → Lacks c s → rfind c s ≡ none
unfolding rfind last_of
rfind-Lacks c [] h = refl
rfind-Lacks c (b ∷ s) h = rw (rfind-Lacks c s h.1) (ground (arith, h.0))

rfind-append :
    (c : ℕ) (front back : Bytes)
    → Lacks c back
    → rfind c (front ++ (c ∷ back)) ≡ some (length front)
unfolding rfind last_of
rfind-append c [] back h = rw (rfind-Lacks c back h) (ground arith)
rfind-append c (b ∷ front) back h = rw (rfind-append c front back h) refl

ulg-Lacks : Lacks b'.' (codes "ulg")
ulg-Lacks = ((λ e. omega (arith, e)), ((λ e. omega (arith, e)), ((λ e. omega (arith, e)), tt)))

-- A name with a dot.
named :
    (s : Bytes) (i : ℕ)
    → rfind b'.' s ≡ some i
    → generate_new_filename s ≡ next_version s i (rfind_before b'.' i s)
unfolding generate_new_filename
named [] i e = absurd (clash (sym (rfind-Lacks b'.' [] tt) ∙ e))
  where
    clash : none ≡ some i → ⊥
    clash e = cc
named (c ∷ s) i e =
    ap
      (λ (o : Option ℕ). elim o [
        | none ↦ ok (c ∷ s)
        | some last_dot ↦ next_version (c ∷ s) last_dot (rfind_before b'.' last_dot (c ∷ s))
      ])
      e

before-dot :
    (a b : Bytes) (n : ℕ) → length a ≡ suc n → rfind_before b'.' (length a) (a ++ b) ≡ rfind b'.' a
unfolding rfind_before
before-dot a b n e =
    rw e (ap (λ s. rfind b'.' s) (ap (λ k. take k (a ++ b)) (sym e) ∙ take-length a b))

-- The version between the two last dots.
next_version-digits :
    (front digits : Bytes) (n : ℕ)
    → stoi digits ≡ ok (pos n)
    → n + 1 < 2 ^ 31
    → next_version
        ((front ++ (b'.' ∷ digits)) ++ codes ".ulg")
        (length (front ++ (b'.' ∷ digits)))
        (some (length front))
      ≡ ok (versioned front (pos (n + 1)))
unfolding next_version
next_version-digits front digits n read small =
    let s = front ++ (b'.' ∷ (digits ++ codes ".ulg")) in
    let long : length (front ++ (b'.' ∷ digits)) ≡ length front + suc (length digits) =
      length-append front (b'.' ∷ digits) in
    let split : drop (suc (length front)) s ≡ digits ++ codes ".ulg" =
      drop-suc-length front (digits ++ codes ".ulg") b'.' in
    let rest : length front + suc (length digits) - length front - 1 ≡ length digits =
      omega arith in
    let whole : take (length front) s ≡ front =
      take-length front (b'.' ∷ (digits ++ codes ".ulg")) in
    rw
      (
        append_assoc front (b'.' ∷ digits) (codes ".ulg"),
        long,
        rest,
        split,
        whole,
        take-length digits (codes ".ulg"),
        read,
      )
      (ground (arith, small))

-- The next name has the next version, whatever stands in front of it.
pub generate_new_filename-versioned :
    (front : Bytes) (n : ℕ)
    → n + 1 < 2 ^ 31
    → generate_new_filename (versioned front (pos n)) ≡ ok (versioned front (pos (n + 1)))
generate_new_filename-versioned front n small =
    let stem = front ++ (b'.' ∷ to_string (pos n)) in
    let long : length stem ≡ suc (length front + length (to_string (pos n))) =
      omega (arith, length-append front (b'.' ∷ to_string (pos n))) in
    rw (← append_assoc front (b'.' ∷ to_string (pos n)) (codes ".ulg")) (
      named (stem ++ codes ".ulg") (length stem) (rfind-append b'.' stem (codes "ulg") ulg-Lacks)
      ∙ ap (next_version (stem ++ codes ".ulg") (length stem)) (
          before-dot stem (codes ".ulg") _ long
          ∙ rfind-append b'.' front (to_string (pos n)) (to_string-Lacks n b'.' refl))
      ∙ next_version-digits front (to_string (pos n)) n (stoi-to_string_alone n (omega arith))
          small)

-- What is made of a path, for the last dot of its name.
abbrev renamed : Bytes → Bytes → Bytes → Option ℕ → Result Bytes
renamed path directory filename o = elim o [
  | none ↦ ok path
  | some last_dot ↦
      next_version filename last_dot (rfind_before b'.' last_dot filename) >>= λ new_filename.
      ok (directory ++ new_filename)
]

in_directory :
    (path : Bytes) (i : ℕ)
    → rfind b'/' path ≡ some i
    → generate_new_path_or_filename path
      ≡ renamed path (take (suc i) path) (drop (suc i) path) (rfind b'.' (drop (suc i) path))
unfolding generate_new_path_or_filename new_path_in
in_directory [] i e = absurd (clash (sym (rfind-Lacks b'/' [] tt) ∙ e))
  where
    clash : none ≡ some i → ⊥
    clash e = cc
in_directory (c ∷ s) i e = ap (new_path_in (c ∷ s)) e

take-suc-length : (xs ys : Bytes) (y : ℕ) → take (suc (length xs)) (xs ++ (y ∷ ys)) ≡ xs ++ (y ∷ [])
take-suc-length [] ys y = refl
take-suc-length (x ∷ xs) ys y = ap (λ s. x ∷ s) (take-suc-length xs ys y)

-- The name of a path is renamed as it would be alone, in the same directory.
pub generate_new_path_or_filename-path :
    (directory : Bytes) (c : ℕ) (name : Bytes)
    → Lacks b'/' (c ∷ name)
    → generate_new_path_or_filename (directory ++ (b'/' ∷ c ∷ name))
      ≡ (generate_new_filename (c ∷ name) >>= λ new_name. ok (directory ++ (b'/' ∷ new_name)))
unfolding generate_new_filename
generate_new_path_or_filename-path directory c name h =
    let path = directory ++ (b'/' ∷ c ∷ name) in
    in_directory path (length directory) (rfind-append b'/' directory (c ∷ name) h)
    ∙ ap (λ s. renamed path (take (suc (length directory)) path) s (rfind b'.' s))
        (drop-suc-length directory (c ∷ name) b'/')
    ∙ ap (λ s. renamed path s (c ∷ name) (rfind b'.' (c ∷ name)))
        (take-suc-length directory (c ∷ name) b'/')
    ∙ by_dot (rfind b'.' (c ∷ name))
  where
    by_result :
        (r : Result Bytes)
        → (r >>= λ n. ok ((directory ++ (b'/' ∷ [])) ++ n))
          ≡ (r >>= λ n. ok (directory ++ (b'/' ∷ n)))
    by_result (ok n) = ap ok (append_assoc directory (b'/' ∷ []) n)
    by_result (throw x) = refl
    by_result fault = refl
    by_result out_of_fuel = refl

    by_dot :
        (o : Option ℕ)
        → renamed (directory ++ (b'/' ∷ c ∷ name)) (directory ++ (b'/' ∷ [])) (c ∷ name) o ≡ (
            (elim o [
              | none ↦ ok (c ∷ name)
              | some last_dot ↦
                  next_version (c ∷ name) last_dot (rfind_before b'.' last_dot (c ∷ name))
            ])
            >>= λ new_name. ok (directory ++ (b'/' ∷ new_name)))
    by_dot none = refl
    by_dot (some i) = by_result (next_version (c ∷ name) i (rfind_before b'.' i (c ∷ name)))

path-ok :
    (directory name next : Bytes)
    → Lacks b'/' name
    → generate_new_filename name ≡ ok next
    → generate_new_path_or_filename (directory ++ (b'/' ∷ name)) ≡ ok (directory ++ (b'/' ∷ next))
unfolding generate_new_filename
path-ok directory [] next plain e = absurd (clash e)
  where
    clash : {x : Exception} → ◌≡◌ {A = Result Bytes} (throw x) (ok next) → ⊥
    clash e = cc
path-ok directory (c ∷ name) next plain e =
    generate_new_path_or_filename-path directory c name plain
    ∙ ap (λ r. r >>= λ new_name. ok (directory ++ (b'/' ∷ new_name))) e

versioned-Lacks : (front : Bytes) (n : ℕ) → Lacks b'/' front → Lacks b'/' (versioned front (pos n))
versioned-Lacks front n plain =
    All-append (λ b. b ≢ b'/') front (b'.' ∷ (to_string (pos n) ++ codes ".ulg")) plain
      (
        (λ e. omega (arith, e)),
        All-append (λ b. b ≢ b'/') (to_string (pos n)) (codes ".ulg") (to_string-Lacks n b'/' refl)
            (
              (λ e. omega (arith, e)),
              ((λ e. omega (arith, e)), ((λ e. omega (arith, e)), ((λ e. omega (arith, e)), tt))),
            ),
      )

-- The file behind `front.n.ulg` in a directory is `front.n+1.ulg` in the same directory, where the
-- version is below the largest int and the name has no slash; `front` may have dots, and be empty.
pub generate_new_path_or_filename-versioned :
    (directory front : Bytes) (n : ℕ)
    → Lacks b'/' front
    → n + 1 < 2 ^ 31
    → generate_new_path_or_filename (directory ++ (b'/' ∷ versioned front (pos n)))
      ≡ ok (directory ++ (b'/' ∷ versioned front (pos (n + 1))))
generate_new_path_or_filename-versioned directory front n plain small =
    path-ok directory (versioned front (pos n)) (versioned front (pos (n + 1)))
      (versioned-Lacks front n plain) (generate_new_filename-versioned front n small)

abbrev pub is_number_start : ℕ → Bool
is_number_start c = is_space c || (c == b'-' || (c == b'+' || is_digit c))

stoi-fails : (c : ℕ) (s : Bytes) → is_number_start c ≡ false → stoi (c ∷ s) ≡ throw invalid_argument
unfolding stoi read_positive
stoi-fails c s h = ground arith

rfind_before-Lacks :
    (c i : ℕ) (stem back : Bytes)
    → length stem ≡ suc i
    → Lacks c stem
    → rfind_before c (length stem) (stem ++ back) ≡ none
unfolding rfind_before
rfind_before-Lacks c i stem back long h = rw long (
    ap (rfind c) (ap (λ k. take k (stem ++ back)) (sym long) ∙ take-length stem back)
    ∙ rfind-Lacks c stem h)

-- A name without a version, which begins like no number, has no next name: `test.ulg` is refused.
pub generate_new_filename-unversioned :
    (c : ℕ) (stem : Bytes)
    → Lacks b'.' (c ∷ stem)
    → is_number_start c ≡ false
    → generate_new_filename ((c ∷ stem) ++ codes ".ulg") ≡ throw invalid_argument
unfolding next_version
generate_new_filename-unversioned c stem h no_number =
    let s = c ∷ stem in
    named (s ++ codes ".ulg") (length s) (rfind-append b'.' s (codes "ulg") ulg-Lacks)
    ∙ ap (next_version (s ++ codes ".ulg") (length s))
        (rfind_before-Lacks b'.' (length stem) s (codes ".ulg") refl h)
    ∙ ap (λ t. stoi t >>= λ version. ok (versioned (s ++ codes ".ulg") (increment version)))
        (take-length s (codes ".ulg"))
    ∙ ap (λ r. r >>= λ version. ok (versioned (s ++ codes ".ulg") (increment version)))
        (stoi-fails c stem no_number)

-- And without a directory it is a path.
pub generate_new_path_or_filename-plain :
    (c : ℕ) (name : Bytes)
    → Lacks b'/' (c ∷ name)
    → generate_new_path_or_filename (c ∷ name) ≡ generate_new_filename (c ∷ name)
unfolding generate_new_path_or_filename new_path_in
generate_new_path_or_filename-plain c name plain =
    ap (new_path_in (c ∷ name)) (rfind-Lacks b'/' (c ∷ name) plain)
