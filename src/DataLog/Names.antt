-- ===== src/DataLog/Names.antt =====
-- src/zz_data_log.cpp: the names of the files that follow one another.
use my_ulog.Base.{
  ℕ, zero, suc, ◌+◌, ◌-◌, ◌^◌, Bool, false, Option, none, some, [], ◌∷◌, ◌++◌, ◌==◌, if◌then◌else◌,
  ℤ, pos, negsuc, take, drop,
}
use my_ulog.Base.Bytes.{Bytes, codes, bytes_eq}
use my_ulog.Base.Decimal.{to_string, stoi}
use my_ulog.Base.Result.{Result, ok, throw, usage, ◌>>=◌, empty_filename, empty_path}

unfoldable pub last_of : ℕ → ℕ → Option ℕ → Option ℕ
last_of c b (some i) = some (suc i)
last_of c b none = if b == c then some 0 else none

-- `rfind(c)`: the last position of a byte, `none` for npos.
unfoldable pub rfind : ℕ → Bytes → Option ℕ
unfolding last_of
rfind c [] = none
rfind c (b ∷ bs) = last_of c b (rfind c bs)

-- `rfind(c, position - 1)`: the last one in front of a position. In front of 0 the position wraps
-- around to npos, and the whole text is searched.
unfoldable pub rfind_before : ℕ → ℕ → Bytes → Option ℕ
unfolding rfind
rfind_before c zero s = rfind c s
rfind_before c (suc i) s = rfind c (take (suc i) s)

-- `isValidFilename`.
unfoldable pub is_valid_filename : Bytes → Bool
unfolding rfind bytes_eq
is_valid_filename filename = elim (rfind b'.' filename) [
  | none ↦ false
  | some last_dot ↦ bytes_eq (drop last_dot filename) (codes ".ulg")
]

-- `++version` on an int; past the largest it is undefined, and taken to wrap around.
abbrev pub increment : ℤ → ℤ
increment (pos n) = if n == 2 ^ 31 - 1 then negsuc (2 ^ 31 - 1) else pos (n + 1)
increment (negsuc zero) = pos 0
increment (negsuc (suc n)) = negsuc n

-- `front + "." + std::to_string(version) + ".ulg"`.
abbrev pub versioned : Bytes → ℤ → Bytes
versioned front version = front ++ (b'.' ∷ (to_string version ++ codes ".ulg"))

-- The name behind `filename`, whose last dot is at `last_dot`; the dot before it is the last argument.
-- Without one the version is all that stands in front of the last dot, and the front is the whole name.
unfoldable pub next_version : Bytes → ℕ → Option ℕ → Result Bytes
next_version filename last_dot none =
    stoi (take last_dot filename) >>= λ version. ok (versioned filename (increment version))
next_version filename last_dot (some version_start) =
    if version_start == last_dot
    then ok (versioned (take version_start filename) (pos 1))
    else stoi (take (last_dot - version_start - 1) (drop (suc version_start) filename))
      >>= λ version. ok (versioned (take version_start filename) (increment version))

-- `generateNewFilename`.
unfoldable pub generate_new_filename : Bytes → Result Bytes
generate_new_filename [] = throw (usage empty_filename)
generate_new_filename (c ∷ s) =
    let filename = c ∷ s in
    elim (rfind b'.' filename) [
      | none ↦ ok filename
      | some last_dot ↦ next_version filename last_dot (rfind_before b'.' last_dot filename)
    ]

-- The part of `generateNewPathOrFilename` behind the search for a slash.
unfoldable pub new_path_in : Bytes → Option ℕ → Result Bytes
new_path_in path none = generate_new_filename path
new_path_in path (some last_slash) =
    let filename = drop (suc last_slash) path in
    elim (rfind b'.' filename) [
      | none ↦ ok path
      | some last_dot ↦
          next_version filename last_dot (rfind_before b'.' last_dot filename) >>= λ new_filename.
          ok (take (suc last_slash) path ++ new_filename)
    ]

-- `generateNewPathOrFilename`.
unfoldable pub generate_new_path_or_filename : Bytes → Result Bytes
generate_new_path_or_filename [] = throw (usage empty_path)
generate_new_path_or_filename (c ∷ s) = new_path_in (c ∷ s) (rfind b'/' (c ∷ s))
