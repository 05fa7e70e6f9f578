-- ===== src/DataLog/Files.antt =====
-- Which samples stand in which file of a logger, and how many bytes they are.
use my_ulog.Base.{
  or_zero, ℕ, ◌+◌, ◌^◌, ◌<◌, ◌≤◌, ◌≡◌, refl, sym, ap, ◌∙◌, Bool, false, List, [], ◌∷◌, ◌++◌,
  append-nil, append_assoc, length, take, get_elem?, arith, if◌then◌else◌,
}
use my_ulog.Base.Bytes.{Bytes}
use my_ulog.Base.Dict.{bytes_key, lookup}
use my_ulog.Messages.FileHeader.{new_file_header, serialize_file_header}
use my_ulog.Messages.Data.{Data, data_head}
use my_ulog.DataLog.State.{DataLog, max_file_size}
use my_ulog.DataLog.Rotate.{output_of}
use my_ulog.DataLog.Alike.{Tables}

-- The writes of samples, and the bytes of their payloads.
unfoldable pub writes_of : List Data → List Bytes
writes_of [] = []
writes_of (x ∷ xs) = data_head (length x.payload + 2) x.msg_id ∷ x.payload ∷ writes_of xs

unfoldable pub bytes_of : List Data → ℕ
bytes_of [] = 0
bytes_of (x ∷ xs) = length x.payload + bytes_of xs

-- A file with the definitions, and behind them these samples, whose bytes stay below the limit but for
-- one sample: a message has less than 2 ^ 16.
unfoldable pub IsFileOf : List Bytes → List Data → List Bytes → Type 0
IsFileOf defs samples writes =
    ((timestamp : ℕ) × (writes
        ≡ serialize_file_header (new_file_header timestamp false) ++ (defs ++ writes_of samples)))
    × (bytes_of samples < max_file_size + 2 ^ 16)

-- The files one by one.
unfoldable pub AreFiles : List Bytes → List (List Data) → List (Bytes × List Bytes) → Type 0
AreFiles defs [] [] = Unit
AreFiles defs (samples ∷ groups) ((name, writes) ∷ files) =
    IsFileOf defs samples writes × AreFiles defs groups files
AreFiles defs [] (file ∷ files) = ⊥
AreFiles defs (samples ∷ groups) [] = ⊥

abbrev pub all_of : List (List Data) → List Data
all_of [] = []
all_of (xs ∷ groups) = xs ++ all_of groups

-- The sample that a call of `Write` gives, by the id of the struct and its size.
abbrev pub sample_of : Tables → Bytes × Bytes → Data
sample_of t (name, bytes) =
    let id = or_zero (lookup name t.3) in
    record { msg_id = id; payload = take (or_zero (get_elem? t.2 id)) bytes }

-- The samples of calls of `Write`: none if the logger is switched off.
unfoldable pub recorded : Bool → Tables → List (Bytes × Bytes) → List Data
recorded on t [] = []
recorded on t (x ∷ xs) = (if on then sample_of t x ∷ [] else []) ++ recorded on t xs

-- Where the samples are that were written so far.
pub record IsFiled (defs : List Bytes) (on : Bool) (done : List Data) (d : DataLog) : Type 0 where
  pub closed_samples : List (List Data)
  pub files : AreFiles defs closed_samples d.closed
  pub last : List Data
  pub begun :
      (timestamp : ℕ) × (output_of d.writer
        ≡ serialize_file_header (new_file_header timestamp false) ++ (defs ++ writes_of last))
  pub counted : bytes_of last ≤ d.current_file_size + 65533
  pub complete : all_of closed_samples ++ last ≡ done
  pub switched : d.enabled ≡ on

pub AreFiles-append :
    (defs : List Bytes) (groups : List (List Data)) (files : List (Bytes × List Bytes))
    (samples : List Data) (name : Bytes) (writes : List Bytes)
    → AreFiles defs groups files
    → IsFileOf defs samples writes
    → AreFiles defs (groups ++ (samples ∷ [])) (files ++ ((name, writes) ∷ []))
unfolding AreFiles
AreFiles-append defs [] [] samples name writes h k = (k, tt)
AreFiles-append defs (g ∷ groups) ((n, ws) ∷ files) samples name writes (h, hs) k =
    (h, AreFiles-append defs groups files samples name writes hs k)
AreFiles-append defs [] (file ∷ files) samples name writes h k = absurd h
AreFiles-append defs (g ∷ groups) [] samples name writes h k = absurd h

pub writes_of-append : (xs ys : List Data) → writes_of (xs ++ ys) ≡ writes_of xs ++ writes_of ys
unfolding writes_of
writes_of-append [] ys = refl
writes_of-append (x ∷ xs) ys =
    ap (λ ws. data_head (length x.payload + 2) x.msg_id ∷ x.payload ∷ ws) (writes_of-append xs ys)

pub bytes_of-append : (xs ys : List Data) → bytes_of (xs ++ ys) ≡ bytes_of xs + bytes_of ys
unfolding bytes_of
bytes_of-append [] ys = omega arith
bytes_of-append (x ∷ xs) ys = omega (arith, bytes_of-append xs ys)

pub all_of-append :
    (groups : List (List Data)) (xs : List Data)
    → all_of (groups ++ (xs ∷ [])) ≡ all_of groups ++ xs
all_of-append [] xs = append-nil xs
all_of-append (g ∷ groups) xs =
    ap (λ ys. g ++ ys) (all_of-append groups xs) ∙ sym (append_assoc g (all_of groups) xs)

-- The files that were closed, and the current one.
abbrev pub files_of : DataLog → List (Bytes × List Bytes)
files_of d = d.closed ++ (((d.init_params).file_name, output_of d.writer) ∷ [])

-- The samples of all files, the current one last.
pub IsFiled-AreFiles :
    (defs : List Bytes) (on : Bool) (done : List Data) (d : DataLog)
    → IsFiled defs on done d
    → d.current_file_size < max_file_size
    → (groups : List (List Data)) × AreFiles defs groups (files_of d) × (all_of groups ≡ done)
unfolding IsFileOf
IsFiled-AreFiles defs on done d h small =
    let counted = h.counted in
    (
      h.closed_samples ++ (h.last ∷ []),
      AreFiles-append defs h.closed_samples d.closed h.last (d.init_params).file_name
          (output_of d.writer) h.files (h.begun, omega (arith, counted, small)),
      all_of-append h.closed_samples h.last ∙ h.complete,
    )
