-- ===== src/Srd/Increase/Disk.antt =====
-- The file system that `srd_increase` in src/enclave/srd/Srd.cpp writes to, through the ocalls, and the
-- paths that it writes.
use crust_sworker.Prelude.{
  ℕ, ◌+◌, ◌≡◌, ◌≢◌, refl, sym, ap₂, ◌∙◌, Bool-cases, inl, inr, true, false, List, [], ◌∷◌, ◌++◌,
  Option, some, arith, append_assoc,
}
use crust_sworker.Prelude.Text.{Text, codes, text_eq}
use crust_sworker.Prelude.Decimal.{to_string, to_string-injective, AreDigits, to_string-AreDigits}
use crust_sworker.Persistence.PieceKeys.{text_eq-append}
use crust_sworker.Hex.{unsigned_char_array_to_hex_string}
use crust_sworker.Srd.{get_m_hashs_file_path, get_leaf_path}
use crust_sworker.Srd.Increase.{DiskCall, create_dir, save_file, rename_dir}

-- The file system of the application, with what the ocalls do to it where they succeed.
pub record FileSystem : Type 1 where
  pub State : Type 0
  pub get : Text → State → Option (List ℕ)
  pub create : Text → State → State
  pub save : Text → List ℕ → State → State
  pub rename : Text → Text → State → State

-- A new directory is empty, a file that is saved can be read, other files stay, and renaming a directory
-- moves the files below it.
pub record IsLawful (fs : FileSystem) : Type 0 where
  pub get-create : (p dir : Text) (s : fs.State) → fs.get p (fs.create dir s) ≡ fs.get p s
  pub get-save :
      (p : Text) (bytes : List ℕ) (s : fs.State) → fs.get p (fs.save p bytes s) ≡ some bytes
  pub get-save_other :
      (p q : Text) (bytes : List ℕ) (s : fs.State)
      → text_eq p q ≡ false
      → fs.get p (fs.save q bytes s) ≡ fs.get p s
  pub get-rename :
      (old new rest : Text) (s : fs.State)
      → fs.get ((new ++ codes "/") ++ rest) (fs.rename old new s)
        ≡ fs.get ((old ++ codes "/") ++ rest) s

module _ (fs : FileSystem) where
  -- The calls one after the other.
  abbrev pub run : List DiskCall → fs.State → fs.State
  run [] s = s
  run (create_dir dir ∷ calls) s = run calls (fs.create dir s)
  run (save_file p bytes ∷ calls) s = run calls (fs.save p bytes s)
  run (rename_dir old new ∷ calls) s = run calls (fs.rename old new s)

  pub run-append : (xs ys : List DiskCall) (s : fs.State) → run (xs ++ ys) s ≡ run ys (run xs s)
  run-append [] ys s = refl
  run-append (create_dir dir ∷ xs) ys s = run-append xs ys (fs.create dir s)
  run-append (save_file p bytes ∷ xs) ys s = run-append xs ys (fs.save p bytes s)
  run-append (rename_dir old new ∷ xs) ys s = run-append xs ys (fs.rename old new s)

-- The paths below a directory.
unfoldable pub leaf_name : ℕ → List ℕ → Text
leaf_name i hash = to_string (i + 1) ++ (codes "-" ++ unsigned_char_array_to_hex_string hash)

pub get_leaf_path_eq :
    (dir : Text) (i : ℕ) (hash : List ℕ)
    → get_leaf_path dir i hash ≡ (dir ++ codes "/") ++ leaf_name i hash
unfolding get_leaf_path leaf_name
get_leaf_path_eq dir i hash =
    let tail = codes "-" ++ unsigned_char_array_to_hex_string hash in
    append_assoc dir (codes "/" ++ to_string (i + 1)) tail
    ∙ sym (append_assoc dir (codes "/") (to_string (i + 1) ++ tail))

pub get_m_hashs_file_path_eq :
    (dir : Text) → get_m_hashs_file_path dir ≡ (dir ++ codes "/") ++ codes "m-hashs.bin"
unfolding get_m_hashs_file_path
get_m_hashs_file_path_eq dir = sym (append_assoc dir (codes "/") (codes "m-hashs.bin"))

-- Texts of digits before a dash are different if the digits are.
digits_dash :
    (s t q r : Text)
    → AreDigits s
    → AreDigits t
    → text_eq (s ++ (b'-' ∷ q)) (t ++ (b'-' ∷ r)) ≡ true
    → s ≡ t
unfolding text_eq
digits_dash [] [] q r h k e = refl
digits_dash [] (y ∷ t) q r h k e = absurd (ground arith)
digits_dash (x ∷ s) [] q r h k e = absurd (ground arith)
digits_dash (x ∷ s) (y ∷ t) q r h k e =
    ap₂ ◌∷◌ (ground arith) (digits_dash s t q r h.1 k.1 (ground arith))

digits_m : (t r : Text) → AreDigits t → text_eq (codes "m-hashs.bin") (t ++ (b'-' ∷ r)) ≡ false
unfolding text_eq
digits_m [] r h = refl
digits_m (c ∷ t) r h = ground arith

pub get_leaf_path_ne :
    (dir : Text) (i j : ℕ) (hash other : List ℕ)
    → i ≢ j
    → text_eq (get_leaf_path dir i hash) (get_leaf_path dir j other) ≡ false
unfolding leaf_name
get_leaf_path_ne dir i j hash other ne =
    rw
      (
        get_leaf_path_eq dir i hash,
        get_leaf_path_eq dir j other,
        text_eq-append (dir ++ codes "/") (leaf_name i hash) (leaf_name j other),
      )
      (elim (Bool-cases (text_eq (leaf_name i hash) (leaf_name j other))) [
        | inr e ↦ e
        | inl e ↦
            let same =
              digits_dash (to_string (i + 1)) (to_string (j + 1)) _ _ (to_string-AreDigits (i + 1))
                (to_string-AreDigits (j + 1)) e in
            let next = to_string-injective (i + 1) (j + 1) same in absurd (ne (omega (arith, next)))
      ])

pub m_hashs_ne-leaf :
    (dir : Text) (j : ℕ) (hash : List ℕ)
    → text_eq (get_m_hashs_file_path dir) (get_leaf_path dir j hash) ≡ false
unfolding leaf_name
m_hashs_ne-leaf dir j hash =
    rw
      (
        get_m_hashs_file_path_eq dir,
        get_leaf_path_eq dir j hash,
        text_eq-append (dir ++ codes "/") (codes "m-hashs.bin") (leaf_name j hash),
      )
      (digits_m (to_string (j + 1)) _ (to_string-AreDigits (j + 1)))
