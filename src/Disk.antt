-- ===== src/Disk.antt =====
-- The drives. `GetFileName` of utils/file_utils.cpp, and the files that chunks are read from and
-- written to. A file is cut into the CHUNK_SIZE blocks that the library addresses it by: a disk maps
-- a file and the byte address of a block to the elements there, none where nothing is allocated.
use text.Mathlib.Text.{◌==◌ as str_eq}
use text.Mathlib.TextEquality.{eq_iff}
use Prim.Native.String.{String}
use plaidlaylib.Prelude.{
  Bool-cases, inl, inr, ℕ, ◌%◌, ◌≡◌, refl, ◌≢◌, ◌↔◌, ◌⊎◌, Bool, true, ◌&&◌, List, arith, ◌==◌,
  if◌then◌else◌, get_or, ap, length,
}

-- The parts of a path: `ssd_list[ssd]`, the prefix and the file number, which `GetFileName` joins.
pub record FilePath : Type 0 where
  pub directory : String
  pub prefix : String
  pub number : ℕ

-- `GetFileName`, once the drive list is filled.
unfoldable pub get_file_name : List String → String → ℕ → FilePath
get_file_name ssd_list prefix file_number = record {
  directory = get_or ssd_list (file_number % length ssd_list) "";
  prefix = prefix;
  number = file_number;
}

-- Equality of file names.
pub same_path : FilePath → FilePath → Bool
same_path p q = p.number == q.number && (str_eq p.prefix q.prefix && str_eq p.directory q.directory)

pub same_path_iff : (p q : FilePath) → (same_path p q ≡ true) ↔ (p ≡ q)
unfolding same_path
same_path_iff p q = ground (arith, eq_iff p.prefix q.prefix, eq_iff p.directory q.directory)

pub same_path_self : (p : FilePath) → same_path p p ≡ true
same_path_self p = (same_path_iff p p).1 refl

abbrev pub Disk : Type 0 → Type 0
Disk A = FilePath → ℕ → List A

module _ {A : Type 0} where
  -- One write of a whole block.
  pub write_block : FilePath → ℕ → List A → Disk A → Disk A
  write_block file addr block d f a = if same_path f file && a == addr then block else d f a

  pub write_block_self :
      (file : FilePath) (addr : ℕ) (block : List A) (d : Disk A)
      → write_block file addr block d file addr ≡ block
  unfolding write_block
  write_block_self file addr block d = ground (arith, same_path_self file)

  pub write_block_ne :
      (file : FilePath) (addr : ℕ) (block : List A) (d : Disk A) (f : FilePath) (a : ℕ)
      → (f ≢ file) ⊎ (a ≢ addr)
      → write_block file addr block d f a ≡ d f a
  unfolding write_block
  write_block_ne file addr block d f a h = ground (arith, same_path_iff f file)

  pub write_block_cases :
      (file : FilePath) (addr : ℕ) (block : List A) (d : Disk A) (f : FilePath) (a : ℕ)
      → (write_block file addr block d f a ≡ block) ⊎ (write_block file addr block d f a ≡ d f a)
  unfolding write_block
  write_block_cases file addr block d f a = elim (Bool-cases (same_path f file && a == addr)) [
    | inl here ↦ inl (rw here refl)
    | inr other ↦ inr (rw other refl)
  ]

-- One call names a different file on each drive.
pub get_file_name-injective :
    (ssds : List String) (prefix : String) (a b : ℕ)
    → get_file_name ssds prefix a ≡ get_file_name ssds prefix b
    → a ≡ b
unfolding get_file_name
get_file_name-injective ssds prefix a b e = ap (λ (p : FilePath). p.number) e

pub get_file_name-prefix :
    (ssds : List String) (prefix : String) (a : ℕ) → (get_file_name ssds prefix a).prefix ≡ prefix
unfolding get_file_name
get_file_name-prefix ssds prefix a = refl
