-- ===== src/Posix.antt =====
-- The operating system as the program uses it: a file system behind system calls. A file
-- descriptor of a directory is the path under which it was opened.
pub mod InMemory
use rs_serve.Base.{
  [], ◌∷◌, ℕ, ◌≡◌, Bool, true, false, Option, List, Bytes, length, take, if◌then◌else◌,
}
use rs_serve.CString.{str_eq}

pub data Errno : Type 0 where
  enoent enotdir enotempty eexist erange enoattr enotsup other_errno : Errno

-- What surrounds a call: `errno` as it was before; whether malloc leaves room for a byte behind a block,
-- so that a write there goes well, or else ends the process; and what lies in memory behind a text and
-- its NUL.
pub record Process : Type 0 where
  pub errno : Errno
  pub roomy : Bool
  pub behind : Bytes → Bytes

-- struct stat, as far as it is read
pub record Stat : Type 0 where
  pub is_dir : Bool
  pub size : ℕ

pub data Call {ℓ} (A : Type ℓ) : Type ℓ where
  returned : A → Call A
  failed : Errno → Call A

pub record Posix : Type 1 where
  pub Fs : Type 0
  pub stat : Fs → Bytes → Call Stat
  -- open(path, O_RDONLY) and read(2) up to the end of the file
  pub read_all : Fs → Bytes → Call Bytes
  -- open(path, O_RDONLY) alone
  pub can_open : Fs → Bytes → Bool
  -- opendir(3) and readdir_r(3) up to the end of the directory
  pub entries : Fs → Bytes → Call (List Bytes)
  -- the value of an extended attribute
  pub attribute : Fs → Bytes → Bytes → Call Bytes
  pub setxattr : Fs → Bytes → Bytes → Bytes → Fs × Call (Unit {0})
  -- open(path, O_CREAT | O_WRONLY | O_TRUNC)
  pub create : Fs → Bytes → Call Fs
  -- a write to the file opened under the path: how many bytes were written
  pub write : Fs → Bytes → Bytes → Fs × Call ℕ
  pub chown : Fs → Bytes → ℕ → ℕ → Fs
  pub mkdir : Fs → Bytes → Call Fs
  pub unlink : Fs → Bytes → Call Fs
  -- unlinkat(…, AT_REMOVEDIR)
  pub rmdir : Fs → Bytes → Call Fs

-- What a write stores of a body: as many bytes as it reports, none where it fails.
unfoldable pub stored_part : Call ℕ → Bytes → Bytes
stored_part (returned n) body = take n body
stored_part (failed e) body = []

-- Between two file systems nothing but extended attributes and owners has changed.
pub record SameFiles (P : Posix) (fs fs' : P.Fs) : Type 0 where
  pub same_stat : (path : Bytes) → P.stat fs' path ≡ P.stat fs path
  pub same_read : (path : Bytes) → P.read_all fs' path ≡ P.read_all fs path
  pub same_open : (path : Bytes) → P.can_open fs' path ≡ P.can_open fs path
  pub same_entries : (path : Bytes) → P.entries fs' path ≡ P.entries fs path

-- What POSIX and xattr(7) promise of the calls, to a process that may read every file.
pub record IsPosix (P : Posix) : Type 0 where
  pub attribute-setxattr :
      (fs : P.Fs) (path key value j : Bytes)
      → (P.setxattr fs path key value).1 ≡ returned tt
      → P.attribute (P.setxattr fs path key value).0 path j
        ≡ (if str_eq key j then returned value else P.attribute fs path j)
  pub setxattr-files :
      (fs : P.Fs) (path key value : Bytes) → SameFiles P fs (P.setxattr fs path key value).0
  pub chown-files :
      (fs : P.Fs) (path : Bytes) (uid gid : ℕ) → SameFiles P fs (P.chown fs path uid gid)
  -- O_CREAT | O_TRUNC leaves an empty regular file
  pub create-stat :
      (fs fs' : P.Fs) (path : Bytes)
      → P.create fs path ≡ returned fs'
      → P.stat fs' path ≡ returned (record { is_dir = false; size = 0 })
  pub create-open :
      (fs fs' : P.Fs) (path : Bytes) → P.create fs path ≡ returned fs' → P.can_open fs' path ≡ true
  -- a write to an empty file leaves the bytes that it reports as written
  pub write-stat :
      (fs : P.Fs) (path body : Bytes)
      → P.stat fs path ≡ returned (record { is_dir = false; size = 0 })
      → P.stat (P.write fs path body).0 path
        ≡ returned
            (record { is_dir = false; size = length (stored_part (P.write fs path body).1 body) })
  pub write-read :
      (fs : P.Fs) (path body : Bytes)
      → P.stat fs path ≡ returned (record { is_dir = false; size = 0 })
      → P.read_all (P.write fs path body).0 path
        ≡ returned (stored_part (P.write fs path body).1 body)
  pub write-open :
      (fs : P.Fs) (path body : Bytes)
      → P.can_open (P.write fs path body).0 path ≡ P.can_open fs path
  -- an unlinked file is gone
  pub unlink-stat :
      (fs fs' : P.Fs) (path : Bytes)
      → P.unlink fs path ≡ returned fs'
      → P.stat fs' path ≡ failed enoent
  -- what is not there is not there after a directory is removed
  pub rmdir-stat :
      (fs fs' : P.Fs) (path other : Bytes)
      → P.rmdir fs path ≡ returned fs'
      → P.stat fs other ≡ failed enoent
      → P.stat fs' other ≡ failed enoent
  -- the root directory is not removed
  pub rmdir-root : (fs : P.Fs) → (e : Errno) × (P.rmdir fs (b'/' ∷ []) ≡ failed e)
