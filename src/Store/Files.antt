-- ===== src/Store/Files.antt =====
-- internal/store/blob: the store of blobs in files. A file stands under its path, which `Locate`
-- gives; the hash of package crypto/sha256 is a parameter. A write is atomic, since the source renames
-- a complete file into place; failures of the file system are not modelled.
use phenk.Prelude.{
  ℕ, ◌≡◌, refl, ap, ◌∙◌, Option, none, some, ◌++◌, arith, ◌==◌, if◌then◌else◌, length, take, drop,
  Bytes, codes, eq_bytes_iff, eq_bytes_refl,
}
use phenk.Prelude.Keys.{bytes_key}
use phenk.Prelude.Assoc.{Assoc, lookup, insert, remove, lookup-insert, lookup-remove}
use phenk.Core.Uuid.{hex_encode}

abbrev pub Files : Type 0
Files = Assoc Bytes Bytes

-- SHA256FromBytes
unfoldable pub sha256_from_bytes : Bytes → Option Bytes
sha256_from_bytes b = if length b == 32 then some b else none

-- Locate: two levels of directories, then the whole name
unfoldable pub locate : Bytes → Bytes
unfolding hex_encode
locate sha =
    let h = hex_encode sha in take 2 h ++ (codes "/" ++ (take 2 (drop 2 h) ++ (codes "/" ++ h)))

abbrev pub put_at : Files → Bytes → Bytes → Option Bytes → Files
put_at files path content none = insert path content files
put_at files path content (some old) = files

module _ (sha256 : Bytes → Bytes) where
  -- Put: the content address and the length; a file that is there is left as it is
  unfoldable pub put : Files → Bytes → Files × (Bytes × ℕ)
  unfolding locate
  put files content =
      let path = locate (sha256 content) in
      (put_at files path content (lookup path files), (sha256 content, length content))

-- Get
unfoldable pub get : Files → Bytes → Option Bytes
unfolding locate
get files sha = lookup (locate sha) files

-- Delete, which succeeds when there is no file
unfoldable pub delete : Files → Bytes → Files
unfolding locate
delete files sha = remove (locate sha) files

module _ (sha256 : Bytes → Bytes) where
  -- Every file stands under the path of its content's hash.
  abbrev pub IsAddressed : Files → Type 0
  IsAddressed files =
      (path content : Bytes) → lookup path files ≡ some content → path ≡ locate (sha256 content)

  -- No other content has the path of this one.
  abbrev pub IsAlone : Bytes → Type 0
  IsAlone content =
      (other : Bytes) → locate (sha256 content) ≡ locate (sha256 other) → other ≡ content

  put_at-get :
      (files : Files) (content : Bytes) (o : Option Bytes)
      → lookup (locate (sha256 content)) files ≡ o
      → IsAddressed files
      → IsAlone content
      → lookup (locate (sha256 content)) (put_at files (locate (sha256 content)) content o)
        ≡ some content
  put_at-get files content none e a u = ground (
    arith,
    lookup-insert (locate (sha256 content)) (locate (sha256 content)) content files,
    eq_bytes_refl (locate (sha256 content)),
  )
  put_at-get files content (some old) e a u =
      e ∙ ap some (u old (a (locate (sha256 content)) old e))

  -- In a store whose files stand under their own hash, a content that no other shares its path with
  -- is read back after it was put, under the address that was returned, and the length is its own.
  pub get-put_file :
      (files : Files) (content : Bytes)
      → IsAddressed files
      → IsAlone content
      → (get (put sha256 files content).0 (put sha256 files content).1.0 ≡ some content)
        × ((put sha256 files content).1.1 ≡ length content)
  unfolding put get
  get-put_file files content a u =
      (put_at-get files content (lookup (locate (sha256 content)) files) refl a u, refl)

  put_at-IsAddressed :
      (files : Files) (content : Bytes) (o : Option Bytes)
      → IsAddressed files
      → IsAddressed (put_at files (locate (sha256 content)) content o)
  put_at-IsAddressed files content (some old) a path c h = a path c h
  put_at-IsAddressed files content none a path c h = ground (
    arith,
    lookup-insert (locate (sha256 content)) path content files,
    eq_bytes_iff (locate (sha256 content)) path,
    a path c,
  )

  -- Puts and deletes leave every file under its own hash.
  pub put-IsAddressed :
      (files : Files) (content sha : Bytes)
      → IsAddressed files
      → IsAddressed (put sha256 files content).0 × IsAddressed (delete files sha)
  unfolding put delete
  put-IsAddressed files content sha a = (
    put_at-IsAddressed files content (lookup (locate (sha256 content)) files) a,
    λ path c h. ground (arith, lookup-remove (locate sha) path files, a path c),
  )
