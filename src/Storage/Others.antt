-- ===== src/Storage/Others.antt =====
-- What PUT and DELETE of src/handler/storage.c do to the files that the request does not name.
use rs_serve.Base.{◌≡◌, none, some, Bytes}
use rs_serve.Posix.{Posix, returned, IsPosix}
use rs_serve.Etag.{Tagged, tagged, crashed, too_deep}
use rs_serve.Etag.Fresh.{KeepsFiles, get_etag-KeepsFiles}
use rs_serve.Storage.Files.{HoldsFile, HoldsFile-SameFiles}
use rs_serve.Storage.{Handled, handled, process_ends, hangs, Environment, with_etag}
use rs_serve.Storage.Read.{etag_of}

-- POSIX: mkdir makes and rmdir removes a directory, and a regular file is none.
pub record IsForDirectories (P : Posix) : Type 0 where
  pub mkdir-file :
      (fs fs' : P.Fs) (path other content : Bytes)
      → P.mkdir fs path ≡ returned fs'
      → HoldsFile P fs other content
      → HoldsFile P fs' other content
  pub rmdir-file :
      (fs fs' : P.Fs) (path other content : Bytes)
      → P.rmdir fs path ≡ returned fs'
      → HoldsFile P fs other content
      → HoldsFile P fs' other content

-- The paths name different files: no link, dot or double slash makes one of them stand for the other.
pub record AreApart (P : Posix) (path other : Bytes) : Type 0 where
  pub create-other :
      (fs fs' : P.Fs) (content : Bytes)
      → P.create fs path ≡ returned fs'
      → HoldsFile P fs other content
      → HoldsFile P fs' other content
  pub write-other :
      (fs : P.Fs) (body content : Bytes)
      → HoldsFile P fs other content
      → HoldsFile P (P.write fs path body).0 other content
  pub unlink-other :
      (fs fs' : P.Fs) (content : Bytes)
      → P.unlink fs path ≡ returned fs'
      → HoldsFile P fs other content
      → HoldsFile P fs' other content

module _ (P : Posix) (other content : Bytes) where
  -- Where the handler comes to a reply, the other file is still there.
  abbrev pub Spares : Handled P.Fs → Type 0
  Spares (handled fs r) = HoldsFile P fs other content
  Spares process_ends = Unit
  Spares hangs = Unit
  Spares Handled.out_of_fuel = Unit

  pub with_etag-Spares :
      (env : Environment P) (law : IsPosix P) (fs : P.Fs) (tagged_path : Bytes)
      (null : P.Fs → Handled P.Fs) (next : P.Fs → Bytes → Handled P.Fs)
      → HoldsFile P fs other content
      → ((fs' : P.Fs) → HoldsFile P fs' other content → Spares (null fs'))
      → ((fs' : P.Fs) (etag : Bytes) → HoldsFile P fs' other content → Spares (next fs' etag))
      → Spares (with_etag (etag_of P env fs tagged_path) null next)
  unfolding etag_of
  with_etag-Spares env law fs tagged_path null next has on_null rest =
      from _ (get_etag-KeepsFiles P env.cfg env.process env.sha1 law env.fuel fs tagged_path)
    where
      from :
          (t : Tagged P.Fs)
          → KeepsFiles P env.cfg env.process env.sha1 law fs t
          → Spares (with_etag t null next)
      from (tagged fs' none) k = on_null fs' (HoldsFile-SameFiles P fs fs' other content k has)
      from (tagged fs' (some etag)) k =
          rest fs' etag (HoldsFile-SameFiles P fs fs' other content k has)
      from crashed k = tt
      from too_deep k = tt
