-- ===== src/Tests/Auths.antt =====
-- Authorizations: src/common/auth.c, with the data of test/unit/common/auth.c.
use rs_serve.Base.{◌≡◌, ◌<◌, ◌^◌, refl, Bytes, codes, ◌++◌, ◌∷◌, [], arith, length, some}
use rs_serve.Auth.{Scope, Authorization, IsCString, IsScope, IsAuthorization}
use rs_serve.Auth.Codec.{pack_authorization, packed_size, unpacked, unpack_authorization}
use rs_serve.Auth.Codec.RoundTrip.{layout}
use rs_serve.Auth.Codec.Sound.{IsBytes, unpack_authorization-layout}
use rs_serve.Auth.Database.{not_found, failed, Database, IsDatabase}
use rs_serve.Auth.Database.InMemory.{in_memory, in_memory-IsDatabase}
use rs_serve.Auth.Store.{success, found, add_authorization, lookup_authorization}
use rs_serve.Auth.Store.Laws.{HasNoBar, value, key, add-failed_silently, lookup-add_ambiguous}

abbrev sample : Authorization
sample = record {
  username = codes "foo";
  token = codes "bar";
  scopes = record { name = codes "contacts"; write = 1 } ∷ record { name = []; write = 0 } ∷ [];
}

-- test_pack_unpack of the unit tests
abbrev sample_bytes : Bytes
sample_bytes = codes "foo\0bar\0" ++ (2 ∷ 0 ∷ 0 ∷ 0 ∷ (codes "contacts\0" ++ (1 ∷ 0 ∷ 0 ∷ [])))

pack_test : pack_authorization sample ≡ some (record { bytes = sample_bytes; size = 24 })
unfolding pack_authorization
pack_test = refl

unpack_test : unpack_authorization sample_bytes ≡ unpacked sample
unfolding unpack_authorization
unpack_test = refl

layout_small : length (layout sample []) < 2 ^ 32
layout_small = unfold rs_serve.Auth.Codec.le32 in omega arith

sample_bytes-IsBytes : IsBytes sample_bytes
sample_bytes-IsBytes = omega arith

unpack_authorization-layout_example :
    (rest : Bytes) × (sample_bytes ≡ layout sample rest) × IsAuthorization sample
unpack_authorization-layout_example =
    unpack_authorization-layout sample_bytes sample sample_bytes-IsBytes unpack_test

sample-HasNoBar : HasNoBar (codes "foo")
sample-HasNoBar = omega arith

abbrev stored : in_memory.Db
stored = (key in_memory [] sample, value in_memory [] sample) ∷ []

-- A database whose `put` always fails.
abbrev full : Database
full = record {
  Db = Unit {0};
  get = λ db k. not_found;
  put = λ db k v. (db, failed 28);
  del = λ db k. (db, not_found);
  walk = λ db. not_found;
}

full-IsDatabase : IsDatabase full
full-IsDatabase = record {
  get-put = λ db k v j e. cc;
  get-del = λ db k j e. cc;
  put-failed = λ db k v e. refl;
  del-failed = λ db k e. refl;
}

failed_put_test : add_authorization full tt sample ≡ (tt, success)
failed_put_test = add-failed_silently full tt sample full-IsDatabase layout_small (λ e. cc)

abbrev barred : Authorization
barred = record { username = codes "foo"; token = codes "x|bar"; scopes = [] }

lookup-add_ambiguous_example :
    lookup_authorization in_memory
      (add_authorization in_memory [] barred).0
      (codes "foo|x")
      (codes "bar")
    ≡ found barred
lookup-add_ambiguous_example =
    lookup-add_ambiguous in_memory [] (codes "foo") (codes "x") (codes "bar") []
      in_memory-IsDatabase (omega arith) (unfold rs_serve.Auth.Codec.le32 in omega arith) refl
