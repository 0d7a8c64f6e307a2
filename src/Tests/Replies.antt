-- ===== src/Tests/Replies.antt =====
-- JSON, webfinger and extended attributes.
use rs_serve.Base.{
  ◌≡◌, inl, refl, Bytes, codes, ◌++◌, [], arith, true, false, some, if◌then◌else◌, none,
}
use rs_serve.Json.{Json, new_json, json_make_string}
use rs_serve.Json.Text.{read_string, read_string-json_make_string, has_control}
use rs_serve.Json.Document.{
  Value, text, object, end, member, print, emit, depth, simple_text, simple_object, simple_end,
  simple_member,
}
use rs_serve.Json.Writer.{Emits, emit-Emits}
use rs_serve.Config.{Config}
use rs_serve.User.{Users, found, missing}
use rs_serve.Response.{Response}
use rs_serve.Webfinger.{Uris, process_resource}
use rs_serve.Webfinger.Resource.{
  Names, uris_of, Names-process_resource, process_resource-no_user, known,
}
use rs_serve.Posix.{enoent, returned}
use rs_serve.Attributes.{null_read, get_xattr}
use rs_serve.Attributes.Buffer.{get_xattr-loses_etag}

read_string-json_make_string_example :
    read_string (json_make_string (codes "a\"b") ++ codes ",")
    ≡ (if has_control (codes "a\"b") then none else some (codes "a\"b", codes ","))
read_string-json_make_string_example = read_string-json_make_string (codes "a\"b") (codes ",")

abbrev start : Json
start = record { out = []; cell = λ i. 7; sp = 0 }

abbrev listing : Value
listing =
    object (member (codes "a") (text (codes "1")) (member (codes "b/") (text (codes "2")) end))

listing_test : (emit listing start).out ≡ codes "{\"a\":\"1\",\"b/\":\"2\"}"
unfolding emit rs_serve.Json.json_write_key rs_serve.Json.json_make_string
    rs_serve.Json.escape_string rs_serve.Json.json_start_object rs_serve.Json.json_end_object
listing_test = refl

emit-Emits_example : Emits (print listing) start (emit listing start)
emit-Emits_example =
    emit-Emits listing start
      (simple_object _
        (simple_member _ _ _ (simple_text _) (simple_member _ _ _ (simple_text _) simple_end)))
      (unfold depth in omega arith)

abbrev cfg : Config
cfg = record {
  scheme = codes "http";
  hostname = codes "local.dev";
  auth_uri = codes "https://auth/?u=%s";
  home_serve_root = codes "storage";
  experimental = false;
  use_xattr = true;
}

abbrev one_user : Users
one_user name = found (record { uid = 1000; gid = 1000 })

abbrev no_user : Users
no_user name = missing

abbrev empty_response : Response
empty_response = record { status = 0; headers_out = []; buffer_out = [] }

bob_Names : Names cfg one_user (codes "acct:bob@local.dev") (codes "bob")
bob_Names = record {
  splits = refl;
  no_at = omega arith;
  allowed = known (record { uid = 1000; gid = 1000 }) refl (omega arith);
}

bob_found :
    process_resource cfg one_user (some (codes "acct:bob@local.dev"))
    ≡ some (uris_of cfg (codes "bob"))
bob_found = Names-process_resource cfg one_user (codes "acct:bob@local.dev") (codes "bob") bob_Names

no_user_test :
    process_resource cfg no_user (some (codes "acct:ghost@local.dev"))
    ≡ some (uris_of cfg (codes "ghost"))
no_user_test = process_resource-no_user cfg no_user (codes "ghost") (omega arith) (inl refl)

storage_uri_test : (uris_of cfg (codes "bob")).storage_uri ≡ codes "http://local.dev/storage/bob"
unfolding rs_serve.Webfinger.sprintf_s rs_serve.Webfinger.storage_uri_format
storage_uri_test = refl

abbrev forty : Bytes
forty = codes "da39a3ee5e6b4b0d3255bfef95601890afd80709"

lost_etag_test : get_xattr (returned forty) 41 enoent ≡ null_read
lost_etag_test = get_xattr-loses_etag forty enoent (omega arith)
