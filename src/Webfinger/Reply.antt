-- ===== src/Webfinger/Reply.antt =====
-- The body of a webfinger reply.
use rs_serve.Base.{ℕ, ◌≡◌, ◌≤◌, refl, ap, ◌∙◌, Option, none, some, ◌++◌, arith, Bytes, codes}
use rs_serve.Config.{Config, storage_api, auth_method}
use rs_serve.User.{Users}
use rs_serve.Response.{Response, res_ok, res_notfound}
use rs_serve.Json.{Json, new_json, json_start_object, json_end_object, json_write_key_val}
use rs_serve.Json.Document.{
  Value, text, object, array, Members, end, member, nil, item, print, emit, depth, IsSimple,
  simple_text, simple_object, simple_array, AreSimple, simple_end, simple_member,
}
use rs_serve.Json.Writer.{emit-Emits}
use rs_serve.Webfinger.{
  Uris, process_resource, lrdd_template, write_links, write_template, reply_resource, Query,
  handle_get, add_get_headers,
}

-- The document for a user: one link, to the storage.
abbrev pub user_document : Bytes → Uris → Value
user_document resource uris = object (
    member (codes "subject") (text resource) (
      member (codes "links")
        (array (
          item
            (object (
              member (codes "rel") (text (codes "remotestorage")) (
                member (codes "type") (text storage_api) (
                  member (codes "href") (text uris.storage_uri) (
                    member (codes "properties")
                      (object (
                        member auth_method (text uris.auth_uri) (
                          member (codes "auth-method") (text auth_method)
                            (member (codes "auth-endpoint") (text uris.auth_uri) end))))
                      end)))))
            nil))
        end))

-- The document of the server: the template for lookups.
abbrev pub server_document : Config → Value
server_document cfg = object (
    member (codes "subject") (text cfg.hostname) (
      member (codes "links")
        (array (
          item
            (object (
              member (codes "rel") (text (codes "lrdd"))
                (member (codes "template") (text (lrdd_template cfg)) end)))
            nil))
        end))

abbrev pub resource_document : Bytes → Option Uris → Value
resource_document resource none = object end
resource_document resource (some uris) = user_document resource uris

abbrev pub resource_status : Option Uris → ℕ
resource_status none = res_notfound
resource_status (some uris) = res_ok

abbrev pub reply_document : Config → Users → (Bytes → Option Bytes) → Query → Value
reply_document cfg users unescape none = server_document cfg
reply_document cfg users unescape (some resource) =
    resource_document resource (process_resource cfg users (unescape resource))

abbrev pub reply_status : Config → Users → (Bytes → Option Bytes) → Query → ℕ
reply_status cfg users unescape none = res_ok
reply_status cfg users unescape (some resource) =
    resource_status (process_resource cfg users (unescape resource))

links-emit :
    (json : Json) (resource : Bytes) (uris : Uris)
    → json_end_object (write_links (json_start_object json) resource uris)
      ≡ emit (user_document resource uris) json
unfolding write_links emit json_write_key_val
links-emit json resource uris = refl

template-emit :
    (json : Json) (cfg : Config)
    → json_end_object (write_template (json_start_object json) cfg)
      ≡ emit (server_document cfg) json
unfolding write_template emit json_write_key_val
template-emit json cfg = refl

member_text : {ms : Members} (k s : Bytes) → AreSimple ms → AreSimple (member k (text s) ms)
member_text k s h = simple_member k (text s) _ (simple_text s) h

user_document-IsSimple : (resource : Bytes) (uris : Uris) → IsSimple (user_document resource uris)
user_document-IsSimple resource uris =
    let properties = simple_object _ (
      member_text auth_method uris.auth_uri (
        member_text (codes "auth-method") auth_method
          (member_text (codes "auth-endpoint") uris.auth_uri simple_end))) in
    let link = simple_object _ (
      member_text (codes "rel") (codes "remotestorage") (
        member_text (codes "type") storage_api (
          member_text (codes "href") uris.storage_uri
            (simple_member (codes "properties") _ _ properties simple_end)))) in
    simple_object _ (
      member_text (codes "subject") resource
        (simple_member (codes "links") _ _ (simple_array _ link) simple_end))

server_document-IsSimple : (cfg : Config) → IsSimple (server_document cfg)
server_document-IsSimple cfg =
    let link = simple_object _ (
      member_text (codes "rel") (codes "lrdd")
        (member_text (codes "template") (lrdd_template cfg) simple_end)) in
    simple_object _ (
      member_text (codes "subject") cfg.hostname
        (simple_member (codes "links") _ _ (simple_array _ link) simple_end))

module _ (cells : ℕ → ℕ) (buffer : Bytes) where
  -- A document from a new writer goes behind what the buffer holds.
  new_json-emit :
      (v : Value)
      → IsSimple v
      → depth v ≤ 4
      → (emit v (new_json cells buffer)).out ≡ buffer ++ print v
  new_json-emit v h d =
      (emit-Emits v (new_json cells buffer) h (unfold new_json in omega arith)).written
      ∙ (unfold new_json in refl)

reply_resource-document :
    (cells : ℕ → ℕ) (r : Response) (resource : Bytes) (found : Option Uris)
    → let reply =
        reply_resource (json_start_object (new_json cells r.buffer_out)) r resource found in
      (reply.buffer_out ≡ r.buffer_out ++ print (resource_document resource found))
      × (reply.status ≡ resource_status found)
unfolding reply_resource json_end_object emit
reply_resource-document cells r resource none = (
  new_json-emit cells r.buffer_out (object end) (simple_object end simple_end)
      (unfold depth in omega arith),
  refl,
)
reply_resource-document cells r resource (some uris) = (
  ap Json.out (links-emit (new_json cells r.buffer_out) resource uris)
      ∙ new_json-emit cells r.buffer_out (user_document resource uris)
          (user_document-IsSimple resource uris) (unfold depth in omega arith),
  refl,
)

-- On every branch of a GET the body is the text of the document, and the status is 404 just if
-- process_resource refuses the resource.
pub handle_get-document :
    (cfg : Config) (users : Users) (unescape : Bytes → Option Bytes) (cells : ℕ → ℕ) (r : Response)
    (query : Query)
    → ((handle_get cfg users unescape cells r query).buffer_out
        ≡ r.buffer_out ++ print (reply_document cfg users unescape query))
      × ((handle_get cfg users unescape cells r query).status
          ≡ reply_status cfg users unescape query)
unfolding handle_get
handle_get-document cfg users unescape cells r none = (
  ap Json.out (template-emit (new_json cells r.buffer_out) cfg)
      ∙ new_json-emit cells r.buffer_out (server_document cfg) (server_document-IsSimple cfg)
          (unfold depth in omega arith),
  refl,
)
handle_get-document cfg users unescape cells r (some resource) =
    reply_resource-document cells (add_get_headers r) resource
      (process_resource cfg users (unescape resource))
