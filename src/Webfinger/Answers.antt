-- ===== src/Webfinger/Answers.antt =====
-- What a GET of webfinger answers, by the resource and the users.
use rs_serve.Base.{◌≡◌, Option, none, some, ◌++◌, Bytes}
use rs_serve.Config.{Config}
use rs_serve.User.{Users}
use rs_serve.Response.{Response, res_ok, res_notfound}
use rs_serve.Json.Document.{object, end, print}
use rs_serve.Webfinger.{Query}
use rs_serve.Webfinger.Reply.{user_document, server_document}
use rs_serve.Webfinger.Resource.{Names, uris_of}

module _ (cfg : Config) (users : Users) (unescape : Bytes → Option Bytes) (buffer : Bytes) where
  pub data Answered : Query → Response → Type 0 where
    -- Without a resource: the document of the server.
    of_server :
        (r : Response)
        → r.status ≡ res_ok
        → r.buffer_out ≡ buffer ++ print (server_document cfg)
        → Answered none r
    -- An account of this host: its document.
    of_account :
        (resource plain name : Bytes) (r : Response)
        → unescape resource ≡ some plain
        → Names cfg users plain name
        → r.status ≡ res_ok
        → r.buffer_out ≡ buffer ++ print (user_document resource (uris_of cfg name))
        → Answered (some resource) r
    -- Any other resource: the empty object.
    of_none :
        (resource : Bytes) (r : Response)
        → ((plain name : Bytes) → unescape resource ≡ some plain → ¬ Names cfg users plain name)
        → r.status ≡ res_notfound
        → r.buffer_out ≡ buffer ++ print (object end)
        → Answered (some resource) r
