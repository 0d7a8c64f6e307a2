-- ===== src/Tests/Orders.antt =====
-- Two tokens of one user, added in either order: src/common/auth.c.
use rs_serve.Base.{◌≡◌, [], ◌∷◌, codes, arith, refl}
use rs_serve.CString.{str_eq}
use rs_serve.Auth.{Authorization, IsAuthorization}
use rs_serve.Auth.Database.InMemory.{in_memory, in_memory-IsDatabase}
use rs_serve.Auth.Store.{add_authorization, lookup_authorization}
use rs_serve.Auth.Store.Refines.{adds, add_step, Step, Steps, stop, step}
use rs_serve.Auth.Store.Commute.{AreApart, steps-commute}
use rs_serve.Tests.Requests.{bar}
use rs_serve.Tests.Tokens.{foo_HasNoBar, no_tokens, empty-Refines, bar-IsAuthorization}

-- Another token of the same user.
abbrev baz : Authorization
baz = record { username = codes "foo"; token = codes "baz"; scopes = [] }

baz-IsAuthorization : IsAuthorization baz
baz-IsAuthorization = omega arith

abbrev with_both : Authorization → Authorization → in_memory.Db
with_both a b = (add_authorization in_memory (add_authorization in_memory [] a).0 b).0

add_bar : (db : in_memory.Db) → Step in_memory db (adds bar) (add_authorization in_memory db bar).0
add_bar db =
    add_step db bar bar-IsAuthorization foo_HasNoBar
      (unfold rs_serve.Auth.Codec.le32 in omega arith) refl

add_baz : (db : in_memory.Db) → Step in_memory db (adds baz) (add_authorization in_memory db baz).0
add_baz db =
    add_step db baz baz-IsAuthorization foo_HasNoBar
      (unfold rs_serve.Auth.Codec.le32 in omega arith) refl

bar_baz : Steps in_memory [] (adds bar ∷ adds baz ∷ []) (with_both bar baz)
bar_baz = step _ _ _ _ _ (add_bar []) (step _ _ _ _ _ (add_baz _) (stop _))

baz_bar : Steps in_memory [] (adds baz ∷ adds bar ∷ []) (with_both baz bar)
baz_bar = step _ _ _ _ _ (add_baz []) (step _ _ _ _ _ (add_bar _) (stop _))

added-AreApart : AreApart (adds bar) (adds baz)
unfolding str_eq
added-AreApart = refl

steps-commute_example :
    lookup_authorization in_memory (with_both bar baz) (codes "foo") (codes "bar")
    ≡ lookup_authorization in_memory (with_both baz bar) (codes "foo") (codes "bar")
steps-commute_example =
    steps-commute in_memory [] (with_both bar baz) (with_both baz bar) (adds bar) (adds baz) [] []
      no_tokens in_memory-IsDatabase empty-Refines added-AreApart bar_baz baz_bar
      (record { name = codes "foo"; no_bar = foo_HasNoBar }) (codes "bar")
