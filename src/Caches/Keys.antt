-- ===== src/Caches/Keys.antt =====
-- connectionKey and templateCacheKey of controller/caches.go: no two identities share a key.
use Prim.Native.Char.{code}
use Prim.Native.String.{String}
use text.Mathlib.TextLemmas.{nil-append, cons-append, append_assoc}
use ansible_supervisor_servi.Prelude.{
  ℕ, ◌≡◌, refl, ap, Bool, true, not, ◌&&◌, ◌==◌, arith, concat, ◌∙◌, sym,
}
use ansible_supervisor_servi.Awx.{TemplateRef, Connection}
use ansible_supervisor_servi.Caches.{connection_key, template_cache_key}

-- A text without "/", as the names of Kubernetes are.
abbrev pub slash_free : String → Bool
slash_free String.[] = true
slash_free (String.◌∷◌ c s) = not (code c == 47) && slash_free s

abbrev rest_of : String → String
rest_of String.[] = ""
rest_of (String.◌∷◌ c s) = s

abbrev head_of : String → ℕ
head_of String.[] = 0
head_of (String.◌∷◌ c s) = code c

slash-cons : (r : String) → concat "/" r ≡ String.◌∷◌ "/" r
slash-cons r = cons-append "/" "" r ∙ ap (String.◌∷◌ "/") (nil-append r)

slash-cut :
    (a b r t : String)
    → slash_free a ≡ true
    → slash_free b ≡ true
    → concat a (concat "/" r) ≡ concat b (concat "/" t)
    → (a ≡ b) × (r ≡ t)
slash-cut String.[] String.[] r t f g e = (
  refl,
  ground
      (arith, e, nil-append (concat "/" r), nil-append (concat "/" t), slash-cons r, slash-cons t),
)
slash-cut String.[] (String.◌∷◌ d b) r t f g e = ground (
  arith,
  g,
  ap head_of
      (sym (slash-cons r) ∙ sym (nil-append (concat "/" r)) ∙ e ∙ cons-append d b (concat "/" t)),
)
slash-cut (String.◌∷◌ c a) String.[] r t f g e = ground (
  arith,
  f,
  ap head_of (sym (cons-append c a (concat "/" r)) ∙ e ∙ nil-append (concat "/" t) ∙ slash-cons t),
)
slash-cut (String.◌∷◌ c a) (String.◌∷◌ d b) r t f g e = ground (
  arith,
  f,
  g,
  e,
  cons-append c a (concat "/" r),
  cons-append d b (concat "/" t),
  slash-cut a b r t,
)

-- What a template's key is of: no two connections, versions of one, or references have one key, where
-- the connections' names and the types have no "/".
abbrev pub plain : Connection → TemplateRef → Bool
plain conn ref =
    slash_free conn.namespace
    && slash_free conn.name
    && slash_free conn.resource_version
    && slash_free ref.type

abbrev pub SameRequest : Connection → TemplateRef → Connection → TemplateRef → Type 0
SameRequest conn ref other wanted =
    (conn.namespace ≡ other.namespace)
    × (conn.name ≡ other.name)
    × (conn.resource_version ≡ other.resource_version)
    × (ref.type ≡ wanted.type)
    × (ref.name ≡ wanted.name)

key-shape :
    (a b c r : String)
    → concat (concat a (concat "/" (concat b (concat "/" c)))) r
      ≡ concat a (concat "/" (concat b (concat "/" (concat c r))))
key-shape a b c r =
    rw
      (
        append_assoc a (concat "/" (concat b (concat "/" c))) r,
        append_assoc "/" (concat b (concat "/" c)) r,
        append_assoc b (concat "/" c) r,
        append_assoc "/" c r,
      )
      refl

pub template_cache_key-injective :
    (conn other : Connection) (ref wanted : TemplateRef)
    → plain conn ref ≡ true
    → plain other wanted ≡ true
    → template_cache_key (connection_key conn) ref
      ≡ template_cache_key (connection_key other) wanted
    → SameRequest conn ref other wanted
unfolding template_cache_key connection_key
template_cache_key-injective conn other ref wanted f g e =
    let tail = concat ref.type (concat "/" ref.name) in
    let tail2 = concat wanted.type (concat "/" wanted.name) in
    let whole =
      sym (key-shape conn.namespace conn.name conn.resource_version (concat "/" tail))
      ∙ e
      ∙ key-shape other.namespace other.name other.resource_version (concat "/" tail2) in
    let at_name =
      slash-cut conn.namespace other.namespace
        (concat conn.name (concat "/" (concat conn.resource_version (concat "/" tail))))
        (concat other.name (concat "/" (concat other.resource_version (concat "/" tail2))))
        (ground (arith, f)) (ground (arith, g)) whole in
    let at_version =
      slash-cut conn.name other.name (concat conn.resource_version (concat "/" tail))
        (concat other.resource_version (concat "/" tail2)) (ground (arith, f)) (ground (arith, g))
        at_name.1 in
    let at_type =
      slash-cut conn.resource_version other.resource_version tail tail2 (ground (arith, f))
        (ground (arith, g)) at_version.1 in
    let at_end =
      slash-cut ref.type wanted.type ref.name wanted.name (ground (arith, f)) (ground (arith, g))
        at_type.1 in
    (at_name.0, at_version.0, at_type.0, at_end.0, at_end.1)
