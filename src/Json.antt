-- ===== src/Json.antt =====
-- JSON values, as the code of packages/baltica reads them, and texts in the order of JavaScript.
use baltica.Base.{ℕ, Bool, true, false, ◌&&◌, ◌||◌, Option, none, some, List, [], ◌∷◌}
use baltica.Base.Tests.{◌==◌, ltb, if◌then◌else◌}
use baltica.Base.Texts.{Text}
use baltica.Server.{same_text}

-- A key stands once in an object.
mutual
  pub data Json : Type 0 where
    null : Json
    boolean : Bool → Json
    number : ℕ → Json
    -- A number below zero.
    negative : ℕ → Json
    text : Text → Json
    array : Items → Json
    object : Fields → Json

  pub data Items : Type 0 where
    nil : Items
    cons : Json → Items → Items

  pub data Fields : Type 0 where
    end : Fields
    field : Text → Json → Fields → Fields

-- `object[key]`: none is undefined.
unfoldable pub get : Text → Fields → Option Json
get key end = none
get key (field first value fields) = if same_text first key then some value else get key fields

-- A value that is a text.
abbrev pub text_of : Option Json → Option Text
text_of (some (text t)) = some t
text_of _ = none

abbrev pub text_field : Text → Fields → Option Text
text_field key fields = text_of (get key fields)

-- `Object.keys(object)`
unfoldable pub keys : Fields → List Text
keys end = []
keys (field key value fields) = key ∷ keys fields

unfoldable pub items : Items → List Json
items nil = []
items (cons value values) = value ∷ items values

-- `value ?? other`
abbrev pub or_nullish : Option Json → Option Json → Option Json
or_nullish none other = other
or_nullish (some null) other = other
or_nullish (some value) other = some value

unfoldable pub has_text : Text → List Text → Bool
has_text t [] = false
has_text t (other ∷ texts) = same_text other t || has_text t texts

-- The order of `sort()`: by code units, a prefix first.
unfoldable pub precedes : Text → Text → Bool
precedes [] t = true
precedes (c ∷ s) [] = false
precedes (c ∷ s) (d ∷ t) = ltb c d || (c == d && precedes s t)

unfoldable pub put : Text → List Text → List Text
put t [] = t ∷ []
put t (other ∷ texts) = if precedes t other then t ∷ other ∷ texts else other ∷ put t texts

-- `texts.sort()`
unfoldable pub sort : List Text → List Text
sort [] = []
sort (t ∷ texts) = put t (sort texts)

-- `object[key] = value`
unfoldable pub set : Text → Json → Fields → Fields
set key value end = field key value end
set key value (field first old fields) =
    if same_text first key then field first value fields else field first old (set key value fields)

-- `Object.assign(object, other)`, and the spread of two objects.
unfoldable pub assign : Fields → Fields → Fields
assign fields end = fields
assign fields (field key value others) = assign (set key value fields) others

-- An object of its keys and values.
abbrev pub object_of : List (Text × Json) → Fields
object_of [] = end
object_of ((key, value) ∷ values) = field key value (object_of values)
