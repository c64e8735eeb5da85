-- ===== src/Tests/Samples.antt =====
-- Concrete libraries for the tests: a JSON library whose texts are counts and length-prefixed strings,
-- a table of verbs, and a walk that meets the entries as they stand.
use http2_server.Prelude.{
  true, ℕ, zero, suc, ◌≡◌, refl, sym, ◌∙◌, Option, none, some, [], ◌∷◌, ◌++◌, Bool, ◌==◌, ◌||◌,
  if◌then◌else◌, length, take, drop, take-append, drop-append,
}
use http2_server.Prelude.Text.{Text, codes, text_eq}
use http2_server.Prelude.Int.{ℤ, pos, negsuc}
use http2_server.Prelude.Map.{Map, lookup}
use http2_server.Json.{JsonLib, JsonLaws}
use http2_server.Registry.{Order}
use http2_server.HttpClient.{Beast, HttpRequest, Refuses}

unfoldable pub encode : Map Text Text → Text
encode [] = []
encode ((k, v) ∷ rest) = length k ∷ (k ++ (length v ∷ (v ++ encode rest)))

-- What stands behind a key, if the key is the one that is sought.
unfoldable pub here : Text → Text → Text → Option Text → Option Text
here k key [] later = none
here k key (size ∷ t) later = if key == k then some (take size t) else later

unfoldable pub rest_of : Text → Text
rest_of [] = []
rest_of (size ∷ t) = drop size t

-- The value of a key among this many fields.
unfoldable pub field : ℕ → Text → Text → Option Text
field zero k t = none
field (suc n) k [] = none
field (suc n) k (size ∷ t) = here k (take size t) (drop size t) (field n k (rest_of (drop size t)))

field-encode :
    (fields : Map Text Text) (k : Text) → field (length fields) k (encode fields) ≡ lookup k fields
unfolding field encode lookup here rest_of
field-encode [] k = refl
field-encode ((j, v) ∷ rest) k =
    rw
      (
        take-append j (length v ∷ (v ++ encode rest)),
        drop-append j (length v ∷ (v ++ encode rest)),
        take-append v (encode rest),
        drop-append v (encode rest),
        field-encode rest k,
      )
      refl

unfoldable pub get : Text → Text → Option Text
get [] k = none
get (n ∷ t) k = field n k t

unfoldable pub int_of : Text → Option ℤ
int_of (zero ∷ n ∷ []) = some (pos n)
int_of (suc zero ∷ n ∷ []) = some (negsuc n)
int_of _ = none

unfoldable pub of_int : ℤ → Text
of_int (pos n) = 0 ∷ n ∷ []
of_int (negsuc n) = 1 ∷ n ∷ []

int_of-of_int : (n : ℤ) → int_of (of_int n) ≡ some n
unfolding int_of of_int
int_of-of_int (pos n) = refl
int_of-of_int (negsuc n) = refl

unfoldable pub get_int : Text → Text → Option ℤ
get_int t k = elim (get t k) [ none ↦ none | some v ↦ int_of v ]

unfoldable pub parsed : Text → Option Text
parsed [] = none
parsed (n ∷ t) = some (n ∷ t)

abbrev pub of_bool : Bool → Text
of_bool b = if b then 1 ∷ [] else 0 ∷ []

abbrev pub json : JsonLib
json = record {
  Value = Text;
  parse = parsed;
  get_string = get;
  get_int = get_int;
  string_value = λ t. t;
  int_value = of_int;
  bool_value = of_bool;
  object = λ fields. length fields ∷ encode fields;
  items = λ v. [];
  set_item = λ v k x. v;
  dump = λ v. some v;
}

parsed-object :
    (fields : Map Text Text) (t : Text)
    → Option.some (length fields ∷ encode fields) ≡ some t
    → parsed t ≡ some (length fields ∷ encode fields)
unfolding parsed
parsed-object fields [] h = cc
parsed-object fields (n ∷ t) h = sym h

get_int-field :
    (fields : Map Text Text) (k : Text) (n : ℤ)
    → lookup k fields ≡ some (of_int n)
    → get_int (length fields ∷ encode fields) k ≡ some n
unfolding get_int get
get_int-field fields k n h = rw (get_int, get, field-encode fields k ∙ h) (int_of-of_int n)

pub json_laws : JsonLaws json
json_laws = record {
  parse-dump = parsed-object;
  get_string-object = λ fields k s h. unfold get in (field-encode fields k ∙ h);
  get_int-object = get_int-field;
}

pub never_refused : (r : HttpRequest) → some r ≡ none → Refuses r.method r.body
never_refused r h = cc

abbrev pub beast : Beast
beast = record {
  verb = λ m.
      if (m == codes "GET") || (m == codes "POST") || (m == codes "DELETE") then some m else none;
  fits = λ t. true;
  fits-true = λ t h. refl;
  prepare_payload = λ r. some r;
  prepare_payload-none = never_refused;
}

abbrev pub order : Order
order = record { walk = λ m. m; walk_mem = λ m p. (λ x. x, λ x. x) }
