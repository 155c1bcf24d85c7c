-- ===== src/RateLimit/Buckets.antt =====
-- `HashMap<PublicInferenceClientKey, ClientRequestLog>` as an association list whose keys differ.
use Prim.Native.String.{String}
use text.Mathlib.Text.{◌==◌ as str_eq}
use kir_ai.Prelude.{Bool, Option, none, some, List, [], ◌∷◌, if◌then◌else◌}
use kir_ai.RateLimit.Log.{ClientRequestLog}

abbrev pub Buckets : Type 0
Buckets = List (String × ClientRequestLog)

unfoldable pub get : String → Buckets → Option ClientRequestLog
get key [] = none
get key ((k, log) ∷ rest) = if str_eq k key then some log else get key rest

-- A write to the bucket of a key, which is new or there.
unfoldable pub put : String → ClientRequestLog → Buckets → Buckets
put key log [] = (key, log) ∷ []
put key log ((k, old) ∷ rest) =
    let others = put key log rest in if str_eq k key then (k, log) ∷ rest else (k, old) ∷ others

-- `values_mut`
unfoldable pub map_values : (ClientRequestLog → ClientRequestLog) → Buckets → Buckets
map_values f [] = []
map_values f ((k, log) ∷ rest) = (k, f log) ∷ map_values f rest

-- `retain`
unfoldable pub retain : (ClientRequestLog → Bool) → Buckets → Buckets
retain keep [] = []
retain keep ((k, log) ∷ rest) =
    let others = retain keep rest in if keep log then (k, log) ∷ others else others
