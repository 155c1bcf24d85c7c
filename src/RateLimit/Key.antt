-- ===== src/RateLimit/Key.antt =====
-- `PublicInferenceClientKey`: a client's name, or "anonymous" for a blank one.
use Prim.Native.String.{String, [], ◌∷◌}
use Prim.Native.Char.{code}
use kir_ai.Prelude.{ℕ, Bool, true, ◌&&◌, ◌||◌, leb, ◌==◌, if◌then◌else◌}

-- `char::is_whitespace`: Unicode's White_Space.
is_whitespace : ℕ → Bool
is_whitespace c =
    (leb 9 c && leb c 13)
    || c == 32
    || c == 0x85
    || c == 0xa0
    || c == 0x1680
    || (leb 0x2000 c && leb c 0x200a)
    || c == 0x2028
    || c == 0x2029
    || c == 0x202f
    || c == 0x205f
    || c == 0x3000

-- `value.trim().is_empty()`
is_blank : String → Bool
unfolding is_whitespace
is_blank [] = true
is_blank (c ∷ rest) = is_whitespace (code c) && is_blank rest

-- `PublicInferenceClientKey::new`
unfoldable pub client_key : String → String
unfolding is_blank
client_key value = if is_blank value then "anonymous" else value
