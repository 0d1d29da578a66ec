-- ===== src/Json.antt =====
-- JSON values as `json.loads` and pydantic give them (validate_json_primitives in
-- kin-node/kin/schemas.py), and Python's truth of such a value.
use kin_gateway.Prelude.{
  ℕ, String, Bool, true, false, not, Option, none, some, str_eq, ◌==◌, if◌then◌else◌, truthy,
}

-- A float is finite: a sign, a mantissa, and a signed binary exponent.
mutual
  pub data Json : Type 0 where
    null : Json
    boolean : Bool → Json
    integer : Bool → ℕ → Json
    float : Bool → ℕ → Bool → ℕ → Json
    text : String → Json
    array : Items → Json
    object : Members → Json

  pub data Items : Type 0 where
    nil : Items
    cons : Json → Items → Items

  pub data Members : Type 0 where
    end : Members
    member : String → Json → Members → Members

-- bool(v)
abbrev pub is_truthy : Json → Bool
is_truthy null = false
is_truthy (boolean b) = b
is_truthy (integer s n) = not (n == 0)
is_truthy (float s m t e) = not (m == 0)
is_truthy (text s) = truthy s
is_truthy (array nil) = false
is_truthy (array (cons x xs)) = true
is_truthy (object end) = false
is_truthy (object (member k v ms)) = true

-- d.get(k) on a JSON object; a dict has one member for a key.
abbrev pub lookup : Members → String → Option Json
lookup end k = none
lookup (member j v ms) k = if str_eq j k then some v else lookup ms k

-- `x or y` where `x` is d.get(k)
abbrev pub get_or_next : Option Json → Json → Json
get_or_next none next = next
get_or_next (some v) next = if is_truthy v then v else next

-- isinstance(v, str)
abbrev pub as_text : Json → Option String
as_text (text s) = some s
as_text j = none
