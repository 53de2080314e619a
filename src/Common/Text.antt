-- ===== src/Common/Text.antt =====
-- Native strings, one after the other.
use Prim.Native.String
use Prim.Native.String.{String}

-- `Sprintf("%s: %s", a, b)`
unfoldable pub with_colon : String → String → String
with_colon a b = Prim.Native.String.◌++◌ (Prim.Native.String.◌++◌ a ": ") b
