-- ===== src/Pipeline/Uuid.antt =====
-- libs/core/src/common/id/uuidV7.generator.ts: the format test of an identifier. The generator
-- itself is a package's; a new identifier is an argument of the operation that draws one.
use Prim.Native.Char.{code}
use newtine_backend.Prelude.{
  ℕ, zero, suc, String, Bool, true, false, ◌≡◌, refl, ◌&&◌, ◌||◌, Option, none, some, leb, ◌==◌,
  nat_eq, if◌then◌else◌,
}

abbrev is_hex : ℕ → Bool
is_hex c = (leb b'0' c && leb c b'9') || (leb b'a' c && leb c b'f') || (leb b'A' c && leb c b'F')

abbrev is_variant : ℕ → Bool
is_variant c = c == b'8' || c == b'9' || c == b'a' || c == b'b' || c == b'A' || c == b'B'

-- One character of a class, then the rest.
abbrev after_class : (ℕ → Bool) → String → Option String
after_class p String.[] = none
after_class p (String.◌∷◌ c s) = if p (code c) then some s else none

infixl 5 ◌>>=◌
abbrev ◌>>=◌ : Option String → (String → Option String) → Option String
none >>= f = none
some s >>= f = f s

after_hex : ℕ → String → Option String
after_hex zero s = some s
after_hex (suc n) s = do rest ← after_class is_hex s; after_hex n rest

abbrev after_dash : String → Option String
after_dash s = after_class (λ c. c == b'-') s

abbrev is_end : Option String → Bool
is_end none = false
is_end (some String.[]) = true
is_end (some (String.◌∷◌ c s)) = false

-- `^[0-9a-f]{8}-[0-9a-f]{4}-7[0-9a-f]{3}-[89ab][0-9a-f]{3}-[0-9a-f]{12}$` without regard to case.
uuid_rest : String → Option String
unfolding after_hex
uuid_rest s = do
  s ← after_hex 8 s
  s ← after_dash s
  s ← after_hex 4 s
  s ← after_dash s
  s ← after_class (λ c. c == b'7') s
  s ← after_hex 3 s
  s ← after_dash s
  s ← after_class is_variant s
  s ← after_hex 3 s
  s ← after_dash s
  after_hex 12 s

unfoldable pub is_uuid_v7 : String → Bool
unfolding uuid_rest
is_uuid_v7 s = is_end (uuid_rest s)

is_uuid_v7_test :
    (is_uuid_v7 "0199f000-0000-7000-8000-00000000000A" ≡ true)
    × (is_uuid_v7 "0199f000-0000-4000-8000-000000000001" ≡ false)
unfolding is_uuid_v7
is_uuid_v7_test = (refl, refl)
