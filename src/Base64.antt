-- ===== src/Base64.antt =====
-- Go's encoding/base64, decoding: `StdEncoding`, which wants padding, and `RawStdEncoding`, which
-- admits none. Line breaks are skipped. Bytes are characters below 256.
use Prim.Native.Char.{code, Char, IsScalar, char, nul}
use mathlib.Core.Logic.{dite}
use native.Mathlib.Decide.{dec_lt}
use gateway_operator.Prelude.{
  ℕ, ◌+◌, ◌-◌, ◌*◌, ◌/◌, ◌%◌, String, Bool, not, ◌&&◌, Option, none, some, List, [], ◌∷◌, ◌++◌,
  ◌==◌, nat_eq, list_eq, option_eq, ltb, if◌then◌else◌, ◌<◌, ◌||◌, ◌≡◌, arith, filter_if, refl,
}
use Prim.Native.Nat.{compare, Ordering}

codes : String → List ℕ
codes String.[] = []
codes (String.◌∷◌ c s) = code c ∷ codes s

between : ℕ → ℕ → ℕ → Bool
between lo hi n = not (ltb n lo) && not (ltb hi n)

-- The six bits that a letter stands for.
sextet : ℕ → Option ℕ
unfolding between
sextet n =
    if between b'A' b'Z' n
    then some (n - b'A')
    else if between b'a' b'z' n
    then some (n - b'a' + 26)
    else if between b'0' b'9' n
    then some (n - b'0' + 52)
    else if n == b'+'
    then some 62
    else if n == b'/'
    then some 63
    else none

infixl 5 ◌>>=◌
abbrev ◌>>=◌ {ℓ κ} : {A : Type ℓ} {B : Type κ} → Option A → (A → Option B) → Option B
none >>= f = none
some a >>= f = f a

-- One byte from two letters, two from three, three from four. Bits that are left over are dropped.
one_byte : ℕ → ℕ → Option (List ℕ)
unfolding sextet
one_byte a b = do x ← sextet a; y ← sextet b; some ((x * 4 + y / 16) ∷ [])

two_bytes : ℕ → ℕ → ℕ → Option (List ℕ)
unfolding sextet
two_bytes a b c = do
  x ← sextet a
  y ← sextet b
  z ← sextet c
  some ((x * 4 + y / 16) ∷ (y % 16 * 16 + z / 4) ∷ [])

three_bytes : ℕ → ℕ → ℕ → ℕ → Option (List ℕ)
unfolding sextet
three_bytes a b c d = do
  x ← sextet a
  y ← sextet b
  z ← sextet c
  w ← sextet d
  some ((x * 4 + y / 16) ∷ (y % 16 * 16 + z / 4) ∷ (z % 4 * 64 + w) ∷ [])

-- The last four letters may end in padding.
last_quantum : ℕ → ℕ → ℕ → ℕ → Option (List ℕ)
unfolding one_byte two_bytes three_bytes
last_quantum a b c d =
    if d == b'=' then (if c == b'=' then one_byte a b else two_bytes a b c) else three_bytes a b c d

std_quanta : List ℕ → Option (List ℕ)
unfolding last_quantum
std_quanta [] = some []
std_quanta (a ∷ b ∷ c ∷ d ∷ []) = last_quantum a b c d
std_quanta (a ∷ b ∷ c ∷ d ∷ e ∷ rest) =
    let later = std_quanta (e ∷ rest) in
    do here ← three_bytes a b c d; bytes ← later; some (here ++ bytes)
std_quanta _ = none

raw_quanta : List ℕ → Option (List ℕ)
unfolding one_byte two_bytes three_bytes
raw_quanta [] = some []
raw_quanta (a ∷ []) = none
raw_quanta (a ∷ b ∷ []) = one_byte a b
raw_quanta (a ∷ b ∷ c ∷ []) = two_bytes a b c
raw_quanta (a ∷ b ∷ c ∷ d ∷ rest) =
    let later = raw_quanta rest in
    do here ← three_bytes a b c d; bytes ← later; some (here ++ bytes)

byte_scalar : (n : ℕ) → n < 256 → IsScalar n
byte_scalar n h = let below : compare n 55296 ≡ Ordering.lt = ground arith in rw below tt

byte_char : ℕ → Char
unfolding byte_scalar
byte_char n = dite (dec_lt n 256) (λ h. char n (byte_scalar n h)) (λ _. nul)

text : List ℕ → String
unfolding byte_char
text [] = String.[]
text (b ∷ bs) = String.◌∷◌ (byte_char b) (text bs)

text_of : Option (List ℕ) → Option String
text_of none = none
text_of (some bytes) = some (text bytes)

is_break : ℕ → Bool
is_break n = n == 10 || n == 13

unfoldable pub std_decode : String → Option String
unfolding text_of text codes std_quanta is_break dec_lt
std_decode s = text_of (std_quanta (filter_if (λ n. not (is_break n)) (codes s)))

unfoldable pub raw_std_decode : String → Option String
unfolding text_of text codes raw_quanta is_break dec_lt
raw_std_decode s = text_of (raw_quanta (filter_if (λ n. not (is_break n)) (codes s)))

-- "off" in base64 is "b2Zm": four letters, and so no padding.
decode_off : (std_decode "b2Zm" ≡ some "off") × (raw_std_decode "b2Zm" ≡ some "off")
unfolding std_decode raw_std_decode
decode_off = (refl, refl)

-- Three letters are no padded base64, and are read as two bytes where no padding is wanted.
decode_plain_off :
    (std_decode "off" ≡ none) × (std_decode "b24=" ≡ some "on") × (raw_std_decode "b24" ≡ some "on")
unfolding std_decode raw_std_decode
decode_plain_off = (refl, refl, refl)
