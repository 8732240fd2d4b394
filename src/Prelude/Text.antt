-- ===== src/Prelude/Text.antt =====
-- Python's text operations on the code points of a text. `upper` maps the ASCII letters.
use Prim.Native.Char.{code}
use Prim.Native.Nat.{ℕ, ◌-◌}
use Prim.Native.String.{String, ◌++◌ as join}
use text.Mathlib.TextLemmas.{nil-append, cons-append}
use mathlib.Core.Path.{◌≡◌, refl, ap}
use mathlib.Core.Bool.{Bool, true, false, not, ◌&&◌, ◌||◌}
use mathlib.Core.List.{List, [], ◌∷◌, ◌++◌, map, reverse}
use native.Mathlib.Decide.{ℕ_discrete}
use quantora_trade.Prelude.Tests.{leb, ◌==◌, if◌then◌else◌, nat_eq, Eq, string_eq, String_discrete}
use quantora_trade.Prelude.Lists.{all, length}

abbrev pub codes : String → List ℕ
codes String.[] = []
codes (String.◌∷◌ c s) = code c ∷ codes s

pub codes-join : (s t : String) → codes (join s t) ≡ codes s ++ codes t
codes-join String.[] t = ap codes (nil-append t)
codes-join (String.◌∷◌ c s) t = rw (cons-append c s t, codes-join s t)

-- The characters that `str.strip` removes.
unfoldable pub is_space : ℕ → Bool
is_space c =
    (leb 9 c && leb c 13)
    || (leb 28 c && leb c 32)
    || c == 133
    || c == 160
    || c == 5760
    || (leb 8192 c && leb c 8202)
    || c == 8232
    || c == 8233
    || c == 8239
    || c == 8287
    || c == 12288

drop_spaces : List ℕ → List ℕ
drop_spaces [] = []
drop_spaces (c ∷ cs) = let rest = drop_spaces cs in if is_space c then rest else c ∷ cs

unfoldable pub strip : List ℕ → List ℕ
unfolding drop_spaces is_space
strip cs = reverse (drop_spaces (reverse (drop_spaces cs)))

unfoldable pub upper : List ℕ → List ℕ
upper = map (λ c. if leb b'a' c && leb c b'z' then c - 32 else c)

instance abbrev pub codes_eq : Eq (List ℕ)
codes_eq = record { dec = hlevel ℕ_discrete }

-- `not s.strip()`
unfoldable pub is_blank : String → Bool
unfolding is_space
is_blank s = all is_space (codes s)

-- `s == s.strip()`
unfoldable pub is_trimmed : String → Bool
unfolding strip
is_trimmed s = codes s == strip (codes s)

-- `s == s.strip().upper()`
unfoldable pub is_canonical : String → Bool
unfolding strip upper
is_canonical s = codes s == upper (strip (codes s))

-- `len(s)`
unfoldable pub text_length : String → ℕ
text_length s = length (codes s)

-- `all(c in "0123456789abcdef" for c in s)`
unfoldable pub is_hex : String → Bool
is_hex s = all (λ c. (leb b'0' c && leb c b'9') || (leb b'a' c && leb c b'f')) (codes s)

test_canonical :
    (is_canonical "EURUSD" && not (is_canonical "eurUSD") && not (is_canonical " A")) ≡ true
unfolding is_canonical ℕ_discrete
test_canonical = refl

test_blank : (is_blank " \t" && is_trimmed "a b" && not (is_trimmed "a ")) ≡ true
unfolding is_blank is_trimmed ℕ_discrete
test_blank = refl

test_same : (◌==◌ {A = String} "a" "b" || not (◌==◌ {A = String} "ab" "ab")) ≡ false
unfolding String_discrete
test_same = refl
