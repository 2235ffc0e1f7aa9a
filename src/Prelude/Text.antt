-- ===== src/Prelude/Text.antt =====
-- Text: code points, `str.upper`, `str.replace` and the decimal print of a natural number.
use Prim.Native.Nat.{ℕ, zero, suc, ◌-◌, ◌/◌, ◌%◌}
use Prim.Native.Char.{code}
use Prim.Native.String.{String, ◌++◌ as ◌<>◌}
use mathlib.Core.Bool.{Bool, true, false, ◌&&◌}
use mathlib.Core.List.{List, [], ◌∷◌, map}
use banking_transaction_syst.Prelude.Tests.{leb, ◌==◌, nat_eq, if◌then◌else◌}

-- The code points of a text.
abbrev pub codes : String → List ℕ
codes String.[] = []
codes (String.◌∷◌ c s) = code c ∷ codes s

upper_code : ℕ → ℕ
upper_code c = if leb b'a' c && leb c b'z' then c - 32 else c

-- `str.upper` on ASCII text.
unfoldable pub upper : List ℕ → List ℕ
unfolding upper_code
upper = map upper_code

abbrev pub starts_with : List ℕ → List ℕ → Bool
starts_with [] s = true
starts_with (w ∷ ws) [] = false
starts_with (w ∷ ws) (c ∷ cs) = w == c && starts_with ws cs

abbrev size : List ℕ → ℕ
size [] = 0
size (c ∷ cs) = suc (size cs)

-- The scan of `str.replace`, with the number of code points of a match still to pass over.
remove_from : List ℕ → ℕ → List ℕ → List ℕ
remove_from word skip [] = []
remove_from word (suc skip) (c ∷ cs) = remove_from word skip cs
remove_from word zero (c ∷ cs) = elim (starts_with word (c ∷ cs)) [
  | true ↦ remove_from word (size word - 1) cs
  | false ↦ c ∷ remove_from word zero cs
]

-- `s.replace(word, "")`: matches from the left that do not overlap.
unfoldable pub remove_all : List ℕ → List ℕ → List ℕ
unfolding remove_from
remove_all word s = remove_from word zero s

digit : ℕ → String
digit zero = "0"
digit (suc zero) = "1"
digit (suc (suc zero)) = "2"
digit (suc (suc (suc zero))) = "3"
digit (suc (suc (suc (suc zero)))) = "4"
digit (suc (suc (suc (suc (suc zero))))) = "5"
digit (suc (suc (suc (suc (suc (suc zero)))))) = "6"
digit (suc (suc (suc (suc (suc (suc (suc zero))))))) = "7"
digit (suc (suc (suc (suc (suc (suc (suc (suc zero)))))))) = "8"
digit _ = "9"

-- The fuel is the number of digits allowed for, and 40 is more than any amount has.
digits_of : ℕ → ℕ → String
unfolding digit
digits_of zero n = ""
digits_of (suc fuel) n =
    let rest = digits_of fuel (n / 10) in if leb n 9 then digit n else rest <> digit (n % 10)

-- A number below 10 ^ 40 in decimal.
unfoldable pub show : ℕ → String
unfolding digits_of
show n = digits_of 40 n

-- Two digits after the point.
unfoldable pub show_pair : ℕ → String
unfolding digit
show_pair n = digit (n / 10) <> digit (n % 10)
