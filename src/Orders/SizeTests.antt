-- ===== src/Orders/SizeTests.antt =====
-- Sizes as customers write them, and the instances of the theorems on them.
use crm_silmer.Base.{◌≡◌, refl, ◌⊎◌, none, some, List, [], ◌∷◌, arith}
use crm_silmer.Orders.{Text}
use crm_silmer.Orders.Sizes.{Line, Token, size, amount, break, tokenize}
use crm_silmer.Orders.Pairs.{pair_within-pair}
use crm_silmer.Orders.Grades.{IsGrade, IsList, parse_sizes-IsGrade}
use crm_silmer.Orders.Lines.{
  skip_breaks, paired, pair_within, pair, parse_sizes_text, text, parse_sizes,
}

abbrev p_and_m : List Token
p_and_m = amount 5 ∷ size (80 ∷ []) ∷ break ∷ amount 10 ∷ size (77 ∷ []) ∷ []

abbrev p_and_m_lines : List Line
p_and_m_lines =
    record { quantidade = 5; tamanho = 80 ∷ [] }
    ∷ record { quantidade = 10; tamanho = 77 ∷ [] }
    ∷ []

-- "5 P, 10 M"
abbrev spaced : Text
spaced = 53 ∷ 32 ∷ 80 ∷ 44 ∷ 32 ∷ 49 ∷ 48 ∷ 32 ∷ 77 ∷ []

tokenize-spaced : tokenize [] spaced ≡ some p_and_m
unfolding tokenize
tokenize-spaced = refl

parse_sizes-spaced : parse_sizes (λ s. s) (text spaced) ≡ some p_and_m_lines
unfolding parse_sizes parse_sizes_text
parse_sizes-spaced = refl

-- "G15" is G and 15; "P 5 10 M" mixes the orders.
parse_sizes-glued :
    parse_sizes (λ s. s) (text (71 ∷ 49 ∷ 53 ∷ []))
    ≡ some (record { quantidade = 15; tamanho = 71 ∷ [] } ∷ [])
unfolding parse_sizes parse_sizes_text
parse_sizes-glued = refl

parse_sizes-mixed : parse_sizes (λ s. s) (text (80 ∷ 32 ∷ 53 ∷ 32 ∷ 49 ∷ 48 ∷ 32 ∷ 77 ∷ [])) ≡ none
unfolding parse_sizes parse_sizes_text
parse_sizes-mixed = refl

pair_within-pair_example : pair_within 6 none [] (skip_breaks p_and_m) ≡ paired (pair p_and_m)
pair_within-pair_example = pair_within-pair 6 p_and_m (omega arith)

parse_sizes-IsGrade_example : IsList (text spaced) ⊎ IsGrade p_and_m_lines
parse_sizes-IsGrade_example = parse_sizes-IsGrade (λ s. s) (text spaced) parse_sizes-spaced
