-- ===== src/Orders/Pairs.antt =====
-- The loop of `pair` ends.
use crm_silmer.Base.{
  Bool-cases, Option-cases, length, ℕ, zero, suc, ◌≤◌, ◌<◌, ◌≡◌, refl, ◌∙◌, inl, inr, true, false,
  Option, none, some, List, [], ◌∷◌, ◌++◌, arith,
}
use crm_silmer.Orders.Sizes.{Line, Token, size, amount, break, join}
use crm_silmer.Orders.Lines.{
  Kind, drop_join, skip_breaks, read_pair, is_order, paired, pair_within, lines_of, pair,
}

pub drop_join-le : (ts : List Token) → length (drop_join ts) ≤ length ts
drop_join-le [] = omega arith
drop_join-le (join ∷ ts) = omega arith
drop_join-le (break ∷ ts) = omega arith
drop_join-le (size s ∷ ts) = omega arith
drop_join-le (amount n ∷ ts) = omega arith

skip_breaks-le : (ts : List Token) → length (skip_breaks ts) ≤ length ts
unfolding skip_breaks
skip_breaks-le [] = omega arith
skip_breaks-le (break ∷ ts) = omega (arith, skip_breaks-le ts)
skip_breaks-le (join ∷ ts) = omega arith
skip_breaks-le (size s ∷ ts) = omega arith
skip_breaks-le (amount n ∷ ts) = omega arith

read_pair-lt :
    (t : Token) (ts : List Token) {l : Line} {k : Kind} {rest : List Token}
    → read_pair t ts ≡ some (l, k, rest)
    → length rest < length ts
read_pair-lt (size s) (amount n ∷ ts) h = ground arith
read_pair-lt (amount n) (size s ∷ ts) h = ground arith
read_pair-lt (size s) (size n ∷ ts) h = cc
read_pair-lt (size s) (break ∷ ts) h = cc
read_pair-lt (size s) (join ∷ ts) h = cc
read_pair-lt (size s) [] h = cc
read_pair-lt (amount s) (amount n ∷ ts) h = cc
read_pair-lt (amount s) (break ∷ ts) h = cc
read_pair-lt (amount s) (join ∷ ts) h = cc
read_pair-lt (amount s) [] h = cc
read_pair-lt break ts h = cc
read_pair-lt join ts h = cc

-- A round of the loop.
module _ (fuel : ℕ) (order : Option Kind) (lines : List Line) (t : Token) (ts : List Token) where
  pub round-unpaired :
      read_pair t (drop_join ts) ≡ none → pair_within (suc fuel) order lines (t ∷ ts) ≡ paired none
  unfolding pair_within
  round-unpaired h = rw (pair_within, h) refl

  module _ (l : Line) (k : Kind) (rest : List Token)
      (found : read_pair t (drop_join ts) ≡ some (l, k, rest)) where
    pub round-mixed :
        is_order order k ≡ false → pair_within (suc fuel) order lines (t ∷ ts) ≡ paired none
    unfolding pair_within
    round-mixed h = rw (pair_within, found, h) refl

    pub round-paired :
        is_order order k ≡ true
        → pair_within (suc fuel) order lines (t ∷ ts)
          ≡ pair_within fuel (some k) (lines ++ l ∷ []) (skip_breaks rest)
    unfolding pair_within
    round-paired h = rw (pair_within, found, h) refl

-- With more fuel than tokens, more fuel changes nothing.
pair_within-eq :
    (fuel more : ℕ) (order : Option Kind) (lines : List Line) (ts : List Token)
    → length ts < fuel
    → length ts < more
    → pair_within fuel order lines ts ≡ pair_within more order lines ts
unfolding pair_within
pair_within-eq zero more order lines ts h m = absurd (omega arith)
pair_within-eq (suc fuel) zero order lines ts h m = absurd (omega arith)
pair_within-eq (suc fuel) (suc more) order lines [] h m = refl
pair_within-eq (suc fuel) (suc more) order lines (t ∷ ts) h m =
    elim (Option-cases (read_pair t (drop_join ts))) [
      | inl unpaired ↦ rw (pair_within, unpaired) refl
      | inr ((l, k, rest), found) ↦
          let shorter : length (skip_breaks rest) < length (t ∷ ts) =
            omega
              (arith, read_pair-lt t (drop_join ts) found, drop_join-le ts, skip_breaks-le rest) in
          elim (Bool-cases (is_order order k)) [
            | inl same ↦
                rw (pair_within, found, same)
                  (pair_within-eq fuel more (some k) (lines ++ l ∷ []) (skip_breaks rest)
                    (omega arith) (omega arith))
            | inr mixed ↦ rw (pair_within, found, mixed) refl
          ]
    ]

pair_within-ends :
    (fuel : ℕ) (order : Option Kind) (lines : List Line) (ts : List Token)
    → length ts < fuel
    → pair_within fuel order lines ts ≡ paired (lines_of (pair_within fuel order lines ts))
unfolding pair_within
pair_within-ends zero order lines ts h = absurd (omega arith)
pair_within-ends (suc fuel) order lines [] h = refl
pair_within-ends (suc fuel) order lines (t ∷ ts) h =
    elim (Option-cases (read_pair t (drop_join ts))) [
      | inl unpaired ↦ rw (pair_within, unpaired) refl
      | inr ((l, k, rest), found) ↦
          let shorter : length (skip_breaks rest) < fuel =
            omega
              (arith, read_pair-lt t (drop_join ts) found, drop_join-le ts, skip_breaks-le rest) in
          elim (Bool-cases (is_order order k)) [
            | inl same ↦
                rw (pair_within, found, same)
                  (pair_within-ends fuel (some k) (lines ++ l ∷ []) (skip_breaks rest) shorter)
            | inr mixed ↦ rw (pair_within, found, mixed) refl
          ]
    ]

-- The loop that pairs tokens ends: with any fuel above the number of the tokens it does not run
-- out, and gives what `pair` gives.
pub pair_within-pair :
    (fuel : ℕ) (ts : List Token)
    → length ts < fuel
    → pair_within fuel none [] (skip_breaks ts) ≡ paired (pair ts)
unfolding pair
pair_within-pair fuel ts h =
    let le = skip_breaks-le ts in
    pair_within-eq fuel (suc (length ts)) none [] (skip_breaks ts) (omega arith) (omega arith)
    ∙ pair_within-ends (suc (length ts)) none [] (skip_breaks ts) (omega arith)
