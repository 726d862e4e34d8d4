-- ===== src/Glob/Tokens.antt =====
-- `tokenize` (backend/src/services/trigger_eval.rs) ends on every pattern, and reads a pattern of
-- plain characters as itself.
use overup.Prelude.{
  ℕ, zero, suc, ◌≤◌, Bool, true, not, ◌&&◌, Option, none, some, List, [], ◌∷◌, ◌++◌, map, reverse,
  append_assoc, append-nil, ◌≡◌, refl, sym, ap, ◌∙◌, subst, ◌↔◌, arith, ◌==◌, ==_refl, length,
  length-drop, Text, All, byte_len,
}
use mathlib.Core.List.{reverse-cons}
use overup.Glob.{
  lit, one, Token, Ranges, parse_class, escape, stars, bracket, token_step, tokens_from, tokenize,
  accepts, glob_match, backslash, max_pattern_len, max_value_len,
}
use overup.Glob.Meaning.{Matches}
use overup.Glob.Matching.{glob_match_iff}

bracket-le :
    (tokens : List Token) (rest : Text) (o : Option (Ranges × ℕ))
    → length (bracket tokens rest o).1 ≤ length rest
unfolding bracket
bracket-le tokens rest none = omega arith
bracket-le tokens rest (some (r, n)) = omega (arith, length-drop n rest)

escape-le : (tokens : List Token) (rest : Text) → length (escape tokens rest).1 ≤ length rest
unfolding escape
escape-le tokens [] = omega arith
escape-le tokens (x ∷ xs) = omega arith

stars-le : (tokens : List Token) (rest : Text) → length (stars tokens rest).1 ≤ length rest
unfolding stars
stars-le tokens [] = omega arith
stars-le tokens (x ∷ xs) = ground arith

-- A round leaves no more than it was given, so it has read its character.
token_step-le :
    (c : ℕ) (rest : Text) (tokens : List Token) → length (token_step c rest tokens).1 ≤ length rest
unfolding token_step
token_step-le c rest tokens =
    ground (
      arith,
      escape-le tokens rest,
      stars-le tokens rest,
      bracket-le tokens rest (parse_class rest),
    )

tokens_from_total :
    (fuel : ℕ) (tokens : List Token) (rest : Text)
    → length rest ≤ fuel
    → (ts : List Token) × (tokens_from fuel tokens rest ≡ some ts)
unfolding tokens_from
tokens_from_total fuel tokens [] h = (reverse tokens, refl)
tokens_from_total zero tokens (c ∷ rest) h = absurd (omega arith)
tokens_from_total (suc fuel) tokens (c ∷ rest) h =
    tokens_from_total fuel (token_step c rest tokens).0 (token_step c rest tokens).1
      (omega (arith, token_step-le c rest tokens))

-- The loop of `tokenize` ends on every pattern within one round for each character.
pub tokenize_total :
    (pattern : Text) → tokens_from (length pattern) [] pattern ≡ some (tokenize pattern)
unfolding tokenize
tokenize_total pattern =
    let (ts, e) = tokens_from_total (length pattern) [] pattern (omega arith) in rw e

-- A character with no meaning of its own in a pattern.
abbrev pub is_plain : ℕ → Bool
is_plain c =
    not (c == backslash) && not (c == b'*') && not (c == b'[') && not (c == b'?') && not (c == b'+')

abbrev pub IsPlain : ℕ → Type 0
IsPlain c = is_plain c ≡ true

abbrev pub literals : Text → List Token
literals = map (λ c. (lit c, one))

token_step_plain :
    (c : ℕ) (rest : Text) (tokens : List Token)
    → IsPlain c
    → token_step c rest tokens ≡ ((lit c, one) ∷ tokens, rest)
unfolding token_step
token_step_plain c rest tokens h = ground arith

tokens_from_plain :
    (fuel : ℕ) (tokens : List Token) (s : Text)
    → All IsPlain s
    → length s ≤ fuel
    → tokens_from fuel tokens s ≡ some (reverse tokens ++ literals s)
unfolding tokens_from
tokens_from_plain fuel tokens [] h l = ap some (sym (append-nil (reverse tokens)))
tokens_from_plain zero tokens (c ∷ s) h l = absurd (omega arith)
tokens_from_plain (suc fuel) tokens (c ∷ s) (p, h) l =
    ap (λ (st : List Token × Text). tokens_from fuel st.0 st.1) (token_step_plain c s tokens p)
    ∙ tokens_from_plain fuel ((lit c, one) ∷ tokens) s h (omega arith)
    ∙ ap some (rw reverse-cons (append_assoc (reverse tokens) ((lit c, one) ∷ []) (literals s)))

tokenize_plain : (s : Text) → All IsPlain s → tokenize s ≡ literals s
unfolding tokenize
tokenize_plain s h = rw (tokens_from_plain (length s) [] s h (omega arith))

Matches-literals : (s v : Text) → Matches (literals s) v ↔ (v ≡ s)
unfolding accepts
Matches-literals [] v = (λ m. m, λ e. e)
Matches-literals (c ∷ s) v = (
  λ (s', (d, e, p), m).
      let same : s' ≡ s = (Matches-literals s s').0 m in let char : d ≡ c = ground arith in cc,
  λ e. (s, (c, e, ==_refl c), (Matches-literals s s).1 refl),
)

-- A pattern of plain characters, within the cap, matches the text that it spells and no other.
pub glob_match-plain :
    (pattern value : Text)
    → All IsPlain pattern
    → byte_len pattern ≤ max_pattern_len
    → (glob_match pattern value ≡ true) ↔ (value ≡ pattern)
glob_match-plain pattern value plain short =
    let (to, from) = glob_match_iff pattern value in
    let (spells, is) = Matches-literals pattern value in
    let tokens = tokenize_plain pattern plain in
    (
      λ h. spells (subst (λ ts. Matches ts value) tokens (to h).2),
      λ e.
          from (
            short,
            subst (λ s. byte_len s ≤ max_value_len) (sym e) (omega arith),
            rw tokens (is e),
          ),
    )
