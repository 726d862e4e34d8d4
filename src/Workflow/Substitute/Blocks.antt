-- ===== src/Workflow/Substitute/Blocks.antt =====
-- What `substitute_context_refs` (backend/src/services/workflow_parse.rs) makes of a text: its blocks are found in
-- the text alone, and each is replaced on its own.
use overup.Prelude.{
  ℕ, zero, suc, ◌<◌, ◌≡◌, refl, ◌∙◌, ap, ◌⊎◌, inl, inr, Option, none, some, List, [], ◌∷◌, ◌++◌,
  All, Option-cases, arith, length, Text,
}
use overup.Workflow.Words.{split_once}
use overup.Workflow.Words.Occurs.{IsCut, split_once-IsCut, IsCut-shorter}
use overup.Workflow.Substitute.{
  opening, closing, replacement, substitute_from, substitute_context_refs,
}

-- A block with the text before it.
abbrev pub Block : Type 0
Block = Text × Text

-- The text that blocks and what follows them are read from.
abbrev pub source_of : List Block → Text → Text
source_of [] tail = tail
source_of ((before, expr) ∷ blocks) tail =
    before ++ (opening ++ (expr ++ (closing ++ source_of blocks tail)))

-- The same text with each block replaced.
abbrev pub replaced : (Text → Text → Option Text) → List Block → Text → Text
replaced lookup [] tail = tail
replaced lookup ((before, expr) ∷ blocks) tail =
    (before ++ replacement lookup expr) ++ replaced lookup blocks tail

-- A block begins at the first opening and ends at the first closing behind it.
abbrev pub IsFirst : Block → Type 0
IsFirst (before, expr) = (split_once opening before ≡ none) × (split_once closing expr ≡ none)

-- No block begins in the tail, or none that begins there ends.
abbrev pub HasNoBlock : Text → Type 0
HasNoBlock tail =
    (split_once opening tail ≡ none)
    ⊎ ((before : Text) × (rest : Text) × (split_once opening tail ≡ some (before, rest))
        × (split_once closing rest ≡ none))

pub record IsSplit (input : Text) (blocks : List Block) (tail : Text) : Type 0 where
  pub source : source_of blocks tail ≡ input
  pub first : All IsFirst blocks
  pub last : HasNoBlock tail

-- The blocks of a text, and that any substitution replaces them.
abbrev pub Blocks : ℕ → Text → Type 0
Blocks fuel input =
    (blocks : List Block) × (tail : Text) × IsSplit input blocks tail
    × ((lookup : Text → Text → Option Text)
        → substitute_from lookup fuel input ≡ some (replaced lookup blocks tail))

no_opening : (fuel : ℕ) (input : Text) → HasNoBlock input → Blocks (suc fuel) input
unfolding substitute_from
no_opening fuel input h = (
  [],
  input,
  record { source = refl; first = tt; last = h },
  λ lookup. elim h [
    | inl e ↦ rw (e, substitute_from) refl
    | inr (before, rest, e, f) ↦ rw (e, substitute_from) (rw f refl)
  ],
)

one_block :
    (fuel : ℕ) (input before rest expr after : Text)
    → split_once opening input ≡ some (before, rest)
    → split_once closing rest ≡ some (expr, after)
    → IsCut opening input before rest
    → IsCut closing rest expr after
    → Blocks fuel after
    → Blocks (suc fuel) input
unfolding substitute_from
one_block fuel input before rest expr after e f cut cut' (blocks, tail, split, all) = (
  (before, expr) ∷ blocks,
  tail,
  record {
    source =
        ap (λ t. before ++ (opening ++ (expr ++ (closing ++ t)))) split.source
        ∙ ap (λ t. before ++ (opening ++ t)) cut'.whole
        ∙ cut.whole;
    first = ((cut.first, cut'.first), split.first);
    last = split.last;
  },
  λ lookup. rw (e, substitute_from) (rw f (rw (all lookup) refl)),
)

splits_input : (fuel : ℕ) (input : Text) → length input < fuel → Blocks fuel input
splits_input zero input enough = absurd (omega arith)
splits_input (suc fuel) input enough = elim (Option-cases (split_once opening input)) [
  | inl nowhere ↦ no_opening fuel input (inl nowhere)
  | inr ((before, rest), e) ↦ elim (Option-cases (split_once closing rest)) [
    | inl open_end ↦ no_opening fuel input (inr (before, rest, e, open_end))
    | inr ((expr, after), f) ↦
        let cut = split_once-IsCut _ _ input before rest e in
        let cut' = split_once-IsCut _ _ rest expr after f in
        one_block fuel input before rest expr after e f cut cut' (
          splits_input fuel after (
            omega (
              arith,
              IsCut-shorter _ _ input before rest cut,
              IsCut-shorter _ _ rest expr after cut',
            )))
  ]
]

-- Each text splits into blocks `${{ … }}`, each from the first opening to the first closing behind it, and
-- a tail without a block. Whatever the values are, the substitution ends, and its result is that text with
-- each block replaced by itself or its value: a value is never searched for blocks again.
pub substitute_context_refs_lem :
    (input : Text)
    → (blocks : List Block) × (tail : Text) × IsSplit input blocks tail
      × ((lookup : Text → Text → Option Text)
          → substitute_context_refs lookup input ≡ some (replaced lookup blocks tail))
unfolding substitute_context_refs
substitute_context_refs_lem input = splits_input (suc (length input)) input (omega arith)
