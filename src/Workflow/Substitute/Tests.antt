-- ===== src/Workflow/Substitute/Tests.antt =====
-- Substitutions, and the theorem on them at a text with two blocks.
use overup.Prelude.{◌≡◌, refl, none, some, Option, List, Text, codes, text_eq, if◌then◌else◌}
use overup.Workflow.Words.{strip_prefix, split_once, trim_start, trim_end}
use overup.Workflow.Fields.{is_ident}
use overup.Workflow.Refs.{quoted}
use overup.Workflow.Substitute.{
  single_name, ref_in, parse_single_ref, substitute_from, substitute_context_refs,
}
use overup.Workflow.Substitute.Blocks.{Block, IsSplit, replaced, substitute_context_refs_lem}

-- The value looks like a block itself.
abbrev lookup : Text → Text → Option Text
lookup context name =
    if text_eq name (codes "TOKEN") then some (codes "${{ secrets.OTHER }}") else none

abbrev input : Text
input = codes "a ${{ secrets.TOKEN }} b ${{ github.sha }}"

values_are_not_scanned :
    substitute_context_refs lookup input ≡ some (codes "a ${{ secrets.OTHER }} b ${{ github.sha }}")
unfolding substitute_context_refs substitute_from parse_single_ref ref_in single_name split_once
    strip_prefix trim_start trim_end is_ident quoted
values_are_not_scanned = refl

substitute_context_refs_lem_example :
    (blocks : List Block) × (tail : Text) × IsSplit input blocks tail
    × ((look : Text → Text → Option Text)
        → substitute_context_refs look input ≡ some (replaced look blocks tail))
substitute_context_refs_lem_example = substitute_context_refs_lem input
