-- ===== src/Blocks/Examples.antt =====
-- The theorems on block_sender.go at concrete blocks.
use agentrun.Prelude.{◌≡◌, ◌||◌, Str, bytes, has, is_empty, Option, some, List, [], ◌∷◌}
use agentrun.Blocks.{ContentBlock, ImageSource, text_block, validate_blocks}
use agentrun.Blocks.Validity.{at_index, first_bad, validate_blocks-first_bad}

-- Every source decodes to a PNG.
abbrev png : Str → Option ImageSource
png source =
    some (record { type = bytes "base64"; media_type = bytes "image/png"; base64_data = source })

abbrev image : ContentBlock
image = record { type = bytes "image"; text = []; source = []; mime_type = [] }

abbrev two_blocks : List ContentBlock
two_blocks = text_block (bytes "look") ∷ image ∷ []

validate_blocks-first_bad_example :
    (at_index (validate_blocks png two_blocks) ≡ first_bad png 0 two_blocks)
    × (has (validate_blocks png two_blocks)
        ≡ (is_empty two_blocks || has (first_bad png 0 two_blocks)))
validate_blocks-first_bad_example = validate_blocks-first_bad png two_blocks
