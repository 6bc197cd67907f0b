-- ===== src/Blocks.antt =====
-- Content blocks: their validation and their text, in block_sender.go.
--
-- json.Unmarshal of an image source is the parameter `decode`: none is its error.
pub mod Validity
pub mod Texts
mod Examples
use agentrun.Prelude.{
  ℕ, suc, ◌==◌, ltb, leb, Str, bytes, str_eq, Bool, true, false, not, ◌&&◌, ◌||◌, Option, none,
  some, List, [], ◌∷◌, ◌++◌, if◌then◌else◌, is_empty, length, contains,
}

pub record ContentBlock : Type 0 where
  pub type : Str
  pub text : Str
  pub source : Str
  pub mime_type : Str

-- TextBlock
pub text_block : Str → ContentBlock
text_block s = record { type = bytes "text"; text = s; source = []; mime_type = [] }

-- The struct that validateImageBlock decodes into.
pub record ImageSource : Type 0 where
  pub type : Str
  pub media_type : Str
  pub base64_data : Str

abbrev pub max_base64_size : ℕ
max_base64_size = 15728640

abbrev pub media_types : List Str
media_types = bytes "image/jpeg" ∷ bytes "image/png" ∷ bytes "image/gif" ∷ bytes "image/webp" ∷ []

-- unicode.IsSpace on a rune of one, two and three bytes.
unfoldable pub one_byte_space : ℕ → Bool
one_byte_space b = (leb 9 b && leb b 13) || (b == 32)

unfoldable pub two_byte_space : ℕ → ℕ → Bool
two_byte_space b c = (b == 194) && ((c == 133) || (c == 160))

unfoldable pub three_byte_space : ℕ → ℕ → ℕ → Bool
three_byte_space b c d =
    ((b == 225) && ((c == 154) && (d == 128)))
    || (((b == 226)
          && ((c == 128)
              && ((leb 128 d && leb d 138) || ((d == 168) || ((d == 169) || (d == 175))))))
        || (((b == 226) && ((c == 129) && (d == 159)))
            || ((b == 227) && ((c == 128) && (d == 128)))))

-- strings.TrimSpace(s) == ""
unfoldable pub is_blank : Str → Bool
unfolding one_byte_space two_byte_space three_byte_space
is_blank [] = true
is_blank (b ∷ []) = one_byte_space b
is_blank (b ∷ c ∷ []) = (one_byte_space b && one_byte_space c) || two_byte_space b c
is_blank (b ∷ c ∷ d ∷ s) =
    let behind_one = is_blank (c ∷ d ∷ s) in
    let behind_two = is_blank (d ∷ s) in
    let behind_three = is_blank s in
    (one_byte_space b && behind_one)
    || ((two_byte_space b c && behind_two) || (three_byte_space b c d && behind_three))

pub data BlockError : Type 0 where
  no_blocks : BlockError
  empty_type missing_source invalid_source data_too_large : ℕ → BlockError
  unsupported_source unsupported_media : ℕ → Str → BlockError

-- The tests on the decoded source, in their order.
check_source : ImageSource → ℕ → Option BlockError
check_source src index =
    if not (str_eq src.type (bytes "base64"))
    then some (unsupported_source index src.type)
    else if not (contains media_types src.media_type)
    then some (unsupported_media index src.media_type)
    else if ltb max_base64_size (length src.base64_data)
    then some (data_too_large index)
    else none

module _ (decode : Str → Option ImageSource) where
  -- validateImageBlock
  validate_image_block : ContentBlock → ℕ → Option BlockError
  unfolding check_source
  validate_image_block b index =
      if is_empty b.source then some (missing_source index) else elim (decode b.source) [
        | none ↦ some (invalid_source index)
        | some src ↦ check_source src index
      ]

  -- One round of the loop of ValidateBlocks.
  validate_block : ContentBlock → ℕ → Option BlockError
  unfolding validate_image_block
  validate_block b index =
      if is_blank b.type
      then some (empty_type index)
      else if str_eq b.type (bytes "image")
      then validate_image_block b index
      else none

  validate_from : ℕ → List ContentBlock → Option BlockError
  unfolding validate_block
  validate_from index [] = none
  validate_from index (b ∷ blocks) =
      let rest = validate_from (suc index) blocks in
      elim (validate_block b index) [ some err ↦ some err | none ↦ rest ]

  -- ValidateBlocks
  pub validate_blocks : List ContentBlock → Option BlockError
  unfolding validate_from
  validate_blocks blocks = if is_empty blocks then some no_blocks else validate_from 0 blocks

-- The loop of TextFromBlocks, behind what it has written.
pub write_texts : Bool → List ContentBlock → Str → Str
write_texts first [] written = written
write_texts first (b ∷ blocks) written =
    if str_eq b.type (bytes "text") && not (is_empty b.text)
    then write_texts false blocks ((if first then written else written ++ 10 ∷ []) ++ b.text)
    else write_texts first blocks written

-- TextFromBlocks
pub text_from_blocks : List ContentBlock → Str
unfolding write_texts
text_from_blocks blocks = write_texts true blocks []
