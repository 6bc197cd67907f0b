-- ===== src/Blocks/Validity.antt =====
-- What ValidateBlocks accepts, and which block it reports.
use agentrun.Prelude.{
  ℕ, suc, leb, ◌≡◌, refl, Str, bytes, str_eq, Bool, false, not, ◌&&◌, ◌||◌, Option, none, some,
  List, [], ◌∷◌, if◌then◌else◌, is_empty, length, contains, has, arith, Option-cases, inl, inr,
}
use agentrun.Blocks.{
  ContentBlock, ImageSource, max_base64_size, media_types, is_blank, BlockError, no_blocks,
  empty_type, missing_source, invalid_source, data_too_large, unsupported_source, unsupported_media,
  check_source, validate_image_block, validate_block, validate_from, validate_blocks,
}

-- The place that an error names.
pub index_of : BlockError → Option ℕ
index_of no_blocks = none
index_of (empty_type i) = some i
index_of (missing_source i) = some i
index_of (invalid_source i) = some i
index_of (data_too_large i) = some i
index_of (unsupported_source i s) = some i
index_of (unsupported_media i s) = some i

abbrev pub at_index : Option BlockError → Option ℕ
at_index none = none
at_index (some err) = index_of err

module _ (decode : Str → Option ImageSource) where
  -- An image whose source decodes to base64 data of a known media type within the limit.
  pub is_good_image : Str → Bool
  is_good_image source = elim (decode source) [
    | none ↦ false
    | some src ↦
        str_eq src.type (bytes "base64")
        && (contains media_types src.media_type && leb (length src.base64_data) max_base64_size)
  ]

  pub is_acceptable : ContentBlock → Bool
  unfolding is_good_image
  is_acceptable b =
      not (is_blank b.type)
      && (not (str_eq b.type (bytes "image"))
          || (not (is_empty b.source) && is_good_image b.source))

  -- The place of the first block that is not acceptable.
  pub first_bad : ℕ → List ContentBlock → Option ℕ
  unfolding is_acceptable
  first_bad i [] = none
  first_bad i (b ∷ blocks) =
      let rest = first_bad (suc i) blocks in if is_acceptable b then rest else some i

  -- The verdict on one thing at a place: no error if it is good, otherwise one that names the place.
  IsVerdict : Bool → ℕ → Option BlockError → Type 0
  IsVerdict good i err = (has err ≡ not good) × (at_index err ≡ (if good then none else some i))

  check_source-IsVerdict :
      (src : ImageSource) (i : ℕ)
      → IsVerdict
          (str_eq src.type (bytes "base64")
            && (contains media_types src.media_type
                && leb (length src.base64_data) max_base64_size))
          i
          (check_source src i)
  unfolding check_source IsVerdict index_of
  check_source-IsVerdict src i = ground arith

  image-IsVerdict :
      (b : ContentBlock) (i : ℕ)
      → IsVerdict
          (not (is_empty b.source) && is_good_image b.source)
          i
          (validate_image_block decode b i)
  unfolding validate_image_block is_good_image IsVerdict index_of
  image-IsVerdict b i = elim (Option-cases (decode b.source)) [
    | inl failed ↦ simp failed (ground arith)
    | inr (src, ok) ↦ simp ok (ground (arith, check_source-IsVerdict src i))
  ]

  validate_block-IsVerdict :
      (b : ContentBlock) (i : ℕ) → IsVerdict (is_acceptable b) i (validate_block decode b i)
  unfolding validate_block is_acceptable IsVerdict index_of
  validate_block-IsVerdict b i = ground (arith, image-IsVerdict b i)

  validate_from-first_bad :
      (i : ℕ) (blocks : List ContentBlock)
      → (at_index (validate_from decode i blocks) ≡ first_bad i blocks)
        × (has (validate_from decode i blocks) ≡ has (first_bad i blocks))
  unfolding validate_from first_bad IsVerdict
  validate_from-first_bad i [] = (refl, refl)
  validate_from-first_bad i (b ∷ blocks) =
      ground (arith, validate_block-IsVerdict b i, validate_from-first_bad (suc i) blocks)

  -- ValidateBlocks refuses an empty list; otherwise it returns an error exactly if some block is not
  -- acceptable, and the error names the first such block by its index. Acceptable is a block with
  -- a type that is not blank which, if it is an image, has a source that decodes to base64 data
  -- of one of the four media types and of at most 15 MiB.
  pub validate_blocks-first_bad :
      (blocks : List ContentBlock)
      → (at_index (validate_blocks decode blocks) ≡ first_bad 0 blocks)
        × (has (validate_blocks decode blocks) ≡ (is_empty blocks || has (first_bad 0 blocks)))
  unfolding validate_blocks index_of first_bad
  validate_blocks-first_bad [] = (refl, refl)
  validate_blocks-first_bad (b ∷ blocks) = validate_from-first_bad 0 (b ∷ blocks)
